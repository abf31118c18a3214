-- ===== src/Workitem/Archive/Filed.antt =====
-- internal/workitem/archive.go, ArchiveItem: it answers an error and changes no item's state, or it archives
-- a done item that passed the guards, or that was forced past them.
use macguffin.Workitem.Done.Asked
use macguffin.Prelude.{
  ℕ, ◌≡◌, refl, sym, ap, ◌∙◌, subst, Bool, true, Option, some, Bytes, Bool-cases, inl, inr, ◌⊎◌,
}
use macguffin.Store.{done, archived, State, Actor, Ref, ok}
use macguffin.Store.Backend.{Keeps}
use macguffin.Workitem.Item.{Item}
use macguffin.Workitem.Resolve.{Access, Outcome, good, bad, Failure}
use macguffin.Workitem.Identity.{Outcome-cases, Result-cases}
use macguffin.Workitem.Moves.{IsReader}
use macguffin.Workitem.Guards.{check_archive_guards}
use macguffin.Workitem.Done.Held
use macguffin.Workitem.Done.Kept
use macguffin.Workitem.Archive.{Bodies, move_body_backups}
use macguffin.Store.Spec
use macguffin.Store.Steps.{archive-err}
use macguffin.Store.{same_status, same_status_iff}
use macguffin.Workitem.Resolve.{Match, resolve, resolve_unique}
use macguffin.Workitem.Identity.{Names, rematch-Names}
use macguffin.Workitem.Lifecycle.{writer, read_match, explained, status_of, io_error}
use macguffin.Workitem.Explain.{explain_archive_failure}
use macguffin.Workitem.Modify.{match_now, rematch}
use macguffin.Workitem.Done.{link, ref_of_match}
use macguffin.Workitem.Archive.{
  archive_error, carry_bodies, archive_file, archive_guarded, archive_linked, archive_item,
}
use macguffin.Workitem.Archive.Guarded

module _ {S : Type 0} (b : Access S) (digest : Bytes → Bytes) (derive : State → Actor → State)
    (IsId : Bytes → Type 0) (IsState : State → Type 0) (IsPartition : Bytes → Type 0)
    (k : Keeps b.backend digest derive IsId IsState IsPartition)
    (reads : IsReader b digest derive IsId IsState IsPartition k) (parse_time : Bytes → Option ℕ)
    (format_time : ℕ → Bytes) (others : ℕ → S → S)
    (holding : (n : ℕ) (s : S)
      → k.IsHealthy s
      → Held.Held b digest derive IsId IsState IsPartition k reads s (others n s))
    (vacant : (j : Bytes) → Asked.IsAsked b digest derive IsId IsState IsPartition k j) (now : ℕ)
    (who : Actor) (c : Bodies S)
    (naming_holds : (ref : Ref) (s : S)
      → k.IsHealthy s
      → Held.Held b digest derive IsId IsState IsPartition k reads s (c.names ref s).1)
    (removing_holds : (ref : Ref) (n : Bytes) (s : S)
      → k.IsHealthy s
      → Held.Held b digest derive IsId IsState IsPartition k reads s (c.remove ref n s).1)
    (moving_holds : (from to : Ref) (s : S)
      → k.IsHealthy s
      → Held.Held b digest derive IsId IsState IsPartition k reads s (c.move from to s).1)
    (partition_of : ℕ → Bytes) (partition_held : (n : ℕ) → IsPartition (partition_of n)) where
  abbrev Same : S → S → Type 0
  Same = Held.Held b digest derive IsId IsState IsPartition k reads

  Same-trans : (s t u : S) → Same s t → Same t u → Same s u
  Same-trans = Held.Held-trans b digest derive IsId IsState IsPartition k reads

  -- The record of a done item that the id names, whose item was linked and passed the guards, or was
  -- forced past them.
  pub record Archivable (force : Bool) (successor id : Bytes) (s : S) (m : Match) (it : Item)
      (t : S) : Type 0 where
    pub named : (resolve_unique b id s).0 ≡ good m
    pub takes : IsId m.id
    pub is_done : m.status ≡ done
    pub found : Item
    pub was_read : read_match b parse_time m ≡ good found
    pub before : S
    pub after : S
    pub links :
        link b digest parse_time format_time others now who m found successor before
        ≡ (good it, after)
    pub untouched : Same s before
    pub passed : (force ≡ true) ⊎ ((check_archive_guards b it after).0 ≡ good tt)
    pub still : Same s t

  -- The record was archived by a move that the contract allows, and nothing else has changed.
  pub record Filed (m : Match) (t u : S) : Type 0 where
    pub healthy : k.IsHealthy u
    pub allowed : (Spec.archive m.id (partition_of m.doc.mtime) (k.view t)).0 ≡ ok tt
    pub viewed :
        (j : Bytes)
        → IsId j
        → k.view u j ≡ (Spec.archive m.id (partition_of m.doc.mtime) (k.view t)).1 j

  -- An error, with every item in its state; or the move, after which no state changes.
  abbrev pub ArchiveEnds : Bool → Bytes → Bytes → S → Outcome Item × S → Type 0
  ArchiveEnds force successor id s out =
      ((f : Failure) × (out.0 ≡ bad f) × Same s out.1)
      ⊎ ((m : Match) × (it : Item) × (current : Match) × (t : S) × (u : S) × Archivable force
            successor id s m it t
          × (current.id ≡ m.id)
          × Filed current t u
          × Same u out.1
          × ((out.0 ≡ good it) ⊎ (out.0 ≡ bad io_error)))

  carry_bodies-Ends :
      (m : Match) (partition : Bytes) (it : Item) (s : S)
      → k.IsHealthy s
      → let out =
          carry_bodies b digest parse_time format_time others now who c partition_of m partition it
            s in
        Same s out.1 × ((out.0 ≡ good it) ⊎ (out.0 ≡ bad io_error))
  unfolding carry_bodies
  carry_bodies-Ends m partition it s h =
      let to : Ref = record { id = m.id; status = archived; partition = partition } in
      let r = move_body_backups c (ref_of_match m) to s in
      let p =
        Guarded.move_body_backups-Same b digest derive IsId IsState IsPartition k reads parse_time
          format_time others holding vacant now who c naming_holds removing_holds moving_holds
          (ref_of_match m) to s h in
      elim (Result-cases r.0) [
        | inl q ↦ rw (q, carry_bodies) (p, inl refl)
        | inr (e, q) ↦ rw (q, carry_bodies) (p, inr refl)
      ]

  archive_file-Ends :
      (force : Bool) (successor id : Bytes) (s : S) (m current : Match) (it : Item) (t : S)
      → Archivable force successor id s m it t
      → current.id ≡ m.id
      → ArchiveEnds force successor id s
          (archive_file b digest parse_time format_time others now who c partition_of current it t)
  unfolding archive_file
  archive_file-Ends force successor id s m current it t q e =
      let out =
        archive_file b digest parse_time format_time others now who c partition_of current it t in
      let partition = partition_of current.doc.mtime in
      let w = b.backend.archive current.id partition (writer who 0) t in
      let f =
        k.archive_law current.id partition (writer who 0) t (subst IsId (sym e) q.takes)
          (partition_held current.doc.mtime) q.still.0 in
      elim (Result-cases w.0) [
        | inr (x, o) ↦
            let v : out ≡ (bad (archive_error x), w.1) = rw (o, archive_file) refl in
            let same_view = archive-err current.id partition (k.view t) x (sym f.answer ∙ o) in
            subst (ArchiveEnds force successor id s) (sym v) (
              inl (
                archive_error x,
                refl,
                Same-trans s t w.1 q.still
                    (f.healthy, λ j i. ap Held.state_at (f.viewed j i ∙ ap (λ y. y j) same_view)),
              ))
        | inl o ↦
            let v : out
                ≡ carry_bodies b digest parse_time format_time others now who c partition_of current
                    partition it w.1 =
              rw (o, archive_file) refl in
            let p = carry_bodies-Ends current partition it w.1 f.healthy in
            subst (ArchiveEnds force successor id s) (sym v) (
              inr (
                m,
                it,
                current,
                t,
                w.1,
                q,
                e,
                record { healthy = f.healthy; allowed = sym f.answer ∙ o; viewed = f.viewed },
                p.0,
                p.1,
              ))
      ]

  Archivable-later :
      (force : Bool) (successor id : Bytes) (s : S) (m : Match) (it : Item) (t u : S)
      → Archivable force successor id s m it t
      → Same t u
      → Archivable force successor id s m it u
  Archivable-later force successor id s m it t u q p = record {
    named = q.named;
    takes = q.takes;
    is_done = q.is_done;
    found = q.found;
    was_read = q.was_read;
    before = q.before;
    after = q.after;
    links = q.links;
    untouched = q.untouched;
    passed = q.passed;
    still = Same-trans s t u q.still p;
  }

  explained-Ends :
      (force : Bool) (successor id : Bytes) (s t : S)
      → Same s t
      → ArchiveEnds force successor id s (explained b {A = Item} explain_archive_failure id t)
  unfolding status_of
  explained-Ends force successor id s t p = inl (
    explain_archive_failure (status_of b id t).0,
    refl,
    Same-trans s t (resolve_unique b id t).1 p (
        Kept.resolve_unique-Same b digest derive IsId IsState IsPartition k reads parse_time
          format_time others holding vacant now who id t p.0),
  )

  archive_guarded-Ends :
      (force : Bool) (successor id : Bytes) (s : S) (m : Match) (it : Item) (t : S)
      → Archivable force successor id s m it t
      → ArchiveEnds force successor id s
          (archive_guarded b digest parse_time format_time others now who c partition_of id m it t)
  unfolding archive_guarded rematch
  archive_guarded-Ends force successor id s m it t q =
      let out =
        archive_guarded b digest parse_time format_time others now who c partition_of id m it t in
      let r = resolve b m.id t in
      let p =
        Kept.resolve-Same b digest derive IsId IsState IsPartition k reads parse_time format_time
          others holding vacant now who m.id t q.still.0 in
      let names = rematch-Names b m.id (some done) t (λ x. absurd (cc)) in
      elim (Outcome-cases (match_now done r.0)) [
        | inr (f, e) ↦
            let v : out ≡ explained b {A = Item} explain_archive_failure id r.1 =
              rw (e, archive_guarded) refl in
            subst (ArchiveEnds force successor id s) (sym v)
              (explained-Ends force successor id s r.1 (Same-trans s t r.1 q.still p))
        | inl (m', e) ↦
            let v : out
                ≡ archive_file b digest parse_time format_time others now who c partition_of m' it
                    r.1 =
              rw (e, archive_guarded) refl in
            subst (ArchiveEnds force successor id s) (sym v) (
              archive_file-Ends force successor id s m m' it r.1
                (Archivable-later force successor id s m it t r.1 q p) (subst (Names m.id) e names))
      ]

  archive_linked-Ends :
      (force : Bool) (successor id : Bytes) (s : S) (m : Match) (found : Item) (w : S)
      → (resolve_unique b id s).0 ≡ good m
      → m.status ≡ done
      → read_match b parse_time m ≡ good found
      → IsId m.id
      → Same s w
      → ArchiveEnds force successor id s (
          archive_linked b digest parse_time format_time others now who c partition_of force id m
            (link b digest parse_time format_time others now who m found successor w))
  unfolding archive_linked
  archive_linked-Ends force successor id s m found w n dn rd i a =
      let l = link b digest parse_time format_time others now who m found successor w in
      let al = Same-trans s w l.1 a (
        Kept.link-Same b digest derive IsId IsState IsPartition k reads parse_time format_time
          others holding vacant now who m found successor w i a.0) in
      elim (Outcome-cases l.0) [
        | inr (f, e) ↦
            let v : archive_linked b digest parse_time format_time others now who c partition_of
                  force id m l
                ≡ (bad f, l.1) =
              rw (e, archive_linked) refl in
            subst (ArchiveEnds force successor id s) (sym v) (inl (f, refl, al))
        | inl (it, e) ↦
            let g = check_archive_guards b it l.1 in
            let ag = Same-trans s l.1 g.1 al (
              Guarded.check_archive_guards-Same b digest derive IsId IsState IsPartition k reads
                parse_time format_time others holding vacant now who it l.1 al.0) in
            let cleared : ((force ≡ true) ⊎ (g.0 ≡ good tt))
                → Archivable force successor id s m it g.1 =
              λ ok_to_go. record {
                named = n;
                takes = i;
                is_done = dn;
                found = found;
                was_read = rd;
                before = w;
                after = l.1;
                links = ap (λ y. (y, l.1)) e;
                untouched = a;
                passed = ok_to_go;
                still = ag;
              } in
            let rest =
              archive_guarded b digest parse_time format_time others now who c partition_of id m it
                g.1 in
            elim (Outcome-cases g.0) [
              | inl (x, d) ↦
                  let v : archive_linked b digest parse_time format_time others now who c
                        partition_of force id m l
                      ≡ rest =
                    rw (e, archive_linked) (rw d refl) in
                  subst (ArchiveEnds force successor id s) (sym v)
                    (archive_guarded-Ends force successor id s m it g.1 (cleared (inr d)))
              | inr (f, d) ↦ elim (Bool-cases force) [
                | inl y ↦
                    let v : archive_linked b digest parse_time format_time others now who c
                          partition_of force id m l
                        ≡ rest =
                      rw (e, archive_linked) (rw (d, y) refl) in
                    subst (ArchiveEnds force successor id s) (sym v)
                      (archive_guarded-Ends force successor id s m it g.1 (cleared (inl y)))
                | inr y ↦
                    let v : archive_linked b digest parse_time format_time others now who c
                          partition_of force id m l
                        ≡ (bad f, g.1) =
                      rw (e, archive_linked) (rw (d, y) refl) in
                    subst (ArchiveEnds force successor id s) (sym v) (inl (f, refl, ag))
              ]
            ]
      ]

  -- On a backend that keeps the contract, whose GetAll changes nothing, and which takes any month
  -- as a partition and has no record under a text that it does not take as an id, while other
  -- processes and the companions leave every item in its state, so that none but this operation
  -- moves an item: archiving an item either answers an error and leaves every item in its state;
  -- or the id named a done item, which passed the guards of archiving once it was linked, or was
  -- forced past them, it is archived by a move that the contract allows, and nothing after the
  -- move changes a state, even if its saved bodies cannot be moved.
  pub archive_item-Ends :
      (force : Bool) (successor id : Bytes) (s : S)
      → k.IsHealthy s
      → ArchiveEnds force successor id s (
          archive_item b digest parse_time format_time others now who c partition_of force successor
            id s)
  unfolding archive_item
  archive_item-Ends force successor id s h =
      let out =
        archive_item b digest parse_time format_time others now who c partition_of force successor
          id s in
      let r = resolve_unique b id s in
      let p =
        Kept.resolve_unique-Same b digest derive IsId IsState IsPartition k reads parse_time
          format_time others holding vacant now who id s h in
      elim (Outcome-cases r.0) [
        | inr (f, e) ↦
            let v : out ≡ (bad f, r.1) = rw (e, archive_item) refl in
            subst (ArchiveEnds force successor id s) (sym v) (inl (f, refl, p))
        | inl (m, e) ↦ elim (Bool-cases (same_status m.status done)) [
          | inr y ↦
              let v : out ≡ explained b {A = Item} explain_archive_failure id r.1 =
                rw (e, archive_item) (rw y refl) in
              subst (ArchiveEnds force successor id s) (sym v)
                (explained-Ends force successor id s r.1 p)
          | inl y ↦ elim (Outcome-cases (read_match b parse_time m)) [
            | inr (f, d) ↦
                let v : out ≡ (bad f, r.1) = rw (e, archive_item) (rw (y, d) refl) in
                subst (ArchiveEnds force successor id s) (sym v) (inl (f, refl, p))
            | inl (it, d) ↦
                let x =
                  archive_linked b digest parse_time format_time others now who c partition_of force
                    id m (link b digest parse_time format_time others now who m it successor r.1) in
                let v : out ≡ x = rw (e, archive_item) (rw (y, d) refl) in
                subst (ArchiveEnds force successor id s) (sym v) (
                  archive_linked-Ends force successor id s m it r.1 e
                    ((same_status_iff m.status done).0 y) d
                    (Asked.resolve_unique-IsId b digest derive IsId IsState IsPartition k reads
                      vacant id s m h e)
                    p)
          ]
        ]
      ]
