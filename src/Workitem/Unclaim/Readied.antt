-- ===== src/Workitem/Unclaim/Readied.antt =====
-- internal/workitem/unclaim.go, up to its move: no item's state has changed, and the place is the one that
-- the gates ask for.
use macguffin.Workitem.Done.Asked
use macguffin.Prelude.{
  ℕ, ◌≡◌, refl, sym, ap, ◌∙◌, subst, Bool, List, Option, none, some, Bytes, same, same_iff, any,
  Bool-cases, inl, inr, if◌then◌else◌,
}
use macguffin.Store.{
  Status, available, claimed, pending, State, Actor, Doc, Result, ok, same_status, same_status_iff,
}
use macguffin.Store.Backend.{Keeps}
use macguffin.Workitem.Item.{Item}
use macguffin.Workitem.Resolve.{Access, Match, Outcome, good, bad, resolve_unique}
use macguffin.Workitem.Identity.{Outcome-cases}
use macguffin.Workitem.Lifecycle.{holder_pid, read_match, explained, status_of}
use macguffin.Workitem.Explain.{explain_unclaim_failure}
use macguffin.Workitem.Moves.{IsReader}
use macguffin.Workitem.Modify.{Applied, refused_by, left_alone, rewritten, modify_item}
use macguffin.Workitem.Atomic
use macguffin.Workitem.Schedule.{done_id_set}
use macguffin.Workitem.Snooze.{gate_open}
use macguffin.Workitem.Guards.{require_remainder_discharged}
use macguffin.Workitem.Done.{plain_error}
use macguffin.Workitem.Done.Held
use macguffin.Workitem.Done.Kept
use macguffin.Workitem.Unclaim.{
  Release, check_assignee, set_assignee, hold_for, landed, place, assign, released, is_owed,
}
use macguffin.Workitem.Unclaim.Placed
use macguffin.Workitem.Unclaim.Placed.{Answer-cases}

applied_item : Item → Applied → Item
applied_item d (left_alone x) = x
applied_item d (rewritten x) = x
applied_item d (refused_by f) = d

-- the assignee of what the change of Unclaim makes
set_assignee-applied :
    (name : Bytes) (found d : Item) → (applied_item d (set_assignee name found)).assignee ≡ name
unfolding set_assignee applied_item
set_assignee-applied name found d = elim (Bool-cases (same found.assignee name)) [
  | inl y ↦ rw y ((same_iff found.assignee name).0 y)
  | inr y ↦ rw y refl
]

set_assignee-left :
    (name : Bytes) (found it : Item) → set_assignee name found ≡ left_alone it → it.assignee ≡ name
unfolding applied_item
set_assignee-left name found it h =
    ap (λ a. (applied_item found a).assignee) (sym h) ∙ set_assignee-applied name found found

set_assignee-rewritten :
    (name : Bytes) (found it : Item) → set_assignee name found ≡ rewritten it → it.assignee ≡ name
unfolding applied_item
set_assignee-rewritten name found it h =
    ap (λ a. (applied_item found a).assignee) (sym h) ∙ set_assignee-applied name found found

module _ {S : Type 0} (b : Access S) (digest : Bytes → Bytes) (derive : State → Actor → State)
    (IsId : Bytes → Type 0) (IsState : State → Type 0) (IsPartition : Bytes → Type 0)
    (k : Keeps b.backend digest derive IsId IsState IsPartition)
    (reads : IsReader b digest derive IsId IsState IsPartition k) (parse_time : Bytes → Option ℕ)
    (format_time : ℕ → Bytes) (others : ℕ → S → S)
    (holding : (n : ℕ) (s : S)
      → k.IsHealthy s
      → Held.Held b digest derive IsId IsState IsPartition k reads s (others n s))
    (vacant : (j : Bytes) → Asked.IsAsked b digest derive IsId IsState IsPartition k j) (now : ℕ)
    (who : Actor) (list : Status → S → Result (List Doc) × S)
    (listing_holds : (st : Status) (s : S)
      → k.IsHealthy s
      → Held.Held b digest derive IsId IsState IsPartition k reads s (list st s).1)
    (id_lister : Option (Status → S → Result (List Bytes) × S))
    (ids_hold : (ids : Status → S → Result (List Bytes) × S)
      → id_lister ≡ some ids
      → (st : Status) (s : S) → k.IsHealthy s
      → Held.Held b digest derive IsId IsState IsPartition k reads s (ids st s).1)
    (clock : ℕ) where
  abbrev pub Same : S → S → Type 0
  Same = Held.Held b digest derive IsId IsState IsPartition k reads

  -- What is to be released: the claim that the id named, its item, which carries the assignee that was
  -- given, and the place that its gates ask for, going by the done items that were read.
  pub record Readied (id : Bytes) (name : Option Bytes) (s : S) (r : Release) (t : S) : Type 0 where
    pub claim : Match
    pub named : (resolve_unique b id s).0 ≡ good claim
    pub takes : IsId claim.id
    pub is_claimed : claim.status ≡ claimed
    pub same_pid : r.pid ≡ holder_pid claim.holder
    pub same_id : r.match.id ≡ claim.id
    pub assigned : (x : Bytes) → name ≡ some x → r.item.assignee ≡ x
    pub asked : S
    pub done_ids : List Bytes
    pub was_read : (done_id_set list id_lister asked).0 ≡ ok done_ids
    pub undisturbed : Same s asked
    pub lands :
        r.landing
        ≡ (if gate_open (λ x. any (same x) done_ids) clock r.item then available else pending)
    pub still : Same s t

  abbrev pub ReleaseEnds : Bytes → Option Bytes → S → Outcome Release → S → Type 0
  ReleaseEnds id name s (bad f) t = Same s t
  ReleaseEnds id name s (good r) t = Readied id name s r t

  module _ (id : Bytes) (name : Option Bytes) (s : S) (claim : Match)
      (named : (resolve_unique b id s).0 ≡ good claim) (takes : IsId claim.id)
      (is_claimed : claim.status ≡ claimed) where
    abbrev pid : ℕ
    pid = holder_pid claim.holder

    landed-Ends :
        (m : Match) (it : Item) (owed : Bool) (done_ids : List Bytes) (asked t : S)
        → m.id ≡ claim.id
        → ((x : Bytes) → name ≡ some x → it.assignee ≡ x)
        → (done_id_set list id_lister asked).0 ≡ ok done_ids
        → Same s asked
        → Same s t
        → let out =
            landed b digest parse_time format_time others now who list id_lister clock pid m it owed
              done_ids t in
          ReleaseEnds id name s out.0 out.1
    unfolding landed
    landed-Ends m it owed done_ids asked t e w q a p =
        let out =
          landed b digest parse_time format_time others now who list id_lister clock pid m it owed
            done_ids t in
        let is_open = gate_open (λ x. any (same x) done_ids) clock it in
        let h = hold_for b digest parse_time format_time others now who list id_lister clock it t in
        let ph =
          Placed.Same-trans b digest derive IsId IsState IsPartition k reads parse_time format_time
            others holding vacant now who list listing_holds id_lister ids_hold clock s t h.1 p
            (Placed.hold_for-Same b digest derive IsId IsState IsPartition k reads parse_time
              format_time others holding vacant now who list listing_holds id_lister ids_hold clock
              it t p.0) in
        elim (Bool-cases is_open) [
          | inl y ↦
              let r : Release = record {
                pid = pid;
                match = m;
                item = it;
                owed = owed;
                landing = available;
                held = none;
              } in
              let v : out ≡ (good r, t) = rw y refl in
              subst (λ o. ReleaseEnds id name s o.0 o.1) (sym v)
                (record {
                  claim = claim;
                  named = named;
                  takes = takes;
                  is_claimed = is_claimed;
                  same_pid = refl;
                  same_id = e;
                  assigned = w;
                  asked = asked;
                  done_ids = done_ids;
                  was_read = q;
                  undisturbed = a;
                  lands = rw y refl;
                  still = p;
                })
          | inr y ↦ elim (Outcome-cases h.0) [
            | inr (f, n) ↦
                let v : out ≡ (bad plain_error, h.1) = rw (y, landed) (rw n refl) in
                subst (λ o. ReleaseEnds id name s o.0 o.1) (sym v) ph
            | inl (hold, n) ↦
                let r : Release = record {
                  pid = pid;
                  match = m;
                  item = it;
                  owed = owed;
                  landing = pending;
                  held = some hold;
                } in
                let v : out ≡ (good r, h.1) = rw (y, landed) (rw n refl) in
                subst (λ o. ReleaseEnds id name s o.0 o.1) (sym v)
                  (record {
                    claim = claim;
                    named = named;
                    takes = takes;
                    is_claimed = is_claimed;
                    same_pid = refl;
                    same_id = e;
                    assigned = w;
                    asked = asked;
                    done_ids = done_ids;
                    was_read = q;
                    undisturbed = a;
                    lands = rw y refl;
                    still = ph;
                  })
          ]
        ]

    pub place-Ends :
        (m : Match) (it : Item) (t : S)
        → m.id ≡ claim.id
        → ((x : Bytes) → name ≡ some x → it.assignee ≡ x)
        → Same s t
        → let out =
            place b digest parse_time format_time others now who list id_lister clock pid m it t in
          ReleaseEnds id name s out.0 out.1
    unfolding place
    place-Ends m it t e w p =
        let out =
          place b digest parse_time format_time others now who list id_lister clock pid m it t in
        let g = require_remainder_discharged b it t in
        let pg =
          Placed.Same-trans b digest derive IsId IsState IsPartition k reads parse_time format_time
            others holding vacant now who list listing_holds id_lister ids_hold clock s t g.1 p
            (Kept.require_remainder_discharged-Same b digest derive IsId IsState IsPartition k reads
              parse_time format_time others holding vacant now who it t p.0) in
        let d = done_id_set list id_lister g.1 in
        let pd =
          Placed.Same-trans b digest derive IsId IsState IsPartition k reads parse_time format_time
            others holding vacant now who list listing_holds id_lister ids_hold clock s g.1 d.1 pg
            (Placed.done_id_set-Same b digest derive IsId IsState IsPartition k reads parse_time
              format_time others holding vacant now who list listing_holds id_lister ids_hold clock
              g.1 pg.0) in
        elim (Answer-cases d.0) [
          | inr (x, n) ↦
              let v : out ≡ (bad plain_error, d.1) = rw (n, place) refl in
              subst (λ o. ReleaseEnds id name s o.0 o.1) (sym v) pd
          | inl (ids, n) ↦
              let l =
                landed b digest parse_time format_time others now who list id_lister clock pid m it
                  (is_owed g.0) ids d.1 in
              let v : out ≡ l = rw (n, place) refl in
              subst (λ o. ReleaseEnds id name s o.0 o.1) (sym v)
                (landed-Ends m it (is_owed g.0) ids g.1 d.1 e w n pg pd)
        ]

  abbrev harmless : (n : ℕ) (s : S) → k.IsHealthy s → k.IsHealthy (others n s)
  harmless n s h = (holding n s h).0

  -- what the write of the assignee answers
  written-assignee :
      (x id : Bytes) (s t : S) (it : Item) (m : Match)
      → Atomic.Ends b digest derive IsId IsState IsPartition k reads parse_time format_time
          (set_assignee x)
          others
          harmless
          id
          s
          (good (it, m))
          t
      → (m.id ≡ id) × (it.assignee ≡ x)
  written-assignee x id s t it m (inl (q, r)) = (r.named, set_assignee-left x r.found it r.applied)
  written-assignee x id s t it m (inr (u, q, w)) = (
    ap (λ y. y.id) w.kept ∙ w.made.named,
    set_assignee-rewritten x w.made.found it w.made.applied,
  )

  some-injective : (x y : Bytes) → some x ≡ some y → x ≡ y
  some-injective x y h = ap (λ o. elim o [ none ↦ x | some z ↦ z ]) h

  assign-Ends :
      (id : Bytes) (name : Option Bytes) (s : S) (claim : Match) (it : Item) (t : S)
      → (resolve_unique b id s).0 ≡ good claim
      → claim.status ≡ claimed
      → IsId claim.id
      → Same s t
      → let out =
          assign b digest parse_time format_time others now who list id_lister clock name claim it
            t in
        ReleaseEnds id name s out.0 out.1
  unfolding assign
  assign-Ends id none s claim it t n cl i p =
      place-Ends id none s claim n i cl claim it t refl (λ x q. absurd (cc)) p
  assign-Ends id (some x) s claim it t n cl i p =
      let out =
        assign b digest parse_time format_time others now who list id_lister clock (some x) claim it
          t in
      elim (Outcome-cases (check_assignee x)) [
        | inr (f, e) ↦
            let v : out ≡ (bad f, t) = rw (e, assign) refl in
            subst (λ o. ReleaseEnds id (some x) s o.0 o.1) (sym v) p
        | inl (u, e) ↦ elim (Bool-cases (same it.assignee x)) [
          | inl y ↦
              let v : out
                  ≡ place b digest parse_time format_time others now who list id_lister clock
                      (holder_pid claim.holder) claim it t =
                rw (e, assign) (rw y refl) in
              subst (λ o. ReleaseEnds id (some x) s o.0 o.1) (sym v)
                (place-Ends id (some x) s claim n i cl claim it t refl
                  (λ z q. (same_iff it.assignee x).0 y ∙ some-injective x z q) p)
          | inr y ↦
              let r =
                modify_item b digest parse_time format_time (set_assignee x) others now who
                  (some claimed) claim t in
              let ends =
                Atomic.modify_item-Ends b digest derive IsId IsState IsPartition k reads parse_time
                  format_time (set_assignee x) others harmless now who (some claimed) claim t i
                  (λ z. absurd (cc)) p.0 in
              let pr =
                Placed.Same-trans b digest derive IsId IsState IsPartition k reads parse_time
                  format_time others holding vacant now who list listing_holds id_lister ids_hold
                  clock s t r.1 p
                  (Held.Ending-Held b digest derive IsId IsState IsPartition k reads parse_time
                    format_time (set_assignee x) others holding claim.id t r.1 r.0 p.0 ends) in
              elim (Outcome-cases r.0) [
                | inr (f, d) ↦
                    let v : out ≡ (bad f, r.1) = rw (e, assign) (rw (y, d) refl) in
                    subst (λ o. ReleaseEnds id (some x) s o.0 o.1) (sym v) pr
                | inl (w, d) ↦
                    let v : out
                        ≡ place b digest parse_time format_time others now who list id_lister clock
                            (holder_pid claim.holder) w.1 w.0 r.1 =
                      rw (e, assign) (rw (y, d) refl) in
                    let facts = written-assignee x claim.id t r.1 w.0 w.1 (
                      subst
                        (λ o.
                          Atomic.Ends b digest derive IsId IsState IsPartition k reads parse_time
                            format_time (set_assignee x) others harmless claim.id t o r.1)
                        d ends) in
                    subst (λ o. ReleaseEnds id (some x) s o.0 o.1) (sym v)
                      (place-Ends id (some x) s claim n i cl w.1 w.0 r.1 facts.0
                        (λ z q. facts.1 ∙ some-injective x z q) pr)
              ]
        ]
      ]

  pub released-Ends :
      (id : Bytes) (name : Option Bytes) (s : S)
      → k.IsHealthy s
      → let out =
          released b digest parse_time format_time others now who list id_lister clock id name s in
        ReleaseEnds id name s out.0 out.1
  unfolding released status_of
  released-Ends id name s h =
      let out =
        released b digest parse_time format_time others now who list id_lister clock id name s in
      let r = resolve_unique b id s in
      let p =
        Kept.resolve_unique-Same b digest derive IsId IsState IsPartition k reads parse_time
          format_time others holding vacant now who id s h in
      elim (Outcome-cases r.0) [
        | inr (f, e) ↦
            let v : out ≡ (bad f, r.1) = rw (e, released) refl in
            subst (λ o. ReleaseEnds id name s o.0 o.1) (sym v) p
        | inl (m, e) ↦ elim (Bool-cases (same_status m.status claimed)) [
          | inr y ↦
              let x = explained b {A = Release} explain_unclaim_failure id r.1 in
              let v : out ≡ x = rw (e, released) (rw y refl) in
              subst (λ o. ReleaseEnds id name s o.0 o.1) (sym v)
                (Placed.Same-trans b digest derive IsId IsState IsPartition k reads parse_time
                  format_time others holding vacant now who list listing_holds id_lister ids_hold
                  clock s r.1 x.1 p
                  (Kept.resolve_unique-Same b digest derive IsId IsState IsPartition k reads
                    parse_time format_time others holding vacant now who id r.1 p.0))
          | inl y ↦ elim (Outcome-cases (read_match b parse_time m)) [
            | inr (f, d) ↦
                let v : out ≡ (bad f, r.1) = rw (e, released) (rw (y, d) refl) in
                subst (λ o. ReleaseEnds id name s o.0 o.1) (sym v) p
            | inl (it, d) ↦
                let v : out
                    ≡ assign b digest parse_time format_time others now who list id_lister clock
                        name m it r.1 =
                  rw (e, released) (rw (y, d) refl) in
                subst (λ o. ReleaseEnds id name s o.0 o.1) (sym v)
                  (assign-Ends id name s m it r.1 e ((same_status_iff m.status claimed).0 y)
                    (Asked.resolve_unique-IsId b digest derive IsId IsState IsPartition k reads
                      vacant id s m h e)
                    p)
          ]
        ]
      ]
