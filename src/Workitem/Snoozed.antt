-- ===== src/Workitem/Snoozed.antt =====
-- internal/workitem/snooze.go, SnoozeItem: what a snooze that was answered has stored.
use macguffin.Prelude.{
  ℕ, ◌≡◌, refl, sym, ap, ◌∙◌, arith, subst, true, false, Option, some, Bytes, same_refl,
  if◌then◌else◌, Bool-cases, inl, inr, ◌⊎◌,
}
use macguffin.Store.{Status, pending, State, in_status, same_status, Actor, Err, Result, ok, err}
use macguffin.Store.Steps.{transition-ok}
use macguffin.Store.Spec
use macguffin.Store.Spec.{View, Entry, update, is_archived}
use macguffin.Store.Backend.{Keeps}
use macguffin.Workitem.Item.{Item, render}
use macguffin.Workitem.Resolve.{
  Access, Match, Outcome, good, bad, resolve_unique, qualifier, match_state,
}
use macguffin.Workitem.Lifecycle.{is_lost, io_error, writer}
use macguffin.Workitem.Identity.{Outcome-cases, Result-cases, match-HasId}
use macguffin.Workitem.Modify.{rewritten, modify_item}
use macguffin.Workitem.Moves.{IsReader, resolve_unique-Agrees}
use macguffin.Workitem.Atomic
use macguffin.Workitem.Snooze.{
  set_snooze, snoozable, snoozed, snooze_raced, file_pending, then_file, snooze_match, snooze_item,
}

pending_only : (st : Status) → same_status st pending ≡ true → st ≡ pending
unfolding same_status
pending_only st h = ground arith

module _ {S : Type 0} (b : Access S) (digest : Bytes → Bytes) (derive : State → Actor → State)
    (IsId : Bytes → Type 0) (IsState : State → Type 0) (IsPartition : Bytes → Type 0)
    (k : Keeps b.backend digest derive IsId IsState IsPartition)
    (reads : IsReader b digest derive IsId IsState IsPartition k) (parse_time : Bytes → Option ℕ)
    (format_time : ℕ → Bytes) (others : ℕ → S → S)
    (harmless : (n : ℕ) (s : S) → k.IsHealthy s → k.IsHealthy (others n s))
    (pending_held : IsState (in_status pending)) (now : ℕ) (who : Actor) where
  -- The item is stored under the id with its new gate, and if it was not pending before, it is now.
  abbrev pub Filed : Bytes → ℕ → Outcome (Item × Status) → S → Type 0
  Filed id until (bad f) t = Unit
  Filed id until (good (it, st)) t =
      (it.snooze ≡ until)
      × (it.snooze_raw ≡ format_time until)
      × ((e : Entry) × (k.view t id ≡ some e)
          × (e.content ≡ render format_time it)
          × ((st ≡ pending) ⊎ (e.state ≡ derive (in_status pending) (writer who 0))))

  abbrev Holds : Bytes → ℕ → Outcome (Item × Match) → S → Type 0
  Holds id until (bad f) t = Unit
  Holds id until (good (it, m)) t =
      (m.id ≡ id)
      × (it.snooze ≡ until)
      × (it.snooze_raw ≡ format_time until)
      × k.IsHealthy t
      × ((e : Entry) × (k.view t id ≡ some e) × (e.content ≡ render format_time it))

  abbrev Ending : Bytes → S → ℕ → Outcome (Item × Match) → S → Type 0
  Ending id s until o t =
      Atomic.Ends b digest derive IsId IsState IsPartition k reads parse_time format_time
        (snoozed b digest parse_time format_time others now who until) others harmless id s o t

  set-snoozed :
      (until : ℕ) (x it : Item)
      → rewritten (set_snooze format_time until x) ≡ rewritten it
      → set_snooze format_time until x ≡ it
  set-snoozed until x it e = cc

  Ending-Holds :
      (id : Bytes) (s t : S) (until : ℕ) (o : Outcome (Item × Match))
      → IsId id
      → Ending id s until o t
      → Holds id until o t
  unfolding set_snooze
  Ending-Holds id s t until (bad f) i h = tt
  Ending-Holds id s t until (good (it, m)) i (inl (q, r)) = absurd (cc (r.applied))
  Ending-Holds id s t until (good (it, m)) i (inr (u, q, w)) =
      let e = set-snoozed until w.made.found it w.made.applied in
      (
        ap (λ x. x.id) w.kept ∙ w.made.named,
        sym (ap (λ x. x.snooze) e),
        sym (ap (λ x. x.snooze_raw) e),
        w.after.0,
        (
          record w.before { content = render format_time it },
          w.after.1 id i ∙ ground (arith, same_refl id),
          refl,
        ),
      )

  abbrev filing : Match → S → Result (Unit {0}) × S
  filing m s = b.backend.transition now m.id (match_state m) (in_status pending) (writer who 0) s

  file_pending-moves :
      (st : Status) (it : Item) (m : Match) (s : S)
      → same_status st pending ≡ false
      → (filing m s).0 ≡ ok tt
      → file_pending b digest parse_time format_time others now who st (it, m) s
        ≡ (good (it, st), (filing m s).1)
  unfolding file_pending
  file_pending-moves st it m s h e = ground (arith, h, e)

  file_pending-fails :
      (st : Status) (it : Item) (m : Match) (s : S) (x : Err)
      → same_status st pending ≡ false
      → (filing m s).0 ≡ err x
      → file_pending b digest parse_time format_time others now who st (it, m) s
        ≡ (bad (if is_lost x then snooze_raced else io_error), (filing m s).1)
  unfolding file_pending
  file_pending-fails st it m s x h e = ground (arith, h, e)

  abbrev filed_in : Status → Outcome (Item × Match) → S → Outcome (Item × Status) × S
  filed_in = then_file b digest parse_time format_time others now who

  then_file-Filed :
      (id : Bytes) (until : ℕ) (st : Status) (o : Outcome (Item × Match)) (s : S)
      → IsId id
      → Holds id until o s
      → Filed id until (filed_in st o s).0 (filed_in st o s).1
  unfolding then_file file_pending
  then_file-Filed id until st (bad f) s i h = tt
  then_file-Filed id until st (good (it, m)) s i (n, g, r, ok_now, (e, v, c)) =
      elim (Bool-cases (same_status st pending)) [
        | inl p ↦ rw (p, file_pending) (g, r, (e, v, c, inl (pending_only st p)))
        | inr p ↦ elim (Result-cases (filing m s).0) [
          | inr (x, q) ↦
              subst (λ out. Filed id until out.0 out.1) (sym (file_pending-fails st it m s x p q))
                tt
          | inl q ↦
              let f =
                k.transition_law now m.id (match_state m) (in_status pending) (writer who 0) s
                  (subst IsId (sym n) i) pending_held ok_now in
              let moved =
                transition-ok derive m.id (match_state m) (in_status pending) (writer who 0)
                  (k.view s) e (ap (k.view s) n ∙ v) (sym f.answer ∙ q) in
              subst (λ out. Filed id until out.0 out.1) (sym (file_pending-moves st it m s p q))
                (
                  g,
                  r,
                  (
                    record e { state = derive (in_status pending) (writer who 0) },
                    f.viewed id i
                        ∙ subst
                            (λ y.
                              (Spec.transition derive m.id (match_state m) (in_status pending)
                                  (writer who 0) (k.view s)).1
                                y
                              ≡ some
                                  (record e { state = derive (in_status pending) (writer who 0) }))
                            n moved,
                    c,
                    inr refl,
                  ),
                )
        ]
      ]

  abbrev run : ℕ → Match → S → Outcome (Item × Match) × S
  run until m s =
      modify_item b digest parse_time format_time
        (snoozed b digest parse_time format_time others now who until) others now who
        (some m.status) m s

  snooze_match-Filed :
      (until : ℕ) (m : Match) (id : Bytes) (s : S)
      → IsId id
      → m.id ≡ id
      → k.IsHealthy s
      → let out = snooze_match b digest parse_time format_time others now who until m s in
        Filed id until out.0 out.1
  unfolding snooze_match
  snooze_match-Filed until m id s i e h = elim (Bool-cases (snoozable m.status)) [
    | inr n ↦ rw n tt
    | inl y ↦
        let r = run until m s in
        rw y (
          then_file-Filed id until m.status r.0 r.1 i (
            Ending-Holds id s r.1 until r.0 i (
              subst (λ x. Ending x s until r.0 r.1) e
                (Atomic.modify_item-Ends b digest derive IsId IsState IsPartition k reads parse_time
                  format_time (snoozed b digest parse_time format_time others now who until) others
                  harmless now who (some m.status) m s (subst IsId (sym e) i) (λ x. absurd (cc))
                  h))))
  ]

  -- A snooze that is answered with an item and its former status has stored the item, with the new time as its
  -- gate, under the bare id, and it is pending now unless it was so before; other processes may do
  -- anything harmless while the item is written. The backend keeps the contract, its GetAll
  -- changes nothing, and it accepts pending items and the bare id.
  pub snooze_item-Filed :
      (id : Bytes) (until : ℕ) (s : S)
      → IsId (qualifier id).0
      → k.IsHealthy s
      → let out = snooze_item b digest parse_time format_time others now who id until s in
        Filed (qualifier id).0 until out.0 out.1
  unfolding snooze_item
  snooze_item-Filed id until s i h =
      let seen = resolve_unique-Agrees b digest derive IsId IsState IsPartition k reads id s i h in
      elim (Outcome-cases (resolve_unique b id s).0) [
        | inr (f, e) ↦ rw (e, snooze_item) tt
        | inl (m, e) ↦
            rw (e, snooze_item)
              (snooze_match-Filed until m (qualifier id).0 (resolve_unique b id s).1 i
                (match-HasId b id s m e) seen.0)
      ]
