-- ===== src/Workitem/Promoted.antt =====
-- internal/workitem/schedule.go, Schedule: it moves only items whose gate is open.
use macguffin.Prelude.{
  ℕ, ◌≡◌, ◌≢◌, refl, sym, ◌∙◌, arith, subst, Bool, true, false, List, [], ◌∷◌, Option, some, Bytes,
  All, Bool-cases, inl, inr,
}
use macguffin.Store.{Status, available, State, in_status, Actor, Doc, Result, ok, err}
use macguffin.Store.Steps.{transition-other, update-other}
use macguffin.Store.Backend.{Keeps}
use macguffin.Workitem.Item.{Item, render}
use macguffin.Workitem.Resolve.{
  Access, Match, Outcome, good, bad, Failure, resolve, match_of, match_state,
}
use macguffin.Workitem.Lifecycle.{writer, read_match}
use macguffin.Workitem.Identity.{Outcome-cases, Names, rematch-Names}
use macguffin.Workitem.Modify.{modify_item, match_now, rematch}
use macguffin.Workitem.Moves.{IsReader, resolve-Agrees}
use macguffin.Workitem.Atomic
use macguffin.Workitem.Snooze.{gate_open}
use macguffin.Workitem.Schedule.{
  woken, clear_match, clear_spent_snooze, promoted, promote, add_promoted, promote_all,
}

module _ {S : Type 0} (b : Access S) (digest : Bytes → Bytes) (derive : State → Actor → State)
    (IsId : Bytes → Type 0) (IsState : State → Type 0) (IsPartition : Bytes → Type 0)
    (k : Keeps b.backend digest derive IsId IsState IsPartition)
    (reads : IsReader b digest derive IsId IsState IsPartition k) (parse_time : Bytes → Option ℕ)
    (format_time : ℕ → Bytes) (others : ℕ → S → S)
    (harmless : (n : ℕ) (s : S) → k.IsHealthy s → k.IsHealthy (others n s))
    (available_held : IsState (in_status available)) (now : ℕ) (who : Actor) (j : Bytes)
    (j_held : IsId j)
    (away : (n : ℕ) (s : S) → k.IsHealthy s → k.view (others n s) j ≡ k.view s j) where
  -- healthy, and the same under j
  abbrev pub Spared : S → S → Type 0
  Spared s t = k.IsHealthy t × (k.view t j ≡ k.view s j)

  pub Spared-trans : (s t u : S) → Spared s t → Spared t u → Spared s u
  Spared-trans s t u h q = (q.0, q.1 ∙ h.1)

  abbrev Calm : S → S → Type 0
  Calm s t =
      Atomic.Quiet b digest derive IsId IsState IsPartition k reads parse_time format_time woken
        others harmless s t

  Calm-Spared : {s t : S} → k.IsHealthy s → Calm s t → Spared s t
  Calm-Spared h Atomic.Quiet.still = (h, refl)
  Calm-Spared h (Atomic.Quiet.looked q a) = (a.0, a.1 j j_held ∙ (Calm-Spared h q).1)
  Calm-Spared h (Atomic.Quiet.acted {t} n q) =
      let r = Calm-Spared h q in (harmless n t r.0, away n t r.0 ∙ r.1)

  abbrev Ending : Bytes → S → Outcome (Item × Match) → S → Type 0
  Ending id s o t =
      Atomic.Ends b digest derive IsId IsState IsPartition k reads parse_time format_time woken
        others harmless id s o t

  Ending-Spared :
      (id : Bytes) (s t : S) (o : Outcome (Item × Match))
      → id ≢ j
      → k.IsHealthy s
      → Ending id s o t
      → Spared s t
  Ending-Spared id s t (bad f) n h q = Calm-Spared h q
  Ending-Spared id s t (good (it, m)) n h (inl (q, r)) = Calm-Spared h q
  Ending-Spared id s t (good (it, m)) n h (inr (u, q, w)) = (
    w.after.0,
    w.after.1 j j_held
        ∙ update-other id (record w.before { content = render format_time it }) (k.view u) j n
        ∙ (Calm-Spared h q).1,
  )

  clear_match-Spared :
      (st : Status) (o : Outcome Match) (id : Bytes) (s : S)
      → IsId id
      → id ≢ j
      → k.IsHealthy s
      → Names id o
      → Spared s (clear_match b digest parse_time format_time others now who st o s).1
  unfolding clear_match
  clear_match-Spared st (bad f) id s i n h e = (h, refl)
  clear_match-Spared st (good m) id s i n h e =
      let r = modify_item b digest parse_time format_time woken others now who (some st) m s in
      Ending-Spared m.id s r.1 r.0 (subst (λ x. x ≢ j) (sym e) n) h (
        Atomic.modify_item-Ends b digest derive IsId IsState IsPartition k reads parse_time
          format_time woken others harmless now who (some st) m s (subst IsId (sym e) i)
          (λ x. absurd (cc)) h)

  clear_spent_snooze-Spared :
      (id : Bytes) (st : Status) (s : S)
      → IsId id
      → id ≢ j
      → k.IsHealthy s
      → Spared s (clear_spent_snooze b digest parse_time format_time others now who id st s).1
  unfolding clear_spent_snooze rematch
  clear_spent_snooze-Spared id st s i n h =
      let r = resolve b id s in
      let a = resolve-Agrees b digest derive IsId IsState IsPartition k reads id s i h in
      let m = match_now st r.0 in
      Spared-trans s r.1 (clear_match b digest parse_time format_time others now who st m r.1).1
        (a.0, a.1 j j_held)
        (clear_match-Spared st m id r.1 i n a.0 (rematch-Names b id (some st) s (λ x. absurd (cc))))

  promoted-Spared :
      (id : Bytes) (r : Result (Unit {0})) (s : S)
      → IsId id
      → id ≢ j
      → k.IsHealthy s
      → Spared s (promoted b digest parse_time format_time others now who id (r, s)).1
  unfolding promoted
  promoted-Spared id (ok x) s i n h = clear_spent_snooze-Spared id available s i n h
  promoted-Spared id (err e) s i n h = (h, refl)

  -- The record is not j's: neither its id nor the one in its text is j.
  abbrev pub Passes : Match → Item → Type 0
  Passes m it = (IsId m.id × (m.id ≢ j)) × (IsId it.id × (it.id ≢ j))

  promote-Spared :
      (m : Match) (it : Item) (s : S)
      → Passes m it
      → k.IsHealthy s
      → Spared s (promote b digest parse_time format_time others now who m it s).1
  unfolding promote
  promote-Spared m it s p h =
      let by = writer who 0 in
      let t = b.backend.transition now m.id (match_state m) (in_status available) by s in
      let f =
        k.transition_law now m.id (match_state m) (in_status available) by s p.0.0 available_held
          h in
      Spared-trans s t.1 (promoted b digest parse_time format_time others now who it.id t).1
        (
          f.healthy,
          f.viewed j j_held
              ∙ transition-other derive m.id (match_state m) (in_status available) by (k.view s) j
                  p.0.1,
        )
        (promoted-Spared it.id t.0 t.1 p.1.0 p.1.1 f.healthy)

  module _ (done_ids : Bytes → Bool) (clock : ℕ) where
    abbrev pub IsOpen : Item → Type 0
    IsOpen it = gate_open done_ids clock it ≡ true

    -- every item that was promoted had an open gate
    abbrev pub Opened : Outcome (List Item) → Type 0
    Opened (bad f) = Unit
    Opened (good its) = All IsOpen its

    -- a record that is read as an item with an open gate is not j's
    abbrev pub Passed : Doc → Type 0
    Passed d =
        (it : Item)
        → read_match b parse_time (match_of d.id d) ≡ good it
        → IsOpen it
        → Passes (match_of d.id d) it

    add_promoted-Opened :
        (it : Item) (moved : Bool) (o : Outcome (List Item))
        → IsOpen it
        → Opened o
        → Opened (add_promoted b digest parse_time format_time others now who it moved o)
    add_promoted-Opened it moved (bad f) g h = tt
    add_promoted-Opened it true (good its) g h = (g, h)
    add_promoted-Opened it false (good its) g h = h

    abbrev all : List Doc → S → Outcome (List Item) × S
    all = promote_all b digest parse_time format_time others now who done_ids clock

    abbrev one : Doc → Item → S → Outcome Bool × S
    one d it = promote b digest parse_time format_time others now who (match_of d.id d) it

    all-unread :
        (d : Doc) (ds : List Doc) (s : S) (f : Failure)
        → read_match b parse_time (match_of d.id d) ≡ bad f
        → all (d ∷ ds) s ≡ all ds s
    unfolding promote_all
    all-unread d ds s f e = ground (arith, e)

    all-shut :
        (d : Doc) (ds : List Doc) (s : S) (it : Item)
        → read_match b parse_time (match_of d.id d) ≡ good it
        → gate_open done_ids clock it ≡ false
        → all (d ∷ ds) s ≡ all ds s
    unfolding promote_all
    all-shut d ds s it e g = ground (arith, e, g)

    all-stopped :
        (d : Doc) (ds : List Doc) (s : S) (it : Item) (f : Failure)
        → read_match b parse_time (match_of d.id d) ≡ good it
        → IsOpen it
        → (one d it s).0 ≡ bad f
        → all (d ∷ ds) s ≡ (bad f, (one d it s).1)
    unfolding promote_all
    all-stopped d ds s it f e g p = ground (arith, e, g, p)

    all-next :
        (d : Doc) (ds : List Doc) (s : S) (it : Item) (moved : Bool)
        → read_match b parse_time (match_of d.id d) ≡ good it
        → IsOpen it
        → (one d it s).0 ≡ good moved
        → let rest = all ds (one d it s).1 in
          all (d ∷ ds) s
          ≡ (add_promoted b digest parse_time format_time others now who it moved rest.0, rest.1)
    unfolding promote_all
    all-next d ds s it moved e g p = ground (arith, e, g, p)

    -- Of the pending records that Schedule goes through it returns only items whose gate is open, and it leaves
    -- every other item alone: if no record with an open gate has the id j, or has it in its text,
    -- the store has the same under j as before, and stays healthy. Other processes stay harmless
    -- and away from j; the backend keeps the contract, its GetAll changes nothing, and it accepts
    -- available items and the ids of the records that are read.
    pub promote_all-Spared :
        (ds : List Doc) (s : S)
        → All Passed ds
        → k.IsHealthy s
        → let out =
            promote_all b digest parse_time format_time others now who done_ids clock ds s in
          Opened out.0 × Spared s out.1
    unfolding promote_all
    promote_all-Spared [] s p h = (tt, (h, refl))
    promote_all-Spared (d ∷ ds) s p h =
        elim (Outcome-cases (read_match b parse_time (match_of d.id d))) [
          | inr (f, e) ↦
              subst (λ o. Opened o.0 × Spared s o.1) (sym (all-unread d ds s f e))
                (promote_all-Spared ds s p.1 h)
          | inl (it, e) ↦ elim (Bool-cases (gate_open done_ids clock it)) [
            | inr g ↦
                subst (λ o. Opened o.0 × Spared s o.1) (sym (all-shut d ds s it e g))
                  (promote_all-Spared ds s p.1 h)
            | inl g ↦
                let t = (one d it s).1 in
                let q = promote-Spared (match_of d.id d) it s (p.0 it e g) h in
                elim (Outcome-cases (one d it s).0) [
                  | inr (f, a) ↦
                      subst (λ o. Opened o.0 × Spared s o.1) (sym (all-stopped d ds s it f e g a))
                        (tt, q)
                  | inl (moved, a) ↦
                      let rest = promote_all-Spared ds t p.1 q.0 in
                      subst (λ o. Opened o.0 × Spared s o.1) (sym (all-next d ds s it moved e g a))
                        (
                          add_promoted-Opened it moved (all ds t).0 g rest.0,
                          Spared-trans s t (all ds t).1 q rest.1,
                        )
                ]
          ]
        ]
