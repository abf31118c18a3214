-- ===== src/Workitem/Done/Held.antt =====
-- internal/workitem/done.go and the links of successor.go and predecessor.go: what an operation that
-- writes only texts leaves as it was, the states of the items.
use macguffin.Prelude.{
  ℕ, ◌≡◌, refl, sym, ap, ◌∙◌, Option, none, some, Bytes, same, same_iff, Bool-cases, inl, inr,
}
use macguffin.Store.{State, Actor}
use macguffin.Store.Spec.{Entry, View, update}
use macguffin.Store.Backend.{Keeps}
use macguffin.Workitem.Item.{Item, render}
use macguffin.Workitem.Resolve.{Access, Match, Outcome, good, bad}
use macguffin.Workitem.Modify.{Applied}
use macguffin.Workitem.Moves.{IsReader}
use macguffin.Workitem.Atomic

abbrev pub state_at : Option Entry → Option State
state_at none = none
state_at (some e) = some e.state

module _ {S : Type 0} (b : Access S) (digest : Bytes → Bytes) (derive : State → Actor → State)
    (IsId : Bytes → Type 0) (IsState : State → Type 0) (IsPartition : Bytes → Type 0)
    (k : Keeps b.backend digest derive IsId IsState IsPartition)
    (reads : IsReader b digest derive IsId IsState IsPartition k) where
  -- healthy, and every item in its state
  abbrev pub Held : S → S → Type 0
  Held s t = k.IsHealthy t × ((j : Bytes) → IsId j → state_at (k.view t j) ≡ state_at (k.view s j))

  pub Held-refl : (s : S) → k.IsHealthy s → Held s s
  Held-refl s h = (h, λ j i. refl)

  pub Held-trans : (s t u : S) → Held s t → Held t u → Held s u
  Held-trans s t u p q = (q.0, λ j i. q.1 j i ∙ p.1 j i)

  pub Held-same :
      (s t : S) → k.IsHealthy t × ((j : Bytes) → IsId j → k.view t j ≡ k.view s j) → Held s t
  Held-same s t p = (p.0, λ j i. ap state_at (p.1 j i))

  module _ (parse_time : Bytes → Option ℕ) (format_time : ℕ → Bytes) (apply : Item → Applied)
      (others : ℕ → S → S) (holding : (n : ℕ) (s : S) → k.IsHealthy s → Held s (others n s)) where
    abbrev pub harmless : (n : ℕ) (s : S) → k.IsHealthy s → k.IsHealthy (others n s)
    harmless n s h = (holding n s h).0

    abbrev Calm : S → S → Type 0
    Calm s t =
        Atomic.Quiet b digest derive IsId IsState IsPartition k reads parse_time format_time apply
          others harmless s t

    Calm-Held : (s t : S) → k.IsHealthy s → Calm s t → Held s t
    Calm-Held s _ h Atomic.Quiet.still = Held-refl s h
    Calm-Held s u h (Atomic.Quiet.looked {t} q a) =
        Held-trans s t u (Calm-Held s t h q) (Held-same t u a)
    Calm-Held s _ h (Atomic.Quiet.acted {t} n q) =
        let r = Calm-Held s t h q in Held-trans s t (others n t) r (holding n t r.0)

    -- a text that is written leaves the state
    update-state_at :
        (id : Bytes) (e : Entry) (c : Bytes) (v : View) (j : Bytes)
        → v id ≡ some e
        → state_at (update id (record e { content = c }) v j) ≡ state_at (v j)
    update-state_at id e c v j h = elim (Bool-cases (same id j)) [
      | inl y ↦ rw y (sym (ap state_at (ap v (sym ((same_iff id j).0 y)) ∙ h)))
      | inr y ↦ rw y refl
    ]

    pub Ending-Held :
        (id : Bytes) (s t : S) (o : Outcome (Item × Match))
        → k.IsHealthy s
        → Atomic.Ends b digest derive IsId IsState IsPartition k reads parse_time format_time apply
            others harmless id s o t
        → Held s t
    Ending-Held id s t (bad f) h q = Calm-Held s t h q
    Ending-Held id s t (good (it, m)) h (inl (q, r)) = Calm-Held s t h q
    Ending-Held id s t (good (it, m)) h (inr (u, q, w)) = Held-trans s u t (Calm-Held s u h q) (
      w.after.0,
      λ j i.
          ap state_at (w.after.1 j i)
          ∙ update-state_at id w.before (render format_time it) (k.view u) j w.stored,
    )
