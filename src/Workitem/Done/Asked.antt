-- ===== src/Workitem/Done/Asked.antt =====
-- internal/workitem/resolve.go: texts that are asked for as ids. One that the backend does not take as an id
-- has no record.
use macguffin.Prelude.{◌≡◌, refl, sym, subst, List, [], Bytes, Bool-cases, inl, inr, ◌⊎◌}
use macguffin.Store.{State, Actor}
use macguffin.Store.Backend.{Keeps}
use macguffin.Workitem.Resolve.{
  Access, Match, good, no_partition, Among, qualifier, resolve, resolve_unique,
}
use macguffin.Workitem.Identity.{match-HasId, found-Among}
use macguffin.Workitem.Moves
use macguffin.Workitem.Moves.{IsReader}

module _ {S : Type 0} (b : Access S) (digest : Bytes → Bytes) (derive : State → Actor → State)
    (IsId : Bytes → Type 0) (IsState : State → Type 0) (IsPartition : Bytes → Type 0)
    (k : Keeps b.backend digest derive IsId IsState IsPartition) where
  abbrev Agrees : S → S → Type 0
  Agrees s t = Moves.Agrees b digest derive IsId IsState IsPartition k t (k.view s)

  -- No healthy store has a record of it, and looking for it changes nothing.
  abbrev pub IsVacant : Bytes → Type 0
  IsVacant j =
      (s : S)
      → k.IsHealthy s
      → Agrees s (resolve b j s).1 × ((ms : List Match) → (resolve b j s).0 ≡ good ms → ms ≡ [])

  -- The backend takes it as an id, or has no record of it.
  abbrev pub IsAsked : Bytes → Type 0
  IsAsked j = IsId j ⊎ IsVacant j

  module _ (reads : IsReader b digest derive IsId IsState IsPartition k)
      (asked : (j : Bytes) → IsAsked j) where
    pub resolve-Agrees : (id : Bytes) (s : S) → k.IsHealthy s → Agrees s (resolve b id s).1
    resolve-Agrees id s h = elim (asked id) [
      | inl i ↦ Moves.resolve-Agrees b digest derive IsId IsState IsPartition k reads id s i h
      | inr v ↦ (v s h).0
    ]

    pub resolve_unique-Agrees :
        (id : Bytes) (s : S) → k.IsHealthy s → Agrees s (resolve_unique b id s).1
    unfolding resolve_unique
    resolve_unique-Agrees id s h = elim (Bool-cases (no_partition (qualifier id).1)) [
      | inl e ↦ rw e (h, λ j q. refl)
      | inr e ↦ rw e (resolve-Agrees (qualifier id).0 s h)
    ]

    -- A record that is found has an id that the backend takes.
    pub resolve_unique-IsId :
        (id : Bytes) (s : S) (m : Match)
        → k.IsHealthy s
        → (resolve_unique b id s).0 ≡ good m
        → IsId m.id
    resolve_unique-IsId id s m h e = elim (asked (qualifier id).0) [
      | inl i ↦ subst IsId (sym (match-HasId b id s m e)) i
      | inr v ↦ let f = found-Among b id s m e in absurd (subst (Among m) ((v s h).1 f.0 f.1) f.2)
    ]
