-- ===== src/Store/Backend.antt =====
-- store.Backend as a record of operations over a backend's own state, and what it means that a
-- backend keeps the contract. Clients take both as parameters. `now` is the clock's answer.
use macguffin.Prelude.{ℕ, ◌≡◌, Bytes}
use macguffin.Store.{State, Actor, Doc, Result, ok, err}
use macguffin.Store.Spec
use macguffin.Store.Spec.{View, Entry, Reading}

-- The part of the interface that mg's lifecycle calls.
pub record Backend (S : Type 0) : Type 0 where
  pub create : ℕ → Bytes → State → Bytes → Actor → S → Result (Unit {0}) × S
  pub get : Bytes → S → Result Doc × S
  pub transition : ℕ → Bytes → State → State → Actor → S → Result (Unit {0}) × S
  pub edit : ℕ → Bytes → Bytes → Bytes → Actor → S → Result (Unit {0}) × S
  pub archive : Bytes → Bytes → Actor → S → Result (Unit {0}) × S

abbrev pub reading : Result Doc → Result Reading
reading (ok d) = ok (d.state, d.partition, d.content)
reading (err e) = err e

-- A step of a backend refines a step of the contract: the same answer, a healthy state, and the
-- view that the contract gives, at every id that `IsId`.
pub record Follows {S : Type 0} (IsId : Bytes → Type 0) (IsHealthy : S → Type 0) (view : S → View)
    (got : Result (Unit {0}) × S) (want : Spec.Step) : Type 0 where
  pub answer : got.0 ≡ want.0
  pub healthy : IsHealthy got.1
  pub viewed : (j : Bytes) → IsId j → view got.1 j ≡ want.1 j

-- A backend that keeps the contract on its healthy states, for ids that are `IsId`.
pub record Keeps {S : Type 0} (b : Backend S) (digest : Bytes → Bytes)
    (derive : State → Actor → State) (IsId : Bytes → Type 0) (IsState : State → Type 0)
    (IsPartition : Bytes → Type 0) : Type 1 where
  pub IsHealthy : S → Type 0
  pub view : S → View
  pub create_law :
      (now : ℕ) (id : Bytes) (st : State) (content : Bytes) (by : Actor) (s : S)
      → IsId id
      → IsState st
      → IsHealthy s
      → Follows IsId IsHealthy view
          (b.create now id st content by s)
          (Spec.create derive id st content by (view s))
  pub get_law :
      (id : Bytes) (s : S)
      → IsId id
      → IsHealthy s
      → (reading (b.get id s).0 ≡ Spec.get id (view s))
        × IsHealthy (b.get id s).1
        × ((j : Bytes) → IsId j → view (b.get id s).1 j ≡ view s j)
  pub transition_law :
      (now : ℕ) (id : Bytes) (expect to : State) (by : Actor) (s : S)
      → IsId id
      → IsState to
      → IsHealthy s
      → Follows IsId IsHealthy view
          (b.transition now id expect to by s)
          (Spec.transition derive id expect to by (view s))
  pub edit_law :
      (now : ℕ) (id h content : Bytes) (by : Actor) (s : S)
      → IsId id
      → IsHealthy s
      → Follows IsId IsHealthy view
          (b.edit now id h content by s)
          (Spec.edit digest id h content (view s))
  pub archive_law :
      (id partition : Bytes) (by : Actor) (s : S)
      → IsId id
      → IsPartition partition
      → IsHealthy s
      → Follows IsId IsHealthy view
          (b.archive id partition by s)
          (Spec.archive id partition (view s))
