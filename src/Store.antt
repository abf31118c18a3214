-- ===== src/Store.antt =====
-- store/store.go: the states of an item, who writes, what a stored document is, and the typed
-- refusals. The children hold the contract of a backend.
pub mod Spec
pub mod Steps
pub mod Backend
pub mod Listing
pub mod Race
use macguffin.Prelude.{
  ℕ, ◌≡◌, ◌↔◌, refl, arith, Bool, true, false, ◌&&◌, ◌||◌, List, [], ◌∷◌, Option, none, some, Bytes,
  codes, same, same_iff, is_nil, if◌then◌else◌,
}

-- Status, with its six constants; the constants' texts are `status_name`.
pub data Status : Type 0 where
  available claimed done pending shelved archived : Status

unfoldable pub status_name : Status → Bytes
status_name available = codes "available"
status_name claimed = codes "claimed"
status_name done = codes "done"
status_name pending = codes "pending"
status_name shelved = codes "shelved"
status_name archived = codes "archived"

-- `==` on statuses
unfoldable pub same_status : Status → Status → Bool
same_status available available = true
same_status claimed claimed = true
same_status done done = true
same_status pending pending = true
same_status shelved shelved = true
same_status archived archived = true
same_status _ _ = false

-- ActiveStatuses
abbrev pub active_statuses : List Status
active_statuses = available ∷ claimed ∷ done ∷ pending ∷ shelved ∷ []

-- State: a status and, for a claim, who holds it; the empty holder is "nobody".
pub record State : Type 0 where
  pub status : Status
  pub holder : Bytes

abbrev pub in_status : Status → State
in_status st = record { status = st; holder = [] }

-- State.Satisfies: an empty expected holder accepts any holder.
unfoldable pub satisfies : State → State → Bool
unfolding same_status
satisfies s expect =
    if same_status s.status expect.status
    then is_nil expect.holder || same s.holder expect.holder
    else false

-- Actor: who performs a write.
pub record Actor : Type 0 where
  pub name : Bytes
  pub host : Bytes
  pub pid : ℕ
  pub nonce : Bytes

-- Doc; `mtime` is 0 and `place` (Go: Where) empty where a backend has none.
pub record Doc : Type 0 where
  pub id : Bytes
  pub state : State
  pub partition : Bytes
  pub content : Bytes
  pub hash : Bytes
  pub mtime : ℕ
  pub place : Bytes

-- Ref: what a companion is attached to.
pub record Ref : Type 0 where
  pub id : Bytes
  pub status : Status
  pub partition : Bytes

unfoldable pub ref_of : Doc → Ref
ref_of d = record { id = d.id; status = d.state.status; partition = d.partition }

-- ErrNotFound, ErrExists and ErrAmbiguous as wrapped with the id, *ErrLost, *ErrChanged, the
-- untyped refusals of a backend (`refused`), and a failed system call.
pub data Err : Type 0 where
  not_found : Bytes → Err
  exists : Bytes → Err
  ambiguous : Bytes → Err
  lost : Bytes → State → Option State → Err
  changed : Bytes → Bytes → Bytes → Err
  refused : Bytes → Err
  io : Err

pub data Result {ℓ} (A : Type ℓ) : Type ℓ where
  ok : A → Result A
  err : Err → Result A

abbrev pub is_ok {ℓ} : {A : Type ℓ} → Result A → Bool
is_ok (ok a) = true
is_ok (err e) = false

pub same_status_iff : (a b : Status) → (same_status a b ≡ true) ↔ (a ≡ b)
unfolding same_status
same_status_iff available b = ground arith
same_status_iff claimed b = ground arith
same_status_iff done b = ground arith
same_status_iff pending b = ground arith
same_status_iff shelved b = ground arith
same_status_iff archived b = ground arith
