-- ===== src/Workitem/Holder.antt =====
-- internal/workitem/backend.go, holderPID: the PID that store/fsstore records for a claim is read back.
use macguffin.Prelude.{
  ℕ, zero, suc, ◌/◌, ◌≡◌, ◌≢◌, refl, arith, [], ◌∷◌, Option, some, Bytes, digits, itoa, itoa-ne-nil,
  atoi_digits-itoa, All, All-append, Bool-cases, inl, inr, ltb,
}
use macguffin.Store.{claimed, State, Actor}
use macguffin.Fsstore.{with_holder}
use macguffin.Workitem.Lifecycle.{holder_pid, last_part}

abbrev NoDot : Bytes → Type 0
NoDot = All (λ c. c ≢ b'.')

digits-NoDot : (f n : ℕ) → NoDot (digits f n)
unfolding digits
digits-NoDot zero n = tt
digits-NoDot (suc f) n = elim (Bool-cases (ltb n 10)) [
  | inl e ↦ rw e ((λ q. ground arith), tt)
  | inr e ↦ rw e (
      All-append (λ c. c ≢ b'.') (digits f (n / 10)) _ (digits-NoDot f (n / 10))
        ((λ q. omega arith), tt))
]

last_part_same : (found : Option Bytes) (s : Bytes) → NoDot s → last_part found s ≡ found
last_part_same found [] h = refl
last_part_same found (c ∷ s) h = ground (arith, last_part_same found s h.1, h.0)

holder_pid-itoa : (n : ℕ) → holder_pid (itoa n) ≡ n
unfolding holder_pid itoa
holder_pid-itoa n = ground (
  arith,
  itoa-ne-nil n,
  last_part_same (some (itoa n)) (itoa n) (digits-NoDot (suc n) n),
  atoi_digits-itoa n,
)

-- The PID of a claim that names no holder is read back from the holder that the filesystem backend
-- records for it, if the actor has a PID.
pub holder_pid-with_holder :
    (st : State) (by : Actor)
    → st.status ≡ claimed
    → st.holder ≡ []
    → by.pid ≢ 0
    → holder_pid (with_holder st by).holder ≡ by.pid
unfolding with_holder
holder_pid-with_holder st by c e n = ground (arith, holder_pid-itoa by.pid)
