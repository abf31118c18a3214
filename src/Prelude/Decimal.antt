-- ===== src/Prelude/Decimal.antt =====
-- strconv.Itoa on a number that is not negative, and reading decimal digits back.
use Prim.Native.Nat.{ℕ, zero, suc, ◌+◌, ◌-◌, ◌*◌, ◌/◌, ◌%◌, ◌<◌}
use mathlib.Core.Path.{◌≡◌, ◌∙◌}
use mathlib.Core.Logic.{◌≢◌, inl, inr}
use mathlib.Core.Bool.{◌||◌}
use mathlib.Core.Option.{Option, none, some}
use mathlib.Core.List.{[], ◌∷◌, ◌++◌}
use native.Mathlib.Omega.{arith}
use macguffin.Prelude.Tests.{ltb, if◌then◌else◌, Bool-cases}
use macguffin.Prelude.Text.{Bytes}

-- The decimal digits of a number, most significant first; the fuel bounds their count.
unfoldable pub digits : ℕ → ℕ → Bytes
digits zero n = []
digits (suc f) n =
    let more = digits f (n / 10) ++ (b'0' + n % 10) ∷ [] in
    if ltb n 10 then (b'0' + n) ∷ [] else more

unfoldable pub itoa : ℕ → Bytes
unfolding digits
itoa n = digits (suc n) n

-- `for _, c := range s { if c < '0' || c > '9' { return 0 }; n = n*10 + int(c-'0') }`,
-- `none` for the early return
unfoldable pub atoi_digits : ℕ → Bytes → Option ℕ
atoi_digits n [] = some n
atoi_digits n (c ∷ s) =
    if ltb c b'0' || ltb b'9' c then none else atoi_digits (n * 10 + (c - b'0')) s

atoi_digits-append :
    (n m : ℕ) (s t : Bytes) → atoi_digits n s ≡ some m → atoi_digits n (s ++ t) ≡ atoi_digits m t
unfolding atoi_digits
atoi_digits-append n m [] t h = ground arith
atoi_digits-append n m (c ∷ s) t h = ground (arith, atoi_digits-append (n * 10 + (c - b'0')) m s t)

atoi_digits-one : (a d : ℕ) → d < 10 → atoi_digits a ((b'0' + d) ∷ []) ≡ some (a * 10 + d)
unfolding atoi_digits
atoi_digits-one a d h = ground arith

atoi_digits-digits : (f n : ℕ) → n < f → atoi_digits 0 (digits f n) ≡ some n
unfolding digits
atoi_digits-digits zero n h = elim h [ ]
atoi_digits-digits (suc f) n h = elim (Bool-cases (ltb n 10)) [
  | inl small ↦ rw small (atoi_digits-one 0 n (ground arith) ∙ ground arith)
  | inr big ↦ rw big (
      atoi_digits-append 0 (n / 10) (digits f (n / 10)) _
        (atoi_digits-digits f (n / 10) (ground arith))
      ∙ atoi_digits-one (n / 10) (n % 10) (omega arith)
      ∙ ground arith)
]

-- Reading the digits that `itoa` writes gives the number back.
pub atoi_digits-itoa : (n : ℕ) → atoi_digits 0 (itoa n) ≡ some n
unfolding itoa
atoi_digits-itoa n = atoi_digits-digits (suc n) n (omega arith)

append-ne-nil : (s : Bytes) (c : ℕ) → s ++ c ∷ [] ≢ []
append-ne-nil [] c h = cc
append-ne-nil (d ∷ s) c h = cc

pub itoa-ne-nil : (n : ℕ) → itoa n ≢ []
unfolding itoa
itoa-ne-nil n = ground (arith, append-ne-nil (digits n (n / 10)) (b'0' + n % 10))
