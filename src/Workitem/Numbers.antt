-- ===== src/Workitem/Numbers.antt =====
-- strconv.Atoi on what fmt's %d prints, and the form of a number.
use macguffin.Prelude.{
  ℕ, suc, ◌+◌, ◌-◌, ◌*◌, ◌≤◌, is_space, ◌<◌, ◌^◌, ◌≡◌, ◌≢◌, refl, arith, [], ◌∷◌, Option, none,
  some, Bytes, All, trim_left, trim_right, IsTrim, itoa, itoa-ne-nil, atoi_digits, atoi_digits-itoa,
}
use macguffin.Lines.{IsLine}
use macguffin.Workitem.Item.{ℤ, pos, negsuc, print_int, atoi}

-- a value is one line without a space at either end
abbrev pub IsValue : Bytes → Type 0
IsValue v = IsLine v × IsTrim v

abbrev pub InRange : Option ℤ → Type 0
InRange none = Unit
InRange (some (pos n)) = n < 2 ^ 63
InRange (some (negsuc n)) = n < 2 ^ 63

atoi-digits :
    (s : Bytes) (n : ℕ) → s ≢ [] → atoi_digits 0 s ≡ some n → n < 2 ^ 63 → atoi s ≡ some (pos n)
unfolding atoi atoi_digits
atoi-digits [] n e h l = absurd (e refl)
atoi-digits (c ∷ s) n e h l = ground (arith, h, l)

atoi-negative :
    (s : Bytes) (m : ℕ)
    → s ≢ []
    → atoi_digits 0 s ≡ some (suc m)
    → m < 2 ^ 63
    → atoi (b'-' ∷ s) ≡ some (negsuc m)
unfolding atoi
atoi-negative [] m e h l = absurd (e refl)
atoi-negative (c ∷ s) m e h l = ground (arith, h, l)

pub atoi-print_int : (z : ℤ) → InRange (some z) → atoi (print_int z) ≡ some z
unfolding print_int
atoi-print_int (pos n) h = atoi-digits (itoa n) n (itoa-ne-nil n) (atoi_digits-itoa n) h
atoi-print_int (negsuc n) h =
    atoi-negative (itoa (suc n)) n (itoa-ne-nil (suc n)) (atoi_digits-itoa (suc n)) h

abbrev IsDigit : ℕ → Type 0
IsDigit c = (48 ≤ c) × (c ≤ 57)

digits-All : (k : ℕ) (s : Bytes) (n : ℕ) → atoi_digits k s ≡ some n → All IsDigit s
unfolding atoi_digits
digits-All k [] n h = tt
digits-All k (c ∷ s) n h =
    (ground (arith, h), digits-All (k * 10 + (c - 48)) s n (ground (arith, h)))

digits-IsLine : (s : Bytes) → All IsDigit s → IsLine s
digits-IsLine [] h = tt
digits-IsLine (c ∷ s) h = (omega (arith, h.0), digits-IsLine s h.1)

trim_right-digits : (s : Bytes) → All IsDigit s → trim_right s ≡ s
unfolding trim_right is_space
trim_right-digits [] h = refl
trim_right-digits (c ∷ s) h = ground (arith, trim_right-digits s h.1, h.0)

trim_left-digits : (s : Bytes) → All IsDigit s → trim_left s ≡ s
unfolding trim_left is_space
trim_left-digits [] h = refl
trim_left-digits (c ∷ s) h = ground (arith, h.0)

itoa-All : (n : ℕ) → All IsDigit (itoa n)
itoa-All n = digits-All 0 (itoa n) n (atoi_digits-itoa n)

minus-IsValue : (s : Bytes) → All IsDigit s → IsValue (b'-' ∷ s)
unfolding trim_left trim_right is_space
minus-IsValue s h =
    ((omega arith, digits-IsLine s h), (refl, ground (arith, trim_right-digits s h)))

pub print_int-IsValue : (z : ℤ) → IsValue (print_int z)
unfolding print_int
print_int-IsValue (pos n) = (
  digits-IsLine (itoa n) (itoa-All n),
  (trim_left-digits (itoa n) (itoa-All n), trim_right-digits (itoa n) (itoa-All n)),
)
print_int-IsValue (negsuc n) = minus-IsValue (itoa (suc n)) (itoa-All (suc n))
