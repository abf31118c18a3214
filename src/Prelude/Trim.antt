-- ===== src/Prelude/Trim.antt =====
-- strings.TrimSpace on ASCII text.
use Prim.Native.Nat.{ℕ}
use mathlib.Core.Path.{◌≡◌, refl}
use mathlib.Core.Bool.{Bool, false, ◌&&◌, ◌||◌}
use mathlib.Core.List.{[], ◌∷◌}
use mathlib.Core.Logic.{inl, inr}
use native.Mathlib.Omega.{arith}
use macguffin.Prelude.Tests.{◌==◌, if◌then◌else◌, Bool-cases, leb}
use macguffin.Prelude.Lists.{is_nil}
use macguffin.Prelude.Text.{Bytes}

-- '\t', '\n', '\v', '\f', '\r', ' '
unfoldable pub is_space : ℕ → Bool
is_space c = (leb 9 c && leb c 13) || c == 32

unfoldable pub trim_left : Bytes → Bytes
unfolding is_space
trim_left [] = []
trim_left (c ∷ s) = let r = trim_left s in if is_space c then r else c ∷ s

unfoldable pub trim_right : Bytes → Bytes
unfolding is_space
trim_right [] = []
trim_right (c ∷ s) = let r = trim_right s in if is_nil r && is_space c then [] else c ∷ r

-- strings.TrimSpace
unfoldable pub trim_space : Bytes → Bytes
unfolding trim_left trim_right
trim_space s = trim_right (trim_left s)

-- strings.TrimSpace leaves the text as it is: its first and its last byte are no spaces.
abbrev pub IsTrim : Bytes → Type 0
IsTrim s = (trim_left s ≡ s) × (trim_right s ≡ s)

pub trim_space-IsTrim : (s : Bytes) → IsTrim s → trim_space s ≡ s
unfolding trim_space
trim_space-IsTrim s h = rw h.0 h.1

trim_left-trim_left : (s : Bytes) → trim_left (trim_left s) ≡ trim_left s
unfolding trim_left
trim_left-trim_left [] = refl
trim_left-trim_left (c ∷ s) = elim (Bool-cases (is_space c)) [
  | inl e ↦ rw e (trim_left-trim_left s)
  | inr e ↦ rw e (rw e refl)
]

trim_right-trim_right : (s : Bytes) → trim_right (trim_right s) ≡ trim_right s
unfolding trim_right
trim_right-trim_right [] = refl
trim_right-trim_right (c ∷ s) = ground (arith, trim_right-trim_right s)

trim_left-trim_right :
    (c : ℕ) (s : Bytes) → is_space c ≡ false → trim_left (trim_right (c ∷ s)) ≡ trim_right (c ∷ s)
unfolding trim_left trim_right
trim_left-trim_right c s h = ground arith

trim_space_left : (s : Bytes) → trim_left (trim_space s) ≡ trim_space s
unfolding trim_space trim_left
trim_space_left [] = refl
trim_space_left (c ∷ s) = elim (Bool-cases (is_space c)) [
  | inl e ↦ rw e (trim_space_left s)
  | inr e ↦ rw e (trim_left-trim_right c s e)
]

-- What TrimSpace gives has no space at either end.
pub trim_space_sound : (s : Bytes) → IsTrim (trim_space s)
trim_space_sound s = (trim_space_left s, unfold trim_space in trim_right-trim_right (trim_left s))
