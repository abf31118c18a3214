-- ===== src/Lines/Words.antt =====
-- strings.Fields and strings.TrimSpace on UTF-8: unicode.IsSpace is true of the six space bytes of ASCII
-- and of U+0085, U+00A0, U+1680, U+2000 to U+200A, U+2028, U+2029, U+202F, U+205F and U+3000. The first
-- byte of each of these is never inside another rune, so they are found at any byte.
use macguffin.Prelude.{
  ℕ, zero, suc, ◌-◌, ◌<◌, ◌≡◌, refl, ap, ◌∙◌, arith, Bool, false, ◌&&◌, ◌||◌, List, [], ◌∷◌, ◌++◌,
  Bytes, is_nil, is_space, All, leb, ◌==◌, if◌then◌else◌, Bool-cases, inl, inr,
}
use macguffin.Lines.{cons_head, join}

-- U+0085, U+00A0
abbrev space_of_two : ℕ → ℕ → Bool
space_of_two c x = c == 194 && (x == 133 || x == 160)

-- the spaces of three bytes
abbrev space_of_three : ℕ → ℕ → ℕ → Bool
space_of_three c x y =
    (c == 225 && x == 154 && y == 128)
    || (c == 226 && x == 128 && ((leb 128 y && leb y 138) || y == 168 || y == 169 || y == 175))
    || (c == 226 && x == 129 && y == 159)
    || (c == 227 && x == 128 && y == 128)

-- how many bytes the space at the beginning has, 0 if there is none
unfoldable pub space_len : Bytes → ℕ
unfolding is_space
space_len [] = 0
space_len (c ∷ []) = if is_space c then 1 else 0
space_len (c ∷ x ∷ []) = if is_space c then 1 else if space_of_two c x then 2 else 0
space_len (c ∷ x ∷ y ∷ s) =
    if is_space c then 1 else if space_of_two c x then 2 else if space_of_three c x y then 3 else 0

-- the pieces between spaces, of what comes after n bytes
unfoldable pub split_blanks : ℕ → Bytes → List Bytes
unfolding space_len
split_blanks n [] = [] ∷ []
split_blanks (suc n) (c ∷ s) = split_blanks n s
split_blanks zero (c ∷ s) =
    let more = split_blanks zero s in
    let rest = split_blanks (space_len (c ∷ s) - 1) s in
    if space_len (c ∷ s) == 0 then cons_head c more else [] ∷ rest

unfoldable pub full_ones : List Bytes → List Bytes
full_ones [] = []
full_ones (l ∷ ls) = let rest = full_ones ls in if is_nil l then rest else l ∷ rest

-- strings.Fields
unfoldable pub fields : Bytes → List Bytes
unfolding split_blanks full_ones
fields s = full_ones (split_blanks zero s)

-- strings.TrimLeftFunc(s, unicode.IsSpace), of what comes after n bytes
unfoldable pub trim_blank_left : ℕ → Bytes → Bytes
unfolding space_len
trim_blank_left n [] = []
trim_blank_left (suc n) (c ∷ s) = trim_blank_left n s
trim_blank_left zero (c ∷ s) =
    let rest = trim_blank_left (space_len (c ∷ s) - 1) s in
    if space_len (c ∷ s) == 0 then c ∷ s else rest

-- strings.TrimRightFunc(s, unicode.IsSpace)
unfoldable pub trim_blank_right : Bytes → Bytes
unfolding trim_blank_left
trim_blank_right [] = []
trim_blank_right (c ∷ s) =
    let rest = trim_blank_right s in if is_nil (trim_blank_left zero (c ∷ s)) then [] else c ∷ rest

-- strings.TrimSpace
unfoldable pub trim_blank : Bytes → Bytes
unfolding trim_blank_left trim_blank_right
trim_blank s = trim_blank_right (trim_blank_left zero s)

-- An ASCII byte that follows does not change the space at the beginning.
space_len-++ :
    (c : ℕ) (s : Bytes) (d : ℕ) (r : Bytes)
    → d < 128
    → space_len (c ∷ (s ++ (d ∷ r))) ≡ space_len (c ∷ s)
unfolding space_len
space_len-++ c [] d [] h = ground arith
space_len-++ c [] d (e ∷ r) h = ground arith
space_len-++ c (x ∷ []) d r h = ground arith
space_len-++ c (x ∷ y ∷ s) d r h = refl

-- A text with no space in it.
abbrev pub NoBlank : Bytes → Type 0
NoBlank [] = Unit
NoBlank (c ∷ s) = (space_len (c ∷ s) ≡ 0) × NoBlank s

abbrev pub IsWord : Bytes → Type 0
IsWord w = (is_nil w ≡ false) × NoBlank w

split_blanks-word :
    (w rest : Bytes) → NoBlank w → split_blanks 0 (w ++ (32 ∷ rest)) ≡ w ∷ split_blanks 0 rest
unfolding split_blanks
split_blanks-word [] [] h = unfold space_len in refl
split_blanks-word [] (d ∷ []) h = unfold space_len in refl
split_blanks-word [] (d ∷ e ∷ rest) h = unfold space_len in refl
split_blanks-word (c ∷ w) rest h =
    ground (arith, split_blanks-word w rest h.1, h.0, space_len-++ c w 32 rest (omega arith))

split_blanks-last : (w : Bytes) → NoBlank w → split_blanks 0 w ≡ w ∷ []
unfolding split_blanks
split_blanks-last [] h = refl
split_blanks-last (c ∷ w) h = ground (arith, split_blanks-last w h.1, h.0)

full_ones-word :
    (w : Bytes) (ls : List Bytes) → is_nil w ≡ false → full_ones (w ∷ ls) ≡ w ∷ full_ones ls
unfolding full_ones
full_ones-word w ls h = rw h refl

-- Words joined by single spaces are split into the words.
pub fields-join : (ws : List Bytes) → All IsWord ws → fields (join (32 ∷ []) ws) ≡ ws
unfolding fields join
fields-join [] h = unfold split_blanks full_ones in refl
fields-join (w ∷ []) h =
    ap full_ones (split_blanks-last w h.0.1) ∙ full_ones-word w [] h.0.0 ∙ unfold full_ones in refl
fields-join (w ∷ v ∷ vs) h =
    ap full_ones (split_blanks-word w (join (32 ∷ []) (v ∷ vs)) h.0.1)
    ∙ full_ones-word w (split_blanks 0 (join (32 ∷ []) (v ∷ vs))) h.0.0
    ∙ ap (λ r. w ∷ r) (fields-join (v ∷ vs) h.1)

-- the text with a newline, unless nothing is left of it
abbrev ended : Bytes → Bytes
ended [] = []
ended (c ∷ s) = c ∷ (s ++ (10 ∷ []))

trim_blank_left-ended :
    (n : ℕ) (s : Bytes) → trim_blank_left n (s ++ (10 ∷ [])) ≡ ended (trim_blank_left n s)
unfolding trim_blank_left
trim_blank_left-ended zero [] = unfold space_len in refl
trim_blank_left-ended (suc n) [] = refl
trim_blank_left-ended (suc n) (c ∷ s) = trim_blank_left-ended n s
trim_blank_left-ended zero (c ∷ s) =
    let e = space_len-++ c s 10 [] (omega arith) in
    elim (Bool-cases (space_len (c ∷ s) == 0)) [
      | inl y ↦ rw e (rw y refl)
      | inr y ↦ rw e (rw y (trim_blank_left-ended (space_len (c ∷ s) - 1) s))
    ]

is_nil-ended : (s : Bytes) → is_nil (ended s) ≡ is_nil s
is_nil-ended [] = refl
is_nil-ended (c ∷ s) = refl

trim_blank_right-newline : (s : Bytes) → trim_blank_right (s ++ (10 ∷ [])) ≡ trim_blank_right s
unfolding trim_blank_right
trim_blank_right-newline [] = unfold trim_blank_left space_len in refl
trim_blank_right-newline (c ∷ s) =
    rw
      (
        trim_blank_left-ended 0 (c ∷ s),
        is_nil-ended (trim_blank_left 0 (c ∷ s)),
        trim_blank_right-newline s,
      )
      refl

trim_blank_right-ended : (s : Bytes) → trim_blank_right (ended s) ≡ trim_blank_right s
trim_blank_right-ended [] = refl
trim_blank_right-ended (c ∷ s) = trim_blank_right-newline (c ∷ s)

-- A newline at the end is trimmed.
pub trim_blank-newline : (s : Bytes) → trim_blank (s ++ (10 ∷ [])) ≡ trim_blank s
unfolding trim_blank
trim_blank-newline s =
    ap trim_blank_right (trim_blank_left-ended 0 s) ∙ trim_blank_right-ended (trim_blank_left 0 s)
