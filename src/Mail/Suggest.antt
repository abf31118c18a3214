-- ===== src/Mail/Suggest.antt =====
-- internal/mail/suggest.go: the names that are likely corrections of a mistyped name. A name is the
-- list of its runes; the two-row arrays of editDistance are lists that are walked from the left.
use macguffin.Prelude.{
  ℕ, suc, zero, ◌+◌, ◌≡◌, ◌≤◌, refl, arith, Bool, true, false, ◌&&◌, ◌||◌, List, [], ◌∷◌, Option,
  none, some, Bytes, same, All, ◌==◌, if◌then◌else◌, Bool-cases, inl, inr, length, ltb, leb, is_nil,
}

-- suggestThreshold
unfoldable pub suggest_threshold : ℕ → ℕ
suggest_threshold n = if leb n 5 then 1 else if leb n 8 then 2 else 3

-- min3
unfoldable pub min3 : ℕ → ℕ → ℕ → ℕ
min3 a b c = let a' = if ltb b a then b else a in if ltb c a' then c else a'

-- `ar[i-1] == br[j-2] && ar[i-2] == br[j-1]`, which is false where i or j is 1
unfoldable pub crossed : Option ℕ → ℕ → Option ℕ → ℕ → Bool
crossed none a b_before b = false
crossed (some a_before) a none b = false
crossed (some a_before) a (some b_before) b = a == b_before && a_before == b

-- The rest of the row of rune a, which follows a_before: `left` is curr[j-1], the lists begin with
-- prev[j-1], with prev2[j-2] and with br[j-1], and b_before is br[j-2].
unfoldable pub cells : Option ℕ → ℕ → Option ℕ → ℕ → List ℕ → List ℕ → List ℕ → List ℕ
unfolding min3 crossed
cells a_before a b_before left (diag ∷ up ∷ prev) (far ∷ prev2) (b ∷ bs) =
    let d = min3 (left + 1) (up + 1) (diag + (if a == b then 0 else 1)) in
    let d' = if crossed a_before a b_before b && ltb (far + 1) d then far + 1 else d in
    d' ∷ cells a_before a (some b) d' (up ∷ prev) prev2 bs
cells _ _ _ _ _ _ _ = []

-- the loop over i; at j = 1 the row prev2 is one cell behind
unfoldable pub rows : Option ℕ → ℕ → List ℕ → List ℕ → List ℕ → List ℕ → List ℕ
unfolding cells
rows a_before i prev2 prev [] bs = prev
rows a_before i prev2 prev (a ∷ more) bs =
    rows (some a) (i + 1) prev (i ∷ cells a_before a none i prev (0 ∷ prev2) bs) more bs

abbrev pub last : ℕ → List ℕ → ℕ
last d [] = d
last d (x ∷ xs) = last x xs

abbrev pub count_from : ℕ → List ℕ → List ℕ
count_from i [] = i ∷ []
count_from i (b ∷ bs) = i ∷ count_from (i + 1) bs

-- editDistance
unfoldable pub edit_distance : List ℕ → List ℕ → ℕ
unfolding rows
edit_distance a b =
    if is_nil a
    then length b
    else if is_nil b
    then length a
    else last 0 (rows none 1 (count_from 0 b) (count_from 0 b) a b)

abbrev pub Scored : Type 0
Scored = ℕ × Bytes

-- `<` on strings
unfoldable pub text_less : Bytes → Bytes → Bool
text_less [] [] = false
text_less [] (y ∷ ys) = true
text_less (x ∷ xs) [] = false
text_less (x ∷ xs) (y ∷ ys) = ltb x y || (x == y && text_less xs ys)

-- the order given to sort.Slice
unfoldable pub closer : Scored → Scored → Bool
unfolding text_less
closer (d, s) (e, t) = if d == e then text_less s t else ltb d e

-- sort.Slice with that order; two hits that it does not tell apart are equal
unfoldable pub place : Scored → List Scored → List Scored
unfolding closer
place x [] = x ∷ []
place x (y ∷ ys) = let rest = place x ys in if closer y x then y ∷ rest else x ∷ y ∷ ys

unfoldable pub sort_hits : List Scored → List Scored
unfolding place
sort_hits [] = []
sort_hits (x ∷ xs) = place x (sort_hits xs)

-- the loop over the candidates
unfoldable pub hits : ℕ → Bytes → List Bytes → List Scored
unfolding edit_distance
hits limit name [] = []
hits limit name (c ∷ cs) =
    let rest = hits limit name cs in
    let d = edit_distance name c in
    if same c name then rest else if leb d limit then (d, c) ∷ rest else rest

abbrev pub first_of : ℕ → List Scored → List Bytes
first_of zero xs = []
first_of (suc n) [] = []
first_of (suc n) (x ∷ xs) = x.1 ∷ first_of n xs

-- Suggest
unfoldable pub suggest : List Bytes → Bytes → ℕ → List Bytes
unfolding suggest_threshold sort_hits hits
suggest candidates name most =
    if is_nil name
    then []
    else first_of most (sort_hits (hits (suggest_threshold (length name)) name candidates))

-- A correction: another name within the distance that the name's length allows.
abbrev pub IsCorrection : Bytes → Bytes → Type 0
IsCorrection name c =
    (same c name ≡ false) × (edit_distance name c ≤ suggest_threshold (length name))

abbrev IsGood : Bytes → Scored → Type 0
IsGood name x = (x.0 ≡ edit_distance name x.1) × IsCorrection name x.1

hits-All :
    (name : Bytes) (cs : List Bytes)
    → All (IsGood name) (hits (suggest_threshold (length name)) name cs)
unfolding hits
hits-All name [] = tt
hits-All name (c ∷ cs) = elim (Bool-cases (same c name)) [
  | inl e ↦ rw e (hits-All name cs)
  | inr e ↦ elim (Bool-cases (leb (edit_distance name c) (suggest_threshold (length name)))) [
    | inl m ↦ rw (e, m) ((refl, (e, ground arith)), hits-All name cs)
    | inr m ↦ rw (e, m) (hits-All name cs)
  ]
]

place-All :
    (P : Scored → Type 0) (x : Scored) (xs : List Scored) → P x → All P xs → All P (place x xs)
unfolding place
place-All P x [] p h = (p, tt)
place-All P x (y ∷ ys) p h = elim (Bool-cases (closer y x)) [
  | inl e ↦ rw e (h.0, place-All P x ys p h.1)
  | inr e ↦ rw e (p, h)
]

sort_hits-All : (P : Scored → Type 0) (xs : List Scored) → All P xs → All P (sort_hits xs)
unfolding sort_hits
sort_hits-All P [] h = tt
sort_hits-All P (x ∷ xs) h = place-All P x (sort_hits xs) h.0 (sort_hits-All P xs h.1)

first_of-All :
    (name : Bytes) (n : ℕ) (xs : List Scored)
    → All (IsGood name) xs
    → All (IsCorrection name) (first_of n xs)
first_of-All name zero xs h = tt
first_of-All name (suc n) [] h = tt
first_of-All name (suc n) (x ∷ xs) h = (h.0.1, first_of-All name n xs h.1)

length-first_of : (n : ℕ) (xs : List Scored) → length (first_of n xs) ≤ n
length-first_of zero xs = omega arith
length-first_of (suc n) [] = omega arith
length-first_of (suc n) (x ∷ xs) = omega (arith, length-first_of n xs)

-- Every suggestion differs from the name and is within the edit distance allowed for a name of its
-- length, and there are at most as many as asked for.
pub suggest-IsCorrection :
    (candidates : List Bytes) (name : Bytes) (most : ℕ)
    → All (IsCorrection name) (suggest candidates name most)
      × (length (suggest candidates name most) ≤ most)
unfolding suggest
suggest-IsCorrection candidates [] most = (tt, omega arith)
suggest-IsCorrection candidates (c ∷ name) most =
    let hs = hits (suggest_threshold (length (c ∷ name))) (c ∷ name) candidates in
    (
      first_of-All (c ∷ name) most (sort_hits hs)
          (sort_hits-All (IsGood (c ∷ name)) hs (hits-All (c ∷ name) candidates)),
      length-first_of most (sort_hits hs),
    )
