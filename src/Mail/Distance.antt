-- ===== src/Mail/Distance.antt =====
-- internal/mail/suggest.go, editDistance: its three rows compute the distance of optimal string alignment.
use macguffin.Prelude.{
  ℕ, suc, ◌+◌, ◌≡◌, refl, sym, ap, ◌∙◌, arith, subst, Bool, true, false, ◌&&◌, List, [], ◌∷◌,
  Option, none, some, ◌==◌, if◌then◌else◌, length, ltb,
}
use macguffin.Mail.Suggest.{min3, crossed, cells, rows, last, count_from, edit_distance}

abbrev least : ℕ → ℕ → ℕ
least a b = if ltb b a then b else a

abbrev cost : ℕ → ℕ → ℕ
cost a b = if a == b then 0 else 1

-- The distance of two texts, whose last runes come first: an edit drops, adds or replaces the last rune,
-- or swaps the last two.
unfoldable pub alignment : List ℕ → List ℕ → ℕ
alignment [] ys = length ys
alignment (a ∷ xs) [] = suc (length xs)
alignment (a ∷ []) (b ∷ ys) =
    least (least (alignment (a ∷ []) ys + 1) (alignment [] (b ∷ ys) + 1))
      (alignment [] ys + cost a b)
alignment (a ∷ x ∷ xs) (b ∷ []) =
    least (least (alignment (a ∷ x ∷ xs) [] + 1) (alignment (x ∷ xs) (b ∷ []) + 1))
      (alignment (x ∷ xs) [] + cost a b)
alignment (a ∷ x ∷ xs) (b ∷ y ∷ ys) =
    let edited =
      least (least (alignment (a ∷ x ∷ xs) (y ∷ ys) + 1) (alignment (x ∷ xs) (b ∷ y ∷ ys) + 1))
        (alignment (x ∷ xs) (y ∷ ys) + cost a b) in
    let swapped = alignment xs ys + 1 in if a == y && x == b then least edited swapped else edited

abbrev first : List ℕ → Option ℕ
first [] = none
first (x ∷ xs) = some x

-- the value that `cells` puts at b
abbrev cell : Option ℕ → ℕ → Option ℕ → ℕ → ℕ → ℕ → ℕ → ℕ → ℕ
unfolding min3 crossed
cell a_before a b_before b left up diag far =
    let d = min3 (left + 1) (up + 1) (diag + cost a b) in
    if crossed a_before a b_before b && ltb (far + 1) d then far + 1 else d

-- the distance two rows and two columns back, where there are as many
abbrev Behind : List ℕ → List ℕ → ℕ → Type 0
Behind [] ys far = Unit
Behind (x ∷ xs) [] far = Unit
Behind (x ∷ xs) (y ∷ ys) far = far ≡ alignment xs ys

swap_least : (p : Bool) (d t : ℕ) → (if p && ltb t d then t else d) ≡ (if p then least d t else d)
swap_least true d t = refl
swap_least false d t = refl

cell-alignment :
    (a : ℕ) (xs : List ℕ) (b : ℕ) (ys : List ℕ) (far : ℕ)
    → Behind xs ys far
    → cell
        (first xs)
        a
        (first ys)
        b
        (alignment (a ∷ xs) ys)
        (alignment xs (b ∷ ys))
        (alignment xs ys)
        far
      ≡ alignment (a ∷ xs) (b ∷ ys)
unfolding alignment min3 crossed
cell-alignment a [] b ys far h = refl
cell-alignment a (x ∷ xs) b [] far h = refl
cell-alignment a (x ∷ xs) b (y ∷ ys) far h = rw h (
    swap_least (a == y && x == b)
      (least (least (alignment (a ∷ x ∷ xs) (y ∷ ys) + 1) (alignment (x ∷ xs) (b ∷ y ∷ ys) + 1))
        (alignment (x ∷ xs) (y ∷ ys) + cost a b))
      (alignment xs ys + 1))

-- a row: the distances of the texts from one of ys on, with the rest of the runes added one by one
abbrev row_after : List ℕ → List ℕ → List ℕ → List ℕ
row_after xs ys [] = []
row_after xs ys (b ∷ bs) = alignment xs (b ∷ ys) ∷ row_after xs (b ∷ ys) bs

abbrev row : List ℕ → List ℕ → List ℕ → List ℕ
row xs ys bs = alignment xs ys ∷ row_after xs ys bs

-- a list that has, at each rune of the rest, what is behind it
abbrev IsBehind : List ℕ → List ℕ → List ℕ → List ℕ → Type 0
IsBehind xs ys [] fs = Unit
IsBehind xs ys (b ∷ bs) [] = ⊥
IsBehind xs ys (b ∷ bs) (f ∷ fs) = Behind xs ys f × IsBehind xs (b ∷ ys) bs fs

cells-row :
    (a : ℕ) (xs ys bs fs : List ℕ)
    → IsBehind xs ys bs fs
    → cells (first xs) a (first ys) (alignment (a ∷ xs) ys) (row xs ys bs) fs bs
      ≡ row_after (a ∷ xs) ys bs
unfolding cells
cells-row a xs ys [] fs h = refl
cells-row a xs ys (b ∷ bs) [] h = absurd h
cells-row a xs ys (b ∷ bs) (f ∷ fs) h =
    subst
      (λ v.
        v ∷ cells (first xs) a (some b) v (row xs (b ∷ ys) bs) fs bs
        ≡ row_after (a ∷ xs) ys (b ∷ bs))
      (sym (cell-alignment a xs b ys f h.0))
      (ap (λ r. alignment (a ∷ xs) (b ∷ ys) ∷ r) (cells-row a xs (b ∷ ys) bs fs h.1))

row-IsBehind :
    (x : ℕ) (xs : List ℕ) (y : ℕ) (ys bs : List ℕ)
    → IsBehind (x ∷ xs) (y ∷ ys) bs (row xs ys (y ∷ bs))
row-IsBehind x xs y ys [] = tt
row-IsBehind x xs y ys (b ∷ bs) = (refl, row-IsBehind x xs b (y ∷ ys) bs)

first-IsBehind : (ys zs bs : List ℕ) (f : ℕ) → IsBehind [] ys bs (f ∷ row [] zs bs)
first-IsBehind ys zs [] f = tt
first-IsBehind ys zs (b ∷ bs) f = (tt, first-IsBehind (b ∷ ys) (b ∷ zs) bs (alignment [] zs))

-- the row before, where there is one
abbrev RowBefore : List ℕ → List ℕ → List ℕ → Type 0
RowBefore [] bs prev = prev ≡ row [] [] bs
RowBefore (x ∷ xs) bs prev = prev ≡ row xs [] bs

before-IsBehind : (xs bs prev : List ℕ) → RowBefore xs bs prev → IsBehind xs [] bs (0 ∷ prev)
before-IsBehind [] bs prev h = rw h (first-IsBehind [] [] bs 0)
before-IsBehind (x ∷ xs) [] prev h = tt
before-IsBehind (x ∷ xs) (b ∷ bs) prev h = rw h (tt, row-IsBehind x xs b [] bs)

abbrev pub turn : List ℕ → List ℕ → List ℕ
turn [] ys = ys
turn (x ∷ xs) ys = turn xs (x ∷ ys)

alignment-empty : (a : ℕ) (xs : List ℕ) → alignment (a ∷ xs) [] ≡ suc (length xs)
unfolding alignment
alignment-empty a xs = refl

row-next :
    (xs : List ℕ) (i : ℕ) (before : List ℕ) (a : ℕ) (bs : List ℕ)
    → i ≡ suc (length xs)
    → RowBefore xs bs before
    → i ∷ cells (first xs) a none i (row xs [] bs) (0 ∷ before) bs ≡ row (a ∷ xs) [] bs
row-next xs i before a bs h p =
    subst (λ v. v ∷ cells (first xs) a none v (row xs [] bs) (0 ∷ before) bs ≡ row (a ∷ xs) [] bs)
      (alignment-empty a xs ∙ sym h)
      (ap (λ r. alignment (a ∷ xs) [] ∷ r)
        (cells-row a xs [] bs (0 ∷ before) (before-IsBehind xs bs before p)))

rows-row :
    (xs : List ℕ) (i : ℕ) (before : List ℕ) (more bs : List ℕ)
    → i ≡ suc (length xs)
    → RowBefore xs bs before
    → rows (first xs) i before (row xs [] bs) more bs ≡ row (turn more xs) [] bs
unfolding rows
rows-row xs i before [] bs h p = refl
rows-row xs i before (a ∷ more) bs h p =
    subst (λ r. rows (some a) (i + 1) (row xs [] bs) r more bs ≡ row (turn more (a ∷ xs)) [] bs)
      (sym (row-next xs i before a bs h p))
      (rows-row (a ∷ xs) (i + 1) (row xs [] bs) more bs (omega arith) refl)

count_from-row : (ys bs : List ℕ) → count_from (length ys) bs ≡ row [] ys bs
unfolding alignment
count_from-row ys [] = refl
count_from-row ys (b ∷ bs) =
    ap (λ r. length ys ∷ r)
      (subst (λ n. count_from n bs ≡ row [] (b ∷ ys) bs) (omega arith) (count_from-row (b ∷ ys) bs))

last-row : (d : ℕ) (xs ys bs : List ℕ) → last d (row xs ys bs) ≡ alignment xs (turn bs ys)
last-row d xs ys [] = refl
last-row d xs ys (b ∷ bs) = last-row (alignment xs ys) xs (b ∷ ys) bs

length-turn : (xs ys : List ℕ) → length (turn xs ys) ≡ length xs + length ys
length-turn [] ys = omega arith
length-turn (x ∷ xs) ys = omega (arith, length-turn xs (x ∷ ys))

alignment-length : (xs : List ℕ) → alignment xs [] ≡ length xs
unfolding alignment
alignment-length [] = refl
alignment-length (x ∷ xs) = refl

abbrev final_row : List ℕ → List ℕ → List ℕ
final_row a b = rows none 1 (count_from 0 b) (count_from 0 b) a b

final_row-row : (a b : List ℕ) → final_row a b ≡ row (turn a []) [] b
final_row-row a b =
    let e = count_from-row [] b in
    subst (λ p. rows none 1 (count_from 0 b) p a b ≡ row (turn a []) [] b) (sym e)
      (rows-row [] 1 (count_from 0 b) a b refl e)

edit_distance-final_row :
    (a : ℕ) (more : List ℕ) (b : ℕ) (bs : List ℕ)
    → edit_distance (a ∷ more) (b ∷ bs) ≡ last 0 (final_row (a ∷ more) (b ∷ bs))
unfolding edit_distance
edit_distance-final_row a more b bs = refl

-- The three rows of editDistance compute the distance of optimal string alignment of the two texts.
pub edit_distance-alignment : (a b : List ℕ) → edit_distance a b ≡ alignment (turn a []) (turn b [])
unfolding edit_distance alignment
edit_distance-alignment [] b = omega (arith, length-turn b [])
edit_distance-alignment (a ∷ more) [] =
    omega (arith, length-turn (a ∷ more) [], alignment-length (turn (a ∷ more) []))
edit_distance-alignment (a ∷ more) (b ∷ bs) =
    edit_distance-final_row a more b bs
    ∙ ap (last 0) (final_row-row (a ∷ more) (b ∷ bs))
    ∙ last-row 0 (turn (a ∷ more) []) [] (b ∷ bs)
