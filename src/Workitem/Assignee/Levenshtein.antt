-- ===== src/Workitem/Assignee/Levenshtein.antt =====
-- internal/workitem/assigneegate.go, editDistance: its two rows compute the Levenshtein distance.
use macguffin.Prelude.{
  ℕ, suc, ◌+◌, ◌≡◌, refl, sym, ap, ◌∙◌, List, [], ◌∷◌, Bytes, ◌==◌, if◌then◌else◌, length,
}
use macguffin.Workitem.Assignee.{lesser, next_cells, last_row, count_up, last_cell, byte_distance}

-- The distance of two texts, whose last bytes come first: an edit adds, drops or replaces the last byte.
unfoldable pub levenshtein : Bytes → Bytes → ℕ
levenshtein [] ys = length ys
levenshtein (a ∷ xs) [] = suc (length xs)
levenshtein (a ∷ xs) (b ∷ ys) =
    lesser (suc (levenshtein (a ∷ xs) ys))
      (lesser (suc (levenshtein xs (b ∷ ys))) (levenshtein xs ys + (if a == b then 0 else 1)))

abbrev row_after : Bytes → Bytes → Bytes → List ℕ
row_after xs ys [] = []
row_after xs ys (b ∷ bs) = levenshtein xs (b ∷ ys) ∷ row_after xs (b ∷ ys) bs

-- a row: the distances of xs from ys with the bytes of bs added one by one
abbrev row : Bytes → Bytes → Bytes → List ℕ
row xs ys bs = levenshtein xs ys ∷ row_after xs ys bs

-- the bytes of the one in front of the other, the last one first
abbrev pub turn : Bytes → Bytes → Bytes
turn [] ys = ys
turn (x ∷ xs) ys = turn xs (x ∷ ys)

next_cells-row :
    (a : ℕ) (xs ys bs : Bytes)
    → next_cells a bs (levenshtein (a ∷ xs) ys) (row xs ys bs) ≡ row_after (a ∷ xs) ys bs
unfolding next_cells levenshtein
next_cells-row a xs ys [] = refl
next_cells-row a xs ys (b ∷ bs) =
    ap (λ r. levenshtein (a ∷ xs) (b ∷ ys) ∷ r) (next_cells-row a xs (b ∷ ys) bs)

levenshtein-empty : (xs : Bytes) → levenshtein xs [] ≡ length xs
unfolding levenshtein
levenshtein-empty [] = refl
levenshtein-empty (a ∷ xs) = refl

last_row-row : (cs xs b : Bytes) → last_row (length xs) cs b (row xs [] b) ≡ row (turn cs xs) [] b
unfolding last_row
last_row-row [] xs b = refl
last_row-row (c ∷ cs) xs b =
    ap (λ r. last_row (suc (length xs)) cs b r)
      (ap (λ n. n ∷ next_cells c b n (row xs [] b)) (sym (levenshtein-empty (c ∷ xs)))
        ∙ ap (λ r. levenshtein (c ∷ xs) [] ∷ r) (next_cells-row c xs [] b))
    ∙ last_row-row cs (c ∷ xs) b

count_up-row : (ys bs : Bytes) → count_up (length ys) bs ≡ row [] ys bs
unfolding count_up levenshtein
count_up-row ys [] = refl
count_up-row ys (b ∷ bs) = ap (λ r. length ys ∷ r) (count_up-row (b ∷ ys) bs)

last_cell-row : (xs ys bs : Bytes) → last_cell (row xs ys bs) ≡ levenshtein xs (turn bs ys)
unfolding last_cell
last_cell-row xs ys [] = refl
last_cell-row xs ys (b ∷ bs) = last_cell-row xs (b ∷ ys) bs

pub byte_distance-levenshtein :
    (a b : Bytes) → byte_distance a b ≡ levenshtein (turn a []) (turn b [])
unfolding byte_distance
byte_distance-levenshtein a b =
    ap (λ r. last_cell (last_row 0 a b r)) (count_up-row [] b)
    ∙ ap last_cell (last_row-row a [] b)
    ∙ last_cell-row (turn a []) [] b
