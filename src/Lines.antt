-- ===== src/Lines.antt =====
-- strings.Split(s, "\n"), strings.Join(lines, "\n") and strings.Cut over bytes.
pub mod Cut
pub mod Words
use macguffin.Prelude.{
  ℕ, ◌≡◌, ◌≢◌, refl, ◌∙◌, ap, arith, List, [], ◌∷◌, ◌++◌, Option, none, some, Bytes, cut_prefix,
  All, ◌==◌, if◌then◌else◌, Bool-cases, inl, inr,
}

abbrev pub newline : ℕ
newline = b'\n'

abbrev pub cons_head : ℕ → List Bytes → List Bytes
cons_head c [] = (c ∷ []) ∷ []
cons_head c (l ∷ ls) = (c ∷ l) ∷ ls

-- strings.Split(s, "\n")
unfoldable pub split_lines : Bytes → List Bytes
split_lines [] = [] ∷ []
split_lines (c ∷ s) = let ls = split_lines s in if c == newline then [] ∷ ls else cons_head c ls

-- strings.Join(lines, sep)
unfoldable pub join : Bytes → List Bytes → Bytes
join sep [] = []
join sep (l ∷ ls) = elim ls [ [] ↦ l | m ∷ ms ↦ l ++ (sep ++ join sep ls) ]

abbrev pub join_lines : List Bytes → Bytes
join_lines = join (newline ∷ [])

-- lines, each with its newline, and what follows them
unfoldable pub text_lines : List Bytes → Bytes → Bytes
text_lines [] rest = rest
text_lines (l ∷ ls) rest = l ++ (newline ∷ text_lines ls rest)

-- before, after, found := strings.Cut(s, sep), with the separator first
unfoldable pub cut : Bytes → Bytes → Option (Bytes × Bytes)
cut sep [] = elim (cut_prefix sep []) [ none ↦ none | some r ↦ some ([], r) ]
cut sep (c ∷ s) =
    let rest = cut sep s in
    elim (cut_prefix sep (c ∷ s)) [
      | some r ↦ some ([], r)
      | none ↦ elim rest [ none ↦ none | some (before, after) ↦ some (c ∷ before, after) ]
    ]

abbrev pub IsLine : Bytes → Type 0
IsLine = All (λ c. c ≢ newline)

pub split_lines-ne-nil : (s : Bytes) → split_lines s ≢ []
unfolding split_lines
split_lines-ne-nil [] = cc
split_lines-ne-nil (c ∷ s) = ground (arith, split_lines-ne-nil s)

join_cons_head :
    (c : ℕ) (ls : List Bytes) → ls ≢ [] → join_lines (cons_head c ls) ≡ c ∷ join_lines ls
unfolding join
join_cons_head c [] h = absurd (h refl)
join_cons_head c (l ∷ []) h = refl
join_cons_head c (l ∷ m ∷ ms) h = refl

join_nil_cons : (ls : List Bytes) → ls ≢ [] → join_lines ([] ∷ ls) ≡ newline ∷ join_lines ls
unfolding join
join_nil_cons [] h = absurd (h refl)
join_nil_cons (l ∷ ls) h = refl

-- Splitting a text into lines and joining them gives the text back.
pub join_lines-split_lines : (s : Bytes) → join_lines (split_lines s) ≡ s
unfolding split_lines
join_lines-split_lines [] = unfold join in refl
join_lines-split_lines (c ∷ s) = ground (
  arith,
  join_cons_head c (split_lines s) (split_lines-ne-nil s),
  join_nil_cons (split_lines s) (split_lines-ne-nil s),
  join_lines-split_lines s,
)

-- A line in front of a newline is the first line of the split.
pub split_lines-line :
    (l rest : Bytes) → IsLine l → split_lines (l ++ (newline ∷ rest)) ≡ l ∷ split_lines rest
unfolding split_lines
split_lines-line [] rest h = refl
split_lines-line (c ∷ l) rest h = ground (arith, split_lines-line l rest h.1, h.0)

pub split_lines-last : (l : Bytes) → IsLine l → split_lines l ≡ l ∷ []
unfolding split_lines
split_lines-last [] h = refl
split_lines-last (c ∷ l) h = ground (arith, split_lines-last l h.1, h.0)

-- Joining lines and splitting gives the lines back.
pub split_lines-join_lines :
    (ls : List Bytes) → ls ≢ [] → All IsLine ls → split_lines (join_lines ls) ≡ ls
unfolding join
split_lines-join_lines [] h a = absurd (h refl)
split_lines-join_lines (l ∷ []) h a = split_lines-last l a.0
split_lines-join_lines (l ∷ m ∷ ms) h a =
    split_lines-line l (join_lines (m ∷ ms)) a.0
    ∙ ap (λ r. l ∷ r) (split_lines-join_lines (m ∷ ms) (cc) a.1)

-- Each line of a split holds no newline.
cons_head-All :
    (c : ℕ) (ls : List Bytes) → c ≢ newline → All IsLine ls → All IsLine (cons_head c ls)
cons_head-All c [] h a = ((h, tt), tt)
cons_head-All c (l ∷ ls) h a = ((h, a.0), a.1)

pub split_lines-All : (s : Bytes) → All IsLine (split_lines s)
unfolding split_lines
split_lines-All [] = (tt, tt)
split_lines-All (c ∷ s) = elim (Bool-cases (c == newline)) [
  | inl e ↦ rw e (tt, split_lines-All s)
  | inr e ↦ rw e (cons_head-All c (split_lines s) (λ q. ground arith) (split_lines-All s))
]
