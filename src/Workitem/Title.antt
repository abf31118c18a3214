-- ===== src/Workitem/Title.antt =====
-- internal/workitem/titleheading.go: an item's title is its body's first `# ` heading.
use macguffin.Prelude.{
  ℕ, suc, zero, ◌+◌, ◌≡◌, ◌≢◌, refl, ◌∙◌, ap, arith, List, [], ◌∷◌, ◌++◌, Option, none, some, Bytes,
  codes, cut_prefix, cut_prefix-append, ◌≤◌, All, same, same→eq, same_refl, if◌then◌else◌,
  Option-cases, inl, inr,
}
use Prim.Native.Nat.{max}
use macguffin.Lines.{
  newline, split_lines, join_lines, IsLine, split_lines-line, split_lines-join_lines,
  split_lines-All, split_lines-ne-nil,
}

-- The heading's text, if the line is one: strings.HasPrefix(line, "# ") and strings.TrimPrefix.
unfoldable pub heading : Bytes → Option Bytes
heading line = cut_prefix (codes "# ") line

-- the loop of firstHeadingLine from line i on
unfoldable pub first_from : ℕ → List Bytes → Option (ℕ × Bytes)
first_from i [] = none
first_from i (l ∷ ls) =
    let rest = first_from (i + 1) ls in elim (heading l) [ some t ↦ some (i, t) | none ↦ rest ]

-- firstHeadingLine; `none` is (-1, "", false)
unfoldable pub first_heading_line : Bytes → Option (ℕ × Bytes)
first_heading_line body = first_from 0 (split_lines body)

abbrev pub set_line : ℕ → Bytes → List Bytes → List Bytes
set_line i v [] = []
set_line zero v (l ∷ ls) = v ∷ ls
set_line (suc i) v (l ∷ ls) = l ∷ set_line i v ls

-- replaceHeadingLine; an index beyond the lines changes nothing
unfoldable pub replace_heading_line : Bytes → ℕ → Bytes → Bytes
replace_heading_line body i text = join_lines (set_line i (codes "# " ++ text) (split_lines body))

unfoldable pub count_in : List Bytes → ℕ
count_in [] = 0
count_in (l ∷ ls) = elim (heading l) [ some t ↦ suc (count_in ls) | none ↦ count_in ls ]

-- countHeadings
unfoldable pub count_headings : Bytes → ℕ
count_headings body = count_in (split_lines body)

-- reconcileTitleHeading
unfoldable pub reconcile_title_heading : Bytes → Bytes → Bytes
reconcile_title_heading body title = elim (first_heading_line body) [
  | none ↦ codes "\n# " ++ (title ++ (newline ∷ body))
  | some (i, text) ↦ if same text title then body else replace_heading_line body i title
]

-- detectTitleSideEffect: the retitle that a body edit would make, as (from, to)
unfoldable pub detect_title_side_effect : Bytes → Bytes → Option (Bytes × Bytes)
detect_title_side_effect old_title new_body = elim (first_heading_line new_body) [
  | none ↦ none
  | some (i, text) ↦ if same text old_title then none else some (old_title, text)
]

-- the title that Parse reads
abbrev pub title_of : Bytes → Option Bytes
title_of body = elim (first_heading_line body) [ none ↦ none | some (i, text) ↦ some text ]

heading-line : (title : Bytes) → heading (codes "# " ++ title) ≡ some title
unfolding heading
heading-line title = cut_prefix-append (codes "# ") title

-- No line from i on is the heading at an earlier index.
first_from-bound :
    (ls : List Bytes) (i : ℕ) (k : ℕ) (t : Bytes) → first_from i ls ≡ some (k, t) → i ≤ k
unfolding first_from
first_from-bound [] i k t h = cc
first_from-bound (l ∷ ls) i k t h = ground (arith, first_from-bound ls (i + 1) k t)

-- Writing the first heading's line makes its text the first heading, at the same index.
first_from-set_line :
    (ls : List Bytes) (i j k : ℕ) (t title : Bytes)
    → k ≡ i + j
    → first_from i ls ≡ some (k, t)
    → first_from i (set_line j (codes "# " ++ title) ls) ≡ some (k, title)
unfolding first_from
first_from-set_line [] i j k t title q h = cc
first_from-set_line (l ∷ ls) i zero k t title q h = ground (arith, heading-line title)
first_from-set_line (l ∷ ls) i (suc j) k t title q h =
    ground (arith, first_from-set_line ls (i + 1) j k t title)

set_line-ne-nil : (i : ℕ) (v : Bytes) (ls : List Bytes) → ls ≢ [] → set_line i v ls ≢ []
set_line-ne-nil i v [] h e = h e
set_line-ne-nil zero v (l ∷ ls) h e = cc
set_line-ne-nil (suc i) v (l ∷ ls) h e = cc

set_line-All :
    (i : ℕ) (v : Bytes) (ls : List Bytes) → IsLine v → All IsLine ls → All IsLine (set_line i v ls)
set_line-All i v [] h a = tt
set_line-All zero v (l ∷ ls) h a = (h, a.1)
set_line-All (suc i) v (l ∷ ls) h a = (a.0, set_line-All i v ls h a.1)

heading-IsLine : (title : Bytes) → IsLine title → IsLine (codes "# " ++ title)
heading-IsLine title h = (λ q. ground arith, (λ q. ground arith, h))

-- The lines of a body whose line was replaced.
split_lines-replace_heading_line :
    (body title : Bytes) (i : ℕ)
    → IsLine title
    → split_lines (replace_heading_line body i title)
      ≡ set_line i (codes "# " ++ title) (split_lines body)
unfolding replace_heading_line
split_lines-replace_heading_line body title i h =
    let v = codes "# " ++ title in
    split_lines-join_lines (set_line i v (split_lines body))
      (set_line-ne-nil i v (split_lines body) (split_lines-ne-nil body))
      (set_line-All i v (split_lines body) (heading-IsLine title h) (split_lines-All body))

-- The lines of a body under a new heading.
split_lines-new :
    (body title : Bytes)
    → IsLine title
    → split_lines (codes "\n# " ++ (title ++ (newline ∷ body)))
      ≡ [] ∷ ((codes "# " ++ title) ∷ split_lines body)
split_lines-new body title h =
    split_lines-line [] (codes "# " ++ (title ++ (newline ∷ body))) tt
    ∙ ap (λ r. [] ∷ r) (split_lines-line (codes "# " ++ title) body (heading-IsLine title h))

first_heading_line-new :
    (body title : Bytes)
    → IsLine title
    → first_heading_line (codes "\n# " ++ (title ++ (newline ∷ body))) ≡ some (1, title)
unfolding first_heading_line
first_heading_line-new body title h =
    ap (first_from 0) (split_lines-new body title h) ∙ unfold first_from heading cut_prefix in refl

first_heading_line-replace_heading_line :
    (body t title : Bytes) (i : ℕ)
    → IsLine title
    → first_heading_line body ≡ some (i, t)
    → first_heading_line (replace_heading_line body i title) ≡ some (i, title)
unfolding first_heading_line
first_heading_line-replace_heading_line body t title i h e =
    ap (first_from 0) (split_lines-replace_heading_line body title i h)
    ∙ first_from-set_line (split_lines body) 0 i i t title (omega arith) e

-- Whatever the caller's body, the body that is stored has the title, which is one line, for its first heading.
pub title_of-reconcile_title_heading :
    (body title : Bytes) → IsLine title → title_of (reconcile_title_heading body title) ≡ some title
unfolding reconcile_title_heading
title_of-reconcile_title_heading body title h = elim (Option-cases (first_heading_line body)) [
  | inl e ↦ ground (arith, e, first_heading_line-new body title h)
  | inr ((i, t), e) ↦
      ground (arith, e, first_heading_line-replace_heading_line body t title i h e, same→eq t title)
]

-- Reconciling a body a second time with the same title, which is one line, changes nothing.
pub reconcile_title_heading-reconcile_title_heading :
    (body title : Bytes)
    → IsLine title
    → reconcile_title_heading (reconcile_title_heading body title) title
      ≡ reconcile_title_heading body title
unfolding reconcile_title_heading
reconcile_title_heading-reconcile_title_heading body title h =
    elim (Option-cases (first_heading_line body)) [
      | inl e ↦ ground (arith, e, first_heading_line-new body title h, same_refl title)
      | inr ((i, t), e) ↦
          ground
            (arith, e, first_heading_line-replace_heading_line body t title i h e, same_refl title)
    ]

count_in-set_line :
    (ls : List Bytes) (i j k : ℕ) (t title : Bytes)
    → k ≡ i + j
    → first_from i ls ≡ some (k, t)
    → count_in (set_line j (codes "# " ++ title) ls) ≡ count_in ls
unfolding first_from count_in
count_in-set_line [] i j k t title q h = cc
count_in-set_line (l ∷ ls) i zero k t title q h =
    ground (arith, heading-line title, first_from-bound ls (i + 1) k t)
count_in-set_line (l ∷ ls) i (suc j) k t title q h =
    ground (arith, count_in-set_line ls (i + 1) j k t title)

count_in-none : (ls : List Bytes) (i : ℕ) → first_from i ls ≡ none → count_in ls ≡ 0
unfolding first_from count_in
count_in-none [] i h = refl
count_in-none (l ∷ ls) i h = ground (arith, count_in-none ls (i + 1))

count_in-some :
    (ls : List Bytes) (i k : ℕ) (t : Bytes) → first_from i ls ≡ some (k, t) → 1 ≤ count_in ls
unfolding first_from count_in
count_in-some [] i k t h = cc
count_in-some (l ∷ ls) i k t h = ground (arith, count_in-some ls (i + 1) k t)

count_in-new :
    (title : Bytes) (ls : List Bytes)
    → count_in ([] ∷ ((codes "# " ++ title) ∷ ls)) ≡ suc (count_in ls)
count_in-new title ls = unfold count_in heading cut_prefix in refl

-- Reconciling never adds a second heading: a body that has headings keeps their number, and one that
-- has none gets one. The title is one line.
pub count_headings-reconcile_title_heading :
    (body title : Bytes)
    → IsLine title
    → count_headings (reconcile_title_heading body title) ≡ max 1 (count_headings body)
unfolding reconcile_title_heading count_headings first_heading_line
count_headings-reconcile_title_heading body title h =
    elim (Option-cases (first_heading_line body)) [
      | inl e ↦ ground (
        arith,
        e,
        split_lines-new body title h,
        count_in-none (split_lines body) 0 e,
        count_in-new title (split_lines body),
      )
      | inr ((i, t), e) ↦ ground (
        arith,
        e,
        split_lines-replace_heading_line body title i h,
        count_in-set_line (split_lines body) 0 i i t title (omega arith) e,
        count_in-some (split_lines body) 0 i t e,
      )
    ]
