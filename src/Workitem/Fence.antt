-- ===== src/Workitem/Fence.antt =====
-- internal/workitem/workitem.go, Parse: the frontmatter ends at the first line that is a fence.
use macguffin.Prelude.{
  ℕ, ◌≡◌, ◌≢◌, refl, sym, ap, ◌∙◌, arith, List, [], ◌∷◌, ◌++◌, Option, none, some, Bytes, codes,
  cut_prefix, is_nil, All, if◌then◌else◌,
}
use macguffin.Lines.{newline, cut, join_lines, IsLine, split_lines-join_lines}
use macguffin.Lines.Cut.{IsUnmarked, text_lines-join_lines, cut-text_lines}
use macguffin.Workitem.Title.{title_of}
use macguffin.Workitem.Item.{Item, blank, read_lines, read_fields, accepted, parse}

not_fence :
    (l t : Bytes)
    → IsLine l
    → l ≢ codes "---"
    → cut_prefix (codes "---\n") (l ++ (newline ∷ t)) ≡ none
unfolding cut_prefix
not_fence [] t h n = refl
not_fence (a ∷ []) t h n = ground arith
not_fence (a ∷ b ∷ []) t h n = ground arith
not_fence (a ∷ b ∷ c ∷ []) t h n = ground (arith, n)
not_fence (a ∷ b ∷ c ∷ d ∷ l) t h n = ground (arith, h.1.1.1.0)

abbrev pub NoFence : List Bytes → Type 0
NoFence = All (λ l. l ≢ codes "---")

NoFence-All : (ls : List Bytes) → All IsLine ls → NoFence ls → All (IsUnmarked (codes "---\n")) ls
NoFence-All [] h n = tt
NoFence-All (l ∷ ls) h n = ((λ t. not_fence l t h.0 n.0), NoFence-All ls h.1 n.1)

-- the fields of the lines, and the title of the body
abbrev pub item_of : (Bytes → Option ℕ) → List Bytes → Bytes → Item
item_of parse_time ls body =
    let it = read_lines parse_time ls (blank body) in
    elim (title_of body) [ none ↦ it | some t ↦ record it { title = t } ]

-- A text of a fence, lines of which none but perhaps the first is a fence, a second fence and any body
-- is parsed by reading these lines, with the body kept whole, fences of its own included; it is
-- refused exactly if no id was read.
pub parse-join_lines :
    (parse_time : Bytes → Option ℕ) (l : Bytes) (ls : List Bytes) (body : Bytes)
    → All IsLine (l ∷ ls)
    → NoFence ls
    → parse parse_time (codes "---\n" ++ (join_lines (l ∷ ls) ++ (codes "\n---\n" ++ body))) ≡ (
        if is_nil (item_of parse_time (l ∷ ls) body).id
        then none
        else some (item_of parse_time (l ∷ ls) body))
unfolding parse read_fields accepted cut_prefix
parse-join_lines parse_time l ls body h n =
    ap (λ t. accepted parse_time (cut (codes "\n---\n") t))
      (sym (text_lines-join_lines l ls (codes "---\n" ++ body)))
    ∙ ap (accepted parse_time) (cut-text_lines (codes "---\n") l ls body h (NoFence-All ls h.1 n))
    ∙ ap (accept body) (split_lines-join_lines (l ∷ ls) (cc) h)
  where
    accept : Bytes → List Bytes → Option Item
    accept b fm =
        if is_nil (item_of parse_time fm b).id then none else some (item_of parse_time fm b)
