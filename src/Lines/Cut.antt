-- ===== src/Lines/Cut.antt =====
-- strings.Cut at a newline followed by a mark: it ends a block of lines none of which is the mark's.
use macguffin.Prelude.{
  ◌≡◌, refl, sym, ap, ◌∙◌, arith, List, [], ◌∷◌, ◌++◌, append_assoc, append-nil, Option, none, some,
  Bytes, cut_prefix, cut_prefix-append, All,
}
use macguffin.Lines.{newline, text_lines, cut, join, join_lines, IsLine}

pub text_lines-join_lines :
    (l : Bytes) (ls : List Bytes) (rest : Bytes)
    → text_lines (l ∷ ls) rest ≡ join_lines (l ∷ ls) ++ (newline ∷ rest)
unfolding text_lines join
text_lines-join_lines l [] rest = refl
text_lines-join_lines l (m ∷ ms) rest =
    ap (λ t. l ++ (newline ∷ t)) (text_lines-join_lines m ms rest)
    ∙ sym (append_assoc l (newline ∷ join_lines (m ∷ ms)) (newline ∷ rest))

abbrev before_with : Bytes → Option (Bytes × Bytes) → Option (Bytes × Bytes)
before_with l none = none
before_with l (some (before, after)) = some (l ++ before, after)

before_with-nil : (o : Option (Bytes × Bytes)) → o ≡ before_with [] o
before_with-nil none = refl
before_with-nil (some (before, after)) = refl

-- The mark is not found at the beginning of the line.
abbrev pub IsUnmarked : Bytes → Bytes → Type 0
IsUnmarked mark l = (t : Bytes) → cut_prefix mark (l ++ (newline ∷ t)) ≡ none

module _ (mark : Bytes) where
  -- A line in front is passed over.
  cut-line :
      (l t : Bytes)
      → IsLine l
      → cut (newline ∷ mark) (l ++ t) ≡ before_with l (cut (newline ∷ mark) t)
  unfolding cut cut_prefix
  cut-line [] t h = before_with-nil (cut (newline ∷ mark) t)
  cut-line (c ∷ l) t h = go (cut (newline ∷ mark) t) (cut-line l t h.1)
    where
      go :
          (o : Option (Bytes × Bytes))
          → cut (newline ∷ mark) (l ++ t) ≡ before_with l o
          → cut (newline ∷ mark) (c ∷ (l ++ t)) ≡ before_with (c ∷ l) o
      go none e = ground (arith, e, h.0)
      go (some (before, after)) e = ground (arith, e, h.0)

  -- Neither is a newline in front of an unmarked line.
  cut-newline :
      (l t : Bytes)
      → IsUnmarked mark l
      → cut (newline ∷ mark) (newline ∷ (l ++ (newline ∷ t)))
        ≡ before_with (newline ∷ []) (cut (newline ∷ mark) (l ++ (newline ∷ t)))
  unfolding cut cut_prefix
  cut-newline l t n = go (cut (newline ∷ mark) (l ++ (newline ∷ t))) refl
    where
      go :
          (o : Option (Bytes × Bytes))
          → cut (newline ∷ mark) (l ++ (newline ∷ t)) ≡ o
          → cut (newline ∷ mark) (newline ∷ (l ++ (newline ∷ t))) ≡ before_with (newline ∷ []) o
      go none e = ground (arith, e, n t)
      go (some (before, after)) e = ground (arith, e, n t)

  cut-mark : (rest : Bytes) → cut (newline ∷ mark) (newline ∷ (mark ++ rest)) ≡ some ([], rest)
  unfolding cut cut_prefix
  cut-mark rest = ground (arith, cut_prefix-append mark rest)

  -- Lines of which none but perhaps the first is marked, the mark and a rest are cut at that mark.
  pub cut-text_lines :
      (l : Bytes) (ls : List Bytes) (rest : Bytes)
      → All IsLine (l ∷ ls)
      → All (IsUnmarked mark) ls
      → cut (newline ∷ mark) (text_lines (l ∷ ls) (mark ++ rest)) ≡ some (join_lines (l ∷ ls), rest)
  unfolding text_lines join
  cut-text_lines l [] rest h n =
      cut-line l (newline ∷ (mark ++ rest)) h.0
      ∙ ap (before_with l) (cut-mark rest)
      ∙ ap (λ r. some (r, rest)) (append-nil l)
  cut-text_lines l (m ∷ ms) rest h n =
      cut-line l (newline ∷ (m ++ (newline ∷ text_lines ms (mark ++ rest)))) h.0
      ∙ ap (before_with l) (cut-newline m (text_lines ms (mark ++ rest)) n.0)
      ∙ ap (λ o. before_with l (before_with (newline ∷ []) o)) (cut-text_lines m ms rest h.1 n.1)
