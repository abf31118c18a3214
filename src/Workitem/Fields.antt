-- ===== src/Workitem/Fields.antt =====
-- internal/workitem/workitem.go: the lists of a frontmatter (depends, tags) as Render writes them and
-- parseDependsList reads them.
use macguffin.Prelude.{
  ℕ, ◌≡◌, ◌≢◌, refl, sym, ap, ◌∙◌, arith, subst, Bool, true, false, not, ◌&&◌, List, [], ◌∷◌, ◌++◌,
  Bytes, codes, is_nil, is_space, trim_right, trim_space, trim_prefix, trim_prefix-append,
  trim_space-IsTrim, trim_left, All, Bool-cases, inl, inr, ◌==◌, if◌then◌else◌,
}
use macguffin.Lines.{join}
use macguffin.Workitem.Item.{trim_bracket, split_commas, trimmed, parse_depends_list, print_list}

unfoldable pub first_plain : Bytes → Bool
unfolding is_space
first_plain [] = false
first_plain (c ∷ s) = not (is_space c)

-- A value of a list: it has no comma and neither begins nor ends with a space.
pub record IsField (d : Bytes) : Type 0 where
  pub begins : first_plain d ≡ true
  pub ends : trim_right d ≡ d
  pub no_comma : All (λ c. c ≢ b',') d

abbrev sep : Bytes
sep = codes ", "

trim_left-plain : (d : Bytes) → first_plain d ≡ true → trim_left d ≡ d
unfolding trim_left first_plain
trim_left-plain [] h = cc
trim_left-plain (c ∷ d) h = ground (arith, h)

first_plain-append : (d t : Bytes) → first_plain d ≡ true → first_plain (d ++ t) ≡ true
unfolding first_plain
first_plain-append [] t h = cc
first_plain-append (c ∷ d) t h = h

append-full : (s t : Bytes) → is_nil t ≡ false → is_nil (s ++ t) ≡ false
append-full [] t h = h
append-full (c ∷ s) t h = refl

pub trim_right-append :
    (s t : Bytes) → is_nil t ≡ false → trim_right t ≡ t → trim_right (s ++ t) ≡ s ++ t
unfolding trim_right
trim_right-append [] t n h = h
trim_right-append (c ∷ s) t n h = ground (arith, trim_right-append s t n h, append-full s t n)

trim_bracket-append : (s : Bytes) → trim_bracket (s ++ codes "]") ≡ s
unfolding trim_bracket
trim_bracket-append [] = refl
trim_bracket-append (c ∷ s) = ground (arith, trim_bracket-append s, append-full s (codes "]") refl)

field_full : (d : Bytes) → first_plain d ≡ true → is_nil d ≡ false
field_full [] h = unfold first_plain in cc
field_full (c ∷ d) h = refl

join-full : (d : Bytes) (ds : List Bytes) → IsField d → is_nil (join sep (d ∷ ds)) ≡ false
unfolding join
join-full d [] h = field_full d h.begins
join-full [] (m ∷ ms) h = refl
join-full (c ∷ d) (m ∷ ms) h = refl

join-ends :
    (d : Bytes) (ds : List Bytes)
    → All IsField (d ∷ ds)
    → trim_right (join sep (d ∷ ds)) ≡ join sep (d ∷ ds)
unfolding join
join-ends d [] h = h.0.ends
join-ends d (m ∷ ms) h =
    trim_right-append d (sep ++ join sep (m ∷ ms)) refl
      (trim_right-append sep (join sep (m ∷ ms)) (join-full m ms h.1.0) (join-ends m ms h.1))

join-begins :
    (d : Bytes) (ds : List Bytes) → IsField d → trim_left (join sep (d ∷ ds)) ≡ join sep (d ∷ ds)
unfolding join
join-begins d [] h = trim_left-plain d h.begins
join-begins d (m ∷ ms) h =
    trim_left-plain (d ++ (sep ++ join sep (m ∷ ms)))
      (first_plain-append d (sep ++ join sep (m ∷ ms)) h.begins)

split_commas-comma :
    (d rest : Bytes)
    → All (λ c. c ≢ b',') d
    → split_commas (d ++ (b',' ∷ rest)) ≡ d ∷ split_commas rest
unfolding split_commas
split_commas-comma [] rest h = refl
split_commas-comma (c ∷ d) rest h = ground (arith, split_commas-comma d rest h.1, h.0)

split_commas-last : (d : Bytes) → All (λ c. c ≢ b',') d → split_commas d ≡ d ∷ []
unfolding split_commas
split_commas-last [] h = refl
split_commas-last (c ∷ d) h = ground (arith, split_commas-last d h.1, h.0)

trimmed_space :
    (ls : List Bytes)
    → trimmed (elim ls [ [] ↦ (32 ∷ []) ∷ [] | l ∷ more ↦ (32 ∷ l) ∷ more ]) ≡ trimmed ls
unfolding trimmed trim_space trim_left
trimmed_space [] = refl
trimmed_space (l ∷ ls) = refl

split_commas_space : (s : Bytes) → trimmed (split_commas (32 ∷ s)) ≡ trimmed (split_commas s)
unfolding split_commas
split_commas_space s = trimmed_space (split_commas s)

trimmed-field : (d : Bytes) (ls : List Bytes) → IsField d → trimmed (d ∷ ls) ≡ d ∷ trimmed ls
unfolding trimmed
trimmed-field d ls h =
    ground (arith, trim_space-IsTrim d (trim_left-plain d h.begins, h.ends), field_full d h.begins)

trimmed-split_commas :
    (d : Bytes) (ds : List Bytes)
    → All IsField (d ∷ ds)
    → trimmed (split_commas (join sep (d ∷ ds))) ≡ d ∷ ds
unfolding join trimmed
trimmed-split_commas d [] h = ap trimmed (split_commas-last d h.0.no_comma) ∙ trimmed-field d [] h.0
trimmed-split_commas d (m ∷ ms) h =
    ap trimmed (split_commas-comma d (32 ∷ join sep (m ∷ ms)) h.0.no_comma)
    ∙ trimmed-field d (split_commas (32 ∷ join sep (m ∷ ms))) h.0
    ∙ ap (λ r. d ∷ r) (split_commas_space (join sep (m ∷ ms)) ∙ trimmed-split_commas m ms h.1)

print_list-trim : (ds : List Bytes) → trim_space (print_list ds) ≡ print_list ds
unfolding print_list trim_space
print_list-trim ds = trim_right-append (91 ∷ join sep ds) (codes "]") refl refl

join-trim : (ds : List Bytes) → All IsField ds → trim_space (join sep ds) ≡ join sep ds
join-trim [] h = unfold join trim_space in refl
join-trim (d ∷ ds) h =
    trim_space-IsTrim (join sep (d ∷ ds)) (join-begins d ds h.0, join-ends d ds h)

-- what parseDependsList has between the brackets
between_brackets :
    (ds : List Bytes)
    → All IsField ds
    → trim_space (trim_bracket (trim_prefix (codes "[") (trim_space (print_list ds)))) ≡ join sep ds
unfolding print_list
between_brackets ds h =
    ap (λ v. trim_space (trim_bracket (trim_prefix (codes "[") v))) (print_list-trim ds)
    ∙ ap (λ v. trim_space (trim_bracket v))
        (trim_prefix-append (codes "[") (join sep ds ++ codes "]"))
    ∙ ap trim_space (trim_bracket-append (join sep ds))
    ∙ join-trim ds h

-- A list of values that have no comma and neither begin nor end with a space is read as it was written.
pub parse_depends_list-print_list :
    (ds : List Bytes) → All IsField ds → parse_depends_list (print_list ds) ≡ ds
unfolding parse_depends_list macguffin.Prelude.cut_prefix
parse_depends_list-print_list [] h = unfold join print_list in refl
parse_depends_list-print_list (d ∷ ds) h =
    rw (between_brackets (d ∷ ds) h, join-full d ds h.0) (trimmed-split_commas d ds h)
