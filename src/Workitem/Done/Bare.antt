-- ===== src/Workitem/Done/Bare.antt =====
-- strings.Cut at "@" (internal/workitem/resolve.go): the id without its partition names no partition.
use macguffin.Prelude.{
  arith, ◌≡◌, refl, sym, ap, ◌∙◌, subst, [], ◌∷◌, ◌==◌, Option, none, some, Bytes, codes,
  cut_prefix, Option-cases, Bool-cases, inl, inr,
}
use macguffin.Lines.{cut}
use macguffin.Workitem.Resolve.{qualifier}

before_of : Bytes → Option (Bytes × Bytes) → Bytes
before_of d none = d
before_of d (some p) = p.0

cut-before : (s x y : Bytes) → cut (codes "@") s ≡ some (x, y) → cut (codes "@") x ≡ none
unfolding cut cut_prefix before_of
cut-before [] x y h = absurd (cc)
cut-before (c ∷ s) x y h = elim (Bool-cases (64 == c)) [
  | inl e ↦
      let v : cut (codes "@") (c ∷ s) ≡ some ([], s) = ground (arith, e) in
      subst (λ z. cut (codes "@") z ≡ none) (ap (before_of x) (sym v ∙ h)) refl
  | inr e ↦ elim (Option-cases (cut (codes "@") s)) [
    | inl m ↦ let v : cut (codes "@") (c ∷ s) ≡ none = ground (arith, e, m) in absurd (cc (v, h))
    | inr ((x', y'), m) ↦
        let v : cut (codes "@") (c ∷ s) ≡ some (c ∷ x', y') = ground (arith, e, m) in
        subst (λ z. cut (codes "@") z ≡ none) (ap (before_of x) (sym v ∙ h))
          (ground (arith, e, cut-before s x' y' m))
  ]
]

abbrev split_at : Bytes → Option (Bytes × Bytes) → Bytes × Option Bytes
split_at id none = (id, none)
split_at id (some p) = (p.0, some p.1)

qualifier-cut : (id : Bytes) → qualifier id ≡ split_at id (cut (codes "@") id)
unfolding qualifier
qualifier-cut id = elim (Option-cases (cut (codes "@") id)) [
  | inl n ↦ rw (n, qualifier) refl
  | inr (p, n) ↦ rw (n, qualifier) refl
]

pub qualifier-qualifier : (id : Bytes) → (qualifier (qualifier id).0).0 ≡ (qualifier id).0
qualifier-qualifier id = elim (Option-cases (cut (codes "@") id)) [
  | inl n ↦ ap (λ x. (qualifier x).0) (ap (λ p. p.0) (qualifier-cut id ∙ ap (split_at id) n))
  | inr ((x, y), n) ↦
      let q : (qualifier id).0 ≡ x = ap (λ p. p.0) (qualifier-cut id ∙ ap (split_at id) n) in
      ap (λ z. (qualifier z).0) q
      ∙ ap (λ p. p.0) (qualifier-cut x ∙ ap (split_at x) (cut-before id x y n))
      ∙ sym q
]
