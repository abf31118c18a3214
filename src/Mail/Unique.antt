-- ===== src/Mail/Unique.antt =====
-- internal/mail/mail.go, uniqueDest: the loop ends, at a name that no file has.
use macguffin.Prelude.{
  ℕ, zero, suc, ◌+◌, ◌≤◌, ◌<◌, ◌≡◌, ◌≢◌, ◌⊎◌, ◌==◌, ==_iff, refl, sym, ap, ◌∙◌, arith, false, ◌++◌,
  Option, none, some, Bytes, codes, length, itoa, atoi_digits, atoi_digits-itoa, append-cancel,
  Bool-cases, Option-cases, inl, inr,
}
use macguffin.Mail.Tree.{
  Sub, FilePath, Tree, at, remove, same_path, same_path_iff, at-remove, length-remove_found,
}
use macguffin.Mail.Box.{path}
use macguffin.Mail.Move.{dup_name, search_dup, unique_dest}

itoa-injective : (i j : ℕ) → itoa i ≡ itoa j → i ≡ j
itoa-injective i j e = cc (ap (atoi_digits 0) e, atoi_digits-itoa i, atoi_digits-itoa j)

dup_name-injective : (name : Bytes) (i j : ℕ) → dup_name name i ≡ dup_name name j → i ≡ j
dup_name-injective name i j e = itoa-injective i j (
    append-cancel (codes ".dup") (itoa i) (itoa j)
      (append-cancel name (codes ".dup" ++ itoa i) (codes ".dup" ++ itoa j) e))

module _ (box : Bytes) (sub : Sub) (name : Bytes) where
  abbrev cand : ℕ → FilePath
  cand i = path box sub (dup_name name i)

  cand-apart : (i j : ℕ) → i < j → same_path (cand i) (cand j) ≡ false
  cand-apart i j h = elim (Bool-cases (same_path (cand i) (cand j))) [
    | inr e ↦ e
    | inl e ↦
        let q =
          dup_name-injective name i j (ap (λ p. p.name) ((same_path_iff (cand i) (cand j)).0 e)) in
        absurd (omega arith)
  ]

  search_dup_same :
      (f i : ℕ) (t u : Tree)
      → ((j : ℕ) → i ≤ j → at (cand j) u ≡ at (cand j) t)
      → search_dup f i box sub name u ≡ search_dup f i box sub name t
  unfolding search_dup
  search_dup_same zero i t u h = refl
  search_dup_same (suc f) i t u h =
      ground (arith, h i (omega arith), search_dup_same f (i + 1) t u (λ j l. h j (omega arith)))

  -- the first free one of the duplicates' names from the i-th on
  abbrev Found : ℕ → Tree → Option Bytes → Type 0
  Found i t o =
      (j : ℕ) × (i ≤ j)
      × (o ≡ some (dup_name name j))
      × (at (cand j) t ≡ none)
      × ((m : ℕ) → i ≤ m → m < j → at (cand m) t ≢ none)

  search_dup-Found : (f i : ℕ) (t : Tree) → length t < f → Found i t (search_dup f i box sub name t)
  unfolding search_dup
  search_dup-Found zero i t h = absurd (omega arith)
  search_dup-Found (suc f) i t h = elim (Option-cases (at (cand i) t)) [
    | inl e ↦ (i, omega arith, (rw e refl), e, λ m l g. absurd (omega arith))
    | inr (c, e) ↦
        let u = remove (cand i) t in
        let short = length-remove_found (cand i) c t e in
        let others : (j : ℕ) → i + 1 ≤ j → at (cand j) u ≡ at (cand j) t =
          λ j l. at-remove (cand i) (cand j) t ∙ ground (arith, cand-apart i j (omega arith)) in
        let r = search_dup-Found f (i + 1) u (omega arith) in
        let taken : (m : ℕ) → i ≤ m → m < r.0 → at (cand m) t ≢ none = λ m l g.
          elim (Bool-cases (m == i)) [
            | inl q ↦ λ z. absurd (cc (ap (λ x. at (cand x) t) ((==_iff m i).0 q), e, z))
            | inr q ↦ λ z. r.4 m (ground (arith, q, l)) g (others m (ground (arith, q, l)) ∙ z)
          ] in
        (
          r.0,
          omega (arith, r.1),
          rw e (sym (search_dup_same f (i + 1) t u others) ∙ r.2),
          sym (others r.0 r.1) ∙ r.3,
          taken,
        )
  ]

  -- The name itself if it is free; otherwise it is taken, and so are all its duplicates' names before this
  -- one, which is the j-th for a j of at least 1.
  abbrev pub IsFirst : Tree → Bytes → Type 0
  IsFirst t d =
      ((at (path box sub name) t ≡ none) × (d ≡ name))
      ⊎ ((at (path box sub name) t ≢ none)
          × ((j : ℕ) × (1 ≤ j)
              × (d ≡ dup_name name j)
              × ((m : ℕ) → 1 ≤ m → m < j → at (path box sub (dup_name name m)) t ≢ none)))

  -- The loop of uniqueDest ends, within one round more than there are files, at a name that no file of the
  -- directory has: the wanted one if it is free, and otherwise the first free one of name.dup1,
  -- name.dup2 and so on.
  pub unique_dest_lem :
      (t : Tree)
      → (d : Bytes) × (unique_dest box sub name t ≡ some d)
        × (at (path box sub d) t ≡ none)
        × IsFirst t d
  unfolding unique_dest
  unique_dest_lem t = elim (Option-cases (at (path box sub name) t)) [
    | inl e ↦ (name, rw e refl, e, inl (e, refl))
    | inr (c, e) ↦
        let r = search_dup-Found (suc (length t)) 1 t (omega arith) in
        (dup_name name r.0, rw e r.2, r.3, inr ((λ z. absurd (cc (e, z))), (r.0, r.1, refl, r.4)))
  ]
