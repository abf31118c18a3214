-- ===== src/Fsstore/Layout/Files.antt =====
-- What a test on files finds in a rendered table: only the files of the id that the test is about.
use macguffin.Prelude.{
  ◌≡◌, ◌≢◌, refl, arith, Bool, false, List, [], ◌∷◌, ◌++◌, Option, none, some, Bytes, codes, same,
  same_refl, same→eq, same-ne, lookup, ◌∙◌, keep, Bool-cases, inl, inr, append-nil,
}
use macguffin.Fsstore.{Dir}
use macguffin.Fsstore.Disk.{File}
use macguffin.Fsstore.Names.{IsId, dotted}
use macguffin.Fsstore.Layout.{Slot, files, render, IsTable, side_files}

keep-append {ℓ} :
    {A : Type ℓ} (p : A → Bool) (xs ys : List A) → keep p (xs ++ ys) ≡ keep p xs ++ keep p ys
keep-append p [] ys = refl
keep-append p (x ∷ xs) ys = ground (arith, keep-append p xs ys)

-- The test fails on every file of another id.
pub record Skips (id : Bytes) (p : File → Bool) : Type 0 where
  pub others :
      (id' : Bytes)
      → IsId id'
      → id' ≢ id
      → (d : Dir) (r c : Bytes) → p (record { dir = d; name = dotted id' r; content = c }) ≡ false

abbrev pub found : (File → Bool) → Bytes → Option Slot → List File
found p id none = []
found p id (some s) = keep p (files id s)

module _ (id : Bytes) (p : File → Bool) (skips : Skips id p) where
  keep-side_files :
      (id' : Bytes)
      → IsId id'
      → id' ≢ id
      → (side : Option (Dir × Bytes)) → keep p (side_files id' side) ≡ []
  keep-side_files id' h ne none = refl
  keep-side_files id' h ne (some (d, r)) = rw (skips.others id' h ne d (codes "result.json") r)

  pub keep-files : (id' : Bytes) (s : Slot) → IsId id' → id' ≢ id → keep p (files id' s) ≡ []
  keep-files id' s h ne =
      rw (skips.others id' h ne s.dir s.tail s.content) (keep-side_files id' h ne s.side)

  keep-cons :
      (id' : Bytes) (s : Slot) (t : List (Bytes × Slot))
      → keep p (render ((id', s) ∷ t)) ≡ keep p (files id' s) ++ keep p (render t)
  keep-cons id' s t = keep-append p (files id' s) (render t)

  pub keep-render :
      (t : List (Bytes × Slot)) → IsTable t → keep p (render t) ≡ found p id (lookup id t)
  keep-render [] h = unfold lookup in refl
  keep-render ((id', s) ∷ t) h = elim (Bool-cases (same id' id)) [
    | inl e ↦
        keep-cons id' s t
        ∙ (rw (keep-render t h.2, ← same→eq id' id e, h.1)
            (append-nil (keep p (files id' s)) ∙ unfold lookup in rw (same_refl id')))
    | inr e ↦
        keep-cons id' s t
        ∙ rw (keep-files id' s h.0 (same-ne id' id e), keep-render t h.2) (unfold lookup in rw e)
  ]
