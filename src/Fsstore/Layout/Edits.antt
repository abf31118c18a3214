-- ===== src/Fsstore/Layout/Edits.antt =====
-- What `stat` finds in a rendered table, and what a change of the file at one path makes of it.
use macguffin.Prelude.{
  ◌≡◌, refl, ◌∙◌, ap, ap₂, arith, List, [], ◌∷◌, ◌++◌, none, some, Bytes, same, same→eq, same-ne,
  lookup, insert, keep, Bool-cases, inl, inr, append_assoc,
}
use macguffin.Fsstore.{Dir}
use macguffin.Fsstore.Disk.{File, Disk, FilePath, at, stat, first, change}
use macguffin.Fsstore.Names.{IsId, dotted, same-dotted}
use macguffin.Fsstore.Layout.{Slot, files, render, IsTable}
use macguffin.Fsstore.Layout.Files.{Skips, found, keep-render, keep-files}

pub change-append :
    (p : FilePath) (h : File → List File) (xs ys : Disk)
    → change p h (xs ++ ys) ≡ change p h xs ++ change p h ys
unfolding change
change-append p h [] ys = refl
change-append p h (f ∷ xs) ys =
    ground (arith, change-append p h xs ys, append_assoc (h f) (change p h xs) (change p h ys))

-- Where nothing stands at the path, a change does nothing.
pub change-absent :
    (p : FilePath) (h : File → List File) (disk : Disk)
    → keep (at p) disk ≡ []
    → change p h disk ≡ disk
unfolding change
change-absent p h [] e = refl
change-absent p h (f ∷ disk) e = ground (arith, change-absent p h disk)

pub stat-absent→keep : (p : FilePath) (disk : Disk) → stat p disk ≡ none → keep (at p) disk ≡ []
unfolding stat
stat-absent→keep p disk e = ground arith

abbrev pub path : Dir → Bytes → Bytes → FilePath
path d id r = record { dir = d; name = dotted id r }

pub at-Skips : (id : Bytes) (d : Dir) (r : Bytes) → IsId id → Skips id (at (path d id r))
at-Skips id d r h = record {
  others = λ id' h' ne d' r' c. unfold at in ground (arith, same-dotted id id' r r' h h' ne);
}

pub stat-render :
    (id : Bytes) (d : Dir) (r : Bytes) (t : List (Bytes × Slot))
    → IsId id
    → IsTable t
    → stat (path d id r) (render t) ≡ first (found (at (path d id r)) id (lookup id t))
unfolding stat
stat-render id d r t h ht = ap first (keep-render id (at (path d id r)) (at-Skips id d r h) t ht)

module _ (id : Bytes) (d : Dir) (r : Bytes) (hid : IsId id) (h : File → List File) where
  change-gone :
      (t : List (Bytes × Slot))
      → IsTable t
      → lookup id t ≡ none
      → change (path d id r) h (render t) ≡ render t
  change-gone t ht e = change-absent (path d id r) h (render t) (
      keep-render id (at (path d id r)) (at-Skips id d r hid) t ht
      ∙ ap (found (at (path d id r)) id) e)

  change-cons :
      (id' : Bytes) (s : Slot) (t : List (Bytes × Slot))
      → change (path d id r) h (render ((id', s) ∷ t))
        ≡ change (path d id r) h (files id' s) ++ change (path d id r) h (render t)
  change-cons id' s t = change-append (path d id r) h (files id' s) (render t)

  -- A change of the files of one id is a change of its slot.
  pub change-render :
      (s s' : Slot) (t : List (Bytes × Slot))
      → IsTable t
      → lookup id t ≡ some s
      → change (path d id r) h (files id s) ≡ files id s'
      → change (path d id r) h (render t) ≡ render (insert id s' t)
  unfolding lookup insert
  change-render s s' [] ht e c = cc
  change-render s s' ((id', s0) ∷ t) ht e c = elim (Bool-cases (same id' id)) [
    | inl q ↦
        let ei : id' ≡ id = same→eq id' id q in
        let es : s0 ≡ s = ground arith in
        change-cons id' s0 t
        ∙ ap₂ ◌++◌ (ap₂ (λ i x. change (path d id r) h (files i x)) ei es ∙ c)
            (change-gone t ht.2 (rw (← ei) ht.1))
        ∙ rw q
    | inr q ↦
        change-cons id' s0 t
        ∙ ap₂ ◌++◌
            (change-absent (path d id r) h (files id' s0) (
              keep-files id (at (path d id r)) (at-Skips id d r hid) id' s0 ht.0
                (same-ne id' id q)))
            (change-render s s' t ht.2 (rw q at e) c)
        ∙ rw q
  ]
