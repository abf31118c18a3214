-- ===== src/Fsstore/Layout/Calls.antt =====
-- The system calls of prim.go on the files of one item of a rendered table.
use macguffin.Prelude.{
  ◌≡◌, refl, ◌∙◌, ap, arith, true, false, ◌&&◌, List, [], ◌∷◌, ◌++◌, Option, none, some, Bytes,
  codes, same, same_refl, same_iff, lookup, insert, keep, if◌then◌else◌,
}
use macguffin.Fsstore.{Dir, in_work, archive_root, archive_part, same_dir, result_sidecar_name}
use macguffin.Store.{State, same_status, same_status_iff}
use macguffin.Fsstore.Disk.{
  File, Disk, FilePath, at, stat, first, change, moved, same_path, rename, move_file,
  move_no_replace, did,
}
use macguffin.Fsstore.Ops.{move_sidecar}
use macguffin.Fsstore.Names.{IsId, dotted, same-append, tail_of}
use macguffin.Fsstore.Layout.{Slot, item_file, files, render, IsTable, side_files}
use macguffin.Fsstore.Layout.Files.{found}
use macguffin.Fsstore.Layout.Edits.{
  path, stat-render, change-render, change-absent, change-append, stat-absent→keep,
}

same-sym : (a b : Bytes) → same a b ≡ same b a
same-sym a b = ground (arith, same_iff a b, same_iff b a)

same_dir-sym : (a b : Dir) → same_dir a b ≡ same_dir b a
unfolding same_dir
same_dir-sym (in_work s) (in_work t) = ground (arith, same_status_iff s t, same_status_iff t s)
same_dir-sym (archive_part p) (archive_part q) = same-sym p q
same_dir-sym archive_root archive_root = refl
same_dir-sym (in_work s) archive_root = refl
same_dir-sym (in_work s) (archive_part p) = refl
same_dir-sym archive_root (in_work s) = refl
same_dir-sym archive_root (archive_part p) = refl
same_dir-sym (archive_part p) (in_work s) = refl
same_dir-sym (archive_part p) archive_root = refl

pub same_dir_refl : (d : Dir) → same_dir d d ≡ true
unfolding same_dir
same_dir_refl (in_work s) = (same_status_iff s s).1 refl
same_dir_refl archive_root = refl
same_dir_refl (archive_part p) = same_refl p

abbrev pub side_tail : Bytes
side_tail = codes "result.json"

-- The text behind the dot in an item's name, which is not a sidecar's.
pub record IsTail (r : Bytes) : Type 0 where
  pub not_side : same side_tail r ≡ false
  pub side_not : same r side_tail ≡ false

pub tail_of-IsTail : (st : State) → IsTail (tail_of st)
unfolding tail_of same same_status
tail_of-IsTail st = ground arith

pub at_file :
    (id r r' c : Bytes) (d d' : Dir)
    → at (path d id r) (record { dir = d'; name = dotted id r'; content = c })
      ≡ (same_dir d' d && same r' r)
unfolding at
at_file id r r' c d d' =
    ground (arith, same-append id (codes "." ++ r') (codes "." ++ r), same-append (codes ".") r' r)

keep-side_files :
    (id r : Bytes) (d : Dir) (side : Option (Dir × Bytes))
    → IsTail r
    → keep (at (path d id r)) (side_files id side) ≡ []
keep-side_files id r d none h = refl
keep-side_files id r d (some (d', c)) h = ground (arith, at_file id r side_tail c d d', h.not_side)

keep_item :
    (id r : Bytes) (d : Dir) (s : Slot)
    → IsTail r
    → keep (at (path d id r)) (files id s)
      ≡ (if same_dir s.dir d && same s.tail r then item_file id s ∷ [] else [])
keep_item id r d s h =
    ground (arith, at_file id r s.tail s.content d s.dir, keep-side_files id r d s.side h)

keep_sidecar :
    (id : Bytes) (d : Dir) (s : Slot)
    → IsTail s.tail
    → keep (at (path d id side_tail)) (files id s)
      ≡ keep (at (path d id side_tail)) (side_files id s.side)
keep_sidecar id d s h = ground (arith, at_file id side_tail s.tail s.content d s.dir, h.side_not)

change-side_files :
    (id r : Bytes) (d : Dir) (g : File → List File) (side : Option (Dir × Bytes))
    → IsTail r
    → change (path d id r) g (side_files id side) ≡ side_files id side
change-side_files id r d g side h =
    change-absent (path d id r) g (side_files id side) (keep-side_files id r d side h)

-- a change of the item's file alone
change_item :
    (id : Bytes) (s : Slot) (g : File → List File)
    → IsTail s.tail
    → change (path s.dir id s.tail) g (files id s) ≡ g (item_file id s) ++ side_files id s.side
unfolding change
change_item id s g h = ground (
  arith,
  at_file id s.tail s.tail s.content s.dir s.dir,
  same_dir_refl s.dir,
  same_refl s.tail,
  change-side_files id s.tail s.dir g s.side h,
)

pub change_step :
    (p : FilePath) (h : File → List File) (f : File) (disk : Disk)
    → change p h (f ∷ disk) ≡ (if at p f then h f ++ change p h disk else f ∷ change p h disk)
unfolding change
change_step p h f disk = refl

change-change :
    (p : FilePath) (k h : File → List File) (disk : Disk)
    → change p k (change p h disk) ≡ change p (λ f. change p k (h f)) disk
change-change p k h [] = unfold change in refl
change-change p k h (f ∷ disk) = ground (
  arith,
  change_step p h f disk,
  change_step p (λ f. change p k (h f)) f disk,
  change_step p k f (change p h disk),
  change-append p k (h f) (change p h disk),
  change-change p k h disk,
)

module _ (id : Bytes) (s : Slot) (t : List (Bytes × Slot)) (hid : IsId id) (ht : IsTable t)
    (here : lookup id t ≡ some s) (tailed : IsTail s.tail) where
  stat-files :
      (d : Dir) (r : Bytes)
      → stat (path d id r) (render t) ≡ first (keep (at (path d id r)) (files id s))
  stat-files d r =
      stat-render id d r t hid ht ∙ ap (λ o. first (found (at (path d id r)) id o)) here

  pub stat_item : stat (path s.dir id s.tail) (render t) ≡ some (item_file id s)
  stat_item =
      stat-files s.dir s.tail
      ∙ ap first (keep_item id s.tail s.dir s tailed)
      ∙ ground (arith, same_dir_refl s.dir, same_refl s.tail)

  -- No other file of the id bears an item's name.
  pub stat_free :
      (d : Dir) (r : Bytes)
      → IsTail r
      → (same_dir s.dir d && same s.tail r) ≡ false
      → stat (path d id r) (render t) ≡ none
  stat_free d r tail free = stat-files d r ∙ ap first (keep_item id r d s tail) ∙ ground arith

  -- rename(2) of the item to a free name
  pub rename_item :
      (d : Dir) (r : Bytes)
      → IsTail r
      → (same_dir s.dir d && same s.tail r) ≡ false
      → rename (path s.dir id s.tail) (path d id r) (render t)
        ≡ did (render (insert id (record s { dir = d; tail = r }) t))
  unfolding rename same_path
  rename_item d r tail free =
      let cleared =
        change-absent (path d id r) (λ _. []) (render t)
          (stat-absent→keep (path d id r) (render t) (stat_free d r tail free)) in
      let moves =
        change-render id s.dir s.tail hid (moved (path d id r)) s (record s { dir = d; tail = r }) t
          ht here (change_item id s (moved (path d id r)) tailed) in
      ground (
        arith,
        stat_item,
        cleared,
        moves,
        same-append id (codes "." ++ s.tail) (codes "." ++ r),
        same-append (codes ".") s.tail r,
      )

  -- of the two links of the item, unlink(2) removes the old one
  linked_item :
      (d : Dir) (r : Bytes)
      → (same_dir s.dir d && same s.tail r) ≡ false
      → change
            (path s.dir id s.tail)
            (λ _. [])
            (item_file id s ∷ moved (path d id r) (item_file id s))
          ++ side_files id s.side
        ≡ files id (record s { dir = d; tail = r })
  unfolding change
  linked_item d r free = ground (
    arith,
    at_file id s.tail s.tail s.content s.dir s.dir,
    at_file id s.tail r s.content s.dir d,
    same_dir_refl s.dir,
    same_refl s.tail,
    same_dir-sym s.dir d,
    same-sym s.tail r,
  )

  -- MoveNoReplace of the item to a free name
  pub move_no_replace_item :
      (d : Dir) (r : Bytes)
      → IsTail r
      → (same_dir s.dir d && same s.tail r) ≡ false
      → move_no_replace (path s.dir id s.tail) (path d id r) (render t)
        ≡ did (render (insert id (record s { dir = d; tail = r }) t))
  unfolding move_no_replace
  move_no_replace_item d r tail free =
      let src : FilePath = path s.dir id s.tail in
      let s' : Slot = record s { dir = d; tail = r } in
      let both : File → List File = λ g. change src (λ _. []) (g ∷ moved (path d id r) g) in
      let fused = change-change src (λ _. []) (λ g. g ∷ moved (path d id r) g) (render t) in
      let only_new = change_item id s both tailed ∙ linked_item d r free in
      let moves = change-render id s.dir s.tail hid both s s' t ht here only_new in
      ground (arith, stat_item, stat_free d r tail free, fused, moves)

  pub change_content :
      (content : Bytes)
      → change (path s.dir id s.tail) (λ g. record g { content = content } ∷ []) (render t)
        ≡ render (insert id (record s { content = content }) t)
  change_content content =
      change-render id s.dir s.tail hid (λ g. record g { content = content } ∷ []) s
        (record s { content = content }) t ht here
        (change_item id s (λ g. record g { content = content } ∷ []) tailed)

  -- the sidecar is found where the slot has it, and nowhere else
  pub stat_sidecar :
      (d : Dir)
      → stat (path d id side_tail) (render t)
        ≡ first (keep (at (path d id side_tail)) (side_files id s.side))
  stat_sidecar d = stat-files d side_tail ∙ ap first (keep_sidecar id d s tailed)

  change-side_item :
      (d : Dir) (h : File → List File)
      → change (path d id side_tail) h (files id s)
        ≡ item_file id s ∷ change (path d id side_tail) h (side_files id s.side)
  change-side_item d h =
      change_step (path d id side_tail) h (item_file id s) (side_files id s.side)
      ∙ ground (arith, at_file id side_tail s.tail s.content d s.dir, tailed.side_not)

module _ (id : Bytes) (s : Slot) (t : List (Bytes × Slot)) (hid : IsId id) (ht : IsTable t)
    (here : lookup id t ≡ some s) (tailed : IsTail s.tail) where
  -- MoveSidecar, where there is no sidecar and where there is one
  pub move_sidecar-none :
      (d d' : Dir) → s.side ≡ none → move_sidecar d d' id (render t) ≡ did (render t)
  unfolding move_sidecar result_sidecar_name
  move_sidecar-none d d' e = ground (arith, stat_sidecar id s t hid ht here tailed d)

  side_at :
      (d d' : Dir) (c : Bytes)
      → s.side ≡ some (d, c)
      → stat (path d' id side_tail) (render t) ≡ (
          if same_dir d d'
          then some (record { dir = d; name = dotted id side_tail; content = c })
          else none)
  side_at d d' c e =
      stat_sidecar id s t hid ht here tailed d'
      ∙ rw e (ground (arith, at_file id side_tail side_tail c d' d, same_refl side_tail))

  change-sidecar :
      (d d' : Dir) (c : Bytes)
      → s.side ≡ some (d, c)
      → change (path d id side_tail) (moved (path d' id side_tail)) (files id s)
        ≡ files id (record s { side = some (d', c) })
  change-sidecar d d' c e =
      change-side_item id s t hid ht here tailed d (moved (path d' id side_tail))
      ∙ rw e (
          unfold change in
          ground
            (arith, at_file id side_tail side_tail c d d, same_refl side_tail, same_dir_refl d))

  pub move_sidecar-some :
      (d d' : Dir) (c : Bytes)
      → s.side ≡ some (d, c)
      → same_dir d d' ≡ false
      → move_sidecar d d' id (render t)
        ≡ did (render (insert id (record s { side = some (d', c) }) t))
  unfolding move_sidecar move_file rename same_path result_sidecar_name
  move_sidecar-some d d' c e ne =
      let free : stat (path d' id side_tail) (render t) ≡ none = side_at d d' c e ∙ rw ne in
      let cleared =
        change-absent (path d' id side_tail) (λ _. []) (render t)
          (stat-absent→keep (path d' id side_tail) (render t) free) in
      let moves =
        change-render id d side_tail hid (moved (path d' id side_tail)) s
          (record s { side = some (d', c) }) t ht here (change-sidecar d d' c e) in
      ground (arith, side_at d d c e, same_dir_refl d, cleared, moves)
