-- ===== src/Fsstore/Refines/Follow.antt =====
-- An item's two files after a move: the sidecar is beside the item again.
use macguffin.Prelude.{
  ◌≡◌, refl, sym, ◌∙◌, ap, ap₂, arith, true, false, ◌&&◌, List, Option, none, some, Bytes, codes,
  ◌++◌, same, same→eq, lookup, insert, lookup-insert_self, Bool-cases, inl, inr,
}
use macguffin.Store.{State, ok, same_status_iff}
use macguffin.Store.Spec.{Entry}
use macguffin.Fsstore.{Dir, in_work, archive_root, archive_part, status_dir, same_dir}
use macguffin.Fsstore.Disk.{same_path, move_item}
use macguffin.Fsstore.Ops.{move_from, move_across, follow}
use macguffin.Fsstore.Names.{IsId, tail_of, file_name-dotted, same-append}
use macguffin.Fsstore.Layout.{Slot, slots, slot_of, layout, dir_of, side_of, render, IsTable}
use macguffin.Fsstore.Layout.Tables.{insert-IsTable, insert-insert, insert_same}
use macguffin.Fsstore.Layout.Edits.{path}
use macguffin.Fsstore.Layout.Calls.{
  IsTail, tail_of-IsTail, stat_free, rename_item, move_no_replace_item, move_sidecar-none,
  move_sidecar-some,
}
use macguffin.Fsstore.Layout.Located.{slots-insert, slots-IsTable}
use macguffin.Fsstore.Refines.{IsStore, slot_here}

same_dir→eq : (a b : Dir) → same_dir a b ≡ true → a ≡ b
unfolding same_dir
same_dir→eq (in_work s) (in_work t) h = ap in_work ((same_status_iff s t).0 h)
same_dir→eq archive_root archive_root h = refl
same_dir→eq (archive_part p) (archive_part q) h = ap archive_part (same→eq p q h)
same_dir→eq (in_work s) archive_root h = cc
same_dir→eq (in_work s) (archive_part p) h = cc
same_dir→eq archive_root (in_work s) h = cc
same_dir→eq archive_root (archive_part p) h = cc
same_dir→eq (archive_part p) (in_work s) h = cc
same_dir→eq (archive_part p) archive_root h = cc

module _ (id : Bytes) (hid : IsId id) where
  follow-render :
      (s : Slot) (t : List (Bytes × Slot)) (d d' : Dir) (c : Option Bytes)
      → IsTable t
      → lookup id t ≡ some s
      → IsTail s.tail
      → s.side ≡ side_of d c
      → same_dir d d' ≡ false
      → follow d d' id (render t) ≡ (ok tt, render (insert id (record s { side = side_of d' c }) t))
  unfolding follow
  follow-render s t d d' none ht here tail e ne =
      ground (arith, move_sidecar-none id s t hid ht here tail d d', insert_same id s t)
  follow-render s t d d' (some c) ht here tail e ne =
      ground (arith, move_sidecar-some id s t hid ht here tail d d' c)

module _ (id : Bytes) (e e' : Entry) (t : List (Bytes × Entry)) (hid : IsId id) (h : IsStore t)
    (here : lookup id t ≡ some e) (carried : e'.content ≡ e.content)
    (kept : e'.result ≡ e.result) where
  abbrev halfway : Slot
  halfway = record (slot_of e) { dir = dir_of e'; tail = tail_of e'.state }

  pub layout-moved :
      layout (insert id e' t)
      ≡ render (insert id (record halfway { side = side_of (dir_of e') e.result }) (slots t))
  unfolding layout
  layout-moved =
      ap render (sym (slots-insert id e' t))
      ∙ ap₂
          (λ c r. render (
            insert id
              (record {
                dir = dir_of e';
                tail = tail_of e'.state;
                content = c;
                side = side_of (dir_of e') r;
              })
              (slots t)))
          carried kept

  followed :
      same_dir (dir_of e) (dir_of e') ≡ false
      → follow (dir_of e) (dir_of e') id (render (insert id halfway (slots t)))
        ≡ (ok tt, layout (insert id e' t))
  followed ne =
      follow-render id hid halfway (insert id halfway (slots t)) (dir_of e) (dir_of e') e.result
        (insert-IsTable id halfway (slots t) hid (slots-IsTable t h.table))
        (lookup-insert_self id halfway (slots t)) (tail_of-IsTail e'.state) refl ne
      ∙ ap (λ r. (ok tt, render r))
          (insert-insert id (record halfway { side = side_of (dir_of e') e.result }) halfway
            (slots t))
      ∙ ap (λ r. (ok tt, r)) (sym layout-moved)

  -- A move by MoveNoReplace into another directory, with the sidecar behind it
  pub move_across-layout :
      (expect : State)
      → same_dir (dir_of e) (dir_of e') ≡ false
      → move_across
          (path (dir_of e) id (tail_of e.state))
          (path (dir_of e') id (tail_of e'.state))
          id
          expect
          (layout t)
        ≡ (ok tt, layout (insert id e' t))
  unfolding move_across layout
  move_across-layout expect ne = ground (
    arith,
    move_no_replace_item id (slot_of e) (slots t) hid (slots-IsTable t h.table)
        (slot_here id e t here) (tail_of-IsTail e.state) (dir_of e') (tail_of e'.state)
        (tail_of-IsTail e'.state),
    followed ne,
  )

  -- where the item stays in its directory, so does its sidecar
  stayed :
      same_dir (dir_of e) (dir_of e') ≡ true
      → render (insert id halfway (slots t)) ≡ layout (insert id e' t)
  stayed q =
      ap (λ d. render (insert id (record halfway { side = side_of d e.result }) (slots t)))
        (same_dir→eq (dir_of e) (dir_of e') q)
      ∙ sym layout-moved

  -- and where its name stays too, nothing is moved
  stood :
      same_dir (dir_of e) (dir_of e') ≡ true
      → same (tail_of e.state) (tail_of e'.state) ≡ true
      → layout t ≡ layout (insert id e' t)
  stood q r =
      slotted
      ∙ ap₂ (λ d x. render (insert id (record (slot_of e) { dir = d; tail = x }) (slots t)))
          (same_dir→eq (dir_of e) (dir_of e') q) (same→eq (tail_of e.state) (tail_of e'.state) r)
      ∙ stayed q
    where
      slotted : layout t ≡ render (insert id (slot_of e) (slots t))
      slotted =
          unfold layout in
          ap render (sym (insert_same id (slot_of e) (slots t) (slot_here id e t here)))

  same_path-dotted :
      same_path (path (dir_of e) id (tail_of e.state)) (path (dir_of e') id (tail_of e'.state))
      ≡ (same_dir (dir_of e) (dir_of e') && same (tail_of e.state) (tail_of e'.state))
  unfolding same_path
  same_path-dotted =
      ap (λ b. same_dir (dir_of e) (dir_of e') && b)
        (same-append id (codes "." ++ tail_of e.state) (codes "." ++ tail_of e'.state)
          ∙ same-append (codes ".") (tail_of e.state) (tail_of e'.state))

  -- Transition's move, from the item's file to the name of its new state
  pub move_from-layout :
      (expect : State)
      → dir_of e' ≡ status_dir e'.state.status
      → move_from (path (dir_of e) id (tail_of e.state)) id expect e'.state (layout t)
        ≡ (ok tt, layout (insert id e' t))
  unfolding move_from move_item layout
  move_from-layout expect at_status =
      elim (Bool-cases
        (same_dir (dir_of e) (dir_of e') && same (tail_of e.state) (tail_of e'.state))) [
          | inl still ↦
              ground (arith, at_status, file_name-dotted id e'.state, same_path-dotted, stood)
          | inr away ↦ ground (
            arith,
            at_status,
            file_name-dotted id e'.state,
            same_path-dotted,
            stat_free id (slot_of e) (slots t) hid (slots-IsTable t h.table) (slot_here id e t here)
                (tail_of-IsTail e.state) (dir_of e') (tail_of e'.state) (tail_of-IsTail e'.state)
                away,
            rename_item id (slot_of e) (slots t) hid (slots-IsTable t h.table)
                (slot_here id e t here) (tail_of-IsTail e.state) (dir_of e') (tail_of e'.state)
                (tail_of-IsTail e'.state) away,
            stayed,
            followed,
          )
        ]
