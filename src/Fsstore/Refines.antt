-- ===== src/Fsstore/Refines.antt =====
-- The filesystem backend keeps the contract of store.Backend on healthy disks. Here: what the
-- contract sees of a disk, and how the proofs of the children end.
pub mod Follow
pub mod Moves
pub mod Archival
pub mod Writes
use macguffin.Prelude.{
  ℕ, ◌≡◌, refl, sym, ◌∙◌, ap, ap₂, subst, keep, same_refl, Option-cases, arith, Bool, true, false,
  List, [], ◌∷◌, Option, none, some, Bytes, codes, same, same_iff, same→eq, same-ne, lookup, insert,
  lookup-insert, is_nil, if◌then◌else◌, Bool-cases, inl, inr,
}
use macguffin.Store.{State, Result, Doc, same_status, claimed}
use macguffin.Store.Spec
use macguffin.Store.Spec.{Entry, View, update}
use macguffin.Store.Backend.{Follows}
use macguffin.Fsstore.{Dir, result_sidecar_name}
use macguffin.Fsstore.Disk.{File, Disk, stat, first, at}
use macguffin.Fsstore.Locate.{Location, locate, state_of, path_of}
use macguffin.Fsstore.Names.{IsId, dotted, tail_of}
use macguffin.Fsstore.Layout.{
  Slot, slots, slot_of, layout, dir_of, IsTable, IsEntry, side_of, side_files, item_file,
}
use macguffin.Fsstore.Layout.Tables.{insert-IsTable}
use macguffin.Fsstore.Layout.Edits.{path}
use macguffin.Fsstore.Layout.Calls.{
  IsTail, tail_of-IsTail, stat_item, stat_sidecar, side_tail, at_file, same_dir_refl,
}
use macguffin.Fsstore.Layout.Located.{
  lookup-slots, slots-IsTable, locate-layout-none, locate-layout-some, location_of,
  state_of-location, mapped,
}

abbrev pub content_of : Option File → Option Bytes
content_of none = none
content_of (some f) = some f.content

abbrev entry_at : Location → Bytes → Disk → Option File → Option Entry
entry_at l id disk none = none
entry_at l id disk (some f) = some (record {
  state = state_of l id;
  partition = l.partition;
  content = f.content;
  result = content_of (stat (record { dir = l.dir; name = result_sidecar_name id }) disk);
})

-- What the disk holds under an id, if that is one record: its state, its content and its sidecar.
unfoldable pub view : Disk → View
view disk id = elim (locate disk id) [
  | [] ↦ none
  | l ∷ more ↦ if is_nil more then entry_at l id disk (stat (path_of l) disk) else none
]

-- A table of items, each id once and each state one that a file name can tell.
pub record IsStore (t : List (Bytes × Entry)) : Type 0 where
  pub table : IsTable t
  pub entries : (id : Bytes) (e : Entry) → lookup id t ≡ some e → IsEntry e

-- The disk is that of a store: nothing else lies in it, and no id names two records.
pub record IsHealthy (disk : Disk) : Type 0 where
  pub items : List (Bytes × Entry)
  pub is_store : IsStore items
  pub laid : disk ≡ layout items

own_side :
    (id : Bytes) (d : Dir) (r : Option Bytes)
    → content_of (first (keep (at (path d id side_tail)) (side_files id (side_of d r)))) ≡ r
own_side id d none = refl
own_side id d (some c) =
    ground (arith, at_file id side_tail side_tail c d d, same_dir_refl d, same_refl side_tail)

pub insert-IsStore :
    (id : Bytes) (e : Entry) (t : List (Bytes × Entry))
    → IsId id
    → IsStore t
    → IsEntry e
    → IsStore (insert id e t)
insert-IsStore id e t hid h he = record {
  table = insert-IsTable id e t hid h.table;
  entries = λ j x found. elim (Bool-cases (same id j)) [
    | inl q ↦
        let same_entry : e ≡ x = ground (arith, lookup-insert id j e t) in
        subst IsEntry same_entry he
    | inr q ↦ h.entries j x (ground (arith, lookup-insert id j e t))
  ];
}

-- The slot of an item of a store.
pub slot_here :
    (id : Bytes) (e : Entry) (t : List (Bytes × Entry))
    → lookup id t ≡ some e
    → lookup id (slots t) ≡ some (slot_of e)
slot_here id e t here = lookup-slots id t ∙ ap mapped here

side_stat :
    (id : Bytes) (e : Entry) (t : List (Bytes × Entry))
    → IsId id
    → IsStore t
    → lookup id t ≡ some e
    → content_of (stat (record { dir = dir_of e; name = result_sidecar_name id }) (layout t))
      ≡ e.result
unfolding layout result_sidecar_name
side_stat id e t hid h here =
    ap content_of (
      stat_sidecar id (slot_of e) (slots t) hid (slots-IsTable t h.table) (slot_here id e t here)
        (tail_of-IsTail e.state) (dir_of e))
    ∙ own_side id (dir_of e) e.result

pub item_stat :
    (id : Bytes) (e : Entry) (t : List (Bytes × Entry))
    → IsId id
    → IsStore t
    → lookup id t ≡ some e
    → stat (path (dir_of e) id (tail_of e.state)) (layout t) ≡ some (item_file id (slot_of e))
unfolding layout
item_stat id e t hid h here =
    stat_item id (slot_of e) (slots t) hid (slots-IsTable t h.table) (slot_here id e t here)
      (tail_of-IsTail e.state)

-- The view of a laid out table is the table.
pub view-layout :
    (id : Bytes) (t : List (Bytes × Entry)) → IsId id → IsStore t → view (layout t) id ≡ lookup id t
unfolding view
view-layout id t hid h = elim (Option-cases (lookup id t)) [
  | inl gone ↦ rw (locate-layout-none id t hid h.table gone, gone, view)
  | inr (e, here) ↦
      let he = h.entries id e here in
      rw (locate-layout-some id t hid h.table e here he, here, view)
        (ap (entry_at (location_of id e) id (layout t)) (item_stat id e t hid h here)
          ∙ ap₂
              (λ st r.
                some
                  (record { state = st; partition = e.partition; content = e.content; result = r }))
              (state_of-location id e he) (side_stat id e t hid h here))
]

-- To follow the contract from a laid out table it is enough to answer as it does and to end in a
-- laid out table that its view describes.
pub settled :
    (t : List (Bytes × Entry)) (got : Result (Unit {0}) × Disk) (want : Spec.Step)
    → IsStore t
    → got.0 ≡ want.0
    → got.1 ≡ layout t
    → ((j : Bytes) → IsId j → lookup j t ≡ want.1 j)
    → Follows IsId IsHealthy view got want
settled t got want h answer ends views = record {
  answer = answer;
  healthy = record { items = t; is_store = h; laid = ends };
  viewed = λ j hj. rw ends (view-layout j t hj h ∙ views j hj);
}

-- A state that a file name can tell: only a claim has a holder.
abbrev pub IsState : State → Type 0
IsState st = same_status st.status claimed ≡ false → st.holder ≡ []
