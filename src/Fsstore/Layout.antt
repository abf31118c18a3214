-- ===== src/Fsstore/Layout.antt =====
-- The disk of a healthy store, laid out from a table of its items: one file for each item, and its
-- sidecar beside it. `Slot` is where one item's files are.
pub mod Files
pub mod Tables
pub mod Edits
pub mod Calls
pub mod Located
use macguffin.Prelude.{
  ◌≡◌, List, [], ◌∷◌, ◌++◌, Option, none, some, Bytes, codes, lookup, is_nil, if◌then◌else◌, arith,
  refl, Bool, true, false,
}
use macguffin.Store.{Status, claimed, archived, State, same_status}
use macguffin.Store.Spec.{Entry}
use macguffin.Fsstore.{Dir, status_dir, partition_dir}
use macguffin.Fsstore.Disk.{File, Disk}
use macguffin.Fsstore.Names.{IsId, dotted, tail_of}

-- `tail` is the item's name behind the dot.
pub record Slot : Type 0 where
  pub dir : Dir
  pub tail : Bytes
  pub content : Bytes
  pub side : Option (Dir × Bytes)

abbrev pub item_file : Bytes → Slot → File
item_file id s = record { dir = s.dir; name = dotted id s.tail; content = s.content }

abbrev pub side_files : Bytes → Option (Dir × Bytes) → List File
side_files id none = []
side_files id (some (d, r)) =
    record { dir = d; name = dotted id (codes "result.json"); content = r } ∷ []

abbrev pub files : Bytes → Slot → List File
files id s = item_file id s ∷ side_files id s.side

abbrev pub render : List (Bytes × Slot) → Disk
render [] = []
render ((id, s) ∷ t) = files id s ++ render t

-- Each id once.
abbrev pub IsTable {ℓ} : {V : Type ℓ} → List (Bytes × V) → Type ℓ
IsTable [] = Unit
IsTable ((id, v) ∷ t) = IsId id × (lookup id t ≡ none) × IsTable t

abbrev pub dir_of : Entry → Dir
dir_of e =
    if same_status e.state.status archived
    then partition_dir e.partition
    else status_dir e.state.status

abbrev pub side_of : Dir → Option Bytes → Option (Dir × Bytes)
side_of d none = none
side_of d (some r) = some (d, r)

abbrev pub slot_of : Entry → Slot
slot_of e = record {
  dir = dir_of e;
  tail = tail_of e.state;
  content = e.content;
  side = side_of (dir_of e) e.result;
}

abbrev pub slots : List (Bytes × Entry) → List (Bytes × Slot)
slots [] = []
slots ((id, e) ∷ t) = (id, slot_of e) ∷ slots t

unfoldable pub layout : List (Bytes × Entry) → Disk
layout t = render (slots t)

-- Only a claim has a holder, only an archived record a partition.
pub record IsEntry (e : Entry) : Type 0 where
  pub unheld : same_status e.state.status claimed ≡ false → e.state.holder ≡ []
  pub unfiled : same_status e.state.status archived ≡ false → e.partition ≡ []
