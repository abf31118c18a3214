-- ===== src/Fsstore/Layout/Located.antt =====
-- The scans of locate.go on a laid out store: an item is found exactly where its entry says.
use macguffin.Prelude.{
  ◌≡◌, refl, ◌∙◌, ap, arith, Bool, true, false, ◌&&◌, List, [], ◌∷◌, ◌++◌, Option, none, some,
  Bytes, codes, same, same_refl, lookup, insert, keep, if◌then◌else◌, Bool-cases, inl, inr,
}
use macguffin.Store.{
  Status, available, claimed, done, pending, shelved, archived, same_status, same_status_iff,
}
use macguffin.Store.Spec.{Entry}
use macguffin.Fsstore.{Dir, in_work, same_dir, status_dir, partition_dir, matches_archived_id}
use macguffin.Fsstore.Disk.{File, Disk}
use macguffin.Fsstore.Locate.{
  Location, locate, scan_active, located, located_archive, entry_of, archived_file, state_of,
}
use macguffin.Fsstore.Names.{
  IsId, dotted, tail_of, matches_id-other, matches_id_self, matches_id-sidecar,
  matches_archived_id-other, matches_archived_id-sidecar, holder_of-claimed,
}
use macguffin.Fsstore.Layout.{
  Slot, item_file, side_files, side_of, files, slots, slot_of, layout, dir_of, IsTable, IsEntry,
}
use macguffin.Fsstore.Layout.Files.{Skips, found, keep-render}

abbrev pub mapped : Option Entry → Option Slot
mapped none = none
mapped (some e) = some (slot_of e)

pub lookup-slots :
    (id : Bytes) (t : List (Bytes × Entry)) → lookup id (slots t) ≡ mapped (lookup id t)
unfolding lookup
lookup-slots id [] = refl
lookup-slots id ((j, e) ∷ t) = elim (Bool-cases (same j id)) [
  | inl h ↦ rw h
  | inr h ↦ rw h (lookup-slots id t)
]

pub slots-insert :
    (id : Bytes) (e : Entry) (t : List (Bytes × Entry))
    → insert id (slot_of e) (slots t) ≡ slots (insert id e t)
unfolding insert
slots-insert id e [] = refl
slots-insert id e ((j, x) ∷ t) = elim (Bool-cases (same j id)) [
  | inl h ↦ rw h
  | inr h ↦ rw h (ap (λ r. (j, slot_of x) ∷ r) (slots-insert id e t))
]

pub slots-IsTable : (t : List (Bytes × Entry)) → IsTable t → IsTable (slots t)
slots-IsTable [] h = tt
slots-IsTable ((id, e) ∷ t) (hid, new, h) =
    (hid, lookup-slots id t ∙ ap mapped new, slots-IsTable t h)

pub entry_of-Skips : (id : Bytes) (d : Dir) → IsId id → Skips id (entry_of d id)
unfolding entry_of
entry_of-Skips id d h = record {
  others = λ id' h' ne d' r c. ground (arith, matches_id-other id id' r h h' ne);
}

archived_file-Skips : (id : Bytes) → IsId id → Skips id (archived_file id)
unfolding archived_file
archived_file-Skips id h = record {
  others = λ id' h' ne d' r c.
      ground (arith, matches_id-other id id' r h h' ne, matches_archived_id-other id id' r h h' ne);
}

pub entry_of-side_files :
    (id : Bytes) (d d' : Dir) (r : Option Bytes)
    → keep (entry_of d id) (side_files id (side_of d' r)) ≡ []
unfolding entry_of
entry_of-side_files id d d' none = refl
entry_of-side_files id d d' (some c) = ground (arith, matches_id-sidecar id)

archived_file-side_files :
    (id : Bytes) (d : Dir) (r : Option Bytes)
    → keep (archived_file id) (side_files id (side_of d r)) ≡ []
unfolding archived_file
archived_file-side_files id d none = refl
archived_file-side_files id d (some c) =
    ground (arith, matches_id-sidecar id, matches_archived_id-sidecar id)

pub entry_of-item :
    (id : Bytes) (d : Dir) (e : Entry)
    → entry_of d id (item_file id (slot_of e)) ≡ (same_dir (dir_of e) d && true)
unfolding entry_of
entry_of-item id d e = ap (λ m. same_dir (dir_of e) d && m) (matches_id_self id e.state)

pub entry_of-files :
    (id : Bytes) (d : Dir) (e : Entry)
    → keep (entry_of d id) (files id (slot_of e))
      ≡ (if same_dir (dir_of e) d then item_file id (slot_of e) ∷ [] else [])
entry_of-files id d e =
    ground (arith, entry_of-item id d e, entry_of-side_files id d (dir_of e) e.result)

filed_at :
    (id : Bytes) (st : Status) (h p : Bytes)
    → archived_file id (record {
      dir = if same_status st archived then partition_dir p else status_dir st;
      name = dotted id (tail_of (record { status = st; holder = h }));
      content = [];
    })
      ≡ same_status st archived
unfolding archived_file partition_dir status_dir same_status
filed_at id archived h [] = unfold tail_of matches_archived_id in same_refl (dotted id (codes "md"))
filed_at id archived h (c ∷ p) = matches_id_self id (record { status = archived; holder = h })
filed_at id _ h p = refl

archived_file-item :
    (id : Bytes) (e : Entry)
    → archived_file id (item_file id (slot_of e)) ≡ same_status e.state.status archived
unfolding archived_file
archived_file-item id e = filed_at id e.state.status e.state.holder e.partition

archived_file-files :
    (id : Bytes) (e : Entry)
    → keep (archived_file id) (files id (slot_of e))
      ≡ (if same_status e.state.status archived then item_file id (slot_of e) ∷ [] else [])
archived_file-files id e =
    ground (arith, archived_file-item id e, archived_file-side_files id (dir_of e) e.result)

abbrev pub location_of : Bytes → Entry → Location
location_of id e = record {
  dir = dir_of e;
  name = dotted id (tail_of e.state);
  status = e.state.status;
  partition = e.partition;
}

pub state_of-location :
    (id : Bytes) (e : Entry) → IsEntry e → state_of (location_of id e) id ≡ e.state
unfolding state_of
state_of-location id e h =
    ground (arith, holder_of-claimed id e.state, same_status_iff e.state.status claimed, h.unheld)

-- Locate of an id that is not empty
locate_scans :
    (disk : Disk) (id : Bytes)
    → IsId id
    → locate disk id
      ≡ located available (keep (entry_of (in_work available) id) disk)
        ++ (located claimed (keep (entry_of (in_work claimed) id) disk)
            ++ (located done (keep (entry_of (in_work done) id) disk)
                ++ (located pending (keep (entry_of (in_work pending) id) disk)
                    ++ (located shelved (keep (entry_of (in_work shelved) id) disk) ++ []))))
        ++ located_archive (keep (archived_file id) disk)
locate_scans disk [] h = cc (h.ne_nil)
locate_scans disk (c ∷ id) h = unfold locate scan_active in refl

abbrev once : Bool → File → List File
once b f = if b then f ∷ [] else []

-- Of the six scans one finds the item.
gathered_at :
    (id content : Bytes) (st : Status) (h p : Bytes) (r : Option Bytes)
    → (same_status st archived ≡ false → p ≡ [])
    → let e : Entry = record {
      state = record { status = st; holder = h };
      partition = p;
      content = content;
      result = r;
    } in
      located available (once (same_dir (dir_of e) (in_work available)) (item_file id (slot_of e)))
        ++ (located claimed
              (once (same_dir (dir_of e) (in_work claimed)) (item_file id (slot_of e)))
            ++ (located done (once (same_dir (dir_of e) (in_work done)) (item_file id (slot_of e)))
                ++ (located pending
                      (once (same_dir (dir_of e) (in_work pending)) (item_file id (slot_of e)))
                    ++ (located shelved
                          (once (same_dir (dir_of e) (in_work shelved)) (item_file id (slot_of e)))
                        ++ []))))
        ++ located_archive (once (same_status st archived) (item_file id (slot_of e)))
      ≡ location_of id e ∷ []
unfolding located located_archive same_dir status_dir partition_dir same_status
gathered_at id content archived h [] r u = refl
gathered_at id content archived h (c ∷ p) r u = refl
gathered_at id content available h p r u = rw (u refl)
gathered_at id content claimed h p r u = rw (u refl)
gathered_at id content done h p r u = rw (u refl)
gathered_at id content pending h p r u = rw (u refl)
gathered_at id content shelved h p r u = rw (u refl)

module _ (id : Bytes) (t : List (Bytes × Entry)) (hid : IsId id) (ht : IsTable t) where
  pub found-layout :
      (p : File → Bool) → Skips id p → keep p (layout t) ≡ found p id (mapped (lookup id t))
  unfolding layout
  found-layout p skips =
      keep-render id p skips (slots t) (slots-IsTable t ht) ∙ ap (found p id) (lookup-slots id t)

  scanned :
      (d : Dir) → keep (entry_of d id) (layout t) ≡ found (entry_of d id) id (mapped (lookup id t))
  scanned d = found-layout (entry_of d id) (entry_of-Skips id d hid)

  filed : keep (archived_file id) (layout t) ≡ found (archived_file id) id (mapped (lookup id t))
  filed = found-layout (archived_file id) (archived_file-Skips id hid)

  -- An id that the table lacks is located nowhere.
  pub locate-layout-none : lookup id t ≡ none → locate (layout t) id ≡ []
  locate-layout-none e =
      let at_dir = λ (d : Dir). scanned d ∙ ap (found (entry_of d id) id) (ap mapped e) in
      let in_archive = filed ∙ ap (found (archived_file id) id) (ap mapped e) in
      locate_scans (layout t) id hid
      ∙ rw
          (
            at_dir (in_work available),
            at_dir (in_work claimed),
            at_dir (in_work done),
            at_dir (in_work pending),
            at_dir (in_work shelved),
            in_archive,
          )
          (unfold located located_archive in refl)

  -- An item is located once, as its entry says.
  pub locate-layout-some :
      (e : Entry) → lookup id t ≡ some e → IsEntry e → locate (layout t) id ≡ location_of id e ∷ []
  locate-layout-some e here h =
      let at_dir = λ (d : Dir).
        scanned d ∙ ap (found (entry_of d id) id) (ap mapped here) ∙ entry_of-files id d e in
      let in_archive =
        filed ∙ ap (found (archived_file id) id) (ap mapped here) ∙ archived_file-files id e in
      locate_scans (layout t) id hid
      ∙ rw
          (
            at_dir (in_work available),
            at_dir (in_work claimed),
            at_dir (in_work done),
            at_dir (in_work pending),
            at_dir (in_work shelved),
            in_archive,
          )
          (gathered_at id e.content e.state.status e.state.holder e.partition e.result h.unfiled)
