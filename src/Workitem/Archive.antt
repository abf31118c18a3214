-- ===== src/Workitem/Archive.antt =====
-- internal/workitem/archive.go, ArchiveItem, with moveBodyBackups and pruneBodyBackups of bodybackup.go:
-- archiving one item. `partition_of` prints the month of a time, `parse_stamp` is time.Parse of a
-- backup's stamp. Events are left out.
pub mod Guarded
pub mod Filed
use macguffin.Prelude.{
  ℕ, zero, suc, Bool, true, false, ◌||◌, List, [], ◌∷◌, Option, none, some, Bytes, codes, same,
  keep, is_nil, is_some, length, ltb, leb, ◌==◌, if◌then◌else◌,
}
use macguffin.Store.{done, archived, same_status, Actor, Ref, Err, exists, Result, ok, err}
use macguffin.Lines.{cut}
use macguffin.Workitem.Item.{Item}
use macguffin.Workitem.Resolve.{
  Access, Match, Outcome, good, bad, Failure, conflict, resolve, resolve_unique,
}
use macguffin.Workitem.Lifecycle.{io_error, writer, read_match, explained, status_of}
use macguffin.Workitem.Explain.{explain_archive_failure}
use macguffin.Workitem.Modify.{match_now}
use macguffin.Workitem.Guards.{check_archive_guards}
use macguffin.Workitem.Done.{link, ref_of_match}

-- the rest of a text before the suffix
unfoldable pub before_suffix : Bytes → Bytes → Option Bytes
unfolding same
before_suffix suffix [] = if is_nil suffix then some [] else none
before_suffix suffix (c ∷ s) =
    let rest = before_suffix suffix s in
    if same suffix (c ∷ s) then some [] else elim rest [ none ↦ none | some t ↦ some (c ∷ t) ]

-- parseBackupName
unfoldable pub parse_backup_name : (Bytes → Option ℕ) → Bytes → Option (Bytes × Bytes)
unfolding before_suffix cut
parse_backup_name parse_stamp name = elim (before_suffix (codes ".md") name) [
  | none ↦ none
  | some base ↦ elim (cut (codes "-") base) [
    | none ↦ none
    | some (stamp, hash) ↦
        if is_nil stamp || is_nil hash
        then none
        else elim (parse_stamp stamp) [ none ↦ none | some t ↦ some (stamp, hash) ]
  ]
]

unfoldable pub is_backup : (Bytes → Option ℕ) → Bytes → Bool
unfolding parse_backup_name
is_backup parse_stamp name = is_some (parse_backup_name parse_stamp name)

-- the order of Go's strings
unfoldable pub text_below : Bytes → Bytes → Bool
text_below s [] = false
text_below [] (d ∷ t) = true
text_below (c ∷ s) (d ∷ t) =
    let rest = text_below s t in if ltb c d then true else if c == d then rest else false

unfoldable pub insert_down : Bytes → List Bytes → List Bytes
unfolding text_below
insert_down n [] = n ∷ []
insert_down n (m ∷ ms) =
    let rest = insert_down n ms in if text_below n m then m ∷ rest else n ∷ m ∷ ms

-- sort.Sort(sort.Reverse(…)) of names, of which no two are equal
unfoldable pub sort_down : List Bytes → List Bytes
unfolding insert_down
sort_down [] = []
sort_down (n ∷ ns) = insert_down n (sort_down ns)

unfoldable pub drop : ℕ → List Bytes → List Bytes
drop zero ns = ns
drop (suc n) [] = []
drop (suc n) (x ∷ xs) = drop n xs

-- Companions, as far as moving saved bodies calls them
pub record Bodies (S : Type 0) : Type 0 where
  pub names : Ref → S → Result (List Bytes) × S
  pub remove : Ref → Bytes → S → Result (Unit {0}) × S
  pub move : Ref → Ref → S → Result (Unit {0}) × S
  pub parse_stamp : Bytes → Option ℕ

-- the loop of pruneBodyBackups
unfoldable pub remove_each : {S : Type 0} → Bodies S → Ref → List Bytes → S → Result (Unit {0}) × S
remove_each c ref [] s = (ok tt, s)
remove_each c ref (n ∷ ns) s =
    let r = c.remove ref n s in
    let rest = remove_each c ref ns r.1 in elim r.0 [ err e ↦ (err e, r.1) | ok x ↦ rest ]

-- bodyBackupKeep
abbrev pub body_backup_keep : ℕ
body_backup_keep = 10

-- pruneBodyBackups
unfoldable pub prune_body_backups : {S : Type 0} → Bodies S → Ref → S → Result (Unit {0}) × S
unfolding is_backup sort_down drop remove_each
prune_body_backups c ref s =
    let ns = c.names ref s in
    elim ns.0 [
      | err e ↦ (err e, ns.1)
      | ok all_names ↦
          let names = keep (is_backup c.parse_stamp) all_names in
          if leb (length names) body_backup_keep
          then (ok tt, ns.1)
          else remove_each c ref (drop body_backup_keep (sort_down names)) ns.1
    ]

-- moveBodyBackups
unfoldable pub move_body_backups : {S : Type 0} → Bodies S → Ref → Ref → S → Result (Unit {0}) × S
unfolding prune_body_backups
move_body_backups c from to s =
    let r = c.move from to s in
    elim r.0 [ err e ↦ (err e, r.1) | ok x ↦ prune_body_backups c to r.1 ]

-- errDestinationExists
abbrev pub destination_exists : Failure
destination_exists = conflict (codes "destination_exists")

-- what ArchiveItem makes of an error of the backend's Archive
unfoldable pub archive_error : Err → Failure
archive_error (exists id) = destination_exists
archive_error _ = io_error

module _ {S : Type 0} (b : Access S) (digest : Bytes → Bytes) (parse_time : Bytes → Option ℕ)
    (format_time : ℕ → Bytes) (others : ℕ → S → S) (now : ℕ) (who : Actor) (c : Bodies S)
    (partition_of : ℕ → Bytes) where
  -- archiveFile, after its move
  unfoldable pub carry_bodies : Match → Bytes → Item → S → Outcome Item × S
  unfolding move_body_backups ref_of_match
  carry_bodies m partition it s =
      let r =
        move_body_backups c (ref_of_match m)
          (record { id = m.id; status = archived; partition = partition }) s in
      elim r.0 [ err e ↦ (bad io_error, r.1) | ok x ↦ (good it, r.1) ]

  -- archiveFile
  unfoldable pub archive_file : Match → Item → S → Outcome Item × S
  unfolding carry_bodies archive_error writer
  archive_file m it s =
      let partition = partition_of m.doc.mtime in
      let t = b.backend.archive m.id partition (writer who 0) s in
      elim t.0 [ err e ↦ (bad (archive_error e), t.1) | ok x ↦ carry_bodies m partition it t.1 ]

  -- ArchiveItem, after its guards
  unfoldable pub archive_guarded : Bytes → Match → Item → S → Outcome Item × S
  unfolding match_now resolve archive_file status_of explain_archive_failure
  archive_guarded id m it s =
      let r = resolve b m.id s in
      elim (match_now done r.0) [
        | bad f ↦ explained b explain_archive_failure id r.1
        | good m' ↦ archive_file m' it r.1
      ]

  -- ArchiveItem, once the item is linked
  unfoldable pub archive_linked : Bool → Bytes → Match → Outcome Item × S → Outcome Item × S
  unfolding check_archive_guards archive_guarded
  archive_linked force id m (bad f, s) = (bad f, s)
  archive_linked force id m (good it, s) =
      let g = check_archive_guards b it s in
      let rest = archive_guarded id m it g.1 in
      elim g.0 [ good x ↦ rest | bad f ↦ if force then rest else (bad f, g.1) ]

  -- ArchiveItem
  unfoldable pub archive_item : Bool → Bytes → Bytes → S → Outcome Item × S
  unfolding resolve_unique same_status read_match link archive_linked status_of
      explain_archive_failure
  archive_item force successor id s =
      let r = resolve_unique b id s in
      elim r.0 [
        | bad f ↦ (bad f, r.1)
        | good m ↦
            if same_status m.status done
            then elim (read_match b parse_time m) [
              | bad f ↦ (bad f, r.1)
              | good it ↦
                  archive_linked force id m
                    (link b digest parse_time format_time others now who m it successor r.1)
            ]
            else explained b explain_archive_failure id r.1
      ]
