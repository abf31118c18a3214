-- ===== src/Fsstore/Locate.antt =====
-- locate.go: every file that names an id. A directory is read in the order of the disk's list,
-- which stands for the order of os.ReadDir.
use macguffin.Prelude.{Bool, false, ◌&&◌, List, [], ◌∷◌, ◌++◌, Bytes, keep, if◌then◌else◌}
use macguffin.Store.{Status, claimed, archived, State, same_status, active_statuses}
use macguffin.Fsstore.{
  Dir, in_work, archive_root, archive_part, same_dir, matches_id, matches_archived_id, holder_of,
}
use macguffin.Fsstore.Disk.{File, Disk, FilePath}

-- Location
pub record Location : Type 0 where
  pub dir : Dir
  pub name : Bytes
  pub status : Status
  pub partition : Bytes

-- the entries of one directory that name the id
unfoldable pub entry_of : Dir → Bytes → File → Bool
unfolding same_dir
entry_of d id f = same_dir f.dir d && matches_id f.name id

abbrev active_location : Status → File → Location
active_location st f = record { dir = f.dir; name = f.name; status = st; partition = [] }

unfoldable pub located : Status → List File → List Location
located st [] = []
located st (f ∷ fs) = active_location st f ∷ located st fs

unfoldable pub scan_active : Disk → Bytes → List Status → List Location
unfolding entry_of located
scan_active disk id [] = []
scan_active disk id (st ∷ sts) =
    located st (keep (entry_of (in_work st) id) disk) ++ scan_active disk id sts

-- loose archived records match strictly, those of a partition as active ones do
unfoldable pub archived_file : Bytes → File → Bool
archived_file id f = elim f.dir [
  | in_work st ↦ false
  | archive_root ↦ matches_archived_id f.name id
  | archive_part p ↦ matches_id f.name id
]

abbrev pub part_of : Dir → Bytes
part_of (in_work st) = []
part_of archive_root = []
part_of (archive_part p) = p

unfoldable pub located_archive : List File → List Location
located_archive [] = []
located_archive (f ∷ fs) =
    record { dir = f.dir; name = f.name; status = archived; partition = part_of f.dir }
    ∷ located_archive fs

-- Locate
unfoldable pub locate : Disk → Bytes → List Location
unfolding scan_active archived_file located_archive
locate disk [] = []
locate disk (c ∷ id) =
    scan_active disk (c ∷ id) active_statuses
    ++ located_archive (keep (archived_file (c ∷ id)) disk)

-- stateOf
unfoldable pub state_of : Location → Bytes → State
unfolding same_status
state_of l id = record {
  status = l.status;
  holder = if same_status l.status claimed then holder_of l.name id else [];
}

abbrev pub path_of : Location → FilePath
path_of l = record { dir = l.dir; name = l.name }
