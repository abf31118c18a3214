-- ===== src/Fsstore.antt =====
-- store/fsstore: an item's state is the directory and the name of its file. Here: the directories
-- and the names (fs.go, locate.go). The root of the workspace is fixed, and ids, holders and
-- partitions hold no `/`, so that a path is a directory of the layout and a name in it.
pub mod Names
pub mod Disk
pub mod Locate
pub mod Ops
pub mod Layout
pub mod Refines
use macguffin.Prelude.{
  ℕ, Bool, true, false, ◌&&◌, ◌||◌, not, [], ◌∷◌, ◌++◌, Option, none, some, Bytes, codes, same,
  has_prefix, trim_prefix, is_nil, itoa, ◌==◌, if◌then◌else◌,
}
use macguffin.Store.{Status, claimed, archived, State, Actor, same_status}

-- <root>/work/<status>, <root>/work/archive and <root>/work/archive/<partition>
pub data Dir : Type 0 where
  in_work : Status → Dir
  archive_root : Dir
  archive_part : Bytes → Dir

unfoldable pub same_dir : Dir → Dir → Bool
unfolding same_status
same_dir (in_work s) (in_work t) = same_status s t
same_dir archive_root archive_root = true
same_dir (archive_part p) (archive_part q) = same p q
same_dir _ _ = false

-- StatusDir
unfoldable pub status_dir : Status → Dir
status_dir archived = archive_root
status_dir st = in_work st

-- filepath.Join(StatusDir(root, Archived), partition)
unfoldable pub partition_dir : Bytes → Dir
partition_dir [] = archive_root
partition_dir (c ∷ p) = archive_part (c ∷ p)

abbrev pub md : Bytes
md = codes "md"

-- FileName
unfoldable pub file_name : Bytes → State → Bytes
unfolding same_status
file_name id st =
    if same_status st.status claimed && not (is_nil st.holder)
    then id ++ (codes ".md." ++ st.holder)
    else id ++ codes ".md"

-- ResultSidecarName
unfoldable pub result_sidecar_name : Bytes → Bytes
result_sidecar_name id = id ++ codes ".result.json"

-- withHolder
unfoldable pub with_holder : State → Actor → State
unfolding same_status
with_holder st by =
    if same_status st.status claimed && is_nil st.holder && not (by.pid == 0)
    then record st { holder = itoa by.pid }
    else st

-- MatchesID
unfoldable pub matches_id : Bytes → Bytes → Bool
matches_id name id = same name (id ++ codes ".md") || has_prefix (id ++ codes ".md.") name

-- MatchesArchivedID
unfoldable pub matches_archived_id : Bytes → Bytes → Bool
matches_archived_id name id = same name (id ++ codes ".md")

-- holderOf
unfoldable pub holder_of : Bytes → Bytes → Bytes
holder_of name id = trim_prefix (codes ".") (trim_prefix (id ++ codes ".md") name)
