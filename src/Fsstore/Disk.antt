-- ===== src/Fsstore/Disk.antt =====
-- The files of the store and the system calls of prim.go on them. A disk is its list of files; a
-- path names one at most in a real one. Only the errors that the store tells apart are modelled, and
-- the directories of the layout are there (`mg init`).
use macguffin.Prelude.{
  Bool, ◌&&◌, ◌||◌, List, [], ◌∷◌, ◌++◌, Option, none, some, Bytes, same, is_nil, keep,
  if◌then◌else◌,
}
use macguffin.Fsstore.{Dir, same_dir}

pub record File : Type 0 where
  pub dir : Dir
  pub name : Bytes
  pub content : Bytes

abbrev pub Disk : Type 0
Disk = List File

-- a directory and a name in it
pub record FilePath : Type 0 where
  pub dir : Dir
  pub name : Bytes

unfoldable pub same_path : FilePath → FilePath → Bool
unfolding same_dir
same_path p q = same_dir p.dir q.dir && same p.name q.name

-- the file stands at the path
unfoldable pub at : FilePath → File → Bool
unfolding same_dir
at p f = same_dir f.dir p.dir && same f.name p.name

abbrev pub first {ℓ} : {A : Type ℓ} → List A → Option A
first [] = none
first (x ∷ xs) = some x

-- os.Stat, os.Lstat and os.ReadFile: the file at the path
unfoldable pub stat : FilePath → Disk → Option File
stat p disk = first (keep (at p) disk)

-- what a call makes of the file at one path
unfoldable pub change : FilePath → (File → List File) → Disk → Disk
change p h [] = []
change p h (f ∷ disk) = if at p f then h f ++ change p h disk else f ∷ change p h disk

-- os.IsNotExist, fs.ErrExist, and ErrChanged with the two hashes
pub data Errno : Type 0 where
  not_exist : Errno
  already : Errno
  mismatch : Bytes → Bytes → Errno

pub data Call : Type 0 where
  did : Disk → Call
  failed : Errno → Call

abbrev pub moved : FilePath → File → List File
moved dst f = record { dir = dst.dir; name = dst.name; content = f.content } ∷ []

-- rename(2): a file at dst is replaced
unfoldable pub rename : FilePath → FilePath → Disk → Call
rename src dst disk = elim (stat src disk) [
  | none ↦ failed not_exist
  | some f ↦
      did (if same_path src dst then disk else change src (moved dst) (change dst (λ _. []) disk))
]

-- MoveItem
unfoldable pub move_item : FilePath → FilePath → Disk → Call
unfolding rename
move_item src dst disk = rename src dst disk

-- MoveFile
unfoldable pub move_file : FilePath → FilePath → Disk → Call
unfolding rename
move_file src dst disk = rename src dst disk

-- link(2)
unfoldable pub link : FilePath → FilePath → Disk → Call
link src dst disk = elim (stat src disk) [
  | none ↦ failed not_exist
  | some f ↦ elim (stat dst disk) [
    | some g ↦ failed already
    | none ↦ did (change src (λ g. g ∷ moved dst g) disk)
  ]
]

-- unlink(2) of a file that is there
unfoldable pub unlink : FilePath → Disk → Disk
unlink p disk = change p (λ _. []) disk

-- MoveNoReplace: link, then unlink of the source, which is there once the link is made
unfoldable pub move_no_replace : FilePath → FilePath → Disk → Call
unfolding link unlink
move_no_replace src dst disk = elim (link src dst disk) [
  | failed e ↦ failed e
  | did linked ↦ did (unlink src linked)
]

-- CreateExclusive: open(2) with O_CREATE|O_EXCL, then the write
unfoldable pub create_exclusive : FilePath → Bytes → Disk → Call
create_exclusive p content disk = elim (stat p disk) [
  | some f ↦ failed already
  | none ↦ did (disk ++ record { dir = p.dir; name = p.name; content = content } ∷ [])
]

-- RewriteExisting: no O_CREATE; an empty hash skips the check
unfoldable pub rewrite_existing : (Bytes → Bytes) → FilePath → Bytes → Bytes → Disk → Call
rewrite_existing digest p if_unchanged content disk = elim (stat p disk) [
  | none ↦ failed not_exist
  | some f ↦
      if is_nil if_unchanged || same (digest f.content) if_unchanged
      then did (change p (λ g. record g { content = content } ∷ []) disk)
      else failed (mismatch if_unchanged (digest f.content))
]
