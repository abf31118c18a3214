-- ===== src/Fsstore/Ops.antt =====
-- fs.go: the methods of the filesystem backend, each from the disk to its answer and the new disk.
use macguffin.Prelude.{
  ℕ, Bool, ◌&&◌, ◌||◌, not, List, [], ◌∷◌, Option, none, some, Bytes, same, keep, is_nil,
  if◌then◌else◌,
}
use macguffin.Store.{
  done, archived, State, in_status, satisfies, same_status, Actor, Doc, Err, not_found, exists,
  ambiguous, lost, changed, refused, io, Result, ok, err,
}
use macguffin.Store.Backend.{Backend}
use macguffin.Fsstore.{
  Dir, same_dir, status_dir, partition_dir, file_name, result_sidecar_name, with_holder,
}
use macguffin.Fsstore.Disk.{
  File, Disk, FilePath, same_path, stat, not_exist, already, mismatch, Call, did, failed, move_item,
  move_file, move_no_replace, create_exclusive, rewrite_existing,
}
use macguffin.Fsstore.Locate.{Location, locate, state_of, path_of, entry_of}

abbrev pub Answer : Type 0
Answer = Result (Unit {0}) × Disk

-- FS.current
unfoldable pub current : Disk → Bytes → Option State
current disk id = elim (locate disk id) [
  | [] ↦ none
  | l ∷ more ↦ if is_nil more then some (state_of l id) else none
]

-- FS.lost
unfoldable pub lost_at : Disk → Bytes → State → Err
lost_at disk id expect = lost id expect (current disk id)

-- MoveSidecar: a no-op where there is no sidecar
unfoldable pub move_sidecar : Dir → Dir → Bytes → Disk → Call
move_sidecar src_dir dst_dir id disk =
    let src : FilePath = record { dir = src_dir; name = result_sidecar_name id } in
    elim (stat src disk) [
      | none ↦ did disk
      | some f ↦ move_file src (record { dir = dst_dir; name = result_sidecar_name id }) disk
    ]

-- Create
unfoldable pub create : ℕ → Bytes → State → Bytes → Actor → Disk → Answer
unfolding same_status
create now id st content by disk =
    let st' = with_holder st by in
    if same_status st'.status archived
    then (err (refused id), disk)
    else if not (is_nil (locate disk id))
    then (err (exists id), disk)
    else elim (create_exclusive (record { dir = status_dir st'.status; name = file_name id st' })
        content disk) [
          | did disk' ↦ (ok tt, disk')
          | failed e ↦ elim e [ already ↦ (err (exists id), disk) | _ ↦ (err io, disk) ]
        ]

-- the states in which `find` has the entries of the expected directory
unfoldable pub candidate : Bytes → State → File → Bool
unfolding entry_of
candidate id expect f =
    entry_of (status_dir expect.status) id f
    && satisfies
        (state_of (record { dir = f.dir; name = f.name; status = expect.status; partition = [] })
          id)
        expect

pub data Found : Type 0 where
  one : FilePath → Found
  refusal : Err → Found

-- FS.find
unfoldable pub find : Disk → Bytes → State → Found
find disk id expect = elim (keep (candidate id expect) disk) [
  | [] ↦ refusal (lost_at disk id expect)
  | f ∷ more ↦
      if is_nil more then one (record { dir = f.dir; name = f.name }) else refusal (ambiguous id)
]

-- the sidecar follows its item; `io` stands for "moved, but result sidecar could not follow"
unfoldable pub follow : Dir → Dir → Bytes → Disk → Answer
follow src_dir dst_dir id disk = elim (move_sidecar src_dir dst_dir id disk) [
  | did disk' ↦ (ok tt, disk')
  | failed e ↦ (err io, disk)
]

-- Transition, from the source that `find` gave. Nothing else moves between two calls here, so the
-- second Lstat finds the source.
unfoldable pub move_from : FilePath → Bytes → State → State → Disk → Answer
move_from src id expect to disk =
    let dst : FilePath = record { dir = status_dir to.status; name = file_name id to } in
    if same_path src dst then (ok tt, disk) else elim (stat dst disk) [
      | some g ↦ elim (stat src disk) [
        | none ↦ (err (lost_at disk id expect), disk)
        | some f ↦ (err (exists id), disk)
      ]
      | none ↦ elim (move_item src dst disk) [
        | failed e ↦ elim e [
          | not_exist ↦ (err (lost_at disk id expect), disk)
          | _ ↦ (err io, disk)
        ]
        | did disk' ↦
            if same_dir src.dir dst.dir then (ok tt, disk') else follow src.dir dst.dir id disk'
      ]
    ]

-- Transition
unfoldable pub transition : ℕ → Bytes → State → State → Actor → Disk → Answer
unfolding same_status
transition now id expect to by disk =
    let to' = with_holder to by in
    if same_status expect.status archived || same_status to'.status archived
    then (err (refused id), disk)
    else elim (find disk id expect) [
      | refusal e ↦ (err e, disk)
      | one src ↦ move_from src id expect to' disk
    ]

-- a move into or out of the archive, by MoveNoReplace
unfoldable pub move_across : FilePath → FilePath → Bytes → State → Disk → Answer
move_across src dst id expect disk = elim (move_no_replace src dst disk) [
  | failed e ↦ elim e [
    | already ↦ (err (exists id), disk)
    | not_exist ↦ (err (lost_at disk id expect), disk)
    | mismatch w c ↦ (err io, disk)
  ]
  | did disk' ↦ follow src.dir dst.dir id disk'
]

-- Archive
unfoldable pub archive : Bytes → Bytes → Actor → Disk → Answer
archive id partition by disk = elim (find disk id (in_status done)) [
  | refusal e ↦ (err e, disk)
  | one src ↦
      move_across src (record { dir = partition_dir partition; name = src.name }) id
        (in_status done) disk
]

-- Unarchive
unfoldable pub unarchive : Bytes → Bytes → State → Actor → Disk → Answer
unfolding same_status
unarchive id partition to by disk =
    let to' = with_holder to by in
    let src : FilePath = record {
      dir = partition_dir partition;
      name = file_name id (in_status archived);
    } in
    if same_status to'.status archived then (err (refused id), disk) else elim (stat src disk) [
      | none ↦ (err (lost_at disk id (in_status archived)), disk)
      | some f ↦
          move_across src (record { dir = status_dir to'.status; name = file_name id to' }) id
            (in_status archived) disk
    ]

module _ (digest : Bytes → Bytes) where
  -- FS.read; the times of the files and the text of the path are not modelled
  unfoldable pub read : Disk → Bytes → Location → Result Doc
  read disk id l = elim (stat (path_of l) disk) [
    | none ↦ err (not_found id)
    | some f ↦ ok (record {
      id = id;
      state = state_of l id;
      partition = l.partition;
      content = f.content;
      hash = digest f.content;
      mtime = 0;
      place = [];
    })
  ]

  -- Get
  unfoldable pub get : Bytes → Disk → Result Doc × Disk
  unfolding read
  get id disk = elim (locate disk id) [
    | [] ↦ (err (not_found id), disk)
    | l ∷ more ↦ if is_nil more then (read disk id l, disk) else (err (ambiguous id), disk)
  ]

  -- the documents that can be read: a record that is gone is skipped
  unfoldable pub read_each : Disk → Bytes → List Location → List Doc
  unfolding read
  read_each disk id [] = []
  read_each disk id (l ∷ ls) =
      let rest = read_each disk id ls in elim (read disk id l) [ err e ↦ rest | ok d ↦ d ∷ rest ]

  -- GetAll; nothing moves while it runs, so the first scan is the last
  unfoldable pub get_all : Bytes → Disk → List Doc
  unfolding read_each
  get_all id disk = read_each disk id (locate disk id)

  -- among several records an edit picks those whose content has the hash
  unfoldable pub picked : Disk → Bytes → List Location → List Location
  picked disk if_unchanged [] = []
  picked disk if_unchanged (l ∷ ls) =
      let rest = picked disk if_unchanged ls in
      elim (stat (path_of l) disk) [
        | none ↦ rest
        | some f ↦ if same (digest f.content) if_unchanged then l ∷ rest else rest
      ]

  -- Edit, once the record is known
  unfoldable pub edit_at : Location → Bytes → Bytes → Bytes → Disk → Answer
  edit_at l id if_unchanged content disk =
      elim (rewrite_existing digest (path_of l) if_unchanged content disk) [
        | did disk' ↦ (ok tt, disk')
        | failed e ↦ elim e [
          | mismatch want cur ↦ (err (changed id want cur), disk)
          | not_exist ↦ (err (lost id (state_of l id) (current disk id)), disk)
          | already ↦ (err io, disk)
        ]
      ]

  abbrev chosen : List Location → Option Location
  chosen [] = none
  chosen (l ∷ ls) = if is_nil ls then some l else none

  -- Edit
  unfoldable pub edit : ℕ → Bytes → Bytes → Bytes → Actor → Disk → Answer
  edit now id if_unchanged content by disk = elim (locate disk id) [
    | [] ↦ (err (not_found id), disk)
    | l ∷ more ↦
        if is_nil more
        then edit_at l id if_unchanged content disk
        else elim (if is_nil if_unchanged
            then none
            else chosen (picked disk if_unchanged (l ∷ more))) [
              | none ↦ (err (ambiguous id), disk)
              | some p ↦ edit_at p id if_unchanged content disk
            ]
  ]

  -- FS as a store.Backend
  abbrev pub backend : Backend Disk
  backend = record {
    create = create;
    get = get;
    transition = transition;
    edit = edit;
    archive = archive;
  }
