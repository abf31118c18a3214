-- ===== src/Workitem/Bodies.antt =====
-- internal/workitem/bodybackup.go, nextBackupName: it names the next saved body of an item. `parse_stamp`
-- and `print_stamp` are time.Parse and Time.Format for the layout of the stamps, on milliseconds since
-- Go's zero time.
pub mod Order
pub mod Stamps
pub mod Pruned
use macguffin.Prelude.{ℕ, ◌+◌, List, [], ◌∷◌, ◌++◌, Option, none, some, Bytes, codes, if◌then◌else◌}
use macguffin.Workitem.Archive.{parse_backup_name, text_below}

-- the loop of nextBackupName
unfoldable pub newest_stamp : (Bytes → Option ℕ) → Bytes → List Bytes → Bytes
unfolding parse_backup_name text_below
newest_stamp parse_stamp newest [] = newest
newest_stamp parse_stamp newest (n ∷ ns) =
    newest_stamp parse_stamp
      (elim (parse_backup_name parse_stamp n) [
        | none ↦ newest
        | some (stamp, hash) ↦ if text_below newest stamp then stamp else newest
      ])
      ns

-- the stamp of nextBackupName; a stamp that cannot be parsed is Go's zero time
unfoldable pub next_stamp : (Bytes → Option ℕ) → (ℕ → Bytes) → List Bytes → ℕ → Bytes
unfolding newest_stamp text_below
next_stamp parse_stamp print_stamp existing now =
    let newest = newest_stamp parse_stamp [] existing in
    if text_below newest (print_stamp now)
    then print_stamp now
    else elim (parse_stamp newest) [ none ↦ print_stamp 1 | some last ↦ print_stamp (last + 1) ]

-- nextBackupName
unfoldable pub next_backup_name : (Bytes → Option ℕ) → (ℕ → Bytes) → List Bytes → ℕ → Bytes → Bytes
unfolding next_stamp
next_backup_name parse_stamp print_stamp existing now hash =
    next_stamp parse_stamp print_stamp existing now ++ (codes "-" ++ (hash ++ codes ".md"))
