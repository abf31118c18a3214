-- ===== src/Lib.antt =====
-- macguffin (mg): a store of work items for agents. An item is a markdown file with a frontmatter;
-- its state (available, claimed by somebody, done, pending, shelved, archived) is where it is kept.
-- The programs of mg reach the items through one interface, store.Backend.
--
-- Which file models which part:
--   Store.antt              store/store.go: states, actors, documents, refusals
--   Store/Spec.antt         the contract in the comments of store.Backend, on an abstract store that
--                           forgets how items are kept
--   Store/Steps.antt        what single steps of the contract do to one id
--   Store/Listing.antt      the contract of List
--   Store/Backend.antt      store.Backend as a record of operations, and the laws of the contract
--   Store/Race.antt         what every client may conclude from the laws
--   Memstore.antt, Memstore/  internal/memstore/memstore.go, with Memstore/Refines and Listing for the laws
--   Fsstore.antt            store/fsstore: directories and file names
--   Fsstore/Disk.antt       store/fsstore/prim.go: the system calls on a list of files
--   Fsstore/Locate.antt     store/fsstore/locate.go
--   Fsstore/Ops.antt        store/fsstore/fs.go: the methods of the backend
--   Fsstore/Layout, Fsstore/Refines  the disk laid out from a table of items, and the laws
--   Lines.antt, Lines/      the functions of package strings on lines, separators and words
--   Workitem/Title.antt     internal/workitem/titleheading.go: a title is a body's first heading
--   Workitem/Item, Fields, Fence, Numbers, Reread, Render  internal/workitem/workitem.go: Render
--                           and Parse
--   Workitem/Resolve, Identity  internal/workitem/resolve.go: from an id to its one record
--   Workitem/Explain.antt   internal/workitem/errors.go
--   Workitem/Holder.antt    internal/workitem/backend.go: the PID of a holder
--   Workitem/Lifecycle, Moves   internal/workitem/claim.go, reopen.go, reclaim.go over any backend
--   Workitem/Modify, Atomic, Undisturbed  internal/workitem/backend.go, modifyItem: reading, changing
--                           and writing an item while other processes write
--   Workitem/Deps.antt      internal/workitem/depends.go
--   Workitem/Snooze, Snoozed  internal/workitem/snooze.go
--   Workitem/Schedule, Promoted, Scheduled  internal/workitem/schedule.go, promote.go
--   Workitem/Shelve.antt    internal/workitem/shelve.go: the cascade; Shelve/Sunk, Call, Found, Parts,
--                           Cascade, Buried and Run for its proof
--   Workitem/Guards.antt    internal/workitem/remainder.go, successor.go, blockedon.go
--   Workitem/Assignee.antt  internal/workitem/assigneegate.go
--   Workitem/Unclaim.antt, Unclaim/  internal/workitem/unclaim.go, held.go: releasing a claim
--   Workitem/Done.antt, Done/  internal/workitem/done.go, predecessor.go, sidecar.go: completing an item
--   Workitem/Archive.antt, Archive/  internal/workitem/archive.go, bodybackup.go: archiving one item
--   Workitem/Bodies.antt, Bodies/  internal/workitem/bodybackup.go: naming a saved body
--   Mail/Message, RoundTrip internal/mail/mail.go: the text of a message, and its parsing
--   Mail/Tree, Box, Delivery, Receipt, Answers  internal/mail/mail.go: the mailboxes as a tree of
--                           files, sending, reading and archiving
--   Mail/Move, Unique, Listing, Rescue, Merge  internal/mail/mail.go, registration.go, reclaim.go: listing,
--                           merging and registering mailboxes
--   Mail/Suggest, Distance  internal/mail/suggest.go
--   Spend/Claims, Booking   internal/spend/aggregator.go: claim intervals and attribution
--   Flow/Age.antt           internal/flow/age.go
--   Mgerr.antt, Mgerr/Utf8  internal/mgerr/mgerr.go, utf8.go
--   Tests/                  runs at concrete inputs
--
-- How state is modelled: an operation takes the store (`Mem`, `Disk`, `Post`) and returns its answer
-- and the new store. One operation is one step; two processes are two sequences of steps, in any
-- order. Where internal/workitem reads an item and writes it again, what other processes do before
-- the n-th write is the argument `others n`. Strings are lists of bytes. The clock is the argument
-- `now`, and `mint k` is the k-th id that a delivery mints. SHA-256 with hex is the parameter
-- `digest`, about which nothing is assumed; time.Parse and Time.Format are parameters
-- too, and so is the merging of JSON objects.
--
-- The bounds of the loops are those of the code: five ids for a delivery, three rounds for a
-- modification. The loop that looks for a free name has none in the code; the model gives it one round
-- more than there are files, which is enough. The fuel of the
-- cascade of shelving is the depth it may reach: the number of items that can be shelved is enough.
-- The digits of a number n are at most n + 1.
--
-- Trimming and letter case are those of ASCII in the text of items, in assignees and in error messages; the
-- words and the bodies of mail are those of Unicode. That a backend has no record under a text that is
-- no id is a hypothesis of the theorems on Done, Unclaim and ArchiveItem: the in-memory backend takes
-- every text as an id; on a healthy disk of the other one, a file could have such a name only if its
-- holder began with `md` or had `.md` in it.
--
-- Not modelled: file times, permissions and failing writes; paths with `/` inside an id, a holder or
-- a partition, and partitions that are `.` or `..`; system calls of another process between two
-- system calls of one operation; the text of error messages; events and the audit log; edits,
-- unshelving and the archive sweep of internal/workitem; what Reclaim chooses to move; transcripts;
-- the output of mg.
pub mod Prelude
pub mod Store
pub mod Memstore
pub mod Fsstore
pub mod Flow
pub mod Lines
pub mod Mail
pub mod Mgerr
pub mod Spend
pub mod Workitem
pub mod Tests
