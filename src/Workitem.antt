-- ===== src/Workitem.antt =====
-- internal/workitem: what mg knows about an item and its lifecycle, above the backend.
pub mod Title
pub mod Item
pub mod Fields
pub mod Fence
pub mod Resolve
pub mod Explain
pub mod Lifecycle
pub mod Holder
pub mod Numbers
pub mod Reread
pub mod Render
pub mod Modify
pub mod Identity
pub mod Moves
pub mod Atomic
pub mod Undisturbed
pub mod Deps
pub mod Snooze
pub mod Snoozed
pub mod Schedule
pub mod Promoted
pub mod Scheduled
pub mod Shelve
pub mod Guards
pub mod Done
pub mod Assignee
pub mod Unclaim
pub mod Archive
pub mod Bodies
