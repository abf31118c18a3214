-- ===== src/Mail.antt =====
-- internal/mail: messages between agents, in mailboxes that are Maildirs.
pub mod Message
pub mod RoundTrip
pub mod Tree
pub mod Box
pub mod Delivery
pub mod Receipt
pub mod Answers
pub mod Move
pub mod Unique
pub mod Listing
pub mod Rescue
pub mod Merge
pub mod Suggest
pub mod Distance
