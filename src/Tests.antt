-- ===== src/Tests.antt =====
-- Runs of the model at concrete inputs: small tests, and each theorem with a hypothesis at an input
-- that meets it.
pub mod Stores
pub mod Workitems
pub mod Reports
pub mod Items
pub mod Mails
pub mod Gates
pub mod Shelving
pub mod Completing
pub mod Archiving
pub mod Bodies
