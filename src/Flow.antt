-- ===== src/Flow.antt =====
-- internal/flow: how work moves through the states. Of this package the ages of items.
pub mod Age
