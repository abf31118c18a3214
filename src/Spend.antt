-- ===== src/Spend.antt =====
-- internal/spend: which work item an agent's tokens are booked on.
pub mod Claims
pub mod Booking
