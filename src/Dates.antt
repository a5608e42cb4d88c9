-- ===== src/Dates.antt =====
-- Part of src/common/dates: the times that devices send.
pub mod CaptureTime
mod Tests
