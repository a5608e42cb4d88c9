-- ===== src/Concurrency.antt =====
-- The guards that every write of the backend shares: the precondition per field (`X-Expected`) and
-- the create that a client may retry.
pub mod Expected
pub mod CreateOrReturn
mod Tests
