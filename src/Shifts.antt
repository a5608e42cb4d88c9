-- ===== src/Shifts.antt =====
-- Part of src/shifts: the cards of the equipment that a shift uses, from opening to correction.
pub mod Calendar
pub mod Types
pub mod Queries
pub mod Open
pub mod Close
pub mod Edit
pub mod Invariant
pub mod Interleavings
pub mod Readings
pub mod Counters
pub mod Mine
mod Tests
