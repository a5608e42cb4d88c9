-- ===== src/Equipment.antt =====
-- Part of src/equipment: the use counter of an equipment.
pub mod Counter
mod Tests
