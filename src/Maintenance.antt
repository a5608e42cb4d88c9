-- ===== src/Maintenance.antt =====
-- Part of src/mantenimiento: the rules of a maintenance plan and of the daily checklist.
pub mod Checklist
pub mod Status
pub mod Cycle
pub mod Forecast
mod Tests
