-- ===== src/Orders.antt =====
-- src/mantenimiento/ordenes.service.ts: the work orders and the findings that they attend.
pub mod Types
pub mod Queries
pub mod Create
pub mod Update
pub mod Registro
pub mod Tarea
pub mod Rollback
pub mod Consistent
pub mod Tables
pub mod Moved
pub mod Effects
pub mod Records
pub mod Answering
pub mod Coverage
pub mod Completion
pub mod Updating
pub mod Creating
pub mod Findings
mod Tests
pub mod Keeps
pub mod Interleavings
