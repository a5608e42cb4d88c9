-- ===== src/Auth.antt =====
-- Part of src/auth: the lock of an account after failed sign-ins.
pub mod LoginGuard
pub mod Roles
mod Tests
