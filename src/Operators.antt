-- ===== src/Operators.antt =====
-- Part of src/operators: the national id of an operator.
pub mod Rut
mod Tests
