-- ===== src/Inventory.antt =====
-- Part of src/inventory: the stock ledger, and the movements that are entered by hand.
pub mod Stock
pub mod Movements
mod Tests
