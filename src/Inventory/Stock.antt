-- ===== src/Inventory/Stock.antt =====
-- src/inventory/stock.service.ts: `StockService`, the one way to move a balance.
-- `Types` holds the tables and errors, `Tx` the transaction monad, `Queries` the private helpers,
-- `Service` the operations; the other modules hold what is proved of them.
pub mod Types
pub mod Tx
pub mod Queries
pub mod Moves
pub mod Transfer
pub mod Service
pub mod Posted
pub mod Ledger
pub mod Keeps
pub mod Sound
pub mod Outcomes
pub mod Effects
pub mod Transfers
pub mod Retry
