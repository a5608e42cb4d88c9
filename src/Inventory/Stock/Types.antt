-- ===== src/Inventory/Stock/Types.antt =====
-- The tables, inputs, events and errors of `StockService` (src/inventory/stock.service.ts and the
-- models Stock, StockMovement, InventoryItem and Branch of prisma/schema.prisma). Ids are only
-- compared, so they are numbers. A quantity is a whole number on which a `Float` is exact, that
-- is below 2^53; the source also takes fractions, whose sums and differences it rounds, and those are
-- not modelled.
use smi_backend.Prelude.{ℕ, String, Option, Bool, List}
use smi_backend.Prelude.Int.{ℤ}

pub data MovementDirection : Type 0 where
  incoming outgoing : MovementDirection

pub data MovementReason : Type 0 where
  purchase return physical_adjustment intervention activity extraordinary_work transfer :
      MovementReason

-- A `number` of the language: a whole one, or one of NaN and the infinities.
pub data Amount : Type 0 where
  finite : ℤ → Amount
  not_finite : Amount

-- The text of `reference`: one that a caller passes, or `transfer_…` made from the client's id or
-- from the clock and a random number.
pub data Reference : Type 0 where
  given transfer_of transfer_at : ℕ → Reference

-- The text of `notes`: one that a caller passes, or one that the service writes.
pub data Note : Type 0 where
  given : String → Note
  transfer_to transfer_from : String → Note
  count_of : String → ℤ → ℤ → Note

pub record Branch : Type 0 where
  pub name : String
  pub is_active : Bool

pub record StockRow : Type 0 where
  pub quantity : ℤ
  pub minimum_quantity : ℤ

pub record StockMovement : Type 0 where
  pub id : ℕ
  pub item_id : ℕ
  pub branch_id : ℕ
  pub direction : MovementDirection
  pub reason : MovementReason
  pub quantity : ℤ
  pub resulting_balance : ℤ
  pub performed_by_id : Option ℕ
  pub equipment_id : Option ℕ
  pub reference : Option Reference
  pub document_number : Option String
  pub notes : Option Note
  pub source_branch_id : Option ℕ
  pub destination_branch_id : Option ℕ

-- The tables that the service reads and writes. Items, branches and stock rows are looked up by
-- their unique keys, so they are functions; the movements are a list, the newest first.
pub record Db : Type 0 where
  pub items : ℕ → Option String
  pub branches : ℕ → Option Branch
  pub stock : ℕ → ℕ → Option StockRow
  pub movements : List StockMovement

pub record StockMovementInput : Type 0 where
  pub id : Option ℕ
  pub item_id : ℕ
  pub branch_id : ℕ
  pub quantity : Amount
  pub reason : MovementReason
  pub performed_by_id : Option ℕ
  pub equipment_id : Option ℕ
  pub reference : Option Reference
  pub document_number : Option String
  pub notes : Option Note

pub record AdjustToCountInput : Type 0 where
  pub id : Option ℕ
  pub item_id : ℕ
  pub branch_id : ℕ
  pub counted_quantity : ℤ
  pub expected_quantity : Option ℤ
  pub performed_by_id : Option ℕ
  pub notes : Option Note

pub record TransferInput : Type 0 where
  pub id : Option ℕ
  pub item_id : ℕ
  pub source_branch_id : ℕ
  pub destination_branch_id : ℕ
  pub quantity : Amount
  pub document_number : Option String
  pub notes : Option Note

pub record TransferResult : Type 0 where
  pub reference : Reference
  pub out : StockMovement
  pub incoming : StockMovement
  pub source_branch_name : Option String
  pub destination_branch_name : Option String

-- `ItemLowStockEvent`; a missing name stands for the id that the source falls back to.
pub record ItemLowStockEvent : Type 0 where
  pub item_id : ℕ
  pub item_name : Option String
  pub branch_id : ℕ
  pub branch_name : Option String
  pub quantity : ℤ
  pub minimum_quantity : ℤ

-- The exceptions, with what their messages say. `duplicate_id` is the database's refusal of a
-- second row with one primary key, `equipment_missing` its refusal of a row that names an equipment
-- that does not exist, `not_a_transfer` and `other_owner` are 409 `ID_CONFLICT`.
pub data StockError : Type 0 where
  not_positive : StockError
  item_not_found branch_not_found : ℕ → StockError
  branch_inactive : String → StockError
  insufficient_stock : String → Option String → ℤ → Amount → ℤ → StockError
  stale_update : List ℕ → StockError
  duplicate_id : ℕ → StockError
  equipment_missing : StockError
  same_branch not_a_transfer not_this_movement other_owner : StockError
  counterpart_not_found : StockError
