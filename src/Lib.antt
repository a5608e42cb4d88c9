-- ===== src/Lib.antt =====
-- Verification library of the SMI backend: the stock ledger, the two mechanisms by which offline
-- clients retry and edit, the cards of the equipment that a shift uses, the work orders and the
-- findings that they attend, the lock of accounts after failed sign-ins, the use counter of
-- equipment, the rules of maintenance plans and of the daily checklist, roles, national ids, the
-- change log and capture times.
--
-- Prelude: Boolean tests on native numbers, lists by recursion, integers, results of fallible
-- code, and Handler, the state monad of request handlers with its transactions and the rules by
-- which a handler keeps a property of the tables, establishes one, answers, or undoes its writes.
--
-- Concurrency.Expected models src/common/concurrency/expected-fields.ts (`normalizeComparable`,
-- `assertExpected`) and `definedFields` of assert-expected-locked.ts. Concurrency.CreateOrReturn
-- models src/common/idempotency/create-or-return.ts over any state: `find` and `create` are its
-- callbacks, and `meanwhile` is what other requests commit between the lookup and the create.
--
-- Inventory.Stock models src/inventory/stock.service.ts. Types has the tables, inputs and errors,
-- Tx the transaction as a state monad that rolls back, Queries the private helpers, Moves
-- `applyIncoming`, `applyOutgoing`, `adjustToCount` and `setMinimum`, Transfer `transferFresh`
-- with `lockTransferRows`, and Service the public operations: `run` commits the tables and then
-- emits the notices that were queued, or leaves both as they were. `transfer` goes through
-- Concurrency.CreateOrReturn, and `adjustToCount` through Concurrency.Expected. The proofs stand
-- in Posted (what a movement does), Ledger and Keeps (the invariant), Sound (sequences of calls),
-- Outcomes, Effects, Transfers and Retry. Inventory.Movements models `create` of
-- src/inventory/movements/movements.service.ts, which uses the same operations. A quantity is a
-- whole number, on which a `Float` is exact: the source takes fractions too, whose sums and
-- differences it rounds, and those are not modelled. The generated ids, the aggregate over an
-- item's rows, the clock of a reference and the table of equipments are fields of `Env`.
--
-- Auth.LoginGuard models src/auth/login-guard.ts: the map of accounts is a function of the key,
-- and the hooks `before` and `after` are steps on it, in any order and at any times.
-- `String.prototype.toLowerCase` is a parameter.
--
-- Equipment.Counter models src/equipment/equipment-counter.ts: the caller's row may be stale, and
-- the guarded update compares with the row of the table.
--
-- Maintenance.Status and Maintenance.Cycle model src/mantenimiento/maintenance-plans
-- (maintenance-plan-status.ts and maintenance-cycle.ts) with milestones in whole units and
-- counters in hundredths; which way a number halfway between two tenths is rounded, which depends
-- on its double, is a parameter. Maintenance.Checklist models
-- src/mantenimiento/daily-checklists/daily-checklist-rules.ts, and Maintenance.Forecast
-- `forecastMaintenance` of src/mantenimiento/pronostico/usage-forecast.ts, with days as numbers.
--
-- Shifts models src/shifts/shifts.service.ts. Calendar has src/shifts/date-only.ts and the day of
-- the business (src/common/dates/business-time.ts) on day numbers, Types the tables and bodies,
-- Queries the conditions that the operations share. Open is `openCard`, Close `closeCard` with
-- src/common/idempotency/resolve-close-race.ts, Edit `update`, each with a child Checks of what it
-- only reads; Mine has the conditions of `mine`. An operation takes functions that stand for what
-- other requests commit while it runs, so a unique index can fail and the race is resolved as in
-- the source. The children Keeps treat the invariant of Shifts.Invariant for each operation, the
-- children Retry its repetition; Interleavings nests requests in one another, Readings follows the
-- readings of the cards, and Counters composes the operations with Equipment.Counter. The time
-- zone database, the parsing of dates and the copy of an uploaded photo are fields of `Env`.
--
-- Orders models src/mantenimiento/ordenes.service.ts. Types has the tables and bodies, Queries the
-- helpers (`findOrdenOrThrow`, `resolveEquipmentId`, `syncHallazgoEstado`,
-- `emitTransicionEstado`), Create `create` (through Concurrency.CreateOrReturn), `createFresh` and
-- `createHistorica`, Update `update` (through Concurrency.Expected), Registro `syncRegistroCiclo`,
-- and Tarea `updateTarea`, which issues its supplies within its own transaction from the ledger of
-- Inventory.Stock. Findings is an abstract machine of the attention that a finding gets, with the
-- requests and the tables that stand for its states; its children treat one request each, by what
-- Creating, Updating and Effects say that a request leaves. Rollback treats a marking that throws,
-- Consistent, Keeps and Interleavings an invariant of the ledger and of the maintenance records
-- under nested requests, Records a marking and its undoing, and Answering, Coverage and Completion
-- the marking of all tasks of an order. An insertion of a record that names a deleted plan item is
-- refused; the storage may fail to delete a photo or to sign its URL, which `updateTarea` does
-- after its commit. The URLs that `create` and `update` sign for their answers are not modelled.
-- Ids and storage keys are not empty, and a day is a number of days since 1970.
--
-- Auth.Roles models src/auth/roles.ts, Operators.Rut src/operators/rut.ts, and ChangeLog
-- `diffFields` of src/change-log/change-log.service.ts.
--
-- Dates.CaptureTime models src/common/dates/capture-time.ts; the parsing of dates is a parameter.
--
-- No loop needs fuel: each one is a recursion on a list, or on the number of days of a window. Not
-- modelled: the other callers that pass an open transaction to the stock ledger, interventions,
-- the texts of messages, the form in which cards are answered, the averages that the forecast
-- starts from, the services that only query, notifications, mail, storage, OCR, configuration and
-- the database itself, whose transactions are taken to be atomic and isolated as their row locks
-- make them.
pub mod Prelude
pub mod Concurrency
pub mod Inventory
pub mod Equipment
pub mod Auth
pub mod Maintenance
pub mod Dates
pub mod Operators
pub mod Shifts
pub mod ChangeLog
pub mod Orders
