-- ===== src/Inventory/Movements.antt =====
-- src/inventory/movements: the manual movement that a client may retry.
use smi_backend.Prelude.{
  ℕ, Bool, true, false, not, ◌||◌, Option, none, some, ◌==◌, if◌then◌else◌, find,
}
use smi_backend.Prelude.Result.{Result, ok, err}
use smi_backend.Concurrency.CreateOrReturn.{create_or_return}
use smi_backend.Inventory.Stock.Types.{
  MovementDirection, incoming, outgoing, MovementReason, purchase, return, intervention, activity,
  extraordinary_work, StockMovement, StockMovementInput, StockError, not_this_movement, other_owner,
}
use smi_backend.Inventory.Stock.Queries.{Env, has_id}
use smi_backend.Inventory.Stock.Service.{World, Existing, receive, issue}

-- src/inventory/movements/movement-reasons.ts: the reasons that `isManualMovementReason` admits.
pub is_manual_movement_reason : MovementReason → Bool
is_manual_movement_reason purchase = true
is_manual_movement_reason return = true
is_manual_movement_reason intervention = true
is_manual_movement_reason activity = true
is_manual_movement_reason extraordinary_work = true
is_manual_movement_reason _ = false

abbrev pub same_direction : MovementDirection → MovementDirection → Bool
same_direction incoming incoming = true
same_direction outgoing outgoing = true
same_direction _ _ = false

-- The body of the request: the direction, and the input that `create` builds of the rest.
pub record CreateMovement : Type 0 where
  pub direction : MovementDirection
  pub input : StockMovementInput

abbrev pub existing_if_same : CreateMovement → Option StockMovement → Existing StockMovement
existing_if_same dto none = ok none
existing_if_same dto (some m) =
    if not (is_manual_movement_reason m.reason)
      || (not (same_direction m.direction dto.direction) || not (m.item_id == dto.input.item_id))
    then err not_this_movement
    else ok (some (record { owner_id = m.performed_by_id; result = λ _. ok m }))

-- The `findExisting` of `create`.
pub find_movement : CreateMovement → ℕ → World → Existing StockMovement
unfolding is_manual_movement_reason
find_movement dto id w = existing_if_same dto (find (has_id id) w.db.movements)

-- The `create` of `create`: the direction chooses the operation.
pub create_in_direction :
    Env → MovementDirection → StockMovementInput → World → Result StockError StockMovement × World
create_in_direction env incoming input = receive env input
create_in_direction env outgoing input = issue env input

-- `MovementsService.create`: the user of the session is the one who performs the movement.
pub create_movement :
    Env → CreateMovement → ℕ → (World → World) → World → Result StockError StockMovement × World
create_movement env dto user meanwhile =
    create_or_return (find_movement dto)
      (create_in_direction env dto.direction (record dto.input { performed_by_id = some user }))
      dto.input.id user other_owner meanwhile
