-- ===== src/Gameplay/Inventory.antt =====
-- `InventoryService` (src/gameplay/inventory/inventory.service.ts). `add` fills the stacks that it is
-- given, in order, and opens new stacks for what is left. The `while` loop takes a fuel, the number
-- of pieces to place: with a stack size of at least 1 it never runs out.
pub mod Fill
pub mod Open
pub mod Add
pub mod Back
use cifarm_server_alternativ.Prelude.{
  ℕ, zero, suc, Bool, true, false, Option, none, some, List, [], ◌∷◌, ◌++◌, ℤ, pos, pos_part, ◌+ℤ◌,
  ◌-ℤ◌, ltb_ℤ, leb_ℤ, min_ℤ, if◌then◌else◌,
}
use cifarm_server_alternativ.Result.{
  Result, ok, err, throw_if, ◌>>=◌, ◌>>◌, endless_loop, inventory_quantity_not_sufficient,
}
use cifarm_server_alternativ.Entities.{InventoryEntity, InventoryTypeEntity}

-- The body of the `for` loop, on one stack: the stack and what remains to be placed.
pub fill_stack : ℤ → ℤ → InventoryEntity → InventoryEntity × ℤ
fill_stack max_stack remaining inventory =
    let space = max_stack -ℤ inventory.quantity in
    if ltb_ℤ (pos 0) space
    then (
      record inventory { quantity = inventory.quantity +ℤ min_ℤ space remaining },
      remaining -ℤ min_ℤ space remaining,
    )
    else (inventory, remaining)

-- The `for` loop, with its `break`.
pub fill_stacks : ℤ → ℤ → List InventoryEntity → List InventoryEntity × ℤ
unfolding fill_stack
fill_stacks max_stack remaining [] = ([], remaining)
fill_stacks max_stack remaining (inventory ∷ rest) =
    let (filled, left) = fill_stack max_stack remaining inventory in
    let (others, over) = fill_stacks max_stack left rest in
    if leb_ℤ remaining (pos 0) then (inventory ∷ rest, remaining) else (filled ∷ others, over)

-- The entity that the `while` loop pushes.
pub new_stack : ℕ → ℕ → ℤ → InventoryEntity
new_stack user_id inventory_type_id quantity = record {
  id = none;
  quantity = quantity;
  premium = false;
  user_id = user_id;
  inventory_type_id = inventory_type_id;
  inventory_type = none;
}

-- The `while` loop.
pub open_stacks : ℕ → ℕ → InventoryTypeEntity → ℤ → Result (List InventoryEntity)
open_stacks zero user_id type remaining =
    if ltb_ℤ (pos 0) remaining then err endless_loop else ok []
open_stacks (suc fuel) user_id type remaining =
    let quantity = min_ℤ type.max_stack remaining in
    let pushed = new_stack user_id type.id quantity in
    let others = open_stacks fuel user_id type (remaining -ℤ quantity) in
    if ltb_ℤ (pos 0) remaining then (others >>= λ stacks. ok (pushed ∷ stacks)) else ok []

unfoldable pub add :
    List InventoryEntity → ℕ → InventoryTypeEntity → ℤ → Result (List InventoryEntity)
unfolding fill_stacks open_stacks
add entities user_id type quantity = do
  let (filled, remaining) = fill_stacks type.max_stack quantity entities
  opened ← open_stacks (pos_part remaining) user_id type remaining
  ok (filled ++ opened)

unfoldable pub remove : InventoryEntity → ℤ → Result ℤ
remove entity quantity = do
  throw_if (ltb_ℤ entity.quantity quantity) (inventory_quantity_not_sufficient entity.id quantity)
  ok (entity.quantity -ℤ quantity)
