-- ===== src/Gameplay/Inventory/Back.antt =====
-- A piece that is put back into the stack that it was taken from.
use cifarm_server_alternativ.Prelude.{
  ℕ, ◌≡◌, [], ◌∷◌, ℤ, pos, ◌-ℤ◌, ◌≤ℤ◌, min_ℤ, ltb_ℤ, true, arith, int_laws, -ℤ-add_cancel,
}
use cifarm_server_alternativ.Result.{ok}
use cifarm_server_alternativ.Entities.{InventoryEntity, InventoryTypeEntity}
use cifarm_server_alternativ.Gameplay.Inventory.{fill_stack, fill_stacks, open_stacks, add}

pub fill_stack-taken :
    (max_stack : ℤ) (stack : InventoryEntity)
    → stack.quantity ≤ℤ max_stack
    → fill_stack max_stack (pos 1) (record stack { quantity = stack.quantity -ℤ pos 1 })
      ≡ (stack, pos 0)
unfolding fill_stack
fill_stack-taken max_stack stack fits =
    let q = stack.quantity -ℤ pos 1 in
    let one : min_ℤ (max_stack -ℤ q) (pos 1) ≡ pos 1 = grind int_laws in
    let space : ltb_ℤ (pos 0) (max_stack -ℤ q) ≡ true = grind int_laws in
    let sum = -ℤ-add_cancel stack.quantity (pos 1) in
    let none_left : pos 1 -ℤ pos 1 ≡ pos 0 = omega int_laws in
    ground (arith, one, space, sum, none_left)

pub add_back :
    (stack : InventoryEntity) (user_id : ℕ) (type : InventoryTypeEntity)
    → stack.quantity ≤ℤ type.max_stack
    → add (record stack { quantity = stack.quantity -ℤ pos 1 } ∷ []) user_id type (pos 1)
      ≡ ok (stack ∷ [])
unfolding add fill_stacks open_stacks
add_back stack user_id type fits = ground (arith, fill_stack-taken type.max_stack stack fits)
