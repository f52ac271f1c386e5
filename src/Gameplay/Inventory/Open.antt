-- ===== src/Gameplay/Inventory/Open.antt =====
-- The `while` loop of `InventoryService.add`: when it ends, and what it pushes.
use cifarm_server_alternativ.Prelude.{
  ℕ, zero, suc, ◌≡◌, refl, none, List, [], ◌∷◌, ℤ, pos, ◌-ℤ◌, ◌≤ℤ◌, ◌<ℤ◌, All, arith, int_laws,
  Bool-cases, inl, inr, ltb_ℤ, ltb_ℤ→<ℤ, ltb_ℤ→≤ℤ, min_ℤ,
}
use cifarm_server_alternativ.Result.{ok, err, endless_loop}
use cifarm_server_alternativ.Entities.{InventoryEntity, InventoryTypeEntity}
use cifarm_server_alternativ.Gameplay.Inventory.{new_stack, open_stacks}
use cifarm_server_alternativ.Gameplay.Inventory.Fill.{total}

-- A stack as the loop pushes it: not saved yet, not empty, within the limit, of the right type and
-- owner.
pub record IsNew (user_id : ℕ) (type : InventoryTypeEntity) (stack : InventoryEntity) : Type 0 where
  pub unsaved : stack.id ≡ none
  pub nonempty : pos 0 <ℤ stack.quantity
  pub within : stack.quantity ≤ℤ type.max_stack
  pub owner : stack.user_id ≡ user_id
  pub same_type : stack.inventory_type_id ≡ type.id

module _ (user_id : ℕ) (type : InventoryTypeEntity) where
  new_stack-IsNew :
      (remaining : ℤ)
      → pos 1 ≤ℤ type.max_stack
      → pos 0 <ℤ remaining
      → IsNew user_id type (new_stack user_id type.id (min_ℤ type.max_stack remaining))
  unfolding new_stack
  new_stack-IsNew remaining room more = ground arith

  open_step :
      (fuel : ℕ) (remaining : ℤ)
      → pos 1 ≤ℤ type.max_stack
      → pos 0 <ℤ remaining
      → remaining ≤ℤ pos (suc fuel)
      → let quantity = min_ℤ type.max_stack remaining in
        (pos 0 ≤ℤ remaining -ℤ quantity) × (remaining -ℤ quantity ≤ℤ pos fuel)
  open_step fuel remaining room more enough = grind int_laws

  quantity-new_stack : (q : ℤ) → (new_stack user_id type.id q).quantity ≡ q
  unfolding new_stack
  quantity-new_stack q = refl

  endless_step :
      (remaining : ℤ)
      → type.max_stack ≤ℤ pos 0
      → pos 0 <ℤ remaining
      → pos 0 <ℤ remaining -ℤ min_ℤ type.max_stack remaining
  endless_step remaining flat more = grind int_laws

  -- With room in a new stack the fuel suffices, and the new stacks hold exactly what remained.
  pub open_stacks_total :
      (fuel : ℕ) (remaining : ℤ)
      → pos 1 ≤ℤ type.max_stack
      → pos 0 ≤ℤ remaining
      → remaining ≤ℤ pos fuel
      → (opened : List InventoryEntity) × (open_stacks fuel user_id type remaining ≡ ok opened)
        × (total opened ≡ remaining)
        × All (IsNew user_id type) opened
  unfolding open_stacks
  open_stacks_total zero remaining room nonneg enough = ([], ground arith, omega int_laws, tt)
  open_stacks_total (suc fuel) remaining room nonneg enough =
      elim (Bool-cases (ltb_ℤ (pos 0) remaining)) [
        | inl more ↦
            let more' = ltb_ℤ→<ℤ (pos 0) remaining more in
            let q = min_ℤ type.max_stack remaining in
            let (nonneg', enough') = open_step fuel remaining room more' enough in
            let (opened, ran, sum, new) =
              open_stacks_total fuel (remaining -ℤ q) room nonneg' enough' in
            (
              new_stack user_id type.id q ∷ opened,
              rw (more, ran),
              rw (quantity-new_stack q, sum) (omega int_laws),
              (new_stack-IsNew remaining room more', new),
            )
        | inr done ↦ ([], rw done, omega (int_laws, ltb_ℤ→≤ℤ (pos 0) remaining done), tt)
      ]

  -- With a stack size of 0 or less and a quantity above 0, the `while` loop of `add` is never over,
  -- whatever the fuel.
  pub open_stacks_endless :
      (fuel : ℕ) (remaining : ℤ)
      → type.max_stack ≤ℤ pos 0
      → pos 0 <ℤ remaining
      → open_stacks fuel user_id type remaining ≡ err endless_loop
  unfolding open_stacks
  open_stacks_endless zero remaining flat more = ground arith
  open_stacks_endless (suc fuel) remaining flat more =
      let left = remaining -ℤ min_ℤ type.max_stack remaining in
      ground (arith, open_stacks_endless fuel left flat (endless_step remaining flat more))
