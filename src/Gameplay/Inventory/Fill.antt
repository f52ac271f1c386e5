-- ===== src/Gameplay/Inventory/Fill.antt =====
-- The `for` loop of `InventoryService.add`: what it places, and what it leaves.
use cifarm_server_alternativ.Prelude.{
  ◌≡◌, refl, List, [], ◌∷◌, ℤ, pos, ◌+ℤ◌, ◌≤ℤ◌, ◌<ℤ◌, All, map, Option, ℕ, arith, int_laws,
  Bool-cases, inl, inr, leb_ℤ, leb_ℤ→≤ℤ, leb_ℤ→<ℤ, balance_trans,
}
use cifarm_server_alternativ.Entities.{InventoryEntity}
use cifarm_server_alternativ.Gameplay.Inventory.{fill_stack, fill_stacks}

-- The pieces in a list of stacks.
abbrev pub total : List InventoryEntity → ℤ
total [] = pos 0
total (inventory ∷ rest) = inventory.quantity +ℤ total rest

-- No stack is over the limit.
abbrev pub Within : ℤ → List InventoryEntity → Type 0
Within max_stack = All (λ inventory. inventory.quantity ≤ℤ max_stack)

-- No stack has room.
abbrev pub Full : ℤ → List InventoryEntity → Type 0
Full max_stack = All (λ inventory. max_stack ≤ℤ inventory.quantity)

-- Which rows the stacks are.
abbrev pub ids : List InventoryEntity → List (Option ℕ)
ids = map (λ inventory. inventory.id)

module _ (max_stack : ℤ) where
  fill_stack-total :
      (remaining : ℤ) (v : InventoryEntity)
      → let (filled, left) = fill_stack max_stack remaining v in
        filled.quantity +ℤ left ≡ v.quantity +ℤ remaining
  unfolding fill_stack
  fill_stack-total remaining v = grind int_laws

  fill_stack-within :
      (remaining : ℤ) (v : InventoryEntity)
      → v.quantity ≤ℤ max_stack
      → (fill_stack max_stack remaining v).0.quantity ≤ℤ max_stack
  unfolding fill_stack
  fill_stack-within remaining v h = grind int_laws

  fill_stack_left :
      (remaining : ℤ) (v : InventoryEntity)
      → pos 0 ≤ℤ remaining
      → pos 0 ≤ℤ (fill_stack max_stack remaining v).1
  unfolding fill_stack
  fill_stack_left remaining v h = grind int_laws

  fill_stack_full :
      (remaining : ℤ) (v : InventoryEntity)
      → pos 0 <ℤ (fill_stack max_stack remaining v).1
      → max_stack ≤ℤ (fill_stack max_stack remaining v).0.quantity
  unfolding fill_stack
  fill_stack_full remaining v h = grind int_laws

  id-fill_stack :
      (remaining : ℤ) (v : InventoryEntity) → (fill_stack max_stack remaining v).0.id ≡ v.id
  unfolding fill_stack
  id-fill_stack remaining v = ground arith

  pub fill_stacks-total :
      (remaining : ℤ) (stacks : List InventoryEntity)
      → let (filled, left) = fill_stacks max_stack remaining stacks in
        total filled +ℤ left ≡ total stacks +ℤ remaining
  unfolding fill_stacks
  fill_stacks-total remaining [] = omega int_laws
  fill_stacks-total remaining (v ∷ rest) = elim (Bool-cases (leb_ℤ remaining (pos 0))) [
    | inl done ↦ rw done
    | inr more ↦ rw more (
        balance_trans _ _ _ _ _ _ _ (fill_stack-total remaining v)
          (fill_stacks-total (fill_stack max_stack remaining v).1 rest))
  ]

  pub fill_stacks-Within :
      (remaining : ℤ) (stacks : List InventoryEntity)
      → Within max_stack stacks
      → Within max_stack (fill_stacks max_stack remaining stacks).0
  unfolding fill_stacks
  fill_stacks-Within remaining [] h = tt
  fill_stacks-Within remaining (v ∷ rest) h = elim (Bool-cases (leb_ℤ remaining (pos 0))) [
    | inl done ↦ rw done h
    | inr more ↦ rw more (
      fill_stack-within remaining v h.0,
      fill_stacks-Within (fill_stack max_stack remaining v).1 rest h.1,
    )
  ]

  pub fill_stacks_left :
      (remaining : ℤ) (stacks : List InventoryEntity)
      → pos 0 ≤ℤ remaining
      → pos 0 ≤ℤ (fill_stacks max_stack remaining stacks).1
  unfolding fill_stacks
  fill_stacks_left remaining [] h = h
  fill_stacks_left remaining (v ∷ rest) h = elim (Bool-cases (leb_ℤ remaining (pos 0))) [
    | inl done ↦ rw done h
    | inr more ↦
        rw more (
          fill_stacks_left (fill_stack max_stack remaining v).1 rest
            (fill_stack_left remaining v h))
  ]

  fill_stacks_nonpos :
      (remaining : ℤ) (stacks : List InventoryEntity)
      → remaining ≤ℤ pos 0
      → (fill_stacks max_stack remaining stacks).1 ≤ℤ pos 0
  unfolding fill_stacks
  fill_stacks_nonpos remaining [] h = h
  fill_stacks_nonpos remaining (v ∷ rest) h = elim (Bool-cases (leb_ℤ remaining (pos 0))) [
    | inl done ↦ rw done h
    | inr more ↦ absurd (omega (arith, leb_ℤ→<ℤ remaining (pos 0) more))
  ]

  -- What is left over finds no room in any stack.
  pub fill_stacks-Full :
      (remaining : ℤ) (stacks : List InventoryEntity)
      → pos 0 <ℤ (fill_stacks max_stack remaining stacks).1
      → Full max_stack (fill_stacks max_stack remaining stacks).0
  unfolding fill_stacks
  fill_stacks-Full remaining [] h = tt
  fill_stacks-Full remaining (v ∷ rest) h = elim (Bool-cases (leb_ℤ remaining (pos 0))) [
    | inl done ↦ absurd (
        let stuck : pos 0 <ℤ remaining = rw done at h in
        omega (arith, stuck, leb_ℤ→≤ℤ remaining (pos 0) done))
    | inr more ↦
        let left = (fill_stack max_stack remaining v).1 in
        let over : pos 0 <ℤ (fill_stacks max_stack left rest).1 = rw more at h in
        rw more
          (fill_stack_full remaining v (still_left left rest over), fill_stacks-Full left rest over)
  ]
    where
      still_left :
          (left : ℤ) (stacks : List InventoryEntity)
          → pos 0 <ℤ (fill_stacks max_stack left stacks).1
          → pos 0 <ℤ left
      still_left left stacks over = elim (Bool-cases (leb_ℤ left (pos 0))) [
        | inl done ↦
            absurd (omega (arith, fill_stacks_nonpos left stacks (leb_ℤ→≤ℤ left (pos 0) done)))
        | inr more ↦ leb_ℤ→<ℤ left (pos 0) more
      ]

  pub ids-fill_stacks :
      (remaining : ℤ) (stacks : List InventoryEntity)
      → ids (fill_stacks max_stack remaining stacks).0 ≡ ids stacks
  unfolding fill_stacks
  ids-fill_stacks remaining [] = refl
  ids-fill_stacks remaining (v ∷ rest) = elim (Bool-cases (leb_ℤ remaining (pos 0))) [
    | inl done ↦ rw done
    | inr more ↦
        rw (
          more,
          id-fill_stack remaining v,
          ids-fill_stacks (fill_stack max_stack remaining v).1 rest,
        )
  ]
