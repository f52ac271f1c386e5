-- ===== src/Gameplay/Inventory/Add.antt =====
-- The contract of `InventoryService.add`.
use cifarm_server_alternativ.Prelude.{
  ℕ, ◌≡◌, refl, List, [], ◌∷◌, ◌++◌, ℤ, pos, pos_part, ◌+ℤ◌, ◌≤ℤ◌, ◌<ℤ◌, All, ◌⊎◌, inl, inr, arith,
  int_laws, Bool-cases, leb_ℤ, leb_ℤ→≤ℤ, leb_ℤ→<ℤ,
}
use cifarm_server_alternativ.Result.{ok}
use cifarm_server_alternativ.Entities.{InventoryEntity, InventoryTypeEntity}
use cifarm_server_alternativ.Gameplay.Inventory.{fill_stacks, add}
use cifarm_server_alternativ.Gameplay.Inventory.Fill.{
  total, Within, Full, ids, fill_stacks-total, fill_stacks-Within, fill_stacks_left,
  fill_stacks-Full, ids-fill_stacks,
}
use cifarm_server_alternativ.Gameplay.Inventory.Open.{IsNew, open_stacks_total}

total-append : (xs ys : List InventoryEntity) → total (xs ++ ys) ≡ total xs +ℤ total ys
total-append [] ys = omega int_laws
total-append (x ∷ xs) ys = rw (total-append xs ys) (omega int_laws)

-- How the stacks after `add` come from those before.
pub record IsAdded (before : List InventoryEntity) (user_id : ℕ) (type : InventoryTypeEntity)
    (quantity : ℤ) (after : List InventoryEntity) : Type 0 where
  pub filled : List InventoryEntity
  pub opened : List InventoryEntity
  pub split : after ≡ filled ++ opened
  -- every row is kept, in its place
  pub same_rows : ids filled ≡ ids before
  -- no piece is lost or made up
  pub conserved : total after ≡ total before +ℤ quantity
  pub new : All (IsNew user_id type) opened
  -- a new stack is opened only when no old one has room
  pub packed : (opened ≡ []) ⊎ Full type.max_stack filled
  pub limited : Within type.max_stack before → Within type.max_stack filled

module _ (before : List InventoryEntity) (user_id : ℕ) (type : InventoryTypeEntity)
    (quantity : ℤ) where
  total_nonneg :
      (opened : List InventoryEntity) → All (IsNew user_id type) opened → pos 0 ≤ℤ total opened
  total_nonneg [] new = omega arith
  total_nonneg (v ∷ rest) (first, others) = omega (int_laws, total_nonneg rest others)

  opened_empty :
      (opened : List InventoryEntity)
      → All (IsNew user_id type) opened
      → total opened ≤ℤ pos 0
      → opened ≡ []
  opened_empty [] new h = refl
  opened_empty (v ∷ rest) (first, others) h = absurd (omega (int_laws, total_nonneg rest others))

  packed_cases :
      (left : ℤ) (filled opened : List InventoryEntity)
      → (pos 0 <ℤ left → Full type.max_stack filled)
      → pos 0 ≤ℤ left
      → total opened ≡ left
      → All (IsNew user_id type) opened
      → (opened ≡ []) ⊎ Full type.max_stack filled
  packed_cases left filled opened full nonneg sum new = elim (Bool-cases (leb_ℤ left (pos 0))) [
    | inl none_left ↦ inl (opened_empty opened new (rw sum (leb_ℤ→≤ℤ left (pos 0) none_left)))
    | inr some_left ↦ inr (full (leb_ℤ→<ℤ left (pos 0) some_left))
  ]

  -- With stacks of at least 1 piece and a quantity of at least 0, `add` returns. The old rows are
  -- kept in their order, what is in the stacks grows by exactly the quantity, a new stack is
  -- unsaved, not empty, within the limit and of the right user and type, new stacks are opened only
  -- where every old one is full, and old stacks that were within the limit stay within it.
  pub add-IsAdded :
      pos 1 ≤ℤ type.max_stack
      → pos 0 ≤ℤ quantity
      → (after : List InventoryEntity) × (add before user_id type quantity ≡ ok after)
        × IsAdded before user_id type quantity after
  unfolding add
  add-IsAdded room nonneg =
      let (filled, left) = fill_stacks type.max_stack quantity before in
      let nonneg' = fill_stacks_left type.max_stack quantity before nonneg in
      let (opened, ran, sum, new) =
        open_stacks_total user_id type (pos_part left) left room nonneg' (omega arith) in
      (
        filled ++ opened,
        rw ran,
        record {
          filled = filled;
          opened = opened;
          split = refl;
          same_rows = ids-fill_stacks type.max_stack quantity before;
          conserved =
              rw (total-append filled opened, sum)
                (fill_stacks-total type.max_stack quantity before);
          new = new;
          packed =
              packed_cases left filled opened (fill_stacks-Full type.max_stack quantity before)
                nonneg' sum new;
          limited = fill_stacks-Within type.max_stack quantity before;
        },
      )
