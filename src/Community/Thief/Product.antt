-- ===== src/Community/Thief/Product.antt =====
-- What a theft of animal products takes, and what it leaves.
use cifarm_server_alternativ.Prelude.{ℕ, ◌≡◌, some, List, ℤ, pos, ◌-ℤ◌, ◌≤ℤ◌, min_ℤ}
use cifarm_server_alternativ.Entities.{
  AnimalCurrentState, PlacedItemType, PlacedItemEntity, AnimalInfoEntity,
}
use cifarm_server_alternativ.Database.{Database, with_animal, Statement, animal_after}
use cifarm_server_alternativ.Gameplay.Energy
use cifarm_server_alternativ.Gameplay.Level
use cifarm_server_alternativ.Gameplay.Inventory
use cifarm_server_alternativ.Gameplay.Thief

-- A theft of `quantity` products of the animal `animal`.
pub record IsProductTheft (animal : AnimalInfoEntity) (quantity : ℤ) : Type 0 where
  pub yielding : animal.current_state ≡ AnimalCurrentState.yield
  pub at_most_three : quantity ≤ℤ pos 3
  -- the owner keeps the minimum
  pub minimum_kept :
      animal.animal.min_harvest_quantity ≤ℤ animal.harvest_quantity_remaining -ℤ quantity
  -- and above the minimum the thief gets something
  pub something :
      animal.animal.min_harvest_quantity ≤ℤ animal.harvest_quantity_remaining → pos 1 ≤ℤ quantity

abbrev amount : ℕ → ℕ → ℕ → AnimalInfoEntity → ℤ
amount thief2 thief3 random animal =
    min_ℤ (Thief.compute thief2 thief3 random)
      (animal.harvest_quantity_remaining -ℤ animal.animal.min_harvest_quantity)

module _ (db : Database) (user_id neighbor_user_id item_id random : ℕ) where
  -- What a plan has found and written.
  record Robbed (s : db.State) (quantity : ℤ) (statements : List Statement) : Type 0 where
    item : PlacedItemEntity
    animal : AnimalInfoEntity
    item_found :
        db.find_placed_item
          (record {
            id = item_id;
            user_id = some neighbor_user_id;
            type = some PlacedItemType.animal;
          })
          with_animal
          s
        ≡ some item
    housed : item.animal_info ≡ some animal
    robbed : IsProductTheft animal quantity
    written : animal_after animal.id statements animal ≡ record animal {
      harvest_quantity_remaining = animal.harvest_quantity_remaining -ℤ quantity;
    }
