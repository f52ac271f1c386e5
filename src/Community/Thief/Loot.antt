-- ===== src/Community/Thief/Loot.antt =====
-- What a theft takes, and what it leaves.
use cifarm_server_alternativ.Prelude.{ℕ, ◌≡◌, some, List, [], ◌∷◌, ℤ, pos, ◌-ℤ◌, ◌≤ℤ◌, arith}
use cifarm_server_alternativ.Result.{ok}
use cifarm_server_alternativ.Entities.{
  CropCurrentState, PlacedItemType, UserEntity, UserChanges, InventoryEntity, PlacedItemEntity,
  SeedGrowthInfoEntity, no_crop_changes,
}
use cifarm_server_alternativ.Database.{
  Database, with_crop, Statement, update_user, update_seed_growth_info, save_inventories,
}
use cifarm_server_alternativ.Service.{Plan}
use cifarm_server_alternativ.Gameplay.Energy
use cifarm_server_alternativ.Gameplay.Level
use cifarm_server_alternativ.Gameplay.Inventory
use cifarm_server_alternativ.Gameplay.Thief

-- The computed quantity is between 1 and 3.
pub compute_range :
    (thief2 thief3 random : ℕ)
    → (pos 1 ≤ℤ Thief.compute thief2 thief3 random) × (Thief.compute thief2 thief3 random ≤ℤ pos 3)
unfolding Thief.compute
compute_range thief2 thief3 random = ground arith

-- A theft of `quantity` pieces of the crop `crop`.
pub record IsTheft (crop : SeedGrowthInfoEntity) (quantity : ℤ) : Type 0 where
  pub matured : crop.current_state ≡ CropCurrentState.fully_matured
  pub at_most_three : quantity ≤ℤ pos 3
  -- the owner keeps the minimum
  pub minimum_kept : crop.crop.min_harvest_quantity ≤ℤ crop.harvest_quantity_remaining -ℤ quantity
  -- and above the minimum the thief gets something
  pub something :
      crop.crop.min_harvest_quantity ≤ℤ crop.harvest_quantity_remaining → pos 1 ≤ℤ quantity

abbrev looted : ℕ → UserChanges → List InventoryEntity → SeedGrowthInfoEntity → ℤ → List Statement
looted user_id changes inventories crop quantity =
    update_user user_id changes
    ∷ save_inventories inventories
    ∷ update_seed_growth_info crop.id (record no_crop_changes {
      harvest_quantity_remaining = some (crop.harvest_quantity_remaining -ℤ quantity);
    })
    ∷ []

module _ (db : Database) (user_id neighbor_user_id tile_id random : ℕ) where
  record Found (s : db.State) (plan : Plan ℤ) : Type 0 where
    tile : PlacedItemEntity
    crop : SeedGrowthInfoEntity
    user : UserEntity
    changes : UserChanges
    inventories : List InventoryEntity
    tile_found :
        db.find_placed_item
          (record {
            id = tile_id;
            user_id = some neighbor_user_id;
            type = some PlacedItemType.tile;
          })
          with_crop
          s
        ≡ some tile
    planted : tile.seed_growth_info ≡ some crop
    theft : IsTheft crop plan.response
    statements : plan.statements ≡ ok (looted user.id changes inventories crop plan.response)
