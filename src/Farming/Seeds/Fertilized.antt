-- ===== src/Farming/Seeds/Fertilized.antt =====
-- What `use_fertilizer` (apps/gameplay-service/src/farming/use-fertilizer) does.
use cifarm_server_alternativ.Prelude.{
  ℕ, ◌≡◌, true, false, some, none, List, [], ◌∷◌, pos, ◌+ℤ◌, ◌-ℤ◌,
}
use cifarm_server_alternativ.Result.{ok}
use cifarm_server_alternativ.Entities.{
  SeedGrowthInfoEntity, no_crop_changes, PlacedItemEntity, UserEntity, UserChanges, Activities,
  InventoryEntity, SupplyEntity,
}
use cifarm_server_alternativ.Database.{
  Database, with_crop, Statement, update_user, update_inventory, update_seed_growth_info,
  user_after, crop_after,
}
use cifarm_server_alternativ.Service.{Plan}
use cifarm_server_alternativ.Gameplay.Activity.{activity_changes}
use cifarm_server_alternativ.Gameplay.Activity.Paid.{IsPaid}
use cifarm_server_alternativ.Farming.Seeds.{use_fertilizer}

abbrev fertilized :
    UserEntity
    → UserChanges
    → InventoryEntity
    → SupplyEntity
    → SeedGrowthInfoEntity
    → List Statement
fertilized user changes inventory supply crop =
    update_inventory inventory.id (inventory.quantity -ℤ pos 1)
    ∷ update_user user.id changes
    ∷ update_seed_growth_info crop.id (record no_crop_changes {
      current_stage_time_elapsed =
          some (crop.current_stage_time_elapsed +ℤ supply.fertilizer_effect_time_reduce);
      is_fertilized = some true;
    })
    ∷ []

module _ (db : Database) (basic_fertilizer user_id tile_id : ℕ) where
  -- The crop on the tile, whoever owns it, is fertilized and further on by the effect of the
  -- supply; its row is otherwise as it was, and the user has paid.
  pub record IsFertilized (s s' : db.State) : Type 0 where
    pub tile : PlacedItemEntity
    pub crop : SeedGrowthInfoEntity
    pub supply : SupplyEntity
    pub value : Activities
    pub user : UserEntity
    pub user' : UserEntity
    pub tile_named : tile.id ≡ tile_id
    pub planted : tile.seed_growth_info ≡ some crop
    pub fresh : crop.is_fertilized ≡ false
    pub supplied : db.find_supply basic_fertilizer s ≡ some supply
    pub crop_before : db.crop_row crop.id s ≡ some crop
    pub crop_after :
        db.crop_row crop.id s'
        ≡ some (record crop {
          current_stage_time_elapsed =
              crop.current_stage_time_elapsed +ℤ supply.fertilizer_effect_time_reduce;
          is_fertilized = true;
        })
    pub user_before : db.find_user user_id s ≡ some user
    pub user_after : db.find_user user_id s' ≡ some user'
    pub paid : IsPaid value.use_fertilizer user user'

  record Found (s : db.State) (plan : Plan (Unit {0})) (statements : List Statement) : Type 0 where
    tile : PlacedItemEntity
    crop : SeedGrowthInfoEntity
    value : Activities
    user : UserEntity
    changes : UserChanges
    inventory : InventoryEntity
    supply : SupplyEntity
    tile_found :
        db.find_placed_item (record { id = tile_id; user_id = none; type = none }) with_crop s
        ≡ some tile
    planted : tile.seed_growth_info ≡ some crop
    fresh : crop.is_fertilized ≡ false
    user_found : db.find_user user_id s ≡ some user
    payable : activity_changes user value.use_fertilizer ≡ ok changes
    supplied : db.find_supply basic_fertilizer s ≡ some supply
    written : statements ≡ fertilized user changes inventory supply crop
