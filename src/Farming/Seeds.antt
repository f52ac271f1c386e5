-- ===== src/Farming/Seeds.antt =====
-- `PlantSeedService`, `UseFertilizerService` and `HarvestCropService`.
pub mod Fertilized
pub mod Planting
use cifarm_server_alternativ.Prelude.{
  ℕ, true, none, some, [], ◌∷◌, not, ℤ, pos, ◌+ℤ◌, ◌-ℤ◌, leb_ℤ, eqb_ℤ, if◌then◌else◌,
}
use cifarm_server_alternativ.Result.{
  ok, ◌>>=◌, ◌>>◌, throw_if, or_throw, deref, is_some, grpc_not_found, grpc_failed_precondition,
}
use cifarm_server_alternativ.Entities.{
  CropCurrentState, crop_state_eq, InventoryType, no_crop_changes, SeedGrowthInfoEntity,
  InventoryEntity,
}
use cifarm_server_alternativ.Database.{
  Database, no_relations, with_crop, any_inventory, any_inventory_type, Statement, update_user,
  update_seed_growth_info, insert_seed_growth_info, remove_seed_growth_info, update_inventory,
  remove_inventory, save_inventories,
}
use cifarm_server_alternativ.Service.{Handler}
use cifarm_server_alternativ.Gameplay.Activity.{activity_changes}
use cifarm_server_alternativ.Gameplay.Inventory

-- `if (!quantity) remove else update`
pub taken : InventoryEntity → ℤ → Statement
taken inventory quantity =
    if eqb_ℤ quantity (pos 0)
    then remove_inventory inventory
    else update_inventory inventory.id quantity

-- The last step of a harvest: the crop is gone after its last season, and starts again before.
pub after_harvest : SeedGrowthInfoEntity → Statement
after_harvest seed_growth_info =
    if leb_ℤ seed_growth_info.crop.perennial_count seed_growth_info.current_perennial_count
    then remove_seed_growth_info seed_growth_info.id
    else update_seed_growth_info seed_growth_info.id (record no_crop_changes {
      current_perennial_count = some (seed_growth_info.current_perennial_count +ℤ pos 1);
      current_state = some CropCurrentState.normal;
      current_stage_time_elapsed = some (pos 0);
    })

module _ (db : Database) where
  -- The source reads the activity `water` here.
  unfoldable pub plant_seed : ℕ → ℕ → ℕ → Handler db (Unit {0})
  unfolding taken
  plant_seed user_id inventory_seed_id placed_item_tile_id s = do
    inventory ←
        or_throw
          (db.find_inventory
            (record any_inventory { id = some inventory_seed_id; type = some InventoryType.seed })
            s)
          (grpc_not_found "Seed not found in inventory")
    placed_item_tile ←
        or_throw
          (db.find_placed_item (record { id = placed_item_tile_id; user_id = none; type = none })
            no_relations s)
          (grpc_not_found "Tile not found")
    throw_if (is_some placed_item_tile.seed_growth_info)
        (grpc_failed_precondition "Tile is already planted")
    value ← deref (db.find_activities s)
    user ← deref (db.find_user user_id s)
    changes ← activity_changes user value.water
    quantity ← Inventory.remove inventory (pos 1)
    inventory_type ← deref inventory.inventory_type
    -- a missing crop is read inside the `try`
    let statements = (do
      crop ← deref (db.find_crop inventory_type.crop_id s)
      ok (
          update_user user.id changes
          ∷ taken inventory quantity
          ∷ insert_seed_growth_info (record {
            placed_item_id = placed_item_tile.id;
            harvest_quantity_remaining = crop.max_harvest_quantity;
            crop_id = crop.id;
          })
          ∷ []))
    ok (record { statements = statements; messages = []; response = tt })

  -- `basic_fertilizer` is `SupplyId.BasicFertilizer`, the id of a supply and of its inventory type.
  unfoldable pub use_fertilizer : ℕ → ℕ → ℕ → Handler db (Unit {0})
  use_fertilizer basic_fertilizer user_id placed_item_tile_id s = do
    placed_item_tile ←
        or_throw
          (db.find_placed_item (record { id = placed_item_tile_id; user_id = none; type = none })
            with_crop s)
          (grpc_not_found "Tile not found")
    seed_growth_info ←
        or_throw placed_item_tile.seed_growth_info (grpc_not_found "Tile is not planted")
    throw_if seed_growth_info.is_fertilized (grpc_failed_precondition "Tile is already fertilized")
    value ← deref (db.find_activities s)
    user ← deref (db.find_user user_id s)
    changes ← activity_changes user value.use_fertilizer
    inventory ←
        or_throw
          (db.find_inventory
            (record any_inventory {
              user_id = some user.id;
              inventory_type_id = some basic_fertilizer;
              type = some InventoryType.supply;
            })
            s)
          (grpc_not_found "Fertilizer not found in inventory")
    let statements = (do
      fertilizer ← deref (db.find_supply basic_fertilizer s)
      ok (
          update_inventory inventory.id (inventory.quantity -ℤ pos 1)
          ∷ update_user user.id changes
          ∷ update_seed_growth_info seed_growth_info.id (record no_crop_changes {
            current_stage_time_elapsed = some (
                seed_growth_info.current_stage_time_elapsed
                +ℤ fertilizer.fertilizer_effect_time_reduce);
            is_fertilized = some true;
          })
          ∷ []))
    ok (record { statements = statements; messages = []; response = tt })

  -- The first guard of the source is `if (placedItemTile.seedGrowthInfo) throw …`, with no `!`. The
  -- activity read is `water`.
  unfoldable pub harvest_crop : ℕ → ℕ → Handler db (Unit {0})
  unfolding after_harvest
  harvest_crop user_id placed_item_tile_id s = do
    placed_item_tile ←
        or_throw
          (db.find_placed_item (record { id = placed_item_tile_id; user_id = none; type = none })
            with_crop s)
          (grpc_not_found "Tile not found")
    throw_if (is_some placed_item_tile.seed_growth_info)
        (grpc_failed_precondition "Tile is not planted")
    seed_growth_info ← deref placed_item_tile.seed_growth_info
    throw_if (not (crop_state_eq seed_growth_info.current_state CropCurrentState.fully_matured))
        (grpc_failed_precondition "Crop is not fully matured")
    value ← deref (db.find_activities s)
    user ← deref (db.find_user user_id s)
    changes ← activity_changes user value.water
    product_id ← deref (db.find_product_of_crop seed_growth_info.crop.id s)
    inventory_type ← deref (
        db.find_inventory_type
          (record any_inventory_type {
            type = some InventoryType.product;
            product_id = some product_id;
          })
          s)
    updated_inventories ←
        Inventory.add
          (db.find_inventories
            (record any_inventory {
              user_id = some user_id;
              inventory_type_id = some inventory_type.id;
            })
            s)
          user_id inventory_type seed_growth_info.harvest_quantity_remaining
    ok (record {
      statements = ok (
          update_user user.id changes
          ∷ save_inventories updated_inventories
          ∷ after_harvest seed_growth_info
          ∷ []);
      messages = [];
      response = tt;
    })
