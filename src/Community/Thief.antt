-- ===== src/Community/Thief.antt =====
-- `TheifCropService` and `ThiefAnimalProductService`. The number that `Math.random` returns is an
-- argument.
pub mod Loot
pub mod Product
use cifarm_server_alternativ.Prelude.{ℕ, Option, none, some, [], ◌∷◌, not, ℤ, ◌-ℤ◌, eqb_ℤ, min_ℤ}
use cifarm_server_alternativ.Result.{
  Result, ok, err, ◌>>=◌, ◌>>◌, throw_if, or_throw, deref, grpc_not_found, grpc_failed_precondition,
}
use cifarm_server_alternativ.Entities.{
  CropCurrentState, crop_state_eq, AnimalCurrentState, animal_state_eq, PlacedItemType,
  InventoryType, no_crop_changes, no_animal_changes, spread,
}
use cifarm_server_alternativ.Database.{
  Database, with_crop, with_animal, any_inventory, any_inventory_type, Statement, update_user,
  update_seed_growth_info, update_animal_info, save_inventories,
}
use cifarm_server_alternativ.Service.{Plan, Handler}
use cifarm_server_alternativ.Gameplay.Energy
use cifarm_server_alternativ.Gameplay.Level
use cifarm_server_alternativ.Gameplay.Inventory
use cifarm_server_alternativ.Gameplay.Thief
use cifarm_server_alternativ.Community.Help.{farm_changed}

module _ (db : Database) where
  unfoldable pub thief_crop : ℕ → ℕ → ℕ → ℕ → Handler db ℤ
  thief_crop user_id neighbor_user_id placed_item_tile_id random s = do
    placed_item_tile ←
        or_throw
          (db.find_placed_item
            (record {
              id = placed_item_tile_id;
              user_id = some neighbor_user_id;
              type = some PlacedItemType.tile;
            })
            with_crop s)
          (grpc_not_found "Tile not found")
    seed_growth_info ←
        or_throw placed_item_tile.seed_growth_info (grpc_not_found "Tile is not planted")
    throw_if (not (crop_state_eq seed_growth_info.current_state CropCurrentState.fully_matured))
        (grpc_not_found "Crop is not fully matured")
    throw_if
        (eqb_ℤ seed_growth_info.harvest_quantity_remaining
          seed_growth_info.crop.min_harvest_quantity)
        (grpc_not_found "Crop is already harvested")
    value ← deref (db.find_activities s)
    user ← deref (db.find_user user_id s)
    Energy.check_sufficient user.energy value.thief_crop.energy_consume
    chances ← deref (db.find_crop_randomness s)
    let computed_quantity = Thief.compute chances.thief2 chances.thief3 random
    let actual_quantity =
        min_ℤ computed_quantity (
          seed_growth_info.harvest_quantity_remaining -ℤ seed_growth_info.crop.min_harvest_quantity)
    inventory_type ← deref (
        db.find_inventory_type
          (record any_inventory_type {
            type = some InventoryType.product;
            product_crop_id = some seed_growth_info.crop.id;
          })
          s)
    updated_inventories ←
        Inventory.add
          (db.find_inventories
            (record any_inventory {
              user_id = some user_id;
              inventory_type_id = some inventory_type.id;
            })
            s)
          user_id inventory_type actual_quantity
    energy_changes ← Energy.substract user value.thief_crop.energy_consume
    experiences_changes ← Level.add_experiences user value.thief_crop.experiences_gain
    ok (record {
      statements = ok (
          update_user user.id (spread energy_changes experiences_changes)
          ∷ save_inventories updated_inventories
          ∷ update_seed_growth_info seed_growth_info.id (record no_crop_changes {
            harvest_quantity_remaining =
                some (seed_growth_info.harvest_quantity_remaining -ℤ actual_quantity);
          })
          ∷ []);
      messages = farm_changed neighbor_user_id ∷ [];
      response = actual_quantity;
    })

  unfoldable pub thief_animal_product : ℕ → ℕ → ℕ → ℕ → Handler db ℤ
  thief_animal_product user_id neighbor_user_id placed_item_animal_id random s = do
    placed_item_animal ←
        or_throw
          (db.find_placed_item
            (record {
              id = placed_item_animal_id;
              user_id = some neighbor_user_id;
              type = some PlacedItemType.animal;
            })
            with_animal s)
          (grpc_not_found "Animal not found")
    animal_info ← deref placed_item_animal.animal_info
    throw_if (not (animal_state_eq animal_info.current_state AnimalCurrentState.yield))
        (grpc_failed_precondition "Animal is not yielding")
    throw_if (eqb_ℤ animal_info.harvest_quantity_remaining animal_info.animal.min_harvest_quantity)
        (grpc_failed_precondition "Animal is not ready to harvest")
    value ← deref (db.find_activities s)
    user ← deref (db.find_user user_id s)
    Energy.check_sufficient user.energy value.thief_animal_product.energy_consume
    chances ← deref (db.find_animal_randomness s)
    let computed_quantity = Thief.compute chances.thief2 chances.thief3 random
    let actual_quantity =
        min_ℤ computed_quantity
          (animal_info.harvest_quantity_remaining -ℤ animal_info.animal.min_harvest_quantity)
    inventory_type ← deref (
        db.find_inventory_type
          (record any_inventory_type {
            type = some InventoryType.product;
            product_animal_id = some animal_info.animal.id;
          })
          s)
    updated_inventories ←
        Inventory.add
          (db.find_inventories
            (record any_inventory {
              user_id = some user_id;
              inventory_type_id = some inventory_type.id;
            })
            s)
          user_id inventory_type actual_quantity
    energy_changes ← Energy.substract user value.thief_animal_product.energy_consume
    experiences_changes ← Level.add_experiences user value.thief_animal_product.experiences_gain
    ok (record {
      statements = ok (
          update_user user.id (spread energy_changes experiences_changes)
          ∷ save_inventories updated_inventories
          ∷ update_animal_info animal_info.id (record no_animal_changes {
            harvest_quantity_remaining =
                some (animal_info.harvest_quantity_remaining -ℤ actual_quantity);
          })
          ∷ []);
      messages = farm_changed neighbor_user_id ∷ [];
      response = actual_quantity;
    })
