-- ===== src/Community/Help.antt =====
-- `HelpWaterService`, `HelpUsePesticideService`, `HelpUseHerbicideService` and
-- `HelpCureAnimalService`. A message tells the gateway which farm has changed.
pub mod Healing
pub mod Tending
use cifarm_server_alternativ.Prelude.{ℕ, Option, none, some, [], ◌∷◌, not}
use cifarm_server_alternativ.Result.{
  Result, ok, err, ◌>>=◌, ◌>>◌, throw_if, or_throw, deref, grpc_not_found, grpc_failed_precondition,
}
use cifarm_server_alternativ.Entities.{
  CropCurrentState, crop_state_eq, AnimalCurrentState, animal_state_eq, PlacedItemType,
  no_crop_changes, no_animal_changes,
}
use cifarm_server_alternativ.Database.{
  Database, with_crop, with_animal, Statement, update_user, update_seed_growth_info,
  update_animal_info,
}
use cifarm_server_alternativ.Service.{Plan, Handler, PlacedItemsMessage}
use cifarm_server_alternativ.Gameplay.Activity.{activity_changes}

-- The payload `{ userId: neighborUserId }`.
abbrev pub farm_changed : ℕ → PlacedItemsMessage
farm_changed neighbor_user_id = record { user_id = some neighbor_user_id; neighbor_user_id = none }

-- The payload `{ neighborUserId }`, which only `helpWater` sends.
abbrev pub neighbor_changed : ℕ → PlacedItemsMessage
neighbor_changed neighbor_user_id = record {
  user_id = none;
  neighbor_user_id = some neighbor_user_id;
}

module _ (db : Database) where
  unfoldable pub help_water : ℕ → ℕ → ℕ → Handler db (Unit {0})
  help_water user_id neighbor_user_id placed_item_tile_id s = do
    placed_item_tile ←
        or_throw
          (db.find_placed_item
            (record {
              id = placed_item_tile_id;
              user_id = some neighbor_user_id;
              type = some PlacedItemType.tile;
            })
            with_crop s)
          (grpc_not_found "Tile not found")
    seed_growth_info ←
        or_throw placed_item_tile.seed_growth_info (grpc_failed_precondition "Tile is not planted")
    throw_if (not (crop_state_eq seed_growth_info.current_state CropCurrentState.need_water))
        (grpc_failed_precondition "Tile does not need water")
    value ← deref (db.find_activities s)
    user ← deref (db.find_user user_id s)
    changes ← activity_changes user value.help_water
    ok (record {
      statements = ok (
          update_user user.id changes
          ∷ update_seed_growth_info seed_growth_info.id
              (record no_crop_changes { current_state = some CropCurrentState.normal })
          ∷ []);
      messages = neighbor_changed neighbor_user_id ∷ [];
      response = tt;
    })

  unfoldable pub help_use_pesticide : ℕ → ℕ → ℕ → Handler db (Unit {0})
  help_use_pesticide user_id neighbor_user_id placed_item_tile_id s = do
    placed_item_tile ←
        or_throw
          (db.find_placed_item
            (record {
              id = placed_item_tile_id;
              user_id = some neighbor_user_id;
              type = some PlacedItemType.tile;
            })
            with_crop s)
          (grpc_not_found "Tile not found")
    seed_growth_info ←
        or_throw placed_item_tile.seed_growth_info (grpc_failed_precondition "Tile is not planted")
    throw_if (not (crop_state_eq seed_growth_info.current_state CropCurrentState.is_infested))
        (grpc_failed_precondition "Tile is not infested")
    value ← deref (db.find_activities s)
    user ← deref (db.find_user user_id s)
    changes ← activity_changes user value.help_water
    ok (record {
      statements = ok (
          update_user user.id changes
          ∷ update_seed_growth_info seed_growth_info.id
              (record no_crop_changes { current_state = some CropCurrentState.normal })
          ∷ []);
      messages = farm_changed neighbor_user_id ∷ [];
      response = tt;
    })

  unfoldable pub help_use_herbicide : ℕ → ℕ → ℕ → Handler db (Unit {0})
  help_use_herbicide user_id neighbor_user_id placed_item_tile_id s = do
    placed_item_tile ←
        or_throw
          (db.find_placed_item
            (record {
              id = placed_item_tile_id;
              user_id = some neighbor_user_id;
              type = some PlacedItemType.tile;
            })
            with_crop s)
          (grpc_not_found "Tile not found")
    seed_growth_info ←
        or_throw placed_item_tile.seed_growth_info (grpc_failed_precondition "Tile is not planted")
    throw_if (not (crop_state_eq seed_growth_info.current_state CropCurrentState.is_weedy))
        (grpc_failed_precondition "Tile is not weedy")
    value ← deref (db.find_activities s)
    user ← deref (db.find_user user_id s)
    changes ← activity_changes user value.help_water
    ok (record {
      statements = ok (
          update_user user.id changes
          ∷ update_seed_growth_info seed_growth_info.id
              (record no_crop_changes { current_state = some CropCurrentState.normal })
          ∷ []);
      messages = farm_changed neighbor_user_id ∷ [];
      response = tt;
    })

  unfoldable pub help_cure_animal : ℕ → ℕ → ℕ → Handler db (Unit {0})
  help_cure_animal user_id neighbor_user_id placed_item_animal_id s = do
    placed_item_animal ←
        or_throw
          (db.find_placed_item
            (record {
              id = placed_item_animal_id;
              user_id = some neighbor_user_id;
              type = some PlacedItemType.animal;
            })
            with_animal s)
          (grpc_not_found "Animal not found")
    animal_info ← or_throw placed_item_animal.animal_info (grpc_not_found "Animal not found")
    throw_if (not (animal_state_eq animal_info.current_state AnimalCurrentState.sick))
        (grpc_failed_precondition "Animal is not sick")
    value ← deref (db.find_activities s)
    user ← deref (db.find_user user_id s)
    changes ← activity_changes user value.help_cure_animal
    ok (record {
      statements = ok (
          update_user user.id changes
          ∷ update_animal_info animal_info.id
              (record no_animal_changes { current_state = some AnimalCurrentState.normal })
          ∷ []);
      messages = farm_changed neighbor_user_id ∷ [];
      response = tt;
    })
