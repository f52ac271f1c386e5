-- ===== src/Farming/Crops.antt =====
-- `WaterService`, `UsePesticideService` and `UseHerbicideService`: a user takes care of a crop.
-- The names of the requests' fields are those of the arguments.
pub mod Healing
use cifarm_server_alternativ.Prelude.{ℕ, Option, none, some, [], ◌∷◌, not}
use cifarm_server_alternativ.Result.{
  Result, ok, err, ◌>>=◌, ◌>>◌, throw_if, or_throw, deref, grpc_not_found, grpc_failed_precondition,
}
use cifarm_server_alternativ.Entities.{
  CropCurrentState, crop_state_eq, SeedGrowthInfoEntity, no_crop_changes,
}
use cifarm_server_alternativ.Database.{
  Database, with_crop, Statement, update_user, update_seed_growth_info,
}
use cifarm_server_alternativ.Service.{Plan, Handler}
use cifarm_server_alternativ.Gameplay.Activity.{activity_changes}

module _ (db : Database) where
  unfoldable pub water : ℕ → ℕ → Handler db (Unit {0})
  water user_id placed_item_tile_id s = do
    placed_item_tile ←
        or_throw
          (db.find_placed_item
            (record { id = placed_item_tile_id; user_id = some user_id; type = none }) with_crop s)
          (grpc_not_found "Tile not found")
    seed_growth_info ←
        or_throw placed_item_tile.seed_growth_info (grpc_failed_precondition "Tile is not planted")
    throw_if (not (crop_state_eq seed_growth_info.current_state CropCurrentState.need_water))
        (grpc_failed_precondition "Tile does not need water")
    value ← deref (db.find_activities s)
    user ← deref (db.find_user user_id s)
    changes ← activity_changes user value.water
    ok (record {
      statements = ok (
          update_user user.id changes
          ∷ update_seed_growth_info seed_growth_info.id
              (record no_crop_changes { current_state = some CropCurrentState.normal })
          ∷ []);
      messages = [];
      response = tt;
    })

  -- The source reads `helpUsePesticide` here.
  unfoldable pub use_pesticide : ℕ → ℕ → Handler db (Unit {0})
  use_pesticide user_id placed_item_tile_id s = do
    placed_item_tile ←
        or_throw
          (db.find_placed_item
            (record { id = placed_item_tile_id; user_id = some user_id; type = none }) with_crop s)
          (grpc_not_found "Tile not found")
    seed_growth_info ←
        or_throw placed_item_tile.seed_growth_info (grpc_failed_precondition "Tile is not planted")
    throw_if (not (crop_state_eq seed_growth_info.current_state CropCurrentState.is_infested))
        (grpc_failed_precondition "Tile is not infested")
    value ← deref (db.find_activities s)
    user ← deref (db.find_user user_id s)
    changes ← activity_changes user value.help_use_pesticide
    ok (record {
      statements = ok (
          update_user user.id changes
          ∷ update_seed_growth_info seed_growth_info.id
              (record no_crop_changes { current_state = some CropCurrentState.normal })
          ∷ []);
      messages = [];
      response = tt;
    })

  -- The source reads `usePesticide` here.
  unfoldable pub use_herbicide : ℕ → ℕ → Handler db (Unit {0})
  use_herbicide user_id placed_item_tile_id s = do
    placed_item_tile ←
        or_throw
          (db.find_placed_item
            (record { id = placed_item_tile_id; user_id = some user_id; type = none }) with_crop s)
          (grpc_not_found "Tile not found")
    seed_growth_info ←
        or_throw placed_item_tile.seed_growth_info (grpc_failed_precondition "Tile is not planted")
    throw_if (not (crop_state_eq seed_growth_info.current_state CropCurrentState.is_weedy))
        (grpc_failed_precondition "Tile is not weedy")
    value ← deref (db.find_activities s)
    user ← deref (db.find_user user_id s)
    changes ← activity_changes user value.use_pesticide
    ok (record {
      statements = ok (
          update_user user.id changes
          ∷ update_seed_growth_info seed_growth_info.id
              (record no_crop_changes { current_state = some CropCurrentState.normal })
          ∷ []);
      messages = [];
      response = tt;
    })
