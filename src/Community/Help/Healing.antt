-- ===== src/Community/Help/Healing.antt =====
-- The three services that take care of a neighbor's crop: what a call that returns has done, and the
-- message that it has sent.
use cifarm_server_alternativ.Prelude.{ℕ, ◌≡◌, some, [], ◌++◌, ◌∷◌}
use cifarm_server_alternativ.Result.{ok, grpc_not_found, grpc_failed_precondition}
use cifarm_server_alternativ.Entities.{CropCurrentState, PlacedItemType}
use cifarm_server_alternativ.Database.{Database, DatabaseLaws}
use cifarm_server_alternativ.Service.{World, perform}
use cifarm_server_alternativ.Care.{Heals}
use cifarm_server_alternativ.Care.Form
use cifarm_server_alternativ.Care.Form.{HealArguments}
use cifarm_server_alternativ.Community.Help.{
  help_water, help_use_pesticide, help_use_herbicide, farm_changed, neighbor_changed,
}

abbrev help_water_arguments : ℕ → ℕ → ℕ → HealArguments
help_water_arguments user_id neighbor_user_id tile_id = record {
  user_id = user_id;
  farm_id = neighbor_user_id;
  tile_id = tile_id;
  type = some PlacedItemType.tile;
  wanted = CropCurrentState.need_water;
  activity = λ value. value.help_water;
  missing = grpc_not_found "Tile not found";
  unplanted = grpc_failed_precondition "Tile is not planted";
  unneeded = grpc_failed_precondition "Tile does not need water";
  messages = neighbor_changed neighbor_user_id ∷ [];
}

abbrev help_use_pesticide_arguments : ℕ → ℕ → ℕ → HealArguments
help_use_pesticide_arguments user_id neighbor_user_id tile_id = record {
  user_id = user_id;
  farm_id = neighbor_user_id;
  tile_id = tile_id;
  type = some PlacedItemType.tile;
  wanted = CropCurrentState.is_infested;
  activity = λ value. value.help_water;
  missing = grpc_not_found "Tile not found";
  unplanted = grpc_failed_precondition "Tile is not planted";
  unneeded = grpc_failed_precondition "Tile is not infested";
  messages = farm_changed neighbor_user_id ∷ [];
}

abbrev help_use_herbicide_arguments : ℕ → ℕ → ℕ → HealArguments
help_use_herbicide_arguments user_id neighbor_user_id tile_id = record {
  user_id = user_id;
  farm_id = neighbor_user_id;
  tile_id = tile_id;
  type = some PlacedItemType.tile;
  wanted = CropCurrentState.is_weedy;
  activity = λ value. value.help_water;
  missing = grpc_not_found "Tile not found";
  unplanted = grpc_failed_precondition "Tile is not planted";
  unneeded = grpc_failed_precondition "Tile is not weedy";
  messages = farm_changed neighbor_user_id ∷ [];
}

module _ (db : Database) (user_id neighbor_user_id tile_id : ℕ) (laws : DatabaseLaws db) where
  -- On a database that meets the laws, a call of `help_water` that returns has found the tile that
  -- is named on the farm of the neighbor with a crop that was in need of water; afterwards the crop
  -- is in the state Normal and its row is otherwise as it was, and the user has paid for the
  -- activity `helpWater` out of an energy that stays at 0 or more. Below the quota of the level its
  -- gain is added to the experiences; at the quota or above the level is one more and the
  -- experiences are less by the quota. It has sent one message, with the neighbor as
  -- `neighborUserId`.
  pub help_water-Heals :
      (w w' : World db)
      → perform db (help_water db user_id neighbor_user_id tile_id) w ≡ (ok tt, w')
      → Heals db CropCurrentState.need_water
          (λ value. value.help_water)
          user_id
          neighbor_user_id
          tile_id
          w.state
          w'.state
        × (w'.sent ≡ w.sent ++ neighbor_changed neighbor_user_id ∷ [])
  unfolding help_water
  help_water-Heals w w' h =
      Form.heal-Heals db (help_water_arguments user_id neighbor_user_id tile_id) laws w w' h

  -- On a database that meets the laws, a call of `help_use_pesticide` that returns has found the
  -- tile that is named on the farm of the neighbor with a crop that was infested; afterwards the
  -- crop is in the state Normal and its row is otherwise as it was, and the user has paid for the
  -- activity `helpWater` out of an energy that stays at 0 or more. Below the quota of the
  -- level its gain is added to the experiences; at the quota or above the level is one more and the
  -- experiences are less by the quota. It has sent one message, with the neighbor as `userId`.
  pub help_use_pesticide-Heals :
      (w w' : World db)
      → perform db (help_use_pesticide db user_id neighbor_user_id tile_id) w ≡ (ok tt, w')
      → Heals db CropCurrentState.is_infested
          (λ value. value.help_water)
          user_id
          neighbor_user_id
          tile_id
          w.state
          w'.state
        × (w'.sent ≡ w.sent ++ farm_changed neighbor_user_id ∷ [])
  unfolding help_use_pesticide
  help_use_pesticide-Heals w w' h =
      Form.heal-Heals db (help_use_pesticide_arguments user_id neighbor_user_id tile_id) laws w w' h

  -- On a database that meets the laws, a call of `help_use_herbicide` that returns has found the
  -- tile that is named on the farm of the neighbor with a crop that was weedy; afterwards the crop
  -- is in the state Normal and its row is otherwise as it was, and the user has paid for the
  -- activity `helpWater` out of an energy that stays at 0 or more. Below the quota of the
  -- level its gain is added to the experiences; at the quota or above the level is one more and the
  -- experiences are less by the quota. It has sent one message, with the neighbor as `userId`.
  pub help_use_herbicide-Heals :
      (w w' : World db)
      → perform db (help_use_herbicide db user_id neighbor_user_id tile_id) w ≡ (ok tt, w')
      → Heals db CropCurrentState.is_weedy
          (λ value. value.help_water)
          user_id
          neighbor_user_id
          tile_id
          w.state
          w'.state
        × (w'.sent ≡ w.sent ++ farm_changed neighbor_user_id ∷ [])
  unfolding help_use_herbicide
  help_use_herbicide-Heals w w' h =
      Form.heal-Heals db (help_use_herbicide_arguments user_id neighbor_user_id tile_id) laws w w' h
