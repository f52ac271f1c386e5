-- ===== src/Farming/Crops/Healing.antt =====
-- The three services that take care of a crop on one's own farm: what a call that returns has done,
-- when a call returns, and when it is refused.
use cifarm_server_alternativ.Prelude.{ℕ, ◌≡◌, none, List, [], ◌++◌}
use cifarm_server_alternativ.Result.{ok, grpc_not_found, grpc_failed_precondition}
use cifarm_server_alternativ.Entities.{CropCurrentState}
use cifarm_server_alternativ.Database.{Database, DatabaseLaws, Statement}
use cifarm_server_alternativ.Service.{World, perform}
use cifarm_server_alternativ.Care.{Heals}
use cifarm_server_alternativ.Care.Form
use cifarm_server_alternativ.Care.Form.{HealArguments, heal}
use cifarm_server_alternativ.Farming.Crops.{water, use_pesticide, use_herbicide}

abbrev water_arguments : ℕ → ℕ → HealArguments
water_arguments user_id tile_id = record {
  user_id = user_id;
  farm_id = user_id;
  tile_id = tile_id;
  type = none;
  wanted = CropCurrentState.need_water;
  activity = λ value. value.water;
  missing = grpc_not_found "Tile not found";
  unplanted = grpc_failed_precondition "Tile is not planted";
  unneeded = grpc_failed_precondition "Tile does not need water";
  messages = [];
}

abbrev use_pesticide_arguments : ℕ → ℕ → HealArguments
use_pesticide_arguments user_id tile_id = record {
  user_id = user_id;
  farm_id = user_id;
  tile_id = tile_id;
  type = none;
  wanted = CropCurrentState.is_infested;
  activity = λ value. value.help_use_pesticide;
  missing = grpc_not_found "Tile not found";
  unplanted = grpc_failed_precondition "Tile is not planted";
  unneeded = grpc_failed_precondition "Tile is not infested";
  messages = [];
}

abbrev use_herbicide_arguments : ℕ → ℕ → HealArguments
use_herbicide_arguments user_id tile_id = record {
  user_id = user_id;
  farm_id = user_id;
  tile_id = tile_id;
  type = none;
  wanted = CropCurrentState.is_weedy;
  activity = λ value. value.use_pesticide;
  missing = grpc_not_found "Tile not found";
  unplanted = grpc_failed_precondition "Tile is not planted";
  unneeded = grpc_failed_precondition "Tile is not weedy";
  messages = [];
}

module _ (db : Database) (user_id tile_id : ℕ) where
  -- On a database that meets the laws, a call of `water` that returns has found the tile that is
  -- named on the farm of the user with a crop that was in need of water; afterwards the crop is in
  -- the state Normal and its row is otherwise as it was, and the user has paid for the activity
  -- `water` out of an energy that stays at 0 or more. Below the quota of the level its gain is
  -- added to the experiences; at the quota or above the level is one more and the experiences are
  -- less by the quota.
  pub water-Heals :
      DatabaseLaws db
      → (w w' : World db) → perform db (water db user_id tile_id) w ≡ (ok tt, w')
      → Heals db CropCurrentState.need_water
          (λ value. value.water)
          user_id
          user_id
          tile_id
          w.state
          w'.state
        × (w'.sent ≡ w.sent ++ [])
  unfolding water
  water-Heals laws w w' h = Form.heal-Heals db (water_arguments user_id tile_id) laws w w' h

  -- Where the tile is found on the farm of the user with a crop that needs water, the user is found
  -- with enough energy, the activity gains something, and the database accepts every transaction,
  -- `water` returns.
  pub water_returns :
      (w : World db)
      → Form.Ready db (water_arguments user_id tile_id) w.state
      → ((statements : List Statement) → (s' : db.State) × (db.commit statements w.state ≡ ok s'))
      → (perform db (water db user_id tile_id) w).0 ≡ ok tt
  unfolding water
  water_returns w r accepts = Form.heal_returns db (water_arguments user_id tile_id) w r accepts

  -- On a database that meets the laws, a call of `use_pesticide` that returns has found the tile
  -- that is named on the farm of the user with a crop that was infested; afterwards the crop is in
  -- the state Normal and its row is otherwise as it was, and the user has paid for the activity
  -- `helpUsePesticide` out of an energy that stays at 0 or more. Below the quota of the level its
  -- gain is added to the experiences; at the quota or above the level is one more and the
  -- experiences are less by the quota.
  pub use_pesticide-Heals :
      DatabaseLaws db
      → (w w' : World db) → perform db (use_pesticide db user_id tile_id) w ≡ (ok tt, w')
      → Heals db CropCurrentState.is_infested
          (λ value. value.help_use_pesticide)
          user_id
          user_id
          tile_id
          w.state
          w'.state
        × (w'.sent ≡ w.sent ++ [])
  unfolding use_pesticide
  use_pesticide-Heals laws w w' h =
      Form.heal-Heals db (use_pesticide_arguments user_id tile_id) laws w w' h

  pub use_pesticide_returns :
      (w : World db)
      → Form.Ready db (use_pesticide_arguments user_id tile_id) w.state
      → ((statements : List Statement) → (s' : db.State) × (db.commit statements w.state ≡ ok s'))
      → (perform db (use_pesticide db user_id tile_id) w).0 ≡ ok tt
  unfolding use_pesticide
  use_pesticide_returns w r accepts =
      Form.heal_returns db (use_pesticide_arguments user_id tile_id) w r accepts

  -- On a database that meets the laws, a call of `use_herbicide` that returns has found the tile
  -- that is named on the farm of the user with a crop that was weedy; afterwards the crop is in the
  -- state Normal and its row is otherwise as it was, and the user has paid for the activity
  -- `usePesticide` out of an energy that stays at 0 or more. Below the quota of the level its gain
  -- is added to the experiences; at the quota or above the level is one more and the experiences
  -- are less by the quota.
  pub use_herbicide-Heals :
      DatabaseLaws db
      → (w w' : World db) → perform db (use_herbicide db user_id tile_id) w ≡ (ok tt, w')
      → Heals db CropCurrentState.is_weedy
          (λ value. value.use_pesticide)
          user_id
          user_id
          tile_id
          w.state
          w'.state
        × (w'.sent ≡ w.sent ++ [])
  unfolding use_herbicide
  use_herbicide-Heals laws w w' h =
      Form.heal-Heals db (use_herbicide_arguments user_id tile_id) laws w w' h

  pub use_herbicide_returns :
      (w : World db)
      → Form.Ready db (use_herbicide_arguments user_id tile_id) w.state
      → ((statements : List Statement) → (s' : db.State) × (db.commit statements w.state ≡ ok s'))
      → (perform db (use_herbicide db user_id tile_id) w).0 ≡ ok tt
  unfolding use_herbicide
  use_herbicide_returns w r accepts =
      Form.heal_returns db (use_herbicide_arguments user_id tile_id) w r accepts
