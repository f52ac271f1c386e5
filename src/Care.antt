-- ===== src/Care.antt =====
-- What it means to take care of a crop: the six services that do it, three on one's own farm and
-- three on a neighbor's, have one form.
pub mod Form
pub mod Animals
use cifarm_server_alternativ.Prelude.{ℕ, ◌≡◌, some}
use cifarm_server_alternativ.Entities.{
  UserEntity, SeedGrowthInfoEntity, CropCurrentState, Activities, ActivityInfo, PlacedItemEntity,
}
use cifarm_server_alternativ.Database.{Database}
use cifarm_server_alternativ.Gameplay.Activity.Paid.{IsPaid}

-- A user with the id `user_id` has healed the crop on the tile `tile_id` of the farm `farm_id`,
-- which was in the state `wanted`, between the states `s` and `s'`.
pub record Heals (db : Database) (wanted : CropCurrentState) (activity : Activities → ActivityInfo)
    (user_id farm_id tile_id : ℕ) (s s' : db.State) : Type 0 where
  pub tile : PlacedItemEntity
  pub crop : SeedGrowthInfoEntity
  pub value : Activities
  pub user : UserEntity
  pub user' : UserEntity
  -- the tile is the one that is named, on that farm, with that crop
  pub tile_named : tile.id ≡ tile_id
  pub tile_owned : tile.user_id ≡ farm_id
  pub planted : tile.seed_growth_info ≡ some crop
  -- the crop was in the state wanted, and is healthy; nothing else of it has changed
  pub crop_before : db.crop_row crop.id s ≡ some crop
  pub state_before : crop.current_state ≡ wanted
  pub crop_after :
      db.crop_row crop.id s' ≡ some (record crop { current_state = CropCurrentState.normal })
  -- the user has paid for the activity
  pub priced : db.find_activities s ≡ some value
  pub user_before : db.find_user user_id s ≡ some user
  pub user_after : db.find_user user_id s' ≡ some user'
  pub paid : IsPaid (activity value) user user'
