-- ===== src/Entities/Placed.antt =====
-- What stands on a farm: placed items with the growth of a crop, of an animal or of a building.
-- A field of type `Option` that names another row is the relation as a query has loaded it.
use cifarm_server_alternativ.Prelude.{ℕ, Bool, Option, ℤ}
use cifarm_server_alternativ.Entities.Enums.{CropCurrentState, AnimalCurrentState, PlacedItemType}
use cifarm_server_alternativ.Entities.Catalog.{CropEntity, AnimalEntity, BuildingEntity}

pub record SeedGrowthInfoEntity : Type 0 where
  pub id : ℕ
  pub current_stage : ℤ
  pub current_stage_time_elapsed : ℤ
  pub total_time_elapsed : ℤ
  pub current_perennial_count : ℤ
  pub harvest_quantity_remaining : ℤ
  pub current_state : CropCurrentState
  pub is_fertilized : Bool
  pub crop : CropEntity

pub record AnimalInfoEntity : Type 0 where
  pub id : ℕ
  pub current_growth_time : ℤ
  pub current_hungry_time : ℤ
  pub current_yield_time : ℤ
  pub is_adult : Bool
  pub current_state : AnimalCurrentState
  pub harvest_quantity_remaining : ℤ
  pub already_sick : Bool
  pub animal : AnimalEntity

pub record BuildingInfoEntity : Type 0 where
  pub id : ℕ
  pub current_upgrade : ℕ
  pub occupancy : ℤ
  pub building : BuildingEntity

pub record PlacedItemEntity : Type 0 where
  pub id : ℕ
  pub user_id : ℕ
  pub type : PlacedItemType
  -- the `tileId` of its type
  pub tile_id : Option ℕ
  pub seed_growth_info : Option SeedGrowthInfoEntity
  pub animal_info : Option AnimalInfoEntity
  pub building_info : Option BuildingInfoEntity
