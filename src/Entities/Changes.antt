-- ===== src/Entities/Changes.antt =====
-- What an update sets in a row of a crop or an animal: a missing field leaves its column.
use cifarm_server_alternativ.Prelude.{Bool, Option, none, ℤ}
use cifarm_server_alternativ.Entities.Enums.{CropCurrentState, AnimalCurrentState}
use cifarm_server_alternativ.Entities.Placed.{SeedGrowthInfoEntity, AnimalInfoEntity}
use cifarm_server_alternativ.Entities.Users.{assigned}

pub record SeedGrowthInfoChanges : Type 0 where
  pub current_stage_time_elapsed : Option ℤ
  pub current_perennial_count : Option ℤ
  pub harvest_quantity_remaining : Option ℤ
  pub current_state : Option CropCurrentState
  pub is_fertilized : Option Bool

abbrev pub no_crop_changes : SeedGrowthInfoChanges
no_crop_changes = record {
  current_stage_time_elapsed = none;
  current_perennial_count = none;
  harvest_quantity_remaining = none;
  current_state = none;
  is_fertilized = none;
}

unfoldable pub patch_crop : SeedGrowthInfoChanges → SeedGrowthInfoEntity → SeedGrowthInfoEntity
patch_crop c g = record g {
  current_stage_time_elapsed = assigned c.current_stage_time_elapsed g.current_stage_time_elapsed;
  current_perennial_count = assigned c.current_perennial_count g.current_perennial_count;
  harvest_quantity_remaining = assigned c.harvest_quantity_remaining g.harvest_quantity_remaining;
  current_state = assigned c.current_state g.current_state;
  is_fertilized = assigned c.is_fertilized g.is_fertilized;
}

pub record AnimalInfoChanges : Type 0 where
  pub current_hungry_time : Option ℤ
  pub current_state : Option AnimalCurrentState
  pub harvest_quantity_remaining : Option ℤ

abbrev pub no_animal_changes : AnimalInfoChanges
no_animal_changes = record {
  current_hungry_time = none;
  current_state = none;
  harvest_quantity_remaining = none;
}

unfoldable pub patch_animal : AnimalInfoChanges → AnimalInfoEntity → AnimalInfoEntity
patch_animal c a = record a {
  current_hungry_time = assigned c.current_hungry_time a.current_hungry_time;
  current_state = assigned c.current_state a.current_state;
  harvest_quantity_remaining = assigned c.harvest_quantity_remaining a.harvest_quantity_remaining;
}
