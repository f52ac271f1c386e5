-- ===== src/Entities/Systems.antt =====
-- The values of the `system` table: the cost and gain of each activity, and the chances. A chance
-- and a random number are compared only, so both stand for a fraction over one common denominator.
use cifarm_server_alternativ.Prelude.{ℕ, ℤ, List}
use cifarm_server_alternativ.Entities.Enums.{AppearanceChance}

pub record ActivityInfo : Type 0 where
  pub experiences_gain : ℤ
  pub energy_consume : ℤ

pub record Activities : Type 0 where
  pub water : ActivityInfo
  pub feed_animal : ActivityInfo
  pub use_pesticide : ActivityInfo
  pub use_fertilizer : ActivityInfo
  pub use_herbicide : ActivityInfo
  pub help_use_herbicide : ActivityInfo
  pub help_use_pesticide : ActivityInfo
  pub help_water : ActivityInfo
  pub thief_crop : ActivityInfo
  pub thief_animal_product : ActivityInfo
  pub cure_animal : ActivityInfo
  pub help_cure_animal : ActivityInfo
  pub harvest_crop : ActivityInfo

pub record CropRandomness : Type 0 where
  pub thief3 : ℕ
  pub thief2 : ℕ
  pub need_water : ℕ
  pub is_weedy_or_infested : ℕ

pub record AnimalRandomness : Type 0 where
  pub sick_chance : ℕ
  pub thief3 : ℕ
  pub thief2 : ℕ

pub record Position : Type 0 where
  pub x : ℤ
  pub y : ℤ

-- The golds of a new user, and where the home and the first tiles stand.
pub record Starter : Type 0 where
  pub golds : ℤ
  pub home : Position
  pub tiles : List Position

pub record SlotInfo : Type 0 where
  pub count : ℕ
  pub threshold_min : ℕ
  pub threshold_max : ℕ

-- `appearanceChanceSlots`, in the order in which `Object.entries` lists it.
pub record SpinInfo : Type 0 where
  pub appearance_chance_slots : List (AppearanceChance × SlotInfo)
