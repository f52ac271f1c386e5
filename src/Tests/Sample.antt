-- ===== src/Tests/Sample.antt =====
-- Two users with their farms: the tiles 1 to 4 are the first user's and 11 to 14 the second's, with
-- crops that are dry, infested, weedy and ripe; 20 is a coop, and 21 to 24 are hens.
use cifarm_server_alternativ.Prelude.{ℕ, true, false, none, some, List, [], ◌∷◌, ℤ, pos, Option}
use cifarm_server_alternativ.Entities.{
  UserEntity, PlacedItemType, SeedGrowthInfoEntity, CropCurrentState, AnimalInfoEntity,
  AnimalCurrentState, BuildingInfoEntity, InventoryEntity, InventoryTypeEntity, InventoryType,
  CropEntity, AnimalEntity, AnimalType, BuildingEntity, Activities, ActivityInfo, CropRandomness,
  SpinSlotEntity, SpinPrizeType, AppearanceChance,
}
use cifarm_server_alternativ.Service.{World}
use cifarm_server_alternativ.Tests.Memory.{PlacedRow, TypeRow, Tables, memory}

abbrev pub user : ℕ → UserEntity
user i = record {
  id = i;
  golds = pos 1000;
  tokens = pos 100;
  experiences = pos 20;
  energy = pos 40;
  energy_regen_time = pos 0;
  level = pos 1;
  daily_reward_streak = pos 0;
  daily_reward_last_claim_time = none;
  spin_last_time = none;
  spin_count = pos 0;
}

abbrev pub carrot : CropEntity
carrot = record {
  id = 1;
  growth_stage_duration = pos 3600;
  growth_stages = pos 5;
  price = pos 50;
  perennial_count = pos 1;
  min_harvest_quantity = pos 14;
  max_harvest_quantity = pos 20;
  available_in_shop = true;
}

abbrev pub growth : ℕ → CropCurrentState → SeedGrowthInfoEntity
growth i state = record {
  id = i;
  current_stage = pos 1;
  current_stage_time_elapsed = pos 0;
  total_time_elapsed = pos 0;
  current_perennial_count = pos 0;
  harvest_quantity_remaining = pos 20;
  current_state = state;
  is_fertilized = false;
  crop = carrot;
}

abbrev pub tile : ℕ → ℕ → PlacedRow
tile owner i = record {
  id = i;
  user_id = owner;
  type = PlacedItemType.tile;
  tile_id = some 1;
  crop = some i;
  animal = none;
  building_info = none;
}

abbrev pub chicken : AnimalEntity
chicken = record {
  id = 1;
  yield_time = pos 200;
  growth_time = pos 1000;
  hunger_time = pos 500;
  price = pos 100;
  available_in_shop = true;
  min_harvest_quantity = pos 14;
  max_harvest_quantity = pos 20;
  type = AnimalType.poultry;
}

abbrev pub hen : AnimalCurrentState → AnimalInfoEntity
hen state = record {
  id = 1;
  current_growth_time = pos 1000;
  current_hungry_time = pos 0;
  current_yield_time = pos 150;
  is_adult = true;
  current_state = state;
  harvest_quantity_remaining = pos 0;
  already_sick = false;
  animal = chicken;
}

abbrev pub penned : ℕ → AnimalCurrentState → AnimalInfoEntity
penned i state = record (hen state) { id = i }

abbrev pub pen : ℕ → ℕ → ℕ → PlacedRow
pen owner i animal = record {
  id = i;
  user_id = owner;
  type = PlacedItemType.animal;
  tile_id = none;
  crop = none;
  animal = some animal;
  building_info = none;
}

abbrev pub coop : BuildingEntity
coop = record {
  id = 1;
  price = pos 200;
  available_in_shop = true;
  type = some AnimalType.poultry;
  upgrades =
      record { upgrade_price = pos 0; capacity = pos 3; upgrade_level = pos 1 }
      ∷ record { upgrade_price = pos 100; capacity = pos 5; upgrade_level = pos 2 }
      ∷ [];
}

abbrev pub coop_info : BuildingInfoEntity
coop_info = record { id = 1; current_upgrade = 1; occupancy = pos 0; building = coop }

abbrev pub coop_row : PlacedRow
coop_row = record {
  id = 20;
  user_id = 1;
  type = PlacedItemType.building;
  tile_id = none;
  crop = none;
  animal = none;
  building_info = some coop_info;
}

abbrev pub inventory_type : ℕ → InventoryType → Option ℕ → Option ℕ → InventoryTypeEntity
inventory_type i type crop product = record {
  id = i;
  type = type;
  deliverable = true;
  max_stack = pos 16;
  crop_id = crop;
  product_id = product;
}

abbrev pub type_rows : List TypeRow
type_rows =
    record {
      type = inventory_type 1 InventoryType.seed (some 1) none;
      supply_id = none;
      product_crop_id = none;
      tile_id = none;
      product_animal_id = none;
    }
    ∷ record {
      type = inventory_type 2 InventoryType.product none (some 1);
      supply_id = none;
      product_crop_id = some 1;
      tile_id = none;
      product_animal_id = none;
    }
    ∷ record {
      type = inventory_type 4 InventoryType.product none (some 2);
      supply_id = none;
      product_crop_id = none;
      tile_id = none;
      product_animal_id = some 1;
    }
    ∷ record {
      type = inventory_type 3 InventoryType.supply none none;
      supply_id = some 1;
      product_crop_id = none;
      tile_id = none;
      product_animal_id = none;
    }
    ∷ []

abbrev pub stock : ℕ → ℤ → InventoryEntity
stock i quantity = record {
  id = some i;
  quantity = quantity;
  premium = false;
  user_id = 1;
  inventory_type_id = 2;
  inventory_type = some (inventory_type 2 InventoryType.product none (some 1));
}

abbrev pub feed : InventoryEntity
feed = record {
  id = some 2;
  quantity = pos 4;
  premium = false;
  user_id = 1;
  inventory_type_id = 3;
  inventory_type = some (inventory_type 3 InventoryType.supply none none);
}

abbrev pub seeds : InventoryEntity
seeds = record {
  id = some 3;
  quantity = pos 6;
  premium = false;
  user_id = 1;
  inventory_type_id = 1;
  inventory_type = some (inventory_type 1 InventoryType.seed (some 1) none);
}

abbrev info : ActivityInfo
info = record { experiences_gain = pos 3; energy_consume = pos 1 }

abbrev pub activities : Activities
activities = record {
  water = info;
  feed_animal = info;
  use_pesticide = info;
  use_fertilizer = info;
  use_herbicide = info;
  help_use_herbicide = info;
  help_use_pesticide = info;
  help_water = info;
  thief_crop = info;
  thief_animal_product = info;
  cure_animal = info;
  help_cure_animal = info;
  harvest_crop = info;
}

abbrev pub chances : CropRandomness
chances = record { thief3 = 95; thief2 = 80; need_water = 50; is_weedy_or_infested = 100 }

abbrev pub spin_slot : ℕ → SpinSlotEntity
spin_slot i = record {
  id = i;
  spin_prize = record {
    type = SpinPrizeType.gold;
    crop_id = none;
    supply_id = none;
    golds = some (pos 100);
    tokens = none;
    quantity = none;
    appearance_chance = AppearanceChance.common;
  };
}

abbrev pub farm : Tables
farm = record {
  users = user 1 ∷ user 2 ∷ [];
  placed =
      tile 1 1
      ∷ tile 1 2
      ∷ tile 1 3
      ∷ tile 1 4
      ∷ tile 2 11
      ∷ tile 2 12
      ∷ tile 2 13
      ∷ tile 2 14
      ∷ coop_row
      ∷ pen 1 21 2
      ∷ pen 1 22 3
      ∷ pen 2 23 4
      ∷ pen 2 24 5
      ∷ [];
  crops =
      growth 1 CropCurrentState.need_water
      ∷ growth 2 CropCurrentState.is_infested
      ∷ growth 3 CropCurrentState.is_weedy
      ∷ growth 4 CropCurrentState.fully_matured
      ∷ growth 11 CropCurrentState.need_water
      ∷ growth 12 CropCurrentState.is_infested
      ∷ growth 13 CropCurrentState.is_weedy
      ∷ growth 14 CropCurrentState.fully_matured
      ∷ [];
  animals =
      hen AnimalCurrentState.normal
      ∷ penned 2 AnimalCurrentState.sick
      ∷ penned 3 AnimalCurrentState.hungry
      ∷ penned 4 AnimalCurrentState.sick
      ∷ record (penned 5 AnimalCurrentState.yield) { harvest_quantity_remaining = pos 20 }
      ∷ [];
  inventories = stock 1 (pos 5) ∷ feed ∷ seeds ∷ [];
  types = type_rows;
  crop_kinds = carrot ∷ [];
  animal_kinds = chicken ∷ [];
  supplies =
      record {
        id = 1;
        price = pos 10;
        available_in_shop = true;
        fertilizer_effect_time_reduce = pos 1800;
      }
      ∷ [];
  tiles =
      record { id = 1; price = pos 0; max_ownership = pos 4; available_in_shop = true }
      ∷ record { id = 2; price = pos 100; max_ownership = pos 10; available_in_shop = true }
      ∷ [];
  buildings = coop ∷ [];
  deliveries = [];
  spin_slots =
      spin_slot 1
      ∷ spin_slot 2
      ∷ spin_slot 3
      ∷ spin_slot 4
      ∷ spin_slot 5
      ∷ spin_slot 6
      ∷ spin_slot 7
      ∷ spin_slot 8
      ∷ [];
  spin_info = record {
    appearance_chance_slots =
        (AppearanceChance.rare, record { count = 1; threshold_min = 95; threshold_max = 99 })
        ∷ (AppearanceChance.common, record { count = 4; threshold_min = 0; threshold_max = 80 })
        ∷ [];
  };
  daily_rewards =
      record { golds = some (pos 100); tokens = none; day = pos 1 }
      ∷ record { golds = some (pos 200); tokens = none; day = pos 2 }
      ∷ record { golds = some (pos 300); tokens = none; day = pos 3 }
      ∷ record { golds = some (pos 600); tokens = none; day = pos 4 }
      ∷ record { golds = some (pos 1000); tokens = some (pos 25); day = pos 5 }
      ∷ [];
  activities = activities;
  crop_randomness = chances;
  animal_randomness = record { sick_chance = 50; thief3 = 95; thief2 = 80 };
  log = [];
}

abbrev pub start : World memory
start = record { state = farm; sent = [] }
