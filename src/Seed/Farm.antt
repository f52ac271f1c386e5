-- ===== src/Seed/Farm.antt =====
-- `AnimalSeeder`, `BuildingSeeder`, `TileSeeder`, `SupplySeeder` and `DailyRewardSeeder`. The effect of
-- a supply that has none is `null`, which counts as 0.
use cifarm_server_alternativ.Prelude.{List, [], ◌∷◌, true, false, none, some, pos}
use cifarm_server_alternativ.Entities.{
  AnimalEntity, AnimalType, BuildingEntity, UpgradeEntity, TileEntity, SupplyEntity,
  DailyRewardEntity,
}
use cifarm_server_alternativ.Worker.Delivery.{ProductEntity}

abbrev pub chicken : AnimalEntity
chicken = record {
  id = 0;
  yield_time = pos 86400;
  growth_time = pos 259200;
  hunger_time = pos 43200;
  price = pos 1000;
  available_in_shop = true;
  min_harvest_quantity = pos 14;
  max_harvest_quantity = pos 20;
  type = AnimalType.poultry;
}

abbrev pub cow : AnimalEntity
cow = record {
  id = 1;
  yield_time = pos 172800;
  growth_time = pos 604800;
  hunger_time = pos 43200;
  price = pos 2500;
  available_in_shop = true;
  min_harvest_quantity = pos 14;
  max_harvest_quantity = pos 20;
  type = AnimalType.livestock;
}

-- Eggs and milk.
abbrev pub animal_product : ProductEntity
animal_product = record { is_premium = false; gold_amount = pos 8; token_amount = pos 4 }

abbrev pub animals : List (AnimalEntity × ProductEntity)
animals = (chicken, animal_product) ∷ (cow, animal_product) ∷ []

-- The upgrades of the two houses are alike.
abbrev pub upgrades : List UpgradeEntity
upgrades =
    record { upgrade_price = pos 0; capacity = pos 3; upgrade_level = pos 1 }
    ∷ record { upgrade_price = pos 1000; capacity = pos 5; upgrade_level = pos 2 }
    ∷ record { upgrade_price = pos 2000; capacity = pos 10; upgrade_level = pos 3 }
    ∷ []

abbrev pub coop : BuildingEntity
coop = record {
  id = 0;
  price = pos 2000;
  available_in_shop = true;
  type = some AnimalType.poultry;
  upgrades = upgrades;
}

abbrev pub pasture : BuildingEntity
pasture = record {
  id = 1;
  price = pos 3000;
  available_in_shop = true;
  type = some AnimalType.livestock;
  upgrades = upgrades;
}

abbrev pub home_building : BuildingEntity
home_building = record {
  id = 2;
  price = pos 0;
  available_in_shop = false;
  type = none;
  upgrades = [];
}

abbrev pub buildings : List BuildingEntity
buildings = coop ∷ pasture ∷ home_building ∷ []

abbrev pub tiles : List TileEntity
tiles =
    record { id = 0; price = pos 0; max_ownership = pos 6; available_in_shop = true }
    ∷ record { id = 1; price = pos 1000; max_ownership = pos 10; available_in_shop = true }
    ∷ record { id = 2; price = pos 2500; max_ownership = pos 30; available_in_shop = true }
    ∷ record { id = 3; price = pos 10000; max_ownership = pos 9999; available_in_shop = true }
    ∷ record { id = 4; price = pos 0; max_ownership = pos 0; available_in_shop = false }
    ∷ []

abbrev pub supplies : List SupplyEntity
supplies =
    record {
      id = 0;
      price = pos 50;
      available_in_shop = true;
      fertilizer_effect_time_reduce = pos 1800;
    }
    ∷ record {
      id = 1;
      price = pos 50;
      available_in_shop = true;
      fertilizer_effect_time_reduce = pos 0;
    }
    ∷ []

abbrev pub daily_rewards : List DailyRewardEntity
daily_rewards =
    record { golds = some (pos 100); tokens = none; day = pos 1 }
    ∷ record { golds = some (pos 200); tokens = none; day = pos 2 }
    ∷ record { golds = some (pos 300); tokens = none; day = pos 3 }
    ∷ record { golds = some (pos 600); tokens = none; day = pos 4 }
    ∷ record { golds = some (pos 1000); tokens = some (pos 25); day = pos 5 }
    ∷ []
