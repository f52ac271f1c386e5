-- ===== src/Seed/System.antt =====
-- `SystemSeeder` (system.seeder.ts): the values of the `system` table.
use cifarm_server_alternativ.Prelude.{[], ◌∷◌, pos, negsuc}
use cifarm_server_alternativ.Entities.{
  ActivityInfo, Activities, CropRandomness, AnimalRandomness, Starter, SpinInfo, AppearanceChance,
}

-- Every activity costs and gains the same.
abbrev pub activity_info : ActivityInfo
activity_info = record { energy_consume = pos 1; experiences_gain = pos 3 }

abbrev pub activities : Activities
activities = record {
  water = activity_info;
  feed_animal = activity_info;
  use_pesticide = activity_info;
  use_fertilizer = activity_info;
  use_herbicide = activity_info;
  help_use_herbicide = activity_info;
  help_use_pesticide = activity_info;
  help_water = activity_info;
  thief_crop = activity_info;
  thief_animal_product = activity_info;
  cure_animal = activity_info;
  help_cure_animal = activity_info;
  harvest_crop = activity_info;
}

abbrev pub crop_randomness : CropRandomness
crop_randomness = record { need_water = 50; thief2 = 80; thief3 = 95; is_weedy_or_infested = 100 }

abbrev pub animal_randomness : AnimalRandomness
animal_randomness = record { sick_chance = 50; thief2 = 80; thief3 = 95 }

abbrev pub starter : Starter
starter = record {
  golds = pos 1000;
  home = record { x = pos 4; y = pos 0 };
  tiles =
      record { x = pos 0; y = negsuc 0 }
      ∷ record { x = pos 0; y = pos 0 }
      ∷ record { x = pos 0; y = pos 1 }
      ∷ record { x = pos 1; y = negsuc 0 }
      ∷ record { x = pos 1; y = pos 0 }
      ∷ record { x = pos 1; y = pos 1 }
      ∷ [];
}

-- In the order in which the `jsonb` column of `SystemEntity` returns the keys, by their length first
-- and then by their bytes, and not in that of the seeder.
abbrev pub spin_info : SpinInfo
spin_info = record {
  appearance_chance_slots =
      (AppearanceChance.rare, record { count = 1; threshold_min = 95; threshold_max = 99 })
      ∷ (AppearanceChance.common, record { count = 4; threshold_min = 0; threshold_max = 80 })
      ∷ (AppearanceChance.uncommon, record { count = 2; threshold_min = 80; threshold_max = 95 })
      ∷ (AppearanceChance.very_rare, record { count = 1; threshold_min = 99; threshold_max = 100 })
      ∷ [];
}
