-- ===== src/Seed/Crops.antt =====
-- `CropSeeder` (crop.seeder.ts): the crops, each with its product.
use cifarm_server_alternativ.Prelude.{List, [], ◌∷◌, true, false, pos}
use cifarm_server_alternativ.Entities.{CropEntity}
use cifarm_server_alternativ.Worker.Delivery.{ProductEntity}

abbrev pub carrot : CropEntity
carrot = record {
  id = 0;
  price = pos 50;
  growth_stage_duration = pos 3600;
  growth_stages = pos 5;
  min_harvest_quantity = pos 14;
  max_harvest_quantity = pos 20;
  perennial_count = pos 1;
  available_in_shop = true;
}

abbrev pub potato : CropEntity
potato = record {
  id = 1;
  price = pos 100;
  growth_stage_duration = pos 9000;
  growth_stages = pos 5;
  min_harvest_quantity = pos 16;
  max_harvest_quantity = pos 23;
  perennial_count = pos 1;
  available_in_shop = true;
}

abbrev pub cucumber : CropEntity
cucumber = record {
  id = 4;
  price = pos 100;
  growth_stage_duration = pos 9000;
  growth_stages = pos 5;
  min_harvest_quantity = pos 16;
  max_harvest_quantity = pos 23;
  perennial_count = pos 1;
  available_in_shop = true;
}

abbrev pub pineapple : CropEntity
pineapple = record {
  id = 2;
  price = pos 100;
  growth_stage_duration = pos 9000;
  growth_stages = pos 5;
  min_harvest_quantity = pos 16;
  max_harvest_quantity = pos 23;
  perennial_count = pos 1;
  available_in_shop = true;
}

abbrev pub watermelon : CropEntity
watermelon = record {
  id = 3;
  price = pos 100;
  growth_stage_duration = pos 9000;
  growth_stages = pos 5;
  min_harvest_quantity = pos 16;
  max_harvest_quantity = pos 23;
  perennial_count = pos 1;
  available_in_shop = true;
}

abbrev pub bell_pepper : CropEntity
bell_pepper = record {
  id = 5;
  price = pos 100;
  growth_stage_duration = pos 9000;
  growth_stages = pos 5;
  min_harvest_quantity = pos 16;
  max_harvest_quantity = pos 23;
  perennial_count = pos 3;
  available_in_shop = true;
}

abbrev pub carrots : ProductEntity
carrots = record { is_premium = false; gold_amount = pos 4; token_amount = pos 2 }

-- The products of the other crops have the same amounts.
abbrev pub vegetables : ProductEntity
vegetables = record { is_premium = false; gold_amount = pos 8; token_amount = pos 4 }

abbrev pub crops : List (CropEntity × ProductEntity)
crops =
    (carrot, carrots)
    ∷ (potato, vegetables)
    ∷ (cucumber, vegetables)
    ∷ (pineapple, vegetables)
    ∷ (watermelon, vegetables)
    ∷ (bell_pepper, vegetables)
    ∷ []
