-- ===== src/Seed/Prizes.antt =====
-- `SpinPrizeSeeder` (spin-prize.seeder.ts) and `SpinSlotSeeder` (spin-slot.seeder.ts). The database
-- may list prizes in any order, so the second seeder has the list of prizes as an argument.
use cifarm_server_alternativ.Prelude.{
  ℕ, suc, List, [], ◌∷◌, ◌++◌, none, some, pos, take, if◌then◌else◌,
}
use cifarm_server_alternativ.Entities.{
  SpinPrizeEntity, SpinPrizeType, SpinSlotEntity, AppearanceChance, appearance_chance_eq,
}

abbrev pub golds_prize : ℕ → AppearanceChance → SpinPrizeEntity
golds_prize golds chance = record {
  type = SpinPrizeType.gold;
  crop_id = none;
  supply_id = none;
  golds = some (pos golds);
  tokens = none;
  quantity = none;
  appearance_chance = chance;
}

abbrev pub seeds_prize : ℕ → AppearanceChance → SpinPrizeEntity
seeds_prize crop_id chance = record {
  type = SpinPrizeType.seed;
  crop_id = some crop_id;
  supply_id = none;
  golds = none;
  tokens = none;
  quantity = some (pos 3);
  appearance_chance = chance;
}

abbrev pub supply_prize : ℕ → ℕ → SpinPrizeEntity
supply_prize supply_id quantity = record {
  type = SpinPrizeType.supply;
  crop_id = none;
  supply_id = some supply_id;
  golds = none;
  tokens = none;
  quantity = some (pos quantity);
  appearance_chance = AppearanceChance.uncommon;
}

abbrev pub tokens_prize : ℕ → SpinPrizeEntity
tokens_prize tokens = record {
  type = SpinPrizeType.token;
  crop_id = none;
  supply_id = none;
  golds = none;
  tokens = some (pos tokens);
  quantity = none;
  appearance_chance = AppearanceChance.very_rare;
}

abbrev pub spin_prizes : List SpinPrizeEntity
spin_prizes =
    golds_prize 100 AppearanceChance.common
    ∷ golds_prize 200 AppearanceChance.common
    ∷ golds_prize 300 AppearanceChance.common
    ∷ golds_prize 500 AppearanceChance.uncommon
    ∷ golds_prize 1000 AppearanceChance.uncommon
    ∷ golds_prize 2000 AppearanceChance.rare
    ∷ seeds_prize 0 AppearanceChance.common
    ∷ seeds_prize 2 AppearanceChance.uncommon
    ∷ seeds_prize 4 AppearanceChance.uncommon
    ∷ seeds_prize 1 AppearanceChance.uncommon
    ∷ seeds_prize 3 AppearanceChance.uncommon
    ∷ seeds_prize 5 AppearanceChance.uncommon
    ∷ supply_prize 0 2
    ∷ supply_prize 0 3
    ∷ supply_prize 0 4
    ∷ supply_prize 0 5
    ∷ supply_prize 1 2
    ∷ supply_prize 1 3
    ∷ supply_prize 1 4
    ∷ supply_prize 1 5
    ∷ tokens_prize 500
    ∷ tokens_prize 1000
    ∷ tokens_prize 1500
    ∷ tokens_prize 2000
    ∷ []

-- `find` with the chance as its criterion
abbrev pub prizes_of : AppearanceChance → List SpinPrizeEntity → List SpinPrizeEntity
prizes_of chance [] = []
prizes_of chance (prize ∷ rest) =
    let others = prizes_of chance rest in
    if appearance_chance_eq prize.appearance_chance chance then prize ∷ others else others

-- The prizes of the slots, with the counts of the four chances.
unfoldable pub slot_prizes :
    (common uncommon rare very_rare : ℕ) → List SpinPrizeEntity → List SpinPrizeEntity
slot_prizes common_count uncommon_count rare_count very_rare_count prizes =
    take common_count (prizes_of AppearanceChance.common prizes)
    ++ take uncommon_count (prizes_of AppearanceChance.uncommon prizes)
    ++ take rare_count (prizes_of AppearanceChance.rare prizes)
    ++ take very_rare_count (prizes_of AppearanceChance.very_rare prizes)

-- The rows, with keys from `id` on.
abbrev pub slots_from : ℕ → List SpinPrizeEntity → List SpinSlotEntity
slots_from id [] = []
slots_from id (prize ∷ rest) = record { id = id; spin_prize = prize } ∷ slots_from (suc id) rest
