-- ===== src/Seed/Sound.antt =====
-- What the seeded rows of the catalogue have that the services rely on.
use cifarm_server_alternativ.Prelude.{
  ℕ, zero, suc, ◌≤◌, ◌<◌, ◌≡◌, refl, some, ℤ, pos, ◌+ℤ◌, ◌<ℤ◌, All, arith,
}
use cifarm_server_alternativ.Result.{ok}
use cifarm_server_alternativ.Entities.{
  CropEntity, AnimalEntity, UpgradeEntity, UserEntity, no_changes, spread,
}
use cifarm_server_alternativ.Gameplay.Wallet
use cifarm_server_alternativ.Worker.Delivery.{ProductEntity}
use cifarm_server_alternativ.Upgrade.{find_upgrade, max_upgrade_level}
use cifarm_server_alternativ.Claim.{balance_changes, reward_at}
use cifarm_server_alternativ.Seed.Crops
use cifarm_server_alternativ.Seed.Farm

-- A harvest is one of 1 or more pieces, a thief leaves some of it, and a piece is worth tokens.
abbrev pub IsYielding : (min_harvest_quantity max_harvest_quantity : ℤ) → ProductEntity → Type 0
IsYielding min_harvest_quantity max_harvest_quantity product =
    (pos 0 <ℤ min_harvest_quantity)
    × (min_harvest_quantity <ℤ max_harvest_quantity)
    × (pos 0 <ℤ product.token_amount)

abbrev pub IsSoundCrop : CropEntity × ProductEntity → Type 0
IsSoundCrop (crop, product) =
    IsYielding crop.min_harvest_quantity crop.max_harvest_quantity product
    × (pos 0 <ℤ crop.growth_stage_duration)
    × (pos 1 <ℤ crop.growth_stages)
    × (pos 0 <ℤ crop.perennial_count)

-- An animal is hungry before it yields, and grows up later.
abbrev pub IsSoundAnimal : AnimalEntity × ProductEntity → Type 0
IsSoundAnimal (animal, product) =
    IsYielding animal.min_harvest_quantity animal.max_harvest_quantity product
    × (animal.hunger_time <ℤ animal.yield_time)
    × (animal.yield_time <ℤ animal.growth_time)

upgrades_climb :
    (level : ℕ)
    → 1 ≤ level
    → level < 3
    → (now next : UpgradeEntity) × (find_upgrade (pos level) Farm.upgrades ≡ some now)
      × (find_upgrade (pos (suc level)) Farm.upgrades ≡ some next)
      × (now.capacity <ℤ next.capacity)
      × (pos 0 <ℤ next.upgrade_price)
unfolding find_upgrade
upgrades_climb zero low high = absurd (omega arith)
upgrades_climb (suc zero) low high = (_, _, refl, refl, omega arith, omega arith)
upgrades_climb (suc (suc zero)) low high = (_, _, refl, refl, omega arith, omega arith)
upgrades_climb (suc (suc (suc level))) low high = absurd (omega arith)

-- The least harvest of every seeded crop and animal is 1 or more and below the greatest, and the
-- product is worth tokens; the stages of crops take time; animals are hungry before they yield, and
-- yield before they are grown up; the levels of the seeded houses go up to 3, and from each level
-- below there is an upgrade to the next, with more room and for a price.
pub seeded_catalogue_sound :
    All IsSoundCrop Crops.crops
    × All IsSoundAnimal Farm.animals
    × (max_upgrade_level Farm.upgrades ≡ some (pos 3))
    × ((level : ℕ)
        → 1 ≤ level
        → level < 3
        → (now next : UpgradeEntity) × (find_upgrade (pos level) Farm.upgrades ≡ some now)
          × (find_upgrade (pos (suc level)) Farm.upgrades ≡ some next)
          × (now.capacity <ℤ next.capacity)
          × (pos 0 <ℤ next.upgrade_price))
unfolding max_upgrade_level find_upgrade
seeded_catalogue_sound = (ground arith, ground arith, refl, upgrades_climb)

-- The golds of the first four days in a row, and of every later one.
abbrev pub golds_of_day : ℕ → ℤ
golds_of_day zero = pos 100
golds_of_day (suc zero) = pos 200
golds_of_day (suc (suc zero)) = pos 300
golds_of_day (suc (suc (suc zero))) = pos 600
golds_of_day (suc (suc (suc (suc streak)))) = pos 1000

-- What the seeded daily rewards give on each day of a streak: golds on the first four days, and golds
-- and tokens on every later day.
pub seeded_rewards :
    (user : UserEntity) (streak : ℕ)
    → user.daily_reward_streak ≡ pos streak
    → (streak < 4
        → balance_changes Farm.daily_rewards user
          ≡ ok (record no_changes { golds = some (golds_of_day streak +ℤ user.golds) }))
      × (4 ≤ streak
          → balance_changes Farm.daily_rewards user
            ≡ ok (record no_changes {
              golds = some (pos 1000 +ℤ user.golds);
              tokens = some (pos 25 +ℤ user.tokens);
            }))
unfolding balance_changes reward_at Wallet.add_golds Wallet.add_tokens spread
seeded_rewards user zero at = (λ early. ground (arith, at), λ late. absurd (omega arith))
seeded_rewards user (suc zero) at = (λ early. ground (arith, at), λ late. absurd (omega arith))
seeded_rewards user (suc (suc zero)) at =
    (λ early. ground (arith, at), λ late. absurd (omega arith))
seeded_rewards user (suc (suc (suc zero))) at =
    (λ early. ground (arith, at), λ late. absurd (omega arith))
seeded_rewards user (suc (suc (suc (suc streak)))) at =
    (λ early. absurd (omega arith), λ late. ground (arith, at))
