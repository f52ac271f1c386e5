-- ===== src/Worker/Crop.antt =====
-- `CropWorker.process` (apps/cron-worker/src/crop/crop.worker.ts), on one row of the batch. The
-- numbers that `Math.random` returns in a round of the loop are a `Draws`, over the denominator of
-- the chances; `half` stands for 0.5 over it.
pub mod Stages
pub mod Overgrown
pub mod Age
pub mod Half
use cifarm_server_alternativ.Prelude.{
  ℕ, zero, suc, ◌+◌, Bool, true, false, ◌&&◌, ◌||◌, ℤ, pos, pos_part, ◌+ℤ◌, ◌-ℤ◌, ltb, leb_ℤ, eqb_ℤ,
  if◌then◌else◌, ◌/◌, ◌%◌, ◌==◌,
}
use cifarm_server_alternativ.Entities.{
  CropCurrentState, crop_state_eq, CropEntity, SeedGrowthInfoEntity, CropRandomness,
}

pub record Draws : Type 0 where
  pub water : ℕ
  pub pest : ℕ
  pub kind : ℕ

-- A row as it is saved: `fraction` says that `harvestQuantityRemaining` is a half more.
pub record Grown : Type 0 where
  pub info : SeedGrowthInfoEntity
  pub fraction : Bool

-- The two tests of the loop's body, on the stage that has been reached.
pub stage_state : CropRandomness → ℕ → Draws → CropEntity → ℤ → CropCurrentState → CropCurrentState
stage_state chances half draws crop stage state =
    let thirsty =
      if leb_ℤ stage (crop.growth_stages -ℤ pos 2) && ltb draws.water chances.need_water
      then CropCurrentState.need_water
      else state in
    if eqb_ℤ stage (crop.growth_stages -ℤ pos 1) && ltb draws.pest chances.is_weedy_or_infested
    then (if ltb draws.kind half then CropCurrentState.is_weedy else CropCurrentState.is_infested)
    else thirsty

-- The body of the loop.
pub next_stage : CropRandomness → ℕ → Draws → SeedGrowthInfoEntity → SeedGrowthInfoEntity
unfolding stage_state
next_stage chances half draws g = record g {
  current_stage_time_elapsed = g.current_stage_time_elapsed -ℤ g.crop.growth_stage_duration;
  current_stage = g.current_stage +ℤ pos 1;
  is_fertilized = false;
  current_state = stage_state chances half draws g.crop (g.current_stage +ℤ pos 1) g.current_state;
}

-- The test of the loop.
pub stage_is_over : SeedGrowthInfoEntity → Bool
stage_is_over g =
    leb_ℤ g.crop.growth_stage_duration g.current_stage_time_elapsed
    && leb_ℤ g.current_stage g.crop.growth_stages

-- The loop; the draws of a round are found by the fuel that is left.
pub next_stages : CropRandomness → ℕ → (ℕ → Draws) → ℕ → SeedGrowthInfoEntity → SeedGrowthInfoEntity
unfolding next_stage stage_is_over
next_stages chances half draws zero g = g
next_stages chances half draws (suc fuel) g =
    let next = next_stages chances half draws fuel (next_stage chances half (draws fuel) g) in
    if stage_is_over g then next else g

-- Rounds that the loop may make: one for each stage from the current one to the last.
abbrev pub rounds : SeedGrowthInfoEntity → ℕ
rounds g = pos_part (g.crop.growth_stages +ℤ pos 1 -ℤ g.current_stage)

-- `n / 2` as a whole number, and whether a half is left over. Harvests are not negative.
abbrev pub half_of : ℤ → ℤ
half_of n = pos (pos_part n / 2)

abbrev pub is_odd : ℤ → Bool
is_odd n = (pos_part n % 2) == 1

-- The step after the loop.
pub mature : SeedGrowthInfoEntity → Grown
mature g =
    let harvest = g.crop.min_harvest_quantity +ℤ g.crop.max_harvest_quantity in
    let spoiled =
      crop_state_eq g.current_state CropCurrentState.is_infested
      || crop_state_eq g.current_state CropCurrentState.is_weedy in
    if eqb_ℤ g.current_stage g.crop.growth_stages
    then (if spoiled
        then record {
          info = record g {
            harvest_quantity_remaining = half_of harvest;
            current_state = CropCurrentState.fully_matured;
          };
          fraction = is_odd harvest;
        }
        else record {
          info = record g { current_state = CropCurrentState.fully_matured };
          fraction = false;
        })
    else record { info = g; fraction = false }

-- The function that is mapped over the batch.
pub grow : CropRandomness → ℕ → (ℕ → Draws) → ℤ → SeedGrowthInfoEntity → Grown
grow chances half draws time g =
    let aged = record g {
      current_stage_time_elapsed = g.current_stage_time_elapsed +ℤ time;
      total_time_elapsed = g.total_time_elapsed +ℤ time;
    } in
    mature (next_stages chances half draws (rounds aged) aged)
