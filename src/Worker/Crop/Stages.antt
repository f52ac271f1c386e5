-- ===== src/Worker/Crop/Stages.antt =====
-- The loop over the stages: it ends, it loses no time, and it passes the last stage by one at most.
use cifarm_server_alternativ.Prelude.{
  ℕ, zero, suc, ◌≡◌, refl, true, false, ℤ, pos, ◌+ℤ◌, ◌-ℤ◌, ◌≤ℤ◌, ◌<ℤ◌, inl, inr, arith, int_laws,
  Bool-cases, parts_of_eq,
}
use cifarm_server_alternativ.Entities.{SeedGrowthInfoEntity, CropRandomness}
use cifarm_server_alternativ.Worker.Crop.{Draws, next_stage, next_stages, stage_is_over}

-- `k` times a duration.
abbrev pub times : ℕ → ℤ → ℤ
times zero d = pos 0
times (suc k) d = d +ℤ times k d

-- `h` is `g` after `k` rounds: `k` stages on, and `k` durations less on its clock.
pub record Passes (k : ℕ) (g h : SeedGrowthInfoEntity) : Type 0 where
  pub same_crop : h.crop ≡ g.crop
  pub stage : h.current_stage ≡ g.current_stage +ℤ pos k
  pub elapsed :
      h.current_stage_time_elapsed +ℤ times k g.crop.growth_stage_duration
      ≡ g.current_stage_time_elapsed
  pub same_total : h.total_time_elapsed ≡ g.total_time_elapsed
  pub same_harvest : h.harvest_quantity_remaining ≡ g.harvest_quantity_remaining
  pub same_season : h.current_perennial_count ≡ g.current_perennial_count

elapsed_step : (a b d t : ℤ) → a +ℤ t ≡ b -ℤ d → a +ℤ (d +ℤ t) ≡ b
elapsed_step a b d t e = omega (int_laws, parts_of_eq (a +ℤ t) (b -ℤ d) e)

stage_step : (a b : ℤ) (k : ℕ) → a ≡ b +ℤ pos 1 +ℤ pos k → a ≡ b +ℤ pos (suc k)
stage_step a b k e = omega (int_laws, parts_of_eq a (b +ℤ pos 1 +ℤ pos k) e)

times_nonneg : (k : ℕ) (d : ℤ) → pos 0 ≤ℤ d → pos 0 ≤ℤ times k d
times_nonneg zero d nonneg = omega arith
times_nonneg (suc k) d nonneg = omega (int_laws, times_nonneg k d nonneg)

left_step : (a b : ℤ) (k : ℕ) → b +ℤ pos (suc k) ≡ a +ℤ pos 1 → b +ℤ pos 1 +ℤ pos k ≡ a +ℤ pos 1
left_step a b k e = omega (int_laws, parts_of_eq (b +ℤ pos (suc k)) (a +ℤ pos 1) e)

long_step : (d t e : ℤ) → d +ℤ t ≤ℤ e → t ≤ℤ e -ℤ d
long_step d t e h = omega int_laws

Passes-refl : (g : SeedGrowthInfoEntity) → Passes 0 g g
Passes-refl g = record {
  same_crop = refl;
  stage = omega int_laws;
  elapsed = omega int_laws;
  same_total = refl;
  same_harvest = refl;
  same_season = refl;
}

module _ (chances : CropRandomness) (half : ℕ) where
  Passes-suc :
      (d : Draws) (k : ℕ) (g h : SeedGrowthInfoEntity)
      → Passes k (next_stage chances half d g) h
      → Passes (suc k) g h
  unfolding next_stage
  Passes-suc d k g h p = record {
    same_crop = p.same_crop;
    stage = stage_step h.current_stage g.current_stage k p.stage;
    elapsed =
        elapsed_step h.current_stage_time_elapsed g.current_stage_time_elapsed
          g.crop.growth_stage_duration (times k g.crop.growth_stage_duration) p.elapsed;
    same_total = p.same_total;
    same_harvest = p.same_harvest;
    same_season = p.same_season;
  }

  module _ (draws : ℕ → Draws) where
    enough_step :
        (a b : ℤ) (k : ℕ) → a +ℤ pos 1 ≤ℤ b +ℤ pos (suc k) → a +ℤ pos 1 ≤ℤ b +ℤ pos 1 +ℤ pos k
    enough_step a b k h = omega int_laws

    past_the_end :
        (g : SeedGrowthInfoEntity)
        → g.crop.growth_stages <ℤ g.current_stage
        → stage_is_over g ≡ false
    unfolding stage_is_over
    past_the_end g h = ground arith

    -- With a round for each stage that is left, the loop ends by its test.
    pub next_stages_end :
        (fuel : ℕ) (g : SeedGrowthInfoEntity)
        → g.crop.growth_stages +ℤ pos 1 ≤ℤ g.current_stage +ℤ pos fuel
        → stage_is_over (next_stages chances half draws fuel g) ≡ false
    unfolding next_stages
    next_stages_end zero g enough = past_the_end g (omega int_laws)
    next_stages_end (suc fuel) g enough = elim (Bool-cases (stage_is_over g)) [
      | inl over ↦ rw over (
          next_stages_end fuel (next_stage chances half (draws fuel) g)
            (enough_step g.crop.growth_stages g.current_stage fuel enough))
      | inr running ↦ rw running running
    ]

    pub next_stages-Passes :
        (fuel : ℕ) (g : SeedGrowthInfoEntity)
        → (k : ℕ) × Passes k g (next_stages chances half draws fuel g)
    unfolding next_stages
    next_stages-Passes zero g = (0, Passes-refl g)
    next_stages-Passes (suc fuel) g = elim (Bool-cases (stage_is_over g)) [
      | inl over ↦
          let (k, p) = next_stages-Passes fuel (next_stage chances half (draws fuel) g) in
          (suc k, rw over (Passes-suc (draws fuel) k g _ p))
      | inr running ↦ (0, rw running (Passes-refl g))
    ]

    over_bound :
        (g : SeedGrowthInfoEntity)
        → stage_is_over g ≡ true
        → g.current_stage +ℤ pos 1 ≤ℤ g.crop.growth_stages +ℤ pos 1
    unfolding stage_is_over
    over_bound g over =
        let last : g.current_stage ≤ℤ g.crop.growth_stages = ground arith in omega int_laws

    -- One stage past the last one at most.
    pub next_stages_bound :
        (fuel : ℕ) (g : SeedGrowthInfoEntity)
        → g.current_stage ≤ℤ g.crop.growth_stages +ℤ pos 1
        → let h = next_stages chances half draws fuel g in
          h.current_stage ≤ℤ h.crop.growth_stages +ℤ pos 1
    unfolding next_stages
    next_stages_bound zero g bound = bound
    next_stages_bound (suc fuel) g bound = elim (Bool-cases (stage_is_over g)) [
      | inl over ↦
          rw over
            (next_stages_bound fuel (next_stage chances half (draws fuel) g) (over_bound g over))
      | inr running ↦ rw running bound
    ]

    is_over :
        (g : SeedGrowthInfoEntity)
        → g.crop.growth_stage_duration ≤ℤ g.current_stage_time_elapsed
        → g.current_stage ≤ℤ g.crop.growth_stages
        → stage_is_over g ≡ true
    unfolding stage_is_over
    is_over g long last = ground arith

    -- Time for every stage that is left, the last one included, takes the crop past the last.
    pub next_stages_overshoot :
        (k : ℕ) (g : SeedGrowthInfoEntity)
        → pos 0 ≤ℤ g.crop.growth_stage_duration
        → g.current_stage +ℤ pos k ≡ g.crop.growth_stages +ℤ pos 1
        → times k g.crop.growth_stage_duration ≤ℤ g.current_stage_time_elapsed
        → let h = next_stages chances half draws k g in
          (h.crop ≡ g.crop) × (h.current_stage ≡ g.crop.growth_stages +ℤ pos 1)
    unfolding next_stages
    next_stages_overshoot zero g nonneg left long = (refl, omega (int_laws, parts_of_eq _ _ left))
    next_stages_overshoot (suc k) g nonneg left long =
        let rest = times k g.crop.growth_stage_duration in
        let some_rest = times_nonneg k g.crop.growth_stage_duration nonneg in
        let over = is_over g (omega int_laws) (
          omega (
            int_laws,
            parts_of_eq (g.current_stage +ℤ pos (suc k)) (g.crop.growth_stages +ℤ pos 1) left,
          )) in
        rw over (
          next_stages_overshoot k (next_stage chances half (draws k) g) nonneg
            (left_step g.crop.growth_stages g.current_stage k left)
            (long_step g.crop.growth_stage_duration rest g.current_stage_time_elapsed long))
