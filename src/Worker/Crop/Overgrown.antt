-- ===== src/Worker/Crop/Overgrown.antt =====
-- What a tick of the crop worker does: it ripens a crop that ends at the last stage, and never one
-- that has passed it.
use cifarm_server_alternativ.Prelude.{
  ℕ, zero, suc, ◌≡◌, refl, sym, ap, ◌∙◌, false, List, [], ◌∷◌, ℤ, pos, pos_part, ◌+ℤ◌, ◌-ℤ◌, ◌≤ℤ◌,
  ◌<ℤ◌, arith, parts_of_eq,
}
use mathlib.Core.Path.{subst}
use cifarm_server_alternativ.Entities.{
  SeedGrowthInfoEntity, CropRandomness, CropCurrentState, CropEntity,
}
use cifarm_server_alternativ.Worker.Crop.{Draws, next_stages, stage_is_over, mature, grow, rounds}
use cifarm_server_alternativ.Worker.Crop.Stages.{
  times, next_stages_end, next_stages-Passes, next_stages_bound, next_stages_overshoot,
}

-- The row with `time` on both of its clocks.
abbrev pub aged : ℤ → SeedGrowthInfoEntity → SeedGrowthInfoEntity
aged time g = record g {
  current_stage_time_elapsed = g.current_stage_time_elapsed +ℤ time;
  total_time_elapsed = g.total_time_elapsed +ℤ time;
}

le_of_eq_ℤ : (a b : ℤ) → a ≡ b → b ≤ℤ a
le_of_eq_ℤ a b e = omega (arith, parts_of_eq a b e)

exact_step : (a b : ℤ) → a ≤ℤ b → a +ℤ pos (pos_part (b -ℤ a)) ≡ b
unfolding ◌+ℤ◌ ◌-ℤ◌
exact_step a b h = ground arith

rounds_exact :
    (g : SeedGrowthInfoEntity)
    → g.current_stage ≤ℤ g.crop.growth_stages +ℤ pos 1
    → g.current_stage +ℤ pos (rounds g) ≡ g.crop.growth_stages +ℤ pos 1
rounds_exact g begun = exact_step g.current_stage (g.crop.growth_stages +ℤ pos 1) begun

module _ (chances : CropRandomness) (half : ℕ) where
  mature_past :
      (g : SeedGrowthInfoEntity) → g.crop.growth_stages <ℤ g.current_stage → (mature g).info ≡ g
  unfolding mature
  mature_past g past = ground arith

  mature_keeps :
      (g : SeedGrowthInfoEntity)
      → ((mature g).info.current_stage ≡ g.current_stage)
        × ((mature g).info.crop ≡ g.crop)
        × ((mature g).info.current_stage_time_elapsed ≡ g.current_stage_time_elapsed)
        × ((mature g).info.total_time_elapsed ≡ g.total_time_elapsed)
  unfolding mature
  mature_keeps g = ground arith

  mature_last :
      (g : SeedGrowthInfoEntity)
      → g.current_stage ≡ g.crop.growth_stages
      → (mature g).info.current_state ≡ CropCurrentState.fully_matured
  unfolding mature
  mature_last g last = ground arith

  past_over :
      (g : SeedGrowthInfoEntity) → g.crop.growth_stages <ℤ g.current_stage → stage_is_over g ≡ false
  unfolding stage_is_over
  past_over g past = ground arith

  past_the_end :
      (draws : ℕ → Draws) (fuel : ℕ) (g : SeedGrowthInfoEntity)
      → g.crop.growth_stages <ℤ g.current_stage
      → next_stages chances half draws fuel g ≡ g
  unfolding next_stages
  past_the_end draws zero g past = refl
  past_the_end draws (suc fuel) g past = rw (past_over g past)

  -- A tick on a crop that is past its last stage: its clocks go on, and nothing else.
  grow_overgrown :
      (draws : ℕ → Draws) (time : ℤ) (g : SeedGrowthInfoEntity)
      → g.crop.growth_stages <ℤ g.current_stage
      → (grow chances half draws time g).info ≡ aged time g
  unfolding grow
  grow_overgrown draws time g past =
      let start = aged time g in
      rw (past_the_end draws (rounds start) start past) (mature_past start past)

  -- Any number of ticks, each with its own time and its own random numbers.
  pub grow_all : List (ℤ × (ℕ → Draws)) → SeedGrowthInfoEntity → SeedGrowthInfoEntity
  grow_all [] g = g
  grow_all ((time, draws) ∷ rest) g = grow_all rest (grow chances half draws time g).info

  -- A crop that is past its last stage keeps its stage, its state and its harvest through any
  -- number of ticks, whatever their times and random numbers.
  pub overgrown_stays :
      (ticks : List (ℤ × (ℕ → Draws))) (g : SeedGrowthInfoEntity)
      → g.crop.growth_stages <ℤ g.current_stage
      → let h = grow_all ticks g in
        (h.current_stage ≡ g.current_stage)
        × (h.current_state ≡ g.current_state)
        × (h.harvest_quantity_remaining ≡ g.harvest_quantity_remaining)
  unfolding grow_all
  overgrown_stays [] g past = (refl, refl, refl)
  overgrown_stays ((time, draws) ∷ rest) g past =
      subst
        (λ next.
          let h = grow_all rest next in
          (h.current_stage ≡ g.current_stage)
          × (h.current_state ≡ g.current_state)
          × (h.harvest_quantity_remaining ≡ g.harvest_quantity_remaining))
        (sym (grow_overgrown draws time g past)) (overgrown_stays rest (aged time g) past)

  -- With a duration that is not negative and a stage at most one past the last, a tick whose time
  -- covers all stages that are left, the last one included, takes the crop to the stage after its
  -- last one.
  pub grow_overshoots :
      (draws : ℕ → Draws) (time : ℤ) (g : SeedGrowthInfoEntity)
      → pos 0 ≤ℤ g.crop.growth_stage_duration
      → g.current_stage ≤ℤ g.crop.growth_stages +ℤ pos 1
      → times (rounds g) g.crop.growth_stage_duration ≤ℤ g.current_stage_time_elapsed +ℤ time
      → let h = (grow chances half draws time g).info in
        (h.crop ≡ g.crop) × (h.current_stage ≡ g.crop.growth_stages +ℤ pos 1)
  unfolding grow
  grow_overshoots draws time g nonneg begun long =
      let start = aged time g in
      let (same, past) =
        next_stages_overshoot chances half draws (rounds start) start nonneg
          (rounds_exact start begun) long in
      let kept = mature_keeps (next_stages chances half draws (rounds start) start) in
      (kept.1 ∙ same, kept.0 ∙ past)

  -- A tick keeps account of the time: it is all added to the total, and on the clock of the stage but
  -- for the durations of the stages that are over. The stage passes the last one by one at most, and
  -- a crop that ends at its last stage is ripe.
  pub record IsGrown (time : ℤ) (g h : SeedGrowthInfoEntity) : Type 0 where
    pub stages : ℕ
    pub stage : h.current_stage ≡ g.current_stage +ℤ pos stages
    pub elapsed :
        h.current_stage_time_elapsed +ℤ times stages g.crop.growth_stage_duration
        ≡ g.current_stage_time_elapsed +ℤ time
    pub total : h.total_time_elapsed ≡ g.total_time_elapsed +ℤ time
    pub bound : h.current_stage ≤ℤ g.crop.growth_stages +ℤ pos 1
    pub ripe :
        h.current_stage ≡ g.crop.growth_stages → h.current_state ≡ CropCurrentState.fully_matured
    -- the loop has gone on as long as it could
    pub ended :
        h.current_stage ≤ℤ g.crop.growth_stages
        → h.current_stage_time_elapsed <ℤ g.crop.growth_stage_duration

  running_short :
      (g : SeedGrowthInfoEntity)
      → stage_is_over g ≡ false
      → g.current_stage ≤ℤ g.crop.growth_stages
      → g.current_stage_time_elapsed <ℤ g.crop.growth_stage_duration
  unfolding stage_is_over
  running_short g h last = ground arith

  -- From a stage that is at most one past the last, a tick of the crop worker adds the time to the
  -- total, moves a whole number of stages on and takes their durations off the clock of the stage.
  -- It ends at most one past the last stage, a crop that ends at its last stage is ripe, and where
  -- the stage is not past the last the clock is below the duration of a stage.
  pub grow-IsGrown :
      (draws : ℕ → Draws) (time : ℤ) (g : SeedGrowthInfoEntity)
      → g.current_stage ≤ℤ g.crop.growth_stages +ℤ pos 1
      → IsGrown time g (grow chances half draws time g).info
  unfolding grow
  grow-IsGrown draws time g begun =
      let start = aged time g in
      let h = next_stages chances half draws (rounds start) start in
      let (k, p) = next_stages-Passes chances half draws (rounds start) start in
      let (stage, crop, clock, total) = mature_keeps h in
      let over =
        next_stages_end chances half draws (rounds start) start
          (le_of_eq_ℤ _ _ (rounds_exact start begun)) in
      record {
        stages = k;
        stage = stage ∙ p.stage;
        elapsed = rw clock p.elapsed;
        total = total ∙ p.same_total;
        bound = rw stage (
            subst (λ c. h.current_stage ≤ℤ c.growth_stages +ℤ pos 1) p.same_crop
              (next_stages_bound chances half draws (rounds start) start begun));
        ripe = λ last.
            mature_last h
              (sym stage ∙ last ∙ ap (λ (c : CropEntity). c.growth_stages) (sym p.same_crop));
        ended = λ last. rw clock (
            subst (λ c. h.current_stage_time_elapsed <ℤ c.growth_stage_duration) p.same_crop
              (running_short h over (
                subst (λ c. h.current_stage ≤ℤ c.growth_stages) (sym p.same_crop)
                  (rw stage at last))));
      }
