-- ===== src/Worker/Crop/Half.antt =====
-- A harvest that is halved.
use cifarm_server_alternativ.Prelude.{
  ℕ, ◌≡◌, ◌⊎◌, sym, ap, ◌∙◌, true, false, ℤ, pos, pos_part, ◌+ℤ◌, ◌-ℤ◌, ◌≤ℤ◌, ◌<ℤ◌, int_laws,
  parts_of_eq, leb_ℤ, eqb_ℤ, inl, inr, arith,
}
use mathlib.Core.Path.{subst}
use cifarm_server_alternativ.Entities.{
  SeedGrowthInfoEntity, CropRandomness, CropCurrentState, CropEntity,
}
use cifarm_server_alternativ.Worker.Crop.{
  Draws, stage_state, next_stage, next_stages, stage_is_over, mature, grow, rounds, is_odd,
}
use cifarm_server_alternativ.Worker.Crop.Overgrown.{aged}

abbrev pub IsSpoiled : CropCurrentState → Type 0
IsSpoiled state = (state ≡ CropCurrentState.is_infested) ⊎ (state ≡ CropCurrentState.is_weedy)

-- In the last stage but one, spoiled, with a clock that passes one stage and not two.
pub record Ripens (time : ℤ) (g : SeedGrowthInfoEntity) : Type 0 where
  pub last : g.current_stage +ℤ pos 1 ≡ g.crop.growth_stages
  pub spoiled : IsSpoiled g.current_state
  pub over : g.crop.growth_stage_duration ≤ℤ g.current_stage_time_elapsed +ℤ time
  pub once :
      g.current_stage_time_elapsed +ℤ time -ℤ g.crop.growth_stage_duration
      <ℤ g.crop.growth_stage_duration
  pub odd : is_odd (g.crop.min_harvest_quantity +ℤ g.crop.max_harvest_quantity) ≡ true

not_early : (a b : ℤ) → a ≡ b → leb_ℤ a (b -ℤ pos 2) ≡ false
unfolding ◌-ℤ◌
not_early a b e = ground arith

not_before : (a b : ℤ) → a ≡ b → eqb_ℤ a (b -ℤ pos 1) ≡ false
unfolding ◌-ℤ◌
not_before a b e = ground arith

eqb_of_eq : (a b : ℤ) → a ≡ b → eqb_ℤ a b ≡ true
eqb_of_eq a b e = ground arith

leb_of_≤ℤ : (a b : ℤ) → a ≤ℤ b → leb_ℤ a b ≡ true
leb_of_≤ℤ a b h = ground arith

leb_of_<ℤ : (a b : ℤ) → b <ℤ a → leb_ℤ a b ≡ false
leb_of_<ℤ a b h = ground arith

two_left : (a b : ℤ) → a +ℤ pos 1 ≡ b → pos_part (b +ℤ pos 1 -ℤ a) ≡ 2
two_left a b e = ap pos_part two
  where
    two : b +ℤ pos 1 -ℤ a ≡ pos 2
    two = omega (int_laws, parts_of_eq (a +ℤ pos 1) b e)

before_last : (a b : ℤ) → a +ℤ pos 1 ≡ b → a ≤ℤ b
before_last a b e = omega (int_laws, parts_of_eq (a +ℤ pos 1) b e)

mature-fraction :
    (g : SeedGrowthInfoEntity)
    → g.current_stage ≡ g.crop.growth_stages
    → IsSpoiled g.current_state
    → is_odd (g.crop.min_harvest_quantity +ℤ g.crop.max_harvest_quantity) ≡ true
    → (mature g).fraction ≡ true
unfolding mature
mature-fraction g at (inl infested) odd =
    ground (arith, infested, odd, eqb_of_eq g.current_stage g.crop.growth_stages at)
mature-fraction g at (inr weedy) odd =
    ground (arith, weedy, odd, eqb_of_eq g.current_stage g.crop.growth_stages at)

module _ (chances : CropRandomness) (half : ℕ) (draws : ℕ → Draws) where
  stage_state-last :
      (d : Draws) (crop : CropEntity) (stage : ℤ) (state : CropCurrentState)
      → stage ≡ crop.growth_stages
      → stage_state chances half d crop stage state ≡ state
  unfolding stage_state
  stage_state-last d crop stage state at =
      ground (arith, not_early stage crop.growth_stages at, not_before stage crop.growth_stages at)

  ripened : (g : SeedGrowthInfoEntity) (time : ℤ) → Ripens time g → rounds (aged time g) ≡ 2
  ripened g time r = two_left g.current_stage g.crop.growth_stages r.last

  -- The loop makes one round.
  one_round :
      (time : ℤ) (g : SeedGrowthInfoEntity)
      → Ripens time g
      → next_stages chances half draws 2 (aged time g)
        ≡ next_stage chances half (draws 1) (aged time g)
  unfolding next_stages next_stage stage_is_over
  one_round time g r =
      let first =
        leb_of_≤ℤ g.crop.growth_stage_duration (g.current_stage_time_elapsed +ℤ time) r.over in
      let stage =
        leb_of_≤ℤ g.current_stage g.crop.growth_stages
          (before_last g.current_stage g.crop.growth_stages r.last) in
      let second =
        leb_of_<ℤ g.crop.growth_stage_duration
          (g.current_stage_time_elapsed +ℤ time -ℤ g.crop.growth_stage_duration) r.once in
      ground (arith, first, stage, second)

  pub grow-fraction :
      (time : ℤ) (g : SeedGrowthInfoEntity)
      → Ripens time g
      → (grow chances half draws time g).fraction ≡ true
  unfolding grow next_stage
  grow-fraction time g r =
      let next = next_stage chances half (draws 1) (aged time g) in
      let kept =
        stage_state-last (draws 1) g.crop (g.current_stage +ℤ pos 1) g.current_state r.last in
      let run =
        ap (λ n. next_stages chances half draws n (aged time g)) (ripened g time r)
        ∙ one_round time g r in
      ap (λ h. (mature h).fraction) run
      ∙ mature-fraction next r.last (subst IsSpoiled (sym kept) r.spoiled) r.odd
