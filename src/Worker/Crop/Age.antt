-- ===== src/Worker/Crop/Age.antt =====
-- The age of a crop, `totalTimeElapsed`, of which the worker says nothing else.
use cifarm_server_alternativ.Prelude.{
  ℕ, zero, suc, ◌≡◌, refl, ◌∙◌, ℤ, ◌+ℤ◌, Bool-cases, inl, inr, arith,
}
use cifarm_server_alternativ.Entities.{SeedGrowthInfoEntity, CropRandomness}
use cifarm_server_alternativ.Worker.Crop.{
  Draws, next_stage, next_stages, stage_is_over, mature, grow, rounds,
}
use cifarm_server_alternativ.Worker.Crop.Overgrown.{aged}

next_stage-age :
    (chances : CropRandomness) (half : ℕ) (draws : Draws) (g : SeedGrowthInfoEntity)
    → (next_stage chances half draws g).total_time_elapsed ≡ g.total_time_elapsed
unfolding next_stage
next_stage-age chances half draws g = refl

next_stages-age :
    (chances : CropRandomness) (half : ℕ) (draws : ℕ → Draws) (fuel : ℕ) (g : SeedGrowthInfoEntity)
    → (next_stages chances half draws fuel g).total_time_elapsed ≡ g.total_time_elapsed
unfolding next_stages
next_stages-age chances half draws zero g = refl
next_stages-age chances half draws (suc fuel) g =
    let rest =
      next_stages-age chances half draws fuel (next_stage chances half (draws fuel) g)
      ∙ next_stage-age chances half (draws fuel) g in
    elim (Bool-cases (stage_is_over g)) [ inl over ↦ ground arith | inr growing ↦ ground arith ]

mature-age : (g : SeedGrowthInfoEntity) → (mature g).info.total_time_elapsed ≡ g.total_time_elapsed
unfolding mature
mature-age g = ground arith

pub grow-age :
    (chances : CropRandomness) (half : ℕ) (draws : ℕ → Draws) (time : ℤ) (g : SeedGrowthInfoEntity)
    → (grow chances half draws time g).info.total_time_elapsed ≡ g.total_time_elapsed +ℤ time
unfolding grow
grow-age chances half draws time g =
    mature-age (next_stages chances half draws (rounds (aged time g)) (aged time g))
    ∙ next_stages-age chances half draws (rounds (aged time g)) (aged time g)
