-- ===== src/Tests/Work.antt =====
-- Ticks of the workers, and batches of the schedulers.
use cifarm_server_alternativ.Prelude.{
  ℕ, ◌≡◌, true, false, [], ◌∷◌, pos, ◌+ℤ◌, ◌-ℤ◌, ◌*ℤ◌, ◌≤ℤ◌, arith,
}
use cifarm_server_alternativ.Entities.{
  SeedGrowthInfoEntity, CropCurrentState, AnimalInfoEntity, AnimalCurrentState,
}
use cifarm_server_alternativ.Gameplay.Energy.{get_max_energy}
use cifarm_server_alternativ.Worker.Crop.{Draws, grow}
use cifarm_server_alternativ.Worker.Crop.Overgrown.{grow_overshoots, IsGrown, grow-IsGrown}
use cifarm_server_alternativ.Worker.Animal.{animal_tick}
use cifarm_server_alternativ.Worker.Animal.Life.{
  LifeStep, animal_tick-LifeStep, here, tick, IsInnocent, Lives-IsInnocent,
}
use cifarm_server_alternativ.Worker.Energy.{regenerate}
use cifarm_server_alternativ.Worker.Energy.Tick.{
  regenerate_all, regenerate_bounded, IsRegenerated, regenerate-IsRegenerated,
}
use cifarm_server_alternativ.Tests.Sample.{user, carrot, growth, chances, hen}

abbrev never : ℕ → Draws
never i = record { water = 999; pest = 999; kind = 0 }

abbrev sprout : SeedGrowthInfoEntity
sprout = growth 1 CropCurrentState.normal

abbrev overgrown : SeedGrowthInfoEntity
overgrown = record sprout { current_stage = pos 6 }

abbrev chick : AnimalInfoEntity
chick = record (hen AnimalCurrentState.normal) { is_adult = false; current_growth_time = pos 0 }

grow-IsGrown_example :
    IsGrown chances 500 (pos 8000) sprout (grow chances 500 never (pos 8000) sprout).info
unfolding ◌+ℤ◌
grow-IsGrown_example = grow-IsGrown chances 500 never (pos 8000) sprout (omega arith)

grow_overshoots_example :
    let h = (grow chances 500 never (pos 20000) sprout).info in
    (h.crop ≡ carrot) × (h.current_stage ≡ carrot.growth_stages +ℤ pos 1)
unfolding ◌+ℤ◌ ◌-ℤ◌ ◌*ℤ◌
grow_overshoots_example =
    grow_overshoots chances 500 never (pos 20000) sprout (omega arith) (ground arith) (ground arith)

regenerate_bounded_example :
    let v = regenerate_all (pos 300) (pos 200 ∷ pos 200 ∷ []) (user 1) in
    (v.level ≡ pos 1) × (v.energy ≤ℤ get_max_energy v.level) × (pos 40 ≤ℤ v.energy)
unfolding get_max_energy ◌+ℤ◌ ◌-ℤ◌ ◌*ℤ◌
regenerate_bounded_example =
    regenerate_bounded (pos 300) (pos 200 ∷ pos 200 ∷ []) (user 1) (ground arith)

regenerate-IsRegenerated_example :
    IsRegenerated (pos 300) (pos 400) (user 1) (regenerate (pos 300) (pos 400) (user 1))
regenerate-IsRegenerated_example = regenerate-IsRegenerated (pos 300) (pos 400) (user 1)

animal_tick-LifeStep_example :
    LifeStep 50 99
      (pos 60)
      true
      (hen AnimalCurrentState.sick)
      (animal_tick 50 99 (pos 60) true (hen AnimalCurrentState.sick))
animal_tick-LifeStep_example =
    animal_tick-LifeStep 50 99 (pos 60) true (hen AnimalCurrentState.sick)

Lives-IsInnocent_example : IsInnocent (animal_tick 50 99 (pos 60) true chick)
Lives-IsInnocent_example = Lives-IsInnocent (tick 50 99 (pos 60) true here) (record {
  no_yield = λ young e. absurd (ground arith);
  no_sickness = λ young e. absurd (ground arith);
})
