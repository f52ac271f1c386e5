-- ===== src/Worker/Animal/Life.antt =====
-- The steps that the worker can take in the life of an animal, and what no life contains.
use cifarm_server_alternativ.Prelude.{
  ℕ, ◌≡◌, ◌≢◌, Bool, true, false, ℤ, pos, ◌+ℤ◌, ◌≤ℤ◌, ◌≤◌, ◌<◌, ◌⊎◌, ◌<ℤ◌, ltb_ℤ, leb_ℤ, eqb_ℤ,
  ◌&&◌, arith, inl, inr, Bool-cases, sym, ltb,
}
use mathlib.Core.Path.{subst}
use cifarm_server_alternativ.Entities.{AnimalCurrentState, animal_state_eq, AnimalInfoEntity}
use cifarm_server_alternativ.Worker.Crop.{half_of}
use cifarm_server_alternativ.Worker.Animal.{
  yield_adult, grow_young, grow_animal, is_selected, animal_tick,
}

-- What a tick of `time` may make of the row `a`, if the query returns it; `draw` is the random number.
pub data GrowthStep (sick_chance draw : ℕ) (time : ℤ) (a : AnimalInfoEntity)
    : AnimalInfoEntity → Type 0 where
  grows :
      a.is_adult ≡ false
      → a.current_growth_time <ℤ a.animal.growth_time
      → a.current_hungry_time +ℤ time <ℤ a.animal.hunger_time
      → GrowthStep sick_chance draw time a (record a {
        current_growth_time = a.current_growth_time +ℤ time;
        current_hungry_time = a.current_hungry_time +ℤ time;
      })
  hungers :
      a.is_adult ≡ false
      → a.current_growth_time <ℤ a.animal.growth_time
      → a.animal.hunger_time ≤ℤ a.current_hungry_time +ℤ time
      → GrowthStep sick_chance draw time a (record a {
        current_growth_time = a.current_growth_time +ℤ time;
        current_hungry_time = a.current_hungry_time +ℤ time;
        current_state = AnimalCurrentState.hungry;
      })
  comes_of_age :
      a.is_adult ≡ false
      → a.animal.growth_time ≤ℤ a.current_growth_time
      → GrowthStep sick_chance draw time a
          (record a { is_adult = true; current_state = AnimalCurrentState.hungry })
  waits :
      a.is_adult ≡ true
      → a.current_yield_time +ℤ time <ℤ a.animal.yield_time
      → ((a.current_yield_time +ℤ time) +ℤ (a.current_yield_time +ℤ time) ≡ a.animal.yield_time
          → sick_chance ≤ draw)
      → GrowthStep sick_chance draw time a
          (record a { current_yield_time = a.current_yield_time +ℤ time })
  falls_sick :
      a.is_adult ≡ true
      → (a.current_yield_time +ℤ time) +ℤ (a.current_yield_time +ℤ time) ≡ a.animal.yield_time
      → a.current_yield_time +ℤ time <ℤ a.animal.yield_time
      → draw < sick_chance
      → GrowthStep sick_chance draw time a (record a {
        current_yield_time = a.current_yield_time +ℤ time;
        current_state = AnimalCurrentState.sick;
      })
  yields_all :
      a.is_adult ≡ true
      → a.current_state ≢ AnimalCurrentState.sick
      → a.animal.yield_time ≤ℤ a.current_yield_time +ℤ time
      → GrowthStep sick_chance draw time a (record a {
        current_yield_time = pos 0;
        current_state = AnimalCurrentState.yield;
        harvest_quantity_remaining = a.animal.max_harvest_quantity;
      })
  yields_half :
      a.is_adult ≡ true
      → a.current_state ≡ AnimalCurrentState.sick
      → a.animal.yield_time ≤ℤ a.current_yield_time +ℤ time
      → GrowthStep sick_chance draw time a (record a {
        current_yield_time = pos 0;
        already_sick = true;
        current_state = AnimalCurrentState.yield;
        harvest_quantity_remaining =
            half_of (a.animal.min_harvest_quantity +ℤ a.animal.max_harvest_quantity);
      })

becomes :
    (sick_chance draw : ℕ) (time : ℤ) {a b c : AnimalInfoEntity}
    → c ≡ b
    → GrowthStep sick_chance draw time a b
    → GrowthStep sick_chance draw time a c
becomes sick_chance draw time {a} same step =
    subst (λ b. GrowthStep sick_chance draw time a b) (sym same) step

adult-GrowthStep :
    (sick_chance draw : ℕ) (time : ℤ) (a : AnimalInfoEntity)
    → a.is_adult ≡ true
    → GrowthStep sick_chance draw time a (yield_adult sick_chance draw time a).info
unfolding yield_adult
adult-GrowthStep sick_chance draw time a adult =
    elim (Bool-cases (leb_ℤ a.animal.yield_time (a.current_yield_time +ℤ time))) [
      | inl done ↦ elim (Bool-cases (animal_state_eq a.current_state AnimalCurrentState.sick)) [
        | inl ill ↦
            becomes sick_chance draw time (ground arith)
              (yields_half adult (ground arith) (ground arith))
        | inr well ↦
            becomes sick_chance draw time (ground arith)
              (yields_all adult (ground arith) (ground arith))
      ]
      | inr early ↦
          elim (Bool-cases (
            eqb_ℤ ((a.current_yield_time +ℤ time) +ℤ (a.current_yield_time +ℤ time))
              a.animal.yield_time
            && ltb draw sick_chance)) [
              | inl ill ↦
                  becomes sick_chance draw time (ground arith)
                    (falls_sick adult (ground arith) (ground arith) (ground arith))
              | inr well ↦
                  becomes sick_chance draw time (ground arith)
                    (waits adult (ground arith) (λ half. ground arith))
            ]
    ]

young-GrowthStep :
    (sick_chance draw : ℕ) (time : ℤ) (a : AnimalInfoEntity)
    → a.is_adult ≡ false
    → GrowthStep sick_chance draw time a (grow_young time a).info
unfolding grow_young
young-GrowthStep sick_chance draw time a young =
    elim (Bool-cases (ltb_ℤ a.current_growth_time a.animal.growth_time)) [
      | inl grows_on ↦
          elim (Bool-cases (leb_ℤ a.animal.hunger_time (a.current_hungry_time +ℤ time))) [
            | inl starved ↦
                becomes sick_chance draw time (ground arith)
                  (hungers young (ground arith) (ground arith))
            | inr fed ↦
                becomes sick_chance draw time (ground arith)
                  (grows young (ground arith) (ground arith))
          ]
      | inr grown ↦ becomes sick_chance draw time (ground arith) (comes_of_age young (ground arith))
    ]

-- What a tick may make of any row: one that was not created by the time of the job, or that yields,
-- is left out by the query.
pub data LifeStep (sick_chance draw : ℕ) (time : ℤ) (created : Bool) (a : AnimalInfoEntity)
    : AnimalInfoEntity → Type 0 where
  skipped :
      (created ≡ false) ⊎ (a.current_state ≡ AnimalCurrentState.yield)
      → LifeStep sick_chance draw time created a a
  selected :
      {b : AnimalInfoEntity}
      → created ≡ true
      → a.current_state ≢ AnimalCurrentState.yield
      → GrowthStep sick_chance draw time a b
      → LifeStep sick_chance draw time created a b

yields :
    (a : AnimalInfoEntity)
    → animal_state_eq a.current_state AnimalCurrentState.yield ≡ true
    → a.current_state ≡ AnimalCurrentState.yield
yields a h = ground arith

-- Every tick of the animal worker is one of eight steps, each under its condition. A row that was
-- created after the job, or that yields, is left alone. Any other is that of a young animal which
-- grows, hungers or comes of age, or of an adult which waits, falls sick, at half of the yield time
-- with a random number below the chance, or yields, all of the harvest or, when it was sick, half.
pub animal_tick-LifeStep :
    (sick_chance draw : ℕ) (time : ℤ) (created : Bool) (a : AnimalInfoEntity)
    → LifeStep sick_chance draw time created a (animal_tick sick_chance draw time created a)
unfolding animal_tick grow_animal is_selected
animal_tick-LifeStep sick_chance draw time created a =
    elim (Bool-cases (animal_state_eq a.current_state AnimalCurrentState.yield)) [
      | inl done ↦
          subst (LifeStep sick_chance draw time created a) (ground arith)
            (skipped (inr (yields a done)))
      | inr unripe ↦ elim (Bool-cases created) [
        | inr later ↦
            subst (LifeStep sick_chance draw time created a) (ground arith) (skipped (inl later))
        | inl earlier ↦
            let ready : a.current_state ≢ AnimalCurrentState.yield = λ e. absurd (ground arith) in
            selected earlier ready (elim (Bool-cases a.is_adult) [
              | inl adult ↦
                  becomes sick_chance draw time (ground arith)
                    (adult-GrowthStep sick_chance draw time a adult)
              | inr young ↦
                  becomes sick_chance draw time (ground arith)
                    (young-GrowthStep sick_chance draw time a young)
            ])
      ]
    ]

-- Any number of ticks, each with its own chance, random number and time, and nothing else in between.
pub data Lives : AnimalInfoEntity → AnimalInfoEntity → Type 0 where
  here : {a : AnimalInfoEntity} → Lives a a
  tick :
      {a b : AnimalInfoEntity} (sick_chance draw : ℕ) (time : ℤ) (created : Bool)
      → Lives (animal_tick sick_chance draw time created a) b
      → Lives a b

-- A young animal never yields, and is never sick.
pub record IsInnocent (a : AnimalInfoEntity) : Type 0 where
  pub no_yield : a.is_adult ≡ false → a.current_state ≢ AnimalCurrentState.yield
  pub no_sickness : a.is_adult ≡ false → a.current_state ≢ AnimalCurrentState.sick

GrowthStep-IsInnocent :
    (sick_chance draw : ℕ) (time : ℤ) (a b : AnimalInfoEntity)
    → GrowthStep sick_chance draw time a b
    → IsInnocent a
    → IsInnocent b
GrowthStep-IsInnocent sick_chance draw time a b (grows young short fed) i = record {
  no_yield = i.no_yield;
  no_sickness = i.no_sickness;
}
GrowthStep-IsInnocent sick_chance draw time a b (hungers young short starved) i = record {
  no_yield = λ y e. absurd (ground arith);
  no_sickness = λ y e. absurd (ground arith);
}
GrowthStep-IsInnocent sick_chance draw time a b (comes_of_age young grown) i = record {
  no_yield = λ y e. absurd (ground arith);
  no_sickness = λ y e. absurd (ground arith);
}
GrowthStep-IsInnocent sick_chance draw time a b (waits adult early well) i = record {
  no_yield = i.no_yield;
  no_sickness = i.no_sickness;
}
GrowthStep-IsInnocent sick_chance draw time a b (falls_sick adult half early low) i = record {
  no_yield = λ y e. absurd (ground arith);
  no_sickness = λ y e. absurd (ground arith);
}
GrowthStep-IsInnocent sick_chance draw time a b (yields_all adult well late) i = record {
  no_yield = λ y e. absurd (ground arith);
  no_sickness = λ y e. absurd (ground arith);
}
GrowthStep-IsInnocent sick_chance draw time a b (yields_half adult ill late) i = record {
  no_yield = λ y e. absurd (ground arith);
  no_sickness = λ y e. absurd (ground arith);
}

LifeStep-IsInnocent :
    (sick_chance draw : ℕ) (time : ℤ) (created : Bool) (a b : AnimalInfoEntity)
    → LifeStep sick_chance draw time created a b
    → IsInnocent a
    → IsInnocent b
LifeStep-IsInnocent sick_chance draw time created a b (skipped left_out) i = i
LifeStep-IsInnocent sick_chance draw time created a b (selected earlier ready step) i =
    GrowthStep-IsInnocent sick_chance draw time a b step i

-- If an animal, as long as it is young, neither yields nor is sick, the same holds after any number
-- of ticks of the worker.
pub Lives-IsInnocent : {a b : AnimalInfoEntity} → Lives a b → IsInnocent a → IsInnocent b
Lives-IsInnocent here i = i
Lives-IsInnocent (tick {a} sick_chance draw time created rest) i =
    let step = animal_tick-LifeStep sick_chance draw time created a in
    Lives-IsInnocent rest (LifeStep-IsInnocent sick_chance draw time created _ _ step i)

-- A hungry adult whose yield time is over, and which was created before the job, yields at the next
-- tick, with the greatest harvest.
pub hungry_adult_yields :
    (sick_chance draw : ℕ) (time : ℤ) (a : AnimalInfoEntity)
    → a.is_adult ≡ true
    → a.current_state ≡ AnimalCurrentState.hungry
    → a.animal.yield_time ≤ℤ a.current_yield_time +ℤ time
    → let b = animal_tick sick_chance draw time true a in
      (b.current_state ≡ AnimalCurrentState.yield)
      × (b.harvest_quantity_remaining ≡ a.animal.max_harvest_quantity)
unfolding animal_tick grow_animal is_selected yield_adult
hungry_adult_yields sick_chance draw time a adult hungry late = (ground arith, ground arith)
