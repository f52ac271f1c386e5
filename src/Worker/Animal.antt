-- ===== src/Worker/Animal.antt =====
-- `AnimalWorker.process` (apps/cron-worker/src/animal/animal.worker.ts), on one row of the batch.
-- `draw` is what `Math.random` returns, over the denominator of the chance.
pub mod Life
use cifarm_server_alternativ.Prelude.{
  ℕ, Bool, true, false, ◌&&◌, not, ℤ, pos, ◌+ℤ◌, ltb, ltb_ℤ, leb_ℤ, eqb_ℤ, if◌then◌else◌,
}
use cifarm_server_alternativ.Entities.{AnimalCurrentState, animal_state_eq, AnimalInfoEntity}
use cifarm_server_alternativ.Worker.Crop.{half_of, is_odd}

-- A row as it is saved: `fraction` says that `harvestQuantityRemaining` is a half more.
pub record Aged : Type 0 where
  pub info : AnimalInfoEntity
  pub fraction : Bool

abbrev whole : AnimalInfoEntity → Aged
whole a = record { info = a; fraction = false }

-- The branch of an adult. The half of the yield time is reached where its double is the yield time.
pub yield_adult : ℕ → ℕ → ℤ → AnimalInfoEntity → Aged
yield_adult sick_chance draw time a =
    let waited = a.current_yield_time +ℤ time in
    let harvest = a.animal.min_harvest_quantity +ℤ a.animal.max_harvest_quantity in
    if leb_ℤ a.animal.yield_time waited
    then (if animal_state_eq a.current_state AnimalCurrentState.sick
        then record {
          info = record a {
            current_yield_time = pos 0;
            already_sick = true;
            current_state = AnimalCurrentState.yield;
            harvest_quantity_remaining = half_of harvest;
          };
          fraction = is_odd harvest;
        }
        else whole (record a {
          current_yield_time = pos 0;
          current_state = AnimalCurrentState.yield;
          harvest_quantity_remaining = a.animal.max_harvest_quantity;
        }))
    else (if eqb_ℤ (waited +ℤ waited) a.animal.yield_time && ltb draw sick_chance
        then whole
            (record a { current_yield_time = waited; current_state = AnimalCurrentState.sick })
        else whole (record a { current_yield_time = waited }))

-- The branch of an animal that is not adult.
pub grow_young : ℤ → AnimalInfoEntity → Aged
grow_young time a =
    let hungry_time = a.current_hungry_time +ℤ time in
    if ltb_ℤ a.current_growth_time a.animal.growth_time
    then whole (record a {
      current_growth_time = a.current_growth_time +ℤ time;
      current_hungry_time = hungry_time;
      current_state =
          if leb_ℤ a.animal.hunger_time hungry_time
          then AnimalCurrentState.hungry
          else a.current_state;
    })
    else whole (record a { is_adult = true; current_state = AnimalCurrentState.hungry })

-- The function that is mapped over the batch.
pub grow_animal : ℕ → ℕ → ℤ → AnimalInfoEntity → Aged
unfolding yield_adult grow_young
grow_animal sick_chance draw time a =
    if a.is_adult then yield_adult sick_chance draw time a else grow_young time a

-- The `where` of the query, on whether the row was created by the job's time and on the row.
-- `Not(Hungry) && Not(Yield)` is JavaScript's `&&` of two objects, so it is `Not(Yield)`.
pub is_selected : Bool → AnimalInfoEntity → Bool
is_selected created a = created && not (animal_state_eq a.current_state AnimalCurrentState.yield)

-- A row that the query returns is grown; another is left as it is.
pub animal_tick : ℕ → ℕ → ℤ → Bool → AnimalInfoEntity → AnimalInfoEntity
unfolding grow_animal is_selected
animal_tick sick_chance draw time created a =
    let grown = (grow_animal sick_chance draw time a).info in
    if is_selected created a then grown else a
