-- ===== src/Worker/Process.antt =====
-- The `process` methods of the workers of crops, animals and energy (apps/cron-worker/src/crop, animal
-- and energy): the rows of a job, in the order of their creation, are read, changed and saved.
-- `draws` is what `Math.random` returns, for each row.
pub mod Whole
pub mod Stuck
use cifarm_server_alternativ.Prelude.{
  ℕ, suc, Bool, true, not, ◌&&◌, Option, none, some, List, [], ◌∷◌, map, take, drop, ℤ, leb_ℤ,
  if◌then◌else◌,
}
use cifarm_server_alternativ.Result.{Result, ok, err, type_error, transaction_failed}
use cifarm_server_alternativ.Entities.{
  SeedGrowthInfoEntity, AnimalInfoEntity, UserEntity, CropRandomness, AnimalRandomness,
  CropCurrentState, crop_state_eq,
}
use cifarm_server_alternativ.Worker.Crop.{Draws, Grown, grow}
use cifarm_server_alternativ.Worker.Animal.{Aged, grow_animal, is_selected}
use cifarm_server_alternativ.Worker.Energy.{regenerate}
use cifarm_server_alternativ.Worker.Schedule.{Batch}
use cifarm_server_alternativ.Scheduler.Store.{Job}

-- `createdAt`, and the row.
pub record Created (A : Type 0) : Type 0 where
  pub created_at : ℤ
  pub row : A

pub record WorkerStore : Type 1 where
  pub State : Type 0
  -- every row, in the order of `createdAt`
  pub crops : State → List (Created SeedGrowthInfoEntity)
  pub animals : State → List (Created AnimalInfoEntity)
  pub users : State → List UserEntity
  pub find_crop_randomness : State → Option CropRandomness
  pub find_animal_randomness : State → Option AnimalRandomness
  pub find_energy_regen : State → Option ℤ
  -- each in a transaction
  pub save_crops : List Grown → State → Result State
  pub save_animals : List Aged → State → Result State
  pub save_users : List UserEntity → State → Result State

-- `skip` and `take` of a query
abbrev pub slice : {A : Type 0} → Batch → List A → List A
slice batch rows = take batch.take (drop batch.skip rows)

-- The rows that meet a `where`.
abbrev pub rows_where : {A : Type 0} → (Created A → Bool) → List (Created A) → List A
rows_where meets [] = []
rows_where meets (stored ∷ rest) =
    let others = rows_where meets rest in if meets stored then stored.row ∷ others else others

-- `Not(NeedWater) && Not(FullyMatured)` is `Not(FullyMatured)`.
abbrev pub meets_crop : ℤ → Created SeedGrowthInfoEntity → Bool
meets_crop utc_time stored =
    leb_ℤ stored.created_at utc_time
    && not (crop_state_eq stored.row.current_state CropCurrentState.fully_matured)

abbrev pub meets_animal : ℤ → Created AnimalInfoEntity → Bool
meets_animal utc_time stored = is_selected (leb_ℤ stored.created_at utc_time) stored.row

-- The callbacks of `map`.
unfoldable pub grown :
    CropRandomness → ℕ → (ℕ → ℕ → Draws) → ℤ → List SeedGrowthInfoEntity → List Grown
grown chances half draws time [] = []
grown chances half draws time (info ∷ rest) =
    grow chances half (draws 0) time info ∷ grown chances half (λ i. draws (suc i)) time rest

unfoldable pub aged : ℕ → (ℕ → ℕ) → ℤ → List AnimalInfoEntity → List Aged
aged sick_chance draws time [] = []
aged sick_chance draws time (info ∷ rest) =
    grow_animal sick_chance (draws 0) time info ∷ aged sick_chance (λ i. draws (suc i)) time rest

-- The transaction.
abbrev pub in_transaction : {S : Type 0} → S → Result S → Result (Unit {0}) × S
in_transaction s (err e) = (err (transaction_failed e), s)
in_transaction s (ok s') = (ok tt, s')

module _ (store : WorkerStore) where
  -- `CropWorker.process`
  unfoldable pub process_crops :
      ℕ → (ℕ → ℕ → Draws) → Job → store.State → Result (Unit {0}) × store.State
  unfolding grown
  process_crops half draws job s =
      let infos = slice job.batch (rows_where (meets_crop job.utc_time) (store.crops s)) in
      elim (store.find_crop_randomness s) [
        | none ↦ (err type_error, s)
        | some chances ↦
            in_transaction s (store.save_crops (grown chances half draws job.time infos) s)
      ]

  -- `AnimalWorker.process`
  unfoldable pub process_animals : (ℕ → ℕ) → Job → store.State → Result (Unit {0}) × store.State
  unfolding aged
  process_animals draws job s =
      let infos = slice job.batch (rows_where (meets_animal job.utc_time) (store.animals s)) in
      elim (store.find_animal_randomness s) [
        | none ↦ (err type_error, s)
        | some chances ↦
            in_transaction s (store.save_animals (aged chances.sick_chance draws job.time infos) s)
      ]

  -- `EnergyWorker.process`
  unfoldable pub process_energy : Job → store.State → Result (Unit {0}) × store.State
  process_energy job s =
      let users = slice job.batch (store.users s) in
      elim (store.find_energy_regen s) [
        | none ↦ (err type_error, s)
        | some energy_regen_time ↦
            in_transaction s
              (store.save_users (map (regenerate energy_regen_time job.time) users) s)
      ]
