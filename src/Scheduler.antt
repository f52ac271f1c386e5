-- ===== src/Scheduler.antt =====
-- The schedulers of crops, animals and energy (apps/cron-scheduler/src/crop/crop.service.ts,
-- animal/animal.service.ts, energy/energy.service.ts) and the speed-up of the developers
-- (apps/gameplay-service/src/dev/speed-up/speed-up.service.ts). The three `handle` methods differ in
-- what they count and in the rows that they read and write. Times are in thousandths of a second.
pub mod Store
pub mod Elapsed
pub mod Reached
pub mod Conserved
pub mod Growth
use cifarm_server_alternativ.Prelude.{
  ℕ, suc, Bool, true, false, not, ◌&&◌, Option, none, some, List, [], ◌∷◌, map, length, ℤ, pos,
  ◌+ℤ◌, ◌-ℤ◌, ◌==◌, if◌then◌else◌,
}
use cifarm_server_alternativ.Result.{Result, ok, err, type_error, transaction_failed}
use cifarm_server_alternativ.Entities.{
  CropCurrentState, crop_state_eq, AnimalCurrentState, animal_state_eq,
}
use cifarm_server_alternativ.Worker.Schedule.{Batch, batches}
use Store.{Kind, crop, animal, energy, Job, JobStore}

-- `time += Number(additionalTime)` for each of the speed-ups
pub add_speed_ups : ℤ → List ℤ → ℤ
add_speed_ups time [] = time
add_speed_ups time (additional_time ∷ rest) = add_speed_ups (time +ℤ additional_time) rest

-- `date ? utcNow.diff(date, "milliseconds") / 1000.0 : 1`, and the speed-ups
pub job_time : ℤ → Option ℤ → List ℤ → ℤ
unfolding add_speed_ups
job_time now none speed_ups = add_speed_ups (pos 1000) speed_ups
job_time now (some date) speed_ups = add_speed_ups (now -ℤ date) speed_ups

pub jobs : ℤ → ℤ → ℕ → List Job
jobs time now count = map (λ b. record { batch = b; time = time; utc_time = now }) (batches count)

-- `count` with a `where`
pub count_where : {A : Type 0} → (A → Bool) → List A → ℕ
count_where test [] = 0
count_where test (a ∷ rest) =
    let others = count_where test rest in if test a then suc others else others

-- `Not(FullyMatured) && Not(NeedWater)` is its second part, since `Not` returns an object.
pub is_counted_crop : CropCurrentState → Bool
is_counted_crop state = not (crop_state_eq state CropCurrentState.need_water)

-- `Not(Hungry) && Not(Yield)`
pub is_counted_animal : AnimalCurrentState → Bool
is_counted_animal state = not (animal_state_eq state AnimalCurrentState.yield)

module _ (store : JobStore) where
  -- The common part of the `handle` methods, on a leader; the state is the one that is left when
  -- the call ends or throws.
  unfoldable pub schedule : Kind → ℕ → ℤ → store.State → Result (Unit {0}) × store.State
  unfolding job_time jobs
  schedule kind count now s = elim (store.find_last_schedule kind s) [
    | none ↦ (err type_error, s)
    | some date ↦
        let time = job_time now date (store.find_speed_ups kind s) in
        let added = store.add_bulk kind (jobs time now count) s in
        if count == 0 then (ok tt, s) else elim added [
          | err e ↦ (err e, s)
          | ok s' ↦ elim (store.commit_schedule kind now s') [
            | err e ↦ (err e, s')
            | ok s'' ↦ (ok tt, s'')
          ]
        ]
  ]

  -- `CropService.handle`, `AnimalService.handle` and `EnergyService.handle`.
  unfoldable pub handle_crops : Bool → ℤ → store.State → Result (Unit {0}) × store.State
  unfolding schedule count_where is_counted_crop
  handle_crops is_leader now s =
      if is_leader
      then schedule crop (count_where is_counted_crop (store.crop_states s)) now s
      else (ok tt, s)

  unfoldable pub handle_animals : Bool → ℤ → store.State → Result (Unit {0}) × store.State
  unfolding schedule count_where is_counted_animal
  handle_animals is_leader now s =
      if is_leader
      then schedule animal (count_where is_counted_animal (store.animal_states s)) now s
      else (ok tt, s)

  unfoldable pub handle_energy : Bool → ℤ → store.State → Result (Unit {0}) × store.State
  unfolding schedule
  handle_energy is_leader now s =
      if is_leader then schedule energy (store.count_users s) now s else (ok tt, s)

  -- `SpeedUpService.speedUp`
  unfoldable pub speed_up : ℤ → store.State → Result store.State
  speed_up time s = elim (store.save_speed_ups time s) [
    | err e ↦ err (transaction_failed e)
    | ok s' ↦ ok s'
  ]
