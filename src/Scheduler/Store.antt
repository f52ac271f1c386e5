-- ===== src/Scheduler/Store.antt =====
-- The rows and the queues that the schedulers use, and what is relied on of them: what one operation
-- writes, and that it leaves the rest.
use cifarm_server_alternativ.Prelude.{ℕ, ◌≡◌, Option, some, List, [], ◌∷◌, ◌++◌, ℤ, pos, ◌+ℤ◌}
use cifarm_server_alternativ.Result.{Result, ok}
use cifarm_server_alternativ.Entities.{CropCurrentState, AnimalCurrentState}
use cifarm_server_alternativ.Worker.Schedule.{Batch}

-- `CropSpeedUp`, `CropGrowthLastSchedule` and the crop queue, and those of animals and energy.
pub data Kind : Type 0 where
  crop animal energy : Kind

-- `CropJobData`, `AnimalJobData` and `EnergyJobData`
pub record Job : Type 0 where
  pub batch : Batch
  pub time : ℤ
  pub utc_time : ℤ

pub record JobStore : Type 1 where
  pub State : Type 0
  -- the states of the rows of crops and of animals, and the number of users
  pub crop_states : State → List CropCurrentState
  pub animal_states : State → List AnimalCurrentState
  pub count_users : State → ℕ
  pub find_speed_ups : Kind → State → List ℤ
  -- the row of the last schedule, and its date
  pub find_last_schedule : Kind → State → Option (Option ℤ)
  pub add_bulk : Kind → List Job → State → Result State
  -- removes the speed-ups and saves the date, in one transaction
  pub commit_schedule : Kind → ℤ → State → Result State
  -- saves one speed-up of each kind, in one transaction
  pub save_speed_ups : ℤ → State → Result State
  -- not called by the code: the jobs of a queue
  pub queue : Kind → State → List Job

unfoldable pub total : List ℤ → ℤ
total [] = pos 0
total (time ∷ rest) = time +ℤ total rest

pub record JobStoreLaws (store : JobStore) : Type 0 where
  pub added :
      (kind : Kind) (more : List Job) (s s' : store.State)
      → store.add_bulk kind more s ≡ ok s'
      → (store.queue kind s' ≡ store.queue kind s ++ more)
        × (store.find_speed_ups kind s' ≡ store.find_speed_ups kind s)
        × (store.find_last_schedule kind s' ≡ store.find_last_schedule kind s)
  pub committed :
      (kind : Kind) (now : ℤ) (s s' : store.State)
      → store.commit_schedule kind now s ≡ ok s'
      → (store.queue kind s' ≡ store.queue kind s)
        × (store.find_speed_ups kind s' ≡ [])
        × (store.find_last_schedule kind s' ≡ some (some now))
  pub sped_up :
      (kind : Kind) (time : ℤ) (s s' : store.State)
      → store.save_speed_ups time s ≡ ok s'
      → (store.queue kind s' ≡ store.queue kind s)
        × (total (store.find_speed_ups kind s') ≡ total (store.find_speed_ups kind s) +ℤ time)
        × (store.find_last_schedule kind s' ≡ store.find_last_schedule kind s)
