-- ===== src/Tests/Times.antt =====
-- Ticks of a scheduler, with a speed-up that waits.
use cifarm_server_alternativ.Prelude.{
  ℕ, ◌/◌, refl, ◌≡◌, none, some, List, [], ◌∷◌, ◌++◌, get_elem?, pos, ◌+ℤ◌, ◌-ℤ◌,
}
use cifarm_server_alternativ.Result.{err, database_error}
use cifarm_server_alternativ.Entities.{SeedGrowthInfoEntity, CropCurrentState, UserEntity}
use cifarm_server_alternativ.Worker.Crop.{Draws, grow}
use cifarm_server_alternativ.Worker.Energy.{regenerate}
use cifarm_server_alternativ.Worker.Process.{WorkerStore, process_energy, in_transaction}
use cifarm_server_alternativ.Scheduler.{schedule, handle_energy, job_time, jobs}
use cifarm_server_alternativ.Scheduler.Store.{crop, Job, total}
use cifarm_server_alternativ.Scheduler.Reached.{every_user_regenerates}
use cifarm_server_alternativ.Scheduler.Conserved.{failed_commit_repeats}
use cifarm_server_alternativ.Tests.Stores.Jobs.{
  Rows, one_kind, one_kind_laws, failing, failing_laws, rows,
}
use cifarm_server_alternativ.Tests.Sample.{growth, chances, user}
use cifarm_server_alternativ.Tests.Stores.Parcels.{Fields, fields}

abbrev ticked : Rows
ticked = (schedule one_kind crop 1 (pos 5000) rows).1

-- The jobs are in the queue, and the date is not saved.
abbrev half_done : Rows
half_done = record rows {
  queue = [] ++ jobs (pos 5000 -ℤ pos 1000 +ℤ total (pos 3000 ∷ [])) (pos 5000) 1;
}

abbrev repeated : Rows
repeated = (schedule failing crop 1 (pos 6000) half_done).1

abbrev dry_draws : ℕ → Draws
dry_draws round = record { water = 99; pest = 99; kind = 0 }

abbrev sprout : SeedGrowthInfoEntity
sprout = growth 1 CropCurrentState.normal

abbrev grown : SeedGrowthInfoEntity
grown =
    (grow chances 50 dry_draws (job_time (pos 5000) (some (pos 1000)) (pos 3000 ∷ [])) sprout).info

-- A worker on the row of one user.
abbrev at_work : WorkerStore
at_work = record fields { users = λ t. user 1 ∷ []; find_energy_regen = λ t. some (pos 300) }

abbrev idle : Fields
idle = record { crops = []; chances = none; saved = [] }

every_user_regenerates_example :
    (more : List Job) × (job : Job) × (saved : List UserEntity) × (i : ℕ) × (ticked.queue
      ≡ [] ++ more)
    × (get_elem? more (0 / 10000) ≡ some job)
    × (job.time ≡ pos 5000 -ℤ pos 1000 +ℤ total (pos 3000 ∷ []))
    × (process_energy at_work job idle ≡ in_transaction idle (at_work.save_users saved idle))
    × (get_elem? saved i ≡ some (regenerate (pos 300) job.time (user 1)))
unfolding schedule handle_energy
every_user_regenerates_example =
    every_user_regenerates one_kind at_work one_kind_laws (pos 5000) (pos 1000) (pos 300) rows
      ticked idle 0 (user 1) refl refl refl refl refl

failed_commit_repeats_example :
    (schedule failing crop 1 (pos 5000) rows ≡ (err database_error, half_done))
    × (repeated.queue
        ≡ ([] ++ jobs (pos 5000 -ℤ pos 1000 +ℤ total (pos 3000 ∷ [])) (pos 5000) 1)
          ++ jobs (pos 6000 -ℤ pos 1000 +ℤ total (pos 3000 ∷ [])) (pos 6000) 1)
unfolding schedule
failed_commit_repeats_example =
    failed_commit_repeats failing failing_laws crop 1 1 (pos 5000) (pos 6000) (pos 1000)
      database_error rows half_done repeated refl refl refl refl refl refl
