-- ===== src/Scheduler/Growth.antt =====
-- The crop scheduler and the crop worker (apps/cron-worker/src/crop/crop.worker.ts) together.
use cifarm_server_alternativ.Prelude.{ℕ, ◌≡◌, false, some, ℤ, pos, ◌+ℤ◌, ◌==◌}
use cifarm_server_alternativ.Result.{ok}
use cifarm_server_alternativ.Entities.{SeedGrowthInfoEntity, CropRandomness}
use cifarm_server_alternativ.Worker.Crop.{Draws, grow}
use cifarm_server_alternativ.Scheduler.{job_time, schedule, speed_up}
use cifarm_server_alternativ.Scheduler.Store.{crop, JobStore}

module _ (store : JobStore) (chances : CropRandomness) (half : ℕ) where
  -- Calls of the crop scheduler, and a crop that each of the ticks reaches once.
  pub data Grows
      : (requested : ℤ) → (a b : store.State) → (g h : SeedGrowthInfoEntity) → Type 0 where
    start : (s : store.State) (g : SeedGrowthInfoEntity) → Grows (pos 0) s s g g
    ticked :
        (requested : ℤ) (count : ℕ) (now date : ℤ) (draws : ℕ → Draws) (a b c : store.State)
        (g h : SeedGrowthInfoEntity)
        → Grows requested a b g h
        → store.find_last_schedule crop b ≡ some (some date)
        → (count == 0) ≡ false
        → schedule store crop count now b ≡ (ok tt, c)
        → Grows requested a c g
            (grow chances half draws
              (job_time now (some date) (store.find_speed_ups crop b))
              h).info
    sped_up :
        (requested time : ℤ) (a b c : store.State) (g h : SeedGrowthInfoEntity)
        → Grows requested a b g h
        → speed_up store time b ≡ ok c
        → Grows (requested +ℤ time) a c g h
