-- ===== src/Worker/Process/Stuck.antt =====
-- A batch of crops that cannot be saved: `harvestQuantityRemaining` is a column of whole numbers.
use cifarm_server_alternativ.Prelude.{
  ℕ, zero, suc, ◌≡◌, true, some, List, [], ◌∷◌, get_elem?, ℤ, arith,
}
use cifarm_server_alternativ.Result.{err, Exception, transaction_failed}
use cifarm_server_alternativ.Entities.{SeedGrowthInfoEntity, CropRandomness}
use cifarm_server_alternativ.Worker.Crop.{Draws, Grown, grow}
use cifarm_server_alternativ.Worker.Crop.Half.{Ripens, grow-fraction}
use cifarm_server_alternativ.Worker.Process.{
  WorkerStore, slice, rows_where, meets_crop, grown, process_crops,
}
use cifarm_server_alternativ.Scheduler.Store.{Job}

-- Some row has half a piece.
abbrev pub HasHalf : List Grown → Type 0
HasHalf rows = (i : ℕ) × (row : Grown) × (get_elem? rows i ≡ some row) × (row.fraction ≡ true)

get_elem?-grown :
    (chances : CropRandomness) (half : ℕ) (draws : ℕ → ℕ → Draws) (time : ℤ)
    (infos : List SeedGrowthInfoEntity) (i : ℕ) (info : SeedGrowthInfoEntity)
    → get_elem? infos i ≡ some info
    → get_elem? (grown chances half draws time infos) i
      ≡ some (grow chances half (draws i) time info)
unfolding grown
get_elem?-grown chances half draws time [] i info h = absurd (ground arith)
get_elem?-grown chances half draws time (x ∷ xs) zero info h = ground arith
get_elem?-grown chances half draws time (x ∷ xs) (suc i) info h =
    get_elem?-grown chances half (λ j. draws (suc j)) time xs i info h

module _ (store : WorkerStore) where
  -- Where the column of the harvest refuses halves of a piece and the randomness is seeded, a job
  -- whose rows hold one crop that is infested or weedy in its last stage but one, that the time of
  -- the job takes to the last stage and not past it, and whose least and greatest harvests have an
  -- odd sum, throws and saves nothing, so that no crop of the batch grows.
  pub ripe_crop_stops_batch :
      ((rows : List Grown) (s : store.State)
        → HasHalf rows
        → (e : Exception) × (store.save_crops rows s ≡ err e))
      → (half : ℕ) (draws : ℕ → ℕ → Draws) (job : Job) (s : store.State) (chances : CropRandomness)
        (i : ℕ) (info : SeedGrowthInfoEntity)
      → store.find_crop_randomness s ≡ some chances
      → get_elem? (slice job.batch (rows_where (meets_crop job.utc_time) (store.crops s))) i
        ≡ some info
      → Ripens job.time info
      → (e : Exception) × (process_crops store half draws job s ≡ (err (transaction_failed e), s))
  unfolding process_crops
  ripe_crop_stops_batch refuses half draws job s chances i info found there ripens =
      let infos = slice job.batch (rows_where (meets_crop job.utc_time) (store.crops s)) in
      let row = grow chances half (draws i) job.time info in
      let halved : HasHalf (grown chances half draws job.time infos) = (
        i,
        row,
        get_elem?-grown chances half draws job.time infos i info there,
        grow-fraction chances half (draws i) job.time info ripens,
      ) in
      let (e, refused) = refuses (grown chances half draws job.time infos) s halved in
      (e, ground (arith, found, refused))
