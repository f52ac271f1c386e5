-- ===== src/Worker/Schedule.antt =====
-- The batches that the schedulers of apps/cron-scheduler cut a table into. The crop, animal and
-- energy schedulers take `min((i + 1) * batchSize, count)` rows, the delivery scheduler takes
-- `batchSize`; all of them have a `batchSize` of 10000 (src/bull/bull.constants.ts).
pub mod Cover
use cifarm_server_alternativ.Prelude.{
  ℕ, zero, suc, ◌+◌, ◌-◌, ◌*◌, ◌/◌, List, [], ◌∷◌, leb, if◌then◌else◌,
}

-- `skip` and `take` of a job.
pub record Batch : Type 0 where
  pub skip : ℕ
  pub take : ℕ

abbrev pub batch_size : ℕ
batch_size = 10000

-- `Math.ceil(count / batchSize)`
pub batch_count : ℕ → ℕ
batch_count count = (count + (batch_size - 1)) / batch_size

-- `Math.min`
abbrev pub min_ℕ : ℕ → ℕ → ℕ
min_ℕ a b = if leb a b then a else b

pub batch : ℕ → ℕ → Batch
batch count i = record { skip = i * batch_size; take = min_ℕ (suc i * batch_size) count }

pub delivery_batch : ℕ → ℕ → Batch
delivery_batch count i = record { skip = i * batch_size; take = batch_size }

-- `Array.from({ length }, (_, i) => f(i))`, from `i` on.
pub from : (ℕ → Batch) → ℕ → ℕ → List Batch
from f zero i = []
from f (suc length) i = f i ∷ from f length (suc i)

pub batches : ℕ → List Batch
batches count = from (batch count) (batch_count count) 0

pub delivery_batches : ℕ → List Batch
delivery_batches count = from (delivery_batch count) (batch_count count) 0
