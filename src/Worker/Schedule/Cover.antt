-- ===== src/Worker/Schedule/Cover.antt =====
-- Which rows the batches reach.
use cifarm_server_alternativ.Prelude.{
  ℕ, zero, suc, ◌+◌, ◌/◌, ◌≤◌, ◌<◌, ◌≡◌, ◌∙◌, ap, some, get_elem?, [], ◌∷◌, arith,
}
use cifarm_server_alternativ.Worker.Schedule.{
  Batch, batch, delivery_batch, batch_count, from, batches, delivery_batches,
}

-- The row `j`, counted from 0 in the order of the query, is one of the batch.
abbrev pub Reaches : Batch → ℕ → Type 0
Reaches b j = (b.skip ≤ j) × (j < b.skip + b.take)

get_elem?-from :
    (f : ℕ → Batch) (length i k : ℕ) → k < length → get_elem? (from f length i) k ≡ some (f (i + k))
unfolding from
get_elem?-from f zero i k h = absurd (omega arith)
get_elem?-from f (suc length) i zero h = ap (λ n. some (f n)) (omega arith)
get_elem?-from f (suc length) i (suc k) h =
    get_elem?-from f length (suc i) k (omega arith) ∙ ap (λ n. some (f n)) (omega arith)

nth : (f : ℕ → Batch) (length k : ℕ) → k < length → get_elem? (from f length 0) k ≡ some (f k)
nth f length k h = get_elem?-from f length 0 k h ∙ ap (λ n. some (f n)) (omega arith)

in_count : (count j : ℕ) → j < count → j / 10000 < batch_count count
unfolding batch_count
in_count count j h = omega arith

-- Every row that was counted is in a batch: in the one whose number is the index of the row divided
-- by 10000.
pub batches_cover :
    (count j : ℕ)
    → j < count
    → (b : Batch) × (get_elem? (batches count) (j / 10000) ≡ some b) × Reaches b j
unfolding batches batch
batches_cover count j h = (
  batch count (j / 10000),
  nth (batch count) (batch_count count) (j / 10000) (in_count count j h),
  (ground arith, ground arith),
)

-- From the third batch on, every row that was counted is in the batch before its own too.
pub batches_overlap :
    (count k j : ℕ)
    → j / 10000 ≡ suc (suc k)
    → j < count
    → (b c : Batch) × (get_elem? (batches count) (suc k) ≡ some b)
      × (get_elem? (batches count) (suc (suc k)) ≡ some c)
      × Reaches b j
      × Reaches c j
unfolding batches batch
batches_overlap count k j q h =
    let bound : suc (suc k) < batch_count count = omega (arith, in_count count j h) in
    (
      batch count (suc k),
      batch count (suc (suc k)),
      nth (batch count) (batch_count count) (suc k) (omega arith),
      nth (batch count) (batch_count count) (suc (suc k)) bound,
      (ground arith, ground arith),
      (ground arith, ground arith),
    )

-- Every row of the deliveries that was counted is in a batch, and in that batch only: the one whose
-- number is the index of the row divided by 10000.
pub delivery_batches_partition :
    (count j : ℕ)
    → j < count
    → ((b : Batch) × (get_elem? (delivery_batches count) (j / 10000) ≡ some b) × Reaches b j)
      × ((i : ℕ) → Reaches (delivery_batch count i) j → i ≡ j / 10000)
unfolding delivery_batches delivery_batch
delivery_batches_partition count j h = (
  (
    delivery_batch count (j / 10000),
    nth (delivery_batch count) (batch_count count) (j / 10000) (in_count count j h),
    (omega arith, omega arith),
  ),
  λ i (below, above). omega arith,
)

batch_count_one : (count : ℕ) → 0 < count → count ≤ 10000 → batch_count count ≡ 1
unfolding batch_count
batch_count_one count more few = omega arith

-- Up to 10000 rows are one batch, which begins at the first and takes as many as there are.
pub one_batch :
    (count : ℕ) → 0 < count → count ≤ 10000 → batches count ≡ record { skip = 0; take = count } ∷ []
unfolding batches batch from
one_batch count more few =
    ap (λ n. from (batch count) n 0) (batch_count_one count more few) ∙ ground arith
