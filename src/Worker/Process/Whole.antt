-- ===== src/Worker/Process/Whole.antt =====
-- One job for all rows: the batches of src/bull/bull.constants.ts hold 10000 of them.
use cifarm_server_alternativ.Prelude.{
  ◌≤◌, ◌<◌, ◌≡◌, refl, ap, ◌∙◌, List, [], ◌∷◌, length, take, drop,
}
use cifarm_server_alternativ.Worker.Schedule.{Batch, batches}
use cifarm_server_alternativ.Worker.Schedule.Cover.{one_batch}
use cifarm_server_alternativ.Worker.Process.{slice}

take_all : {A : Type 0} (xs : List A) → take (length xs) xs ≡ xs
take_all [] = refl
take_all (x ∷ xs) = ap (λ rest. x ∷ rest) (take_all xs)

drop_none : {A : Type 0} (xs : List A) → drop 0 xs ≡ xs
drop_none [] = refl
drop_none (x ∷ xs) = refl

-- Up to 10000 rows, at least one, are cut into one batch, and its query takes them all.
pub one_batch_takes_all :
    {A : Type 0} (rows : List A)
    → 0 < length rows
    → length rows ≤ 10000
    → (b : Batch) × (batches (length rows) ≡ b ∷ []) × (slice b rows ≡ rows)
one_batch_takes_all rows some few = (
  record { skip = 0; take = length rows },
  one_batch (length rows) some few,
  ap (take (length rows)) (drop_none rows) ∙ take_all rows,
)
