-- ===== src/Tests/Stores/Jobs.antt =====
-- Jobs, speed-ups and a date, the same ones for every kind.
use cifarm_server_alternativ.Prelude.{
  ◌≡◌, Option, some, List, [], ◌∷◌, ◌++◌, ℤ, pos, ◌+ℤ◌, int_laws, arith, eqb_ℤ, if◌then◌else◌,
}
use cifarm_server_alternativ.Result.{ok, err, database_error}
use cifarm_server_alternativ.Entities.{CropCurrentState, AnimalCurrentState}
use cifarm_server_alternativ.Scheduler.Store.{Job, JobStore, JobStoreLaws, total}

pub record Rows : Type 0 where
  pub speed_ups : List ℤ
  pub last : Option (Option ℤ)
  pub queue : List Job

abbrev pub one_kind : JobStore
one_kind = record {
  State = Rows;
  crop_states = λ s. CropCurrentState.normal ∷ [];
  animal_states = λ s. AnimalCurrentState.normal ∷ [];
  count_users = λ s. 1;
  find_speed_ups = λ kind s. s.speed_ups;
  find_last_schedule = λ kind s. s.last;
  add_bulk = λ kind more s. ok (record s { queue = s.queue ++ more });
  commit_schedule = λ kind now s. ok (record s { speed_ups = []; last = some (some now) });
  save_speed_ups = λ time s. ok (record s { speed_ups = time ∷ s.speed_ups });
  queue = λ kind s. s.queue;
}

-- The same, but the database refuses the date 5000.
abbrev pub failing : JobStore
failing = record one_kind {
  commit_schedule = λ kind now s.
      if eqb_ℤ now (pos 5000)
      then err database_error
      else ok (record s { speed_ups = []; last = some (some now) });
}

first_plus : (time rest : ℤ) → time +ℤ rest ≡ rest +ℤ time
first_plus time rest = omega int_laws

total-cons : (time : ℤ) (rest : List ℤ) → total (time ∷ rest) ≡ total rest +ℤ time
unfolding total
total-cons time rest = first_plus time (total rest)

pub one_kind_laws : JobStoreLaws one_kind
one_kind_laws = record {
  added = λ kind more s s' h. (ground arith, ground arith, ground arith);
  committed = λ kind now s s' h. (ground arith, ground arith, ground arith);
  sped_up =
      λ kind time s s' h. (ground arith, ground (arith, total-cons time s.speed_ups), ground arith);
}

pub failing_laws : JobStoreLaws failing
failing_laws = record {
  added = λ kind more s s' h. (ground arith, ground arith, ground arith);
  committed = λ kind now s s' h. (ground arith, ground arith, ground arith);
  sped_up =
      λ kind time s s' h. (ground arith, ground (arith, total-cons time s.speed_ups), ground arith);
}

abbrev pub rows : Rows
rows = record { speed_ups = pos 3000 ∷ []; last = some (some (pos 1000)); queue = [] }
