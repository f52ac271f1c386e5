-- ===== src/Scheduler/Reached.antt =====
-- What the scheduler of energy (apps/cron-scheduler/src/energy) counts is what its worker
-- (apps/cron-worker/src/energy) pages over: the rows of all users.
use cifarm_server_alternativ.Prelude.{
  ℕ, zero, suc, ◌+◌, ◌/◌, ◌≤◌, ◌<◌, ◌≡◌, refl, sym, ap, ◌∙◌, true, some, List, [], ◌∷◌, ◌++◌, map,
  length, take, drop, get_elem?, ℤ, ◌+ℤ◌, ◌-ℤ◌, arith,
}
use mathlib.Core.Path.{subst}
use cifarm_server_alternativ.Result.{ok}
use cifarm_server_alternativ.Entities.{UserEntity}
use cifarm_server_alternativ.Worker.Energy.{regenerate}
use cifarm_server_alternativ.Worker.Process.{WorkerStore, slice, process_energy, in_transaction}
use cifarm_server_alternativ.Worker.Schedule.{Batch}
use cifarm_server_alternativ.Worker.Schedule.Cover.{Reaches}
use cifarm_server_alternativ.Scheduler.{handle_energy}
use cifarm_server_alternativ.Scheduler.Store.{Job, JobStore, JobStoreLaws, energy, total}
use cifarm_server_alternativ.Scheduler.Elapsed.{rows_scheduled, get_elem?-map}

get_elem?-length :
    {A : Type 0} (xs : List A) (j : ℕ) {a : A} → get_elem? xs j ≡ some a → j < length xs
get_elem?-length [] j h = absurd (ground arith)
get_elem?-length (x ∷ xs) zero h = omega arith
get_elem?-length (x ∷ xs) (suc j) {a} h = omega (arith, get_elem?-length xs j {a = a} h)

get_elem?-drop :
    {A : Type 0} (n i : ℕ) (xs : List A) → get_elem? (drop n xs) i ≡ get_elem? xs (n + i)
get_elem?-drop n i [] = refl
get_elem?-drop zero i (x ∷ xs) = ap (get_elem? (x ∷ xs)) (omega arith)
get_elem?-drop (suc n) i (x ∷ xs) = get_elem?-drop n i xs ∙ ap (get_elem? (x ∷ xs)) (plus n i)
  where
    plus : (n i : ℕ) → suc (n + i) ≡ suc n + i
    plus n i = omega arith

get_elem?-take :
    {A : Type 0} (n i : ℕ) (xs : List A) → i < n → get_elem? (take n xs) i ≡ get_elem? xs i
get_elem?-take n i [] h = refl
get_elem?-take zero i (x ∷ xs) h = absurd (omega arith)
get_elem?-take (suc n) zero (x ∷ xs) h = refl
get_elem?-take (suc n) (suc i) (x ∷ xs) h = get_elem?-take n i xs (omega arith)

offset : (a b : ℕ) → a ≤ b → (i : ℕ) × (b ≡ a + i)
offset zero b h = (b, omega arith)
offset (suc a) zero h = absurd (omega arith)
offset (suc a) (suc b) h = let (i, sum) = offset a b (omega arith) in (i, omega (arith, sum))

-- A row that a batch reaches is in its slice.
pub Reaches-slice :
    {A : Type 0} (b : Batch) (j : ℕ) (xs : List A) {a : A}
    → Reaches b j
    → get_elem? xs j ≡ some a
    → (i : ℕ) × (get_elem? (slice b xs) i ≡ some a)
Reaches-slice b j xs {a} (from, to) h =
    let (i, sum) = offset b.skip j from in
    (
      i,
      get_elem?-take b.take i (drop b.skip xs) (omega arith)
          ∙ get_elem?-drop b.skip i xs
          ∙ ap (get_elem? xs) (sym sum)
          ∙ h,
    )

process_energy-saves :
    (worker : WorkerStore) (period : ℤ) (job : Job) (t : worker.State)
    → worker.find_energy_regen t ≡ some period
    → process_energy worker job t
      ≡ in_transaction t (
          worker.save_users (map (regenerate period job.time) (slice job.batch (worker.users t))) t)
unfolding process_energy
process_energy-saves worker period job t known = ground (arith, known)

module _ (store : JobStore) (worker : WorkerStore) where
  -- On rows that meet the laws, where the date of the last schedule is known, a call of the energy
  -- scheduler on a leader that returns has put jobs into the queue, after those that were there;
  -- for every user, if as many are there when the worker runs as were counted, the job at the index
  -- of the user divided by 10000 carries the time since that date and the speed-ups that waited,
  -- and what the worker saves for that job, in one transaction, has among its rows the user moved
  -- on by that time.
  pub every_user_regenerates :
      JobStoreLaws store
      → (now date period : ℤ) (s s' : store.State) (t : worker.State) (j : ℕ) (user : UserEntity)
      → store.find_last_schedule energy s ≡ some (some date)
      → length (worker.users t) ≡ store.count_users s
      → get_elem? (worker.users t) j ≡ some user
      → worker.find_energy_regen t ≡ some period
      → handle_energy store true now s ≡ (ok tt, s')
      → (more : List Job) × (job : Job) × (saved : List UserEntity) × (i : ℕ) × (store.queue energy
            s'
          ≡ store.queue energy s ++ more)
        × (get_elem? more (j / 10000) ≡ some job)
        × (job.time ≡ now -ℤ date +ℤ total (store.find_speed_ups energy s))
        × (process_energy worker job t ≡ in_transaction t (worker.save_users saved t))
        × (get_elem? saved i ≡ some (regenerate period job.time user))
  unfolding handle_energy
  every_user_regenerates laws now date period s s' t j user dated counted there known h =
      let (more, queued, (job, at, reaches, timed)) =
        rows_scheduled store laws energy (store.count_users s) j now date s s' dated
          (subst (λ n. j < n) counted (get_elem?-length (worker.users t) j {a = user} there)) h in
      let (i, sliced) = Reaches-slice job.batch j (worker.users t) {a = user} reaches there in
      (
        more,
        job,
        map (regenerate period job.time) (slice job.batch (worker.users t)),
        i,
        queued,
        at,
        timed,
        process_energy-saves worker period job t known,
        get_elem?-map (regenerate period job.time) (slice job.batch (worker.users t)) i {a = user}
            sliced,
      )
