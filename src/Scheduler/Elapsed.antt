-- ===== src/Scheduler/Elapsed.antt =====
-- The time that the schedulers hand to the workers.
use cifarm_server_alternativ.Prelude.{
  ℕ, zero, suc, ◌/◌, ◌<◌, ◌≡◌, refl, ◌∙◌, false, some, List, [], ◌∷◌, ◌++◌, map, get_elem?, ℤ, ◌+ℤ◌,
  ◌-ℤ◌, int_laws, arith, inl, inr, ◌==◌,
}
use cifarm_server_alternativ.Result.{ok, Result-cases}
use cifarm_server_alternativ.Worker.Schedule.{batches}
use cifarm_server_alternativ.Worker.Schedule.Cover.{Reaches, batches_cover}
use cifarm_server_alternativ.Scheduler.{add_speed_ups, job_time, jobs, schedule}
use cifarm_server_alternativ.Scheduler.Store.{Kind, Job, JobStore, JobStoreLaws, total}

pub add_speed_ups-total :
    (time : ℤ) (speed_ups : List ℤ) → add_speed_ups time speed_ups ≡ time +ℤ total speed_ups
unfolding add_speed_ups total
add_speed_ups-total time [] = omega int_laws
add_speed_ups-total time (more ∷ rest) =
    add_speed_ups-total (time +ℤ more) rest ∙ add_assoc time more (total rest)
  where
    add_assoc : (a b c : ℤ) → a +ℤ b +ℤ c ≡ a +ℤ (b +ℤ c)
    add_assoc a b c = omega int_laws

pub job_time-total :
    (now date : ℤ) (speed_ups : List ℤ)
    → job_time now (some date) speed_ups ≡ now -ℤ date +ℤ total speed_ups
unfolding job_time
job_time-total now date speed_ups = add_speed_ups-total (now -ℤ date) speed_ups

pub get_elem?-map :
    {A B : Type 0} (f : A → B) (xs : List A) (i : ℕ) {a : A}
    → get_elem? xs i ≡ some a
    → get_elem? (map f xs) i ≡ some (f a)
get_elem?-map f [] i h = absurd (ground arith)
get_elem?-map f (x ∷ xs) zero h = ground arith
get_elem?-map f (x ∷ xs) (suc i) {a} h = get_elem?-map f xs i {a = a} h

module _ (store : JobStore) (laws : JobStoreLaws store) (kind : Kind) where
  -- What a run of `handle` on a leader leaves, where there is something to count.
  pub record IsScheduled (count : ℕ) (now date : ℤ) (s s' : store.State) : Type 0 where
    pub queued :
        store.queue kind s'
        ≡ store.queue kind s ++ jobs (now -ℤ date +ℤ total (store.find_speed_ups kind s)) now count
    pub used_up : store.find_speed_ups kind s' ≡ []
    pub dated : store.find_last_schedule kind s' ≡ some (some now)

  pub schedule-IsScheduled :
      (count : ℕ) (now date : ℤ) (s s' : store.State)
      → store.find_last_schedule kind s ≡ some (some date)
      → (count == 0) ≡ false
      → schedule store kind count now s ≡ (ok tt, s')
      → IsScheduled count now date s s'
  unfolding schedule job_time
  schedule-IsScheduled count now date s s' dated some_rows h =
      let time = job_time now (some date) (store.find_speed_ups kind s) in
      let sum = add_speed_ups-total (now -ℤ date) (store.find_speed_ups kind s) in
      elim (Result-cases (store.add_bulk kind (jobs time now count) s)) [
        | inl (e, threw) ↦ absurd (ground arith)
        | inr (s1, more) ↦ elim (Result-cases (store.commit_schedule kind now s1)) [
          | inl (e, threw) ↦ absurd (ground arith)
          | inr (s2, done) ↦
              let (queued, same, still) = laws.added kind (jobs time now count) s s1 more in
              let (kept, gone, late) = laws.committed kind now s1 s2 done in
              let last : s2 ≡ s' = ground arith in
              record { queued = ground arith; used_up = ground arith; dated = ground arith }
        ]
      ]

  -- On rows that meet the laws, where the date of the last schedule is known, a call of a scheduler
  -- on a leader that returns has put jobs into the queue, after those that were there; for every
  -- position below the count, the job at the index of the position divided by 10000 has it between
  -- its `skip` and the end of its `take`, and carries the time since that date and the speed-ups
  -- that waited. Which row is at the position depends on what the worker pages over.
  pub rows_scheduled :
      (count j : ℕ) (now date : ℤ) (s s' : store.State)
      → store.find_last_schedule kind s ≡ some (some date)
      → j < count
      → schedule store kind count now s ≡ (ok tt, s')
      → (more : List Job) × (store.queue kind s' ≡ store.queue kind s ++ more)
        × ((job : Job) × (get_elem? more (j / 10000) ≡ some job)
            × Reaches job.batch j
            × (job.time ≡ now -ℤ date +ℤ total (store.find_speed_ups kind s)))
  unfolding jobs
  rows_scheduled count j now date s s' dated row h =
      let time = now -ℤ date +ℤ total (store.find_speed_ups kind s) in
      let r = schedule-IsScheduled count now date s s' dated (ground arith) h in
      let (b, at, reaches) = batches_cover count j row in
      (
        jobs time now count,
        r.queued,
        (
          record { batch = b; time = time; utc_time = now },
          get_elem?-map (λ b. record { batch = b; time = time; utc_time = now }) (batches count)
              (j / 10000) {a = b} at,
          reaches,
          refl,
        ),
      )
