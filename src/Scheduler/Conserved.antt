-- ===== src/Scheduler/Conserved.antt =====
-- What the calls of a scheduler add up to.
use cifarm_server_alternativ.Prelude.{
  ℕ, ◌≡◌, ◌∙◌, false, some, ◌++◌, ℤ, pos, ◌+ℤ◌, ◌-ℤ◌, arith, ◌==◌,
}
use cifarm_server_alternativ.Result.{Exception, ok, err}
use cifarm_server_alternativ.Scheduler.Elapsed.{schedule-IsScheduled, job_time-total}
use cifarm_server_alternativ.Scheduler.{job_time, jobs, schedule, speed_up}
use cifarm_server_alternativ.Scheduler.Store.{Kind, JobStore, JobStoreLaws, total}

module _ (store : JobStore) (kind : Kind) where
  -- What the calls of one kind do after one another: `granted` is the time that the jobs have
  -- carried, `requested` that of the speed-ups.
  pub data Runs : (granted requested : ℤ) → store.State → store.State → Type 0 where
    start : (s : store.State) → Runs (pos 0) (pos 0) s s
    scheduled :
        (granted requested : ℤ) (count : ℕ) (now date : ℤ) (a b c : store.State)
        → Runs granted requested a b
        → store.find_last_schedule kind b ≡ some (some date)
        → (count == 0) ≡ false
        → schedule store kind count now b ≡ (ok tt, c)
        → Runs (granted +ℤ job_time now (some date) (store.find_speed_ups kind b)) requested a c
    nothing_to_do :
        (granted requested now : ℤ) (a b c : store.State)
        → Runs granted requested a b
        → schedule store kind 0 now b ≡ (ok tt, c)
        → Runs granted requested a c
    sped_up :
        (granted requested time : ℤ) (a b c : store.State)
        → Runs granted requested a b
        → speed_up store time b ≡ ok c
        → Runs granted (requested +ℤ time) a c

module _ (store : JobStore) (laws : JobStoreLaws store) (kind : Kind) where
  -- The date of the last schedule, and the speed-ups that wait.
  abbrev Stands : store.State → ℤ → ℤ → Type 0
  Stands s date waiting =
      (store.find_last_schedule kind s ≡ some (some date))
      × (total (store.find_speed_ups kind s) ≡ waiting)

  -- On rows that meet the laws, where the jobs of a call are queued and its transaction is refused,
  -- the call throws, and the next call that returns queues jobs whose time counts from the same
  -- date, with the same speed-ups, once more.
  pub failed_commit_repeats :
      (count count' : ℕ) (now later date : ℤ) (e : Exception) (a b c : store.State)
      → store.find_last_schedule kind a ≡ some (some date)
      → (count == 0) ≡ false
      → (count' == 0) ≡ false
      → store.commit_schedule kind now b ≡ err e
      → store.add_bulk kind (jobs (now -ℤ date +ℤ total (store.find_speed_ups kind a)) now count) a
        ≡ ok b
      → schedule store kind count' later b ≡ (ok tt, c)
      → (schedule store kind count now a ≡ (err e, b))
        × (store.queue kind c
            ≡ (store.queue kind a
                ++ jobs (now -ℤ date +ℤ total (store.find_speed_ups kind a)) now count)
              ++ jobs (later -ℤ date +ℤ total (store.find_speed_ups kind a)) later count')
  unfolding schedule
  failed_commit_repeats count count' now later date e a b c dated rows rows' lost added next =
      let (queued, same, still) =
        laws.added kind (jobs (now -ℤ date +ℤ total (store.find_speed_ups kind a)) now count) a b
          added in
      let run =
        schedule-IsScheduled store laws kind count' later date b c (still ∙ dated) rows' next in
      (
        ground (arith, job_time-total now date (store.find_speed_ups kind a)),
        run.queued ∙ ground (arith, queued, same),
      )
