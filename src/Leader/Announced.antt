-- ===== src/Leader/Announced.antt =====
-- The events that an instance emits tell its state, so that the flags of the schedulers
-- (apps/cron-scheduler), which follow the events, are the state of the election.
use cifarm_server_alternativ.Prelude.{
  ℕ, ◌≡◌, refl, Bool, true, false, List, [], ◌∷◌, ◌++◌, Bool-cases, inl, inr, arith,
}
use cifarm_server_alternativ.Leader.{
  LeadershipEvent, elected, lost, LeaderElectionService, Pending, update, deletion, becoming_leader,
  become_leader, lose_leadership, schedule_lease_renewal, handle_lease_update,
  handle_lease_deletion, watch_event, renew_lease, renewal, fire, try_to_become_leader,
}
use cifarm_server_alternativ.Leader.Api.{Lease, LeaseApi}
use cifarm_server_alternativ.Leader.Steps.{
  State, Step, Steps, constructed, retry, run_leader_election_process, on_application_bootstrap,
}

-- `handleLeaderElected` and `handleLeaderLost`: the flag `isLeader` of a scheduler.
unfoldable pub on_event : LeadershipEvent → Bool → Bool
on_event elected is_leader = true
on_event lost is_leader = false

-- The flag after the events, latest first; it begins false.
unfoldable pub flag : List LeadershipEvent → Bool
unfolding on_event
flag [] = false
flag (event ∷ earlier) = on_event event (flag earlier)

abbrev pub IsAnnounced : LeaderElectionService → Type 0
IsAnnounced service = flag service.events ≡ service.is_leader

become_leader-IsAnnounced : (s : LeaderElectionService) → IsAnnounced (become_leader s)
unfolding become_leader flag on_event schedule_lease_renewal
become_leader-IsAnnounced s = refl

lose_leadership-IsAnnounced :
    (s : LeaderElectionService) → IsAnnounced s → IsAnnounced (lose_leadership s)
unfolding lose_leadership flag on_event
lose_leadership-IsAnnounced s h = ground arith

module _ (api : LeaseApi) where
  try_to_become_leader-IsAnnounced :
      (now : ℕ) (s : LeaderElectionService) (server : api.Server)
      → IsAnnounced s
      → IsAnnounced (try_to_become_leader api now s server).0
  unfolding try_to_become_leader
  try_to_become_leader-IsAnnounced now s server h = ground (arith, become_leader-IsAnnounced s)

  renewal-IsAnnounced :
      (now : ℕ) (s : LeaderElectionService) (server : api.Server)
      → IsAnnounced s
      → IsAnnounced (renewal api now s server).0
  unfolding renewal renew_lease
  renewal-IsAnnounced now s server h =
      ground (arith, lose_leadership-IsAnnounced (record s { lease_renewal_timeout = false }) h)

  handle_lease_update-IsAnnounced :
      (lease : Lease) (s : LeaderElectionService)
      → IsAnnounced s
      → IsAnnounced (handle_lease_update lease s)
  unfolding handle_lease_update schedule_lease_renewal
  handle_lease_update-IsAnnounced lease s h = ground (arith, lose_leadership-IsAnnounced s h)

  fire-IsAnnounced :
      (callback : Pending) (now : ℕ) (s : LeaderElectionService) (server : api.Server)
      → IsAnnounced s
      → IsAnnounced (fire api callback now s server).0
  unfolding fire handle_lease_deletion
  fire-IsAnnounced (update lease) now s server h = handle_lease_update-IsAnnounced lease s h
  fire-IsAnnounced deletion now s server h =
      ground (arith, try_to_become_leader-IsAnnounced now s server h)
  fire-IsAnnounced becoming_leader now s server h = become_leader-IsAnnounced s

  retry-IsAnnounced :
      (attempts : List (ℕ × (api.Server → api.Server))) (s : LeaderElectionService)
      (server : api.Server)
      → IsAnnounced s
      → IsAnnounced (retry api attempts (s, server)).0
  unfolding retry
  retry-IsAnnounced [] s server h = h
  retry-IsAnnounced ((now, pause) ∷ later) s server h =
      let (s', server') = try_to_become_leader api now s (pause server) in
      elim (Bool-cases s.is_leader) [
        | inl leads ↦ ground arith
        | inr follows ↦ ground (
          arith,
          retry-IsAnnounced later (try_to_become_leader api now s (pause server)).0
              (try_to_become_leader api now s (pause server)).1
              (try_to_become_leader-IsAnnounced now s (pause server) h),
        )
      ]

  Step-IsAnnounced : (a b : State api) → Step api a b → IsAnnounced a.0 → IsAnnounced b.0
  unfolding watch_event on_application_bootstrap run_leader_election_process flag on_event
  Step-IsAnnounced _ _ (Step.bootstrap place now first second (s, server)) h = ground (
    arith,
    retry-IsAnnounced (first ∷ second ∷ []) (try_to_become_leader api now s server).0
        (try_to_become_leader api now s server).1 (try_to_become_leader-IsAnnounced now s server h),
  )
  Step-IsAnnounced _ _ (Step.watched type lease s server) h = ground arith
  Step-IsAnnounced _ _ (Step.timer now before callback after s server e) h =
      fire-IsAnnounced callback now (record s { pending = before ++ after }) server h
  Step-IsAnnounced _ _ (Step.renewing now s server due) h = renewal-IsAnnounced now s server h
  Step-IsAnnounced _ _ (Step.shutdown now s server) h = h
  Step-IsAnnounced _ _ (Step.elsewhere s server server') h = h

  Steps-IsAnnounced : (a b : State api) → Steps api a b → IsAnnounced a.0 → IsAnnounced b.0
  Steps-IsAnnounced _ _ (Steps.rest a) h = h
  Steps-IsAnnounced _ _ (Steps.then a b c steps step) h =
      Step-IsAnnounced b c step (Steps-IsAnnounced a b steps h)

  -- From the construction of an instance on, whatever is watched, expires, is answered by the lease
  -- API or done by other instances, a flag that is set by every elected event and cleared by every
  -- lost event, as the schedulers keep it, is the leadership of the instance.
  pub flag_follows :
      (name identity interval : ℕ) (server : api.Server) (state : State api)
      → Steps api (constructed name identity interval, server) state
      → flag state.0.events ≡ state.0.is_leader
  unfolding constructed flag
  flag_follows name identity interval server state steps =
      Steps-IsAnnounced (constructed name identity interval, server) state steps refl
