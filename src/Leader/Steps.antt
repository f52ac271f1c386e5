-- ===== src/Leader/Steps.antt =====
-- What happens to an instance and the leases: a bootstrap, an event of the watch, a timer that
-- fires, or anything that the other instances do to the leases in between.
use cifarm_server_alternativ.Prelude.{
  ℕ, ◌≡◌, Bool, true, false, ◌&&◌, not, List, [], ◌∷◌, ◌++◌, if◌then◌else◌,
}
use cifarm_server_alternativ.Leader.{
  LeaderElectionService, elected, WatchType, Pending, watch_event, renewal, fire,
  try_to_become_leader, graceful_shutdown,
}
use cifarm_server_alternativ.Leader.Api.{Lease, LeaseApi}

-- The state that the constructor leaves.
unfoldable pub constructed : ℕ → ℕ → ℕ → LeaderElectionService
constructed lease_name holder_identity renew_interval = record {
  lease_name = lease_name;
  holder_identity = holder_identity;
  renew_interval = renew_interval;
  is_leader = false;
  lease_renewal_timeout = false;
  events = [];
  pending = [];
}

-- `KubernetesOptions.leaderElection`, with the defaults filled in, and `runInKubernetes()`.
pub record Place : Type 0 where
  pub use_minikube_for_development : Bool
  pub run_in_kubernetes : Bool

module _ (api : LeaseApi) where
  abbrev pub State : Type 0
  State = LeaderElectionService × api.Server

  -- The attempts that are left in `runLeaderElectionProcess`. During the pause before an attempt,
  -- `pause` is what the others do, and the moment after it.
  unfoldable pub retry : List (ℕ × (api.Server → api.Server)) → State → State
  unfolding try_to_become_leader
  retry [] state = state
  retry ((now, pause) ∷ rest) (service, server) =
      let next = retry rest (try_to_become_leader api now service (pause server)) in
      if service.is_leader then (service, server) else next

  unfoldable pub run_leader_election_process :
      (now : ℕ) (first second : ℕ × (api.Server → api.Server)) → State → State
  unfolding retry try_to_become_leader
  run_leader_election_process now first second (service, server) =
      retry (first ∷ second ∷ []) (try_to_become_leader api now service server)

  -- `onApplicationBootstrap`; outside a cluster nothing schedules a renewal.
  unfoldable pub on_application_bootstrap :
      Place → (now : ℕ) (first second : ℕ × (api.Server → api.Server)) → State → State
  unfolding run_leader_election_process
  on_application_bootstrap place now first second (service, server) =
      let leading = record service { is_leader = true; events = elected ∷ service.events } in
      if not place.use_minikube_for_development && not place.run_in_kubernetes
      then (leading, server)
      else run_leader_election_process now first second (service, server)

  pub data Step : State → State → Type 0 where
    bootstrap :
        (place : Place) (now : ℕ) (first second : ℕ × (api.Server → api.Server)) (state : State)
        → Step state (on_application_bootstrap place now first second state)
    watched :
        (type : WatchType) (lease : Lease) (service : LeaderElectionService) (server : api.Server)
        → Step (service, server) (watch_event type lease service, server)
    timer :
        (now : ℕ) (before : List Pending) (callback : Pending) (after : List Pending)
        (service : LeaderElectionService) (server : api.Server)
        → service.pending ≡ before ++ callback ∷ after
        → Step
            (service, server)
            (fire api callback now (record service { pending = before ++ after }) server)
    renewing :
        (now : ℕ) (service : LeaderElectionService) (server : api.Server)
        → service.lease_renewal_timeout ≡ true
        → Step (service, server) (renewal api now service server)
    shutdown :
        (now : ℕ) (service : LeaderElectionService) (server : api.Server)
        → Step (service, server) (service, graceful_shutdown api now service server)
    elsewhere :
        (service : LeaderElectionService) (server server' : api.Server)
        → Step (service, server) (service, server')

  pub data Steps : State → State → Type 0 where
    rest : (state : State) → Steps state state
    then : (a b c : State) → Steps a b → Step b c → Steps a c
