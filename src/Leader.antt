-- ===== src/Leader.antt =====
-- `LeaderElectionService` (src/kubernetes/leader-election/leader-election.service.ts). The lease API
-- of the cluster is a parameter. A timer that the code sets is kept in the state until it fires, and
-- timers fire in any order. Names and identities are numbers, a missing status code is 0, and a
-- renewal interval is a multiple of 500 ms. An operation that awaits the API is one step: it reads
-- and writes `isLeader` after its last call only.
pub mod Api
pub mod Steps
pub mod Announced
pub mod Standby
pub mod Holder
pub mod Stale
use cifarm_server_alternativ.Prelude.{
  ℕ, ◌+◌, ◌*◌, ◌/◌, Bool, true, false, not, ◌||◌, Option, none, some, List, [], ◌∷◌, ltb, ◌==◌,
  if◌then◌else◌,
}
use Api.{Lease, ApiAnswer, body, failed, LeaseApi}

-- `LEADER_ELECTED_EMITTER2_EVENT` and `LEADER_LOST_EMITTER2_EVENT`
pub data LeadershipEvent : Type 0 where
  elected lost : LeadershipEvent

-- What the watch reports of a lease.
pub data WatchType : Type 0 where
  added modified deleted : WatchType

-- A callback that `setTimeout` holds, other than the renewal.
pub data Pending : Type 0 where
  update : Lease → Pending
  deletion becoming_leader : Pending

-- `lease_renewal_timeout` is whether a renewal is due, `events` the emitted events, latest first.
pub record LeaderElectionService : Type 0 where
  pub lease_name : ℕ
  pub holder_identity : ℕ
  pub renew_interval : ℕ
  pub is_leader : Bool
  pub lease_renewal_timeout : Bool
  pub events : List LeadershipEvent
  pub pending : List Pending

abbrev pub duration_in_seconds : LeaderElectionService → ℕ
duration_in_seconds service = service.renew_interval / 500

-- `a || b` on numbers that may be missing.
abbrev or_number : Option ℕ → ℕ → ℕ
or_number none b = b
or_number (some a) b = if a == 0 then b else a

abbrev or_zero : Option ℕ → ℕ
or_zero none = 0
or_zero (some a) = a

unfoldable pub is_lease_expired : ℕ → LeaderElectionService → Lease → Bool
is_lease_expired now service lease =
    ltb
      (or_zero lease.renew_time
        + or_number lease.lease_duration_seconds (duration_in_seconds service) * 1000)
      now

unfoldable pub names : Option ℕ → ℕ → Bool
names none identity = false
names (some holder) identity = holder == identity

unfoldable pub is_lease_held_by_us : LeaderElectionService → Lease → Bool
is_lease_held_by_us service lease = names lease.holder_identity service.holder_identity

unfoldable pub schedule_lease_renewal : LeaderElectionService → LeaderElectionService
schedule_lease_renewal service = record service { lease_renewal_timeout = true }

unfoldable pub become_leader : LeaderElectionService → LeaderElectionService
unfolding schedule_lease_renewal
become_leader service =
    schedule_lease_renewal (record service { is_leader = true; events = elected ∷ service.events })

unfoldable pub lose_leadership : LeaderElectionService → LeaderElectionService
lose_leadership service =
    if service.is_leader
    then record service {
      is_leader = false;
      lease_renewal_timeout = false;
      events = lost ∷ service.events;
    }
    else service

unfoldable pub handle_lease_update : Lease → LeaderElectionService → LeaderElectionService
unfolding is_lease_held_by_us schedule_lease_renewal lose_leadership
handle_lease_update lease service =
    if is_lease_held_by_us service lease
    then schedule_lease_renewal (
        if service.is_leader
        then service
        else record service { pending = becoming_leader ∷ service.pending })
    else if service.is_leader
    then lose_leadership service
    else service

-- The callback of the watch, on every lease of the namespace.
unfoldable pub watch_event : WatchType → Lease → LeaderElectionService → LeaderElectionService
watch_event type lease service =
    let pending : List Pending = elim type [
      | added ↦ update lease ∷ service.pending
      | modified ↦ update lease ∷ service.pending
      | deleted ↦ deletion ∷ service.pending
    ] in
    if lease.name == service.lease_name then record service { pending = pending } else service

abbrev pub falsy : Option ℕ → Bool
falsy none = true
falsy (some holder) = false

module _ (api : LeaseApi) where
  -- The lease that `createLease` writes.
  abbrev pub own_lease : ℕ → LeaderElectionService → Lease
  own_lease now service = record {
    name = service.lease_name;
    holder_identity = some service.holder_identity;
    lease_duration_seconds = some (duration_in_seconds service);
    acquire_time = some now;
    renew_time = some now;
    resource_version = none;
  }

  unfoldable pub create_lease : ℕ → LeaderElectionService → api.Server → ApiAnswer × api.Server
  create_lease now service server = api.create_namespaced_lease (own_lease now service) server

  unfoldable pub get_lease : ℕ → LeaderElectionService → api.Server → ApiAnswer × api.Server
  unfolding create_lease
  get_lease now service server =
      let created = create_lease now service server in
      elim (api.read_namespaced_lease service.lease_name server) [
        | body lease ↦ (body lease, server)
        | failed code ↦ if code == 404 then created else (failed code, server)
      ]

  -- The lease that `acquireLease` writes.
  abbrev pub acquired : ℕ → LeaderElectionService → Lease → Lease
  acquired now service lease = record lease {
    holder_identity = some service.holder_identity;
    lease_duration_seconds = some (duration_in_seconds service);
    acquire_time = some now;
    renew_time = some now;
  }

  unfoldable pub acquire_lease :
      ℕ → LeaderElectionService → Lease → api.Server → ApiAnswer × api.Server
  acquire_lease now service lease server =
      api.replace_namespaced_lease service.lease_name (acquired now service lease) server

  abbrev pub released : Lease → Lease
  released lease = record lease { holder_identity = none; renew_time = none }

  unfoldable pub release_lease : ℕ → LeaderElectionService → api.Server → api.Server
  unfolding get_lease is_lease_held_by_us
  release_lease now service server =
      let (answer, read) = get_lease now service server in
      elim answer [
        | failed code ↦ read
        | body lease ↦
            if is_lease_held_by_us service lease
            then (api.replace_namespaced_lease service.lease_name (released lease) read).1
            else read
      ]

  unfoldable pub graceful_shutdown : ℕ → LeaderElectionService → api.Server → api.Server
  unfolding release_lease
  graceful_shutdown now service server =
      if service.is_leader then release_lease now service server else server

  -- `renewLease`, with the write that it awaits.
  unfoldable pub renew_lease :
      ℕ → LeaderElectionService → api.Server → LeaderElectionService × api.Server
  unfolding get_lease is_lease_held_by_us lose_leadership
  renew_lease now service server =
      let (answer, read) = get_lease now service server in
      elim answer [
        | failed code ↦ (lose_leadership service, read)
        | body lease ↦
            let (written, server') =
              api.replace_namespaced_lease service.lease_name
                (record lease { renew_time = some now }) read in
            if is_lease_held_by_us service lease
            then elim written [
              | body renewed ↦ (service, server')
              | failed code ↦ (lose_leadership service, server')
            ]
            else (lose_leadership service, read)
      ]

  -- `if (this.isLeaseHeldByUs(lease)) this.becomeLeader()`
  abbrev pub lead_if_held : LeaderElectionService → Lease → LeaderElectionService
  lead_if_held service lease =
      if is_lease_held_by_us service lease then become_leader service else service

  unfoldable pub try_to_become_leader :
      ℕ → LeaderElectionService → api.Server → LeaderElectionService × api.Server
  unfolding get_lease is_lease_expired is_lease_held_by_us acquire_lease become_leader
  try_to_become_leader now service server =
      let (answer, read) = get_lease now service server in
      elim answer [
        | failed code ↦ (service, read)
        | body lease ↦
            let (written, server') = acquire_lease now service lease read in
            if is_lease_expired now service lease || falsy lease.holder_identity
            then elim written [
              | body taken ↦ (lead_if_held service taken, server')
              | failed code ↦ (service, server')
            ]
            else (lead_if_held service lease, read)
      ]

  -- The callback of `leaseRenewalTimeout`.
  unfoldable pub renewal :
      ℕ → LeaderElectionService → api.Server → LeaderElectionService × api.Server
  unfolding renew_lease
  renewal now service server =
      let fired = record service { lease_renewal_timeout = false } in
      if service.is_leader then renew_lease now fired server else (fired, server)

  unfoldable pub handle_lease_deletion :
      ℕ → LeaderElectionService → api.Server → LeaderElectionService × api.Server
  unfolding try_to_become_leader
  handle_lease_deletion now service server =
      if service.is_leader then (service, server) else try_to_become_leader now service server

  -- A callback of `setTimeout`.
  unfoldable pub fire :
      Pending → ℕ → LeaderElectionService → api.Server → LeaderElectionService × api.Server
  unfolding handle_lease_update handle_lease_deletion become_leader
  fire (update lease) now service server = (handle_lease_update lease service, server)
  fire deletion now service server = handle_lease_deletion now service server
  fire becoming_leader now service server = (become_leader service, server)
