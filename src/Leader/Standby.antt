-- ===== src/Leader/Standby.antt =====
-- An instance that waits: only the end of a lease object, not the end of its holder, makes it try
-- again after the three attempts of the bootstrap.
use cifarm_server_alternativ.Prelude.{ℕ, ◌≡◌, true, false, List, ◌∷◌, ◌++◌, All, if◌then◌else◌}
use cifarm_server_alternativ.Leader.{
  LeaderElectionService, names, Pending, update, deletion, becoming_leader, modified, watch_event,
  renewal, fire,
}
use cifarm_server_alternativ.Leader.Api.{Lease, LeaseApi}
use cifarm_server_alternativ.Leader.Steps.{State}

-- Not ours: what the watch reports while another instance is, or was, the holder.
abbrev pub IsForeign : ℕ → Pending → Type 0
IsForeign us (update lease) = names lease.holder_identity us ≡ false
IsForeign us deletion = ⊥
IsForeign us becoming_leader = ⊥

module _ (api : LeaseApi) where
  -- A step after the bootstrap in which no lease that names the instance is reported, and none is
  -- deleted. Whatever becomes of the leases, time passes.
  pub data Wait : State api → State api → Type 0 where
    reported :
        (lease : Lease) (service : LeaderElectionService) (server : api.Server)
        → names lease.holder_identity service.holder_identity ≡ false
        → Wait (service, server) (watch_event modified lease service, server)
    timer :
        (now : ℕ) (before : List Pending) (callback : Pending) (after : List Pending)
        (service : LeaderElectionService) (server : api.Server)
        → service.pending ≡ before ++ callback ∷ after
        → Wait
            (service, server)
            (fire api callback now (record service { pending = before ++ after }) server)
    renewing :
        (now : ℕ) (service : LeaderElectionService) (server : api.Server)
        → service.lease_renewal_timeout ≡ true
        → Wait (service, server) (renewal api now service server)
    elsewhere :
        (service : LeaderElectionService) (server server' : api.Server)
        → Wait (service, server) (service, server')

  pub data Waits : State api → State api → Type 0 where
    rest : (state : State api) → Waits state state
    then : (a b c : State api) → Waits a b → Wait b c → Waits a c

  record IsStandby (us : ℕ) (service : LeaderElectionService) : Type 0 where
    follows : service.is_leader ≡ false
    identity : service.holder_identity ≡ us
    foreign : All (IsForeign us) service.pending
