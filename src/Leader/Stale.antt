-- ===== src/Leader/Stale.antt =====
-- A report of the watch is acted on without a look at the lease.
use cifarm_server_alternativ.Prelude.{ℕ, ◌≡◌, refl, true, false, [], ◌∷◌, arith, ==_refl}
use mathlib.Core.Path.{subst}
use cifarm_server_alternativ.Leader.{
  LeaderElectionService, names, update, becoming_leader, modified, become_leader,
  schedule_lease_renewal, handle_lease_update, is_lease_held_by_us, watch_event, fire,
}
use cifarm_server_alternativ.Leader.Api.{Lease, LeaseApi}
use cifarm_server_alternativ.Leader.Steps.{State, Step, Steps}

module _ (api : LeaseApi) where
  reported :
      (lease : Lease) (s : LeaderElectionService)
      → lease.name ≡ s.lease_name
      → s.pending ≡ []
      → watch_event modified lease s ≡ record s { pending = update lease ∷ [] }
  unfolding watch_event
  reported lease s same idle = ground (arith, ==_refl lease.name)

  waiting :
      (now : ℕ) (lease : Lease) (s : LeaderElectionService) (server : api.Server)
      → names lease.holder_identity s.holder_identity ≡ true
      → s.is_leader ≡ false
      → fire api (update lease) now (record s { pending = [] }) server
        ≡ (record s { pending = becoming_leader ∷ []; lease_renewal_timeout = true }, server)
  unfolding fire handle_lease_update is_lease_held_by_us schedule_lease_renewal
  waiting now lease s server ours follows = ground arith

  -- An instance that is not the leader and has no timer pending becomes the leader after a report
  -- of a lease that names it, whatever the stored lease has become in the meantime.
  pub stale_report_elects :
      (now : ℕ) (lease : Lease) (s : LeaderElectionService) (server server' : api.Server)
      → lease.name ≡ s.lease_name
      → names lease.holder_identity s.holder_identity ≡ true
      → s.is_leader ≡ false
      → s.pending ≡ []
      → (b : State api) × Steps api (s, server) b × (b.0.is_leader ≡ true) × (b.1 ≡ server')
  unfolding fire become_leader schedule_lease_renewal watch_event handle_lease_update
  stale_report_elects now lease s server server' same ours follows idle =
      let told = record s { pending = update lease ∷ [] } in
      let waits = record s { pending = becoming_leader ∷ []; lease_renewal_timeout = true } in
      let to_told : Step api (s, server) (told, server) =
        subst (λ x. Step api (s, server) (x, server)) (reported lease s same idle)
          (Step.watched modified lease s server) in
      let to_waits : Step api (told, server') (waits, server') =
        subst (Step api (told, server')) (waiting now lease s server' ours follows)
          (Step.timer now [] (update lease) [] told server' refl) in
      (
        fire api becoming_leader now (record waits { pending = [] }) server',
        Steps.then _ _ _
            (Steps.then _ _ _
              (Steps.then _ _ _ (Steps.then _ _ _ (Steps.rest (s, server)) to_told)
                (Step.elsewhere told server server'))
              to_waits)
            (Step.timer now [] becoming_leader [] waits server' refl),
        refl,
        refl,
      )
