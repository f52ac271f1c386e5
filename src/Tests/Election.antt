-- ===== src/Tests/Election.antt =====
-- An instance among others, and a lease.
use cifarm_server_alternativ.Prelude.{refl, ◌≡◌, true, false, none, some, [], arith}
use cifarm_server_alternativ.Leader.{
  LeaderElectionService, try_to_become_leader, names, is_lease_expired,
}
use cifarm_server_alternativ.Leader.Api.{Lease}
use cifarm_server_alternativ.Leader.Steps.{
  State, Step, Steps, Place, constructed, on_application_bootstrap,
}
use cifarm_server_alternativ.Leader.Announced.{flag, flag_follows}
use cifarm_server_alternativ.Leader.Holder.{valid_lease_kept, elected_holds}
use cifarm_server_alternativ.Tests.Stores.Leases.{one_lease, one_lease_laws, lease_of}

abbrev in_cluster : Place
in_cluster = record { use_minikube_for_development = true; run_in_kubernetes = true }

-- The instance 9, which has just started.
abbrev ninth : LeaderElectionService
ninth = record {
  lease_name = 5;
  holder_identity = 9;
  renew_interval = 10000;
  is_leader = false;
  lease_renewal_timeout = false;
  events = [];
  pending = [];
}

-- It starts where there is no lease.
abbrev booted : State one_lease
booted =
    on_application_bootstrap one_lease in_cluster 1000 (2000, λ s. s) (3000, λ s. s)
      (constructed 5 9 10000, none)

-- It tries when the lease of the instance 8 has expired.
abbrev taken : State one_lease
taken = try_to_become_leader one_lease 30000 ninth (some (lease_of 8))

flag_follows_example : flag booted.0.events ≡ booted.0.is_leader
flag_follows_example = flag_follows one_lease 5 9 10000 none booted (
    Steps.then _ _ _ (Steps.rest (constructed 5 9 10000, none))
      (Step.bootstrap in_cluster 1000 (2000, λ s. s) (3000, λ s. s) (constructed 5 9 10000, none)))

valid_lease_kept_example :
    try_to_become_leader one_lease 2000 ninth (some (lease_of 8)) ≡ (ninth, some (lease_of 8))
unfolding is_lease_expired
valid_lease_kept_example =
    valid_lease_kept one_lease one_lease_laws 2000 8 ninth (some (lease_of 8)) (lease_of 8) refl
      refl (λ e. absurd (omega arith)) refl

elected_holds_example :
    (lease : Lease) × (one_lease.stored 5 taken.1 ≡ some lease) × (lease.holder_identity ≡ some 9)
unfolding try_to_become_leader names
elected_holds_example =
    elected_holds one_lease one_lease_laws 30000 ninth taken.0 (some (lease_of 8)) taken.1 refl refl
      refl
