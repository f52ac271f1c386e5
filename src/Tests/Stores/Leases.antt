-- ===== src/Tests/Stores/Leases.antt =====
-- A lease API that holds one lease, whatever its name, and accepts every write.
use cifarm_server_alternativ.Prelude.{ℕ, ◌≡◌, Option, none, some, arith}
use cifarm_server_alternativ.Leader.Api.{Lease, ApiAnswer, body, failed, LeaseApi, LeaseApiLaws}

abbrev pub answer : Option Lease → ApiAnswer
answer none = failed 404
answer (some lease) = body lease

abbrev pub one_lease : LeaseApi
one_lease = record {
  Server = Option Lease;
  read_namespaced_lease = λ name s. answer s;
  create_namespaced_lease = λ lease s. (body lease, some lease);
  replace_namespaced_lease = λ name lease s. (body lease, some lease);
  stored = λ name s. s;
}

answered : (s : Option Lease) (lease : Lease) → answer s ≡ body lease → s ≡ some lease
answered none lease h = absurd (ground arith)
answered (some held) lease h = ground arith

pub one_lease_laws : LeaseApiLaws one_lease
one_lease_laws = record {
  read_stored = λ name s lease h. answered s lease h;
  stored_read = λ name s lease h. ground arith;
  created = λ lease reply s s' h. (ground arith, ground arith);
  replaced = λ name lease reply s s' h. (ground arith, ground arith);
  refused = λ name lease code s s' h. absurd (ground arith);
}

-- A lease that was renewed at 1000 and lasts 20 seconds.
abbrev pub lease_of : ℕ → Lease
lease_of holder = record {
  name = 5;
  holder_identity = some holder;
  lease_duration_seconds = some 20;
  acquire_time = some 1000;
  renew_time = some 1000;
  resource_version = none;
}
