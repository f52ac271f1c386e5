-- ===== src/Leader/Api.antt =====
-- The lease API of the cluster (`CoordinationV1Api` of @kubernetes/client-node), and what the code
-- relies on of it: a read answers with the stored lease, a write that is accepted stores its lease,
-- and a write that is refused changes nothing.
use cifarm_server_alternativ.Prelude.{ℕ, ◌≡◌, Option, some}

-- `V1Lease`: its name and its `spec`.
pub record Lease : Type 0 where
  pub name : ℕ
  pub holder_identity : Option ℕ
  pub lease_duration_seconds : Option ℕ
  pub acquire_time : Option ℕ
  pub renew_time : Option ℕ
  pub resource_version : Option ℕ

-- The body of an answer, or the status code of the error.
pub data ApiAnswer : Type 0 where
  body : Lease → ApiAnswer
  failed : ℕ → ApiAnswer

pub record LeaseApi : Type 1 where
  pub Server : Type 0
  pub read_namespaced_lease : ℕ → Server → ApiAnswer
  pub create_namespaced_lease : Lease → Server → ApiAnswer × Server
  pub replace_namespaced_lease : ℕ → Lease → Server → ApiAnswer × Server
  -- not called by the code: which leases there are
  pub stored : ℕ → Server → Option Lease

pub record LeaseApiLaws (api : LeaseApi) : Type 0 where
  pub read_stored :
      (name : ℕ) (s : api.Server) (lease : Lease)
      → api.read_namespaced_lease name s ≡ body lease
      → api.stored name s ≡ some lease
  pub stored_read :
      (name : ℕ) (s : api.Server) (lease : Lease)
      → api.stored name s ≡ some lease
      → api.read_namespaced_lease name s ≡ body lease
  pub created :
      (lease answer : Lease) (s s' : api.Server)
      → api.create_namespaced_lease lease s ≡ (body answer, s')
      → (answer.holder_identity ≡ lease.holder_identity) × (api.stored lease.name s' ≡ some answer)
  pub replaced :
      (name : ℕ) (lease answer : Lease) (s s' : api.Server)
      → api.replace_namespaced_lease name lease s ≡ (body answer, s')
      → (answer.holder_identity ≡ lease.holder_identity) × (api.stored name s' ≡ some answer)
  pub refused :
      (name : ℕ) (lease : Lease) (code : ℕ) (s s' : api.Server)
      → api.replace_namespaced_lease name lease s ≡ (failed code, s')
      → s' ≡ s
