-- ===== src/Leader/Holder.antt =====
-- What an attempt does to the lease and to the instance.
use cifarm_server_alternativ.Prelude.{
  ℕ, ◌≡◌, ◌≢◌, ◌⊎◌, refl, true, false, Option, none, some, ==_refl, ==→eq, Bool-cases, inl, inr,
  arith, ap, sym, ◌||◌,
}
use mathlib.Core.Path.{subst}
use cifarm_server_alternativ.Leader.{
  LeaderElectionService, names, falsy, released, is_lease_expired, is_lease_held_by_us, get_lease,
  create_lease, own_lease, acquire_lease, acquired, become_leader, try_to_become_leader,
  release_lease, graceful_shutdown,
}
use cifarm_server_alternativ.Leader.Api.{Lease, LeaseApi, LeaseApiLaws, ApiAnswer, body, failed}

names→ : (holder : Option ℕ) (identity : ℕ) → names holder identity ≡ true → holder ≡ some identity
unfolding names
names→ none identity h = absurd (ground arith)
names→ (some holder) identity h = ground (arith, ==→eq holder identity)

names_self : (identity : ℕ) → names (some identity) identity ≡ true
unfolding names
names_self identity = ==_refl identity

Answer-cases :
    (answer : ApiAnswer)
    → ((lease : Lease) × (answer ≡ body lease)) ⊎ ((code : ℕ) × (answer ≡ failed code))
Answer-cases (body lease) = inl (lease, refl)
Answer-cases (failed code) = inr (code, refl)

module _ (api : LeaseApi) (laws : LeaseApiLaws api) where
  get_lease-stored :
      (now : ℕ) (s : LeaderElectionService) (server : api.Server) (lease : Lease)
      → api.stored s.lease_name server ≡ some lease
      → get_lease api now s server ≡ (body lease, server)
  unfolding get_lease create_lease
  get_lease-stored now s server lease held =
      ground (arith, laws.stored_read s.lease_name server lease held)

  -- With a lease API that meets the laws, an attempt while another instance holds a lease that has
  -- not expired changes neither the instance nor the lease.
  pub valid_lease_kept :
      (now holder : ℕ) (s : LeaderElectionService) (server : api.Server) (lease : Lease)
      → api.stored s.lease_name server ≡ some lease
      → lease.holder_identity ≡ some holder
      → holder ≢ s.holder_identity
      → is_lease_expired now s lease ≡ false
      → try_to_become_leader api now s server ≡ (s, server)
  unfolding try_to_become_leader is_lease_held_by_us names
  valid_lease_kept now holder s server lease held by other valid =
      ground (arith, get_lease-stored now s server lease held)

  get_lease-answer :
      (now : ℕ) (s : LeaderElectionService) (server server' : api.Server) (lease : Lease)
      → get_lease api now s server ≡ (body lease, server')
      → api.stored s.lease_name server' ≡ some lease
  unfolding get_lease create_lease
  get_lease-answer now s server server' lease h =
      elim (Answer-cases (api.read_namespaced_lease s.lease_name server)) [
        | inl (found, read) ↦ ground (arith, laws.read_stored s.lease_name server found read)
        | inr (code, missing) ↦
            ground (arith, laws.created (own_lease api now s) lease server server')
      ]

  -- With a lease API that meets the laws, an instance that becomes the leader in an attempt is the
  -- holder of the stored lease at that moment.
  pub elected_holds :
      (now : ℕ) (s s' : LeaderElectionService) (server server' : api.Server)
      → try_to_become_leader api now s server ≡ (s', server')
      → s.is_leader ≡ false
      → s'.is_leader ≡ true
      → (lease : Lease) × (api.stored s.lease_name server' ≡ some lease)
        × (lease.holder_identity ≡ some s.holder_identity)
  unfolding try_to_become_leader acquire_lease is_lease_held_by_us
  elected_holds now s s' server server' h before after =
      elim (Answer-cases (get_lease api now s server).0) [
        | inr (code, threw) ↦ absurd (ground arith)
        | inl (lease, got) ↦
            let read = (get_lease api now s server).1 in
            let held =
              get_lease-answer now s server read lease (ap (λ answer. (answer, read)) got) in
            elim (Bool-cases (is_lease_expired now s lease || falsy lease.holder_identity)) [
              | inl free ↦ elim (Answer-cases (acquire_lease api now s lease read).0) [
                | inr (code, refused) ↦ absurd (ground arith)
                | inl (taken, written) ↦
                    let (same, now_held) =
                      laws.replaced s.lease_name (acquired api now s lease) taken read
                        (acquire_lease api now s lease read).1
                        (ap (λ answer. (answer, (acquire_lease api now s lease read).1)) written) in
                    (taken, ground arith, same)
              ]
              | inr valid ↦ elim (Bool-cases (is_lease_held_by_us s lease)) [
                | inl ours ↦
                    (lease, ground arith, names→ lease.holder_identity s.holder_identity ours)
                | inr foreign ↦ absurd (ground arith)
              ]
            ]
      ]

  -- Where the leader, whose lease is stored, shuts down and another instance of the same lease name
  -- attempts to become the leader next, and the API accepts both writes, the other instance becomes
  -- the leader.
  pub handover :
      (now later : ℕ) (s t : LeaderElectionService) (server free taken : api.Server)
      (lease freed own : Lease)
      → api.stored s.lease_name server ≡ some lease
      → lease.holder_identity ≡ some s.holder_identity
      → s.is_leader ≡ true
      → t.lease_name ≡ s.lease_name
      → api.replace_namespaced_lease s.lease_name (released api lease) server ≡ (body freed, free)
      → api.replace_namespaced_lease t.lease_name (acquired api later t freed) free
        ≡ (body own, taken)
      → (graceful_shutdown api now s server ≡ free)
        × (try_to_become_leader api later t free ≡ (become_leader t, taken))
  unfolding graceful_shutdown release_lease try_to_become_leader acquire_lease is_lease_held_by_us
  handover now later s t server free taken lease freed own held ours leads same gone taking =
      let got = get_lease-stored now s server lease held in
      let (none_left, kept) =
        laws.replaced s.lease_name (released api lease) freed server free gone in
      let at : api.stored t.lease_name free ≡ some freed =
        subst (λ name. api.stored name free ≡ some freed) (sym same) kept in
      let again = get_lease-stored later t free freed at in
      let (own_holder, own_kept) =
        laws.replaced t.lease_name (acquired api later t freed) own free taken taking in
      (ground (arith, names_self s.holder_identity), ground (arith, names_self t.holder_identity))
