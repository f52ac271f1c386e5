-- ===== src/Result.antt =====
-- The outcome of a call: a value, or the exception that it throws (src/exceptions, and the gRPC
-- exceptions of nestjs-grpc-exceptions and src/common).
use cifarm_server_alternativ.Prelude.{
  ℕ, ◌≡◌, refl, String, Bool, true, false, if◌then◌else◌, Option, none, some, ◌⊎◌, inl, inr, ℤ,
}

pub data Exception : Type 0 where
  grpc_not_found : String → Exception
  grpc_failed_precondition : String → Exception
  grpc_permission_denied : String → Exception
  grpc_internal : String → Exception
  -- what is thrown after the rollback: `GrpcInternalException("Transaction failed, reason: …")`, but
  -- `GrpcNotFoundException` in place-tile.service.ts, which is the same constructor here
  transaction_failed : Exception → Exception
  grpc_unauthenticated : String → Exception
  grpc_cache_not_found : ℕ → Exception
  chain_key_not_found : Exception
  -- `new Error("Account address is required")`
  account_address_required : Exception
  -- the guard of a route refuses the request
  unauthorized : Exception
  -- the database refuses a statement or the commit
  database_error : Exception
  -- a property of `null` or `undefined` is read
  type_error : Exception
  -- no exception: a loop of the source that does not end
  endless_loop : Exception
  energy_exceeds_maximum : ℤ → ℤ → Exception
  energy_not_enough : ℤ → ℤ → Exception
  experience_cannot_be_zero_or_negative : ℤ → Exception
  gold_cannot_be_zero_or_negative : ℤ → Exception
  user_insufficient_gold : ℤ → ℤ → Exception
  token_cannot_be_zero_or_negative : ℤ → Exception
  user_insufficient_token : ℤ → ℤ → Exception
  inventory_quantity_not_sufficient : Option ℕ → ℤ → Exception

pub data Result {ℓ} (A : Type ℓ) : Type ℓ where
  err : (thrown : Exception) → Result A
  ok : (value : A) → Result A

-- `if (test) throw e`
abbrev pub throw_if : Bool → Exception → Result (Unit {0})
throw_if test e = if test then err e else ok tt

-- A call that throws ends the sequence that it stands in.
infixl 5 ◌>>=◌
abbrev pub ◌>>=◌ {ℓ κ} :
    {A : Type ℓ} {B : Type κ} (call : Result A) (rest : A → Result B) → Result B
err thrown >>= rest = err thrown
ok value >>= rest = rest value

-- A statement before the rest of a sequence.
infixl 5 ◌>>◌
abbrev pub ◌>>◌ {ℓ} : {B : Type ℓ} (statement : Result (Unit {0})) (rest : Result B) → Result B
err thrown >> rest = err thrown
ok value >> rest = rest

-- `if (!value) throw e`, and from there on the value
abbrev pub or_throw {ℓ} : {A : Type ℓ} → Option A → Exception → Result A
or_throw none e = err e
or_throw (some a) e = ok a

-- What the code reads through `value.field`: a `TypeError` where the value is missing.
abbrev pub deref {ℓ} : {A : Type ℓ} → Option A → Result A
deref none = err type_error
deref (some a) = ok a

abbrev pub is_some {ℓ} : {A : Type ℓ} → Option A → Bool
is_some none = false
is_some (some a) = true

pub Result-cases {ℓ} :
    {A : Type ℓ} (r : Result A) → ((e : Exception) × (r ≡ err e)) ⊎ ((a : A) × (r ≡ ok a))
Result-cases (ok a) = inr (a, refl)
Result-cases (err e) = inl (e, refl)
