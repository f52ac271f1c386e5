-- ===== src/Auth.antt =====
-- The services of apps/gameplay-service/src/auth, and `chainKeyToPlatform`
-- (src/blockchain/blockchain.config.ts). Texts are numbers. `verify_message` stands for the
-- `verifyMessage` methods of src/blockchain/auth, which call the libraries of the chains, and
-- `generate_auth_credentials` for `JwtService` (src/jwt), which signs tokens. The name of a new user
-- and the device of a session are left out.
pub mod Store
pub mod Login
pub mod Takeover
pub mod Signature
pub mod Refreshed
use cifarm_server_alternativ.Prelude.{
  ℕ, Bool, true, false, not, Option, none, some, List, [], ◌∷◌, map, ℤ, pos, ltb, if◌then◌else◌,
}
use cifarm_server_alternativ.Result.{
  Result, ok, err, ◌>>=◌, ◌>>◌, throw_if, deref, grpc_cache_not_found, grpc_internal,
  grpc_unauthenticated, chain_key_not_found, account_address_required, transaction_failed,
}
use cifarm_server_alternativ.Entities.{Starter, Position}
use cifarm_server_alternativ.Gameplay.Energy
use Store.{ChainKey, Platform, Account, Session, NewUser, NewItem, home, starter_tile, AuthStore}

unfoldable pub chain_key_to_platform : ChainKey → Result Platform
chain_key_to_platform ChainKey.avalanche = ok Platform.evm
chain_key_to_platform ChainKey.solana = ok Platform.solana
chain_key_to_platform ChainKey.aptos = ok Platform.aptos
chain_key_to_platform ChainKey.algorand = ok Platform.algorand
chain_key_to_platform ChainKey.polkadot = ok Platform.polkadot
chain_key_to_platform ChainKey.near = ok Platform.near
chain_key_to_platform ChainKey.sui = err chain_key_not_found
chain_key_to_platform ChainKey.bsc = err chain_key_not_found

pub record Credentials : Type 0 where
  pub access_token : ℕ
  pub refresh_token : ℕ
  pub expired_at : ℕ

-- The tokens that a service responds with.
pub record Tokens : Type 0 where
  pub access_token : ℕ
  pub refresh_token : ℕ

-- Any network but the main network is the test network, which is the default.
pub record VerifySignatureRequest : Type 0 where
  pub message : ℕ
  pub public_key : ℕ
  pub signature : ℕ
  pub chain_key : Option ChainKey
  pub mainnet : Bool
  pub account_address : Option ℕ

-- The first key of `blockchainConfig` is the default.
abbrev pub chain_key_or_default : Option ChainKey → ChainKey
chain_key_or_default none = ChainKey.avalanche
chain_key_or_default (some key) = key

-- What the `switch` assigns to `_accountAddress`.
unfoldable pub account_address_of : Platform → VerifySignatureRequest → Result ℕ
account_address_of Platform.evm request = ok request.public_key
account_address_of Platform.solana request = ok request.public_key
account_address_of Platform.algorand request = ok request.public_key
account_address_of Platform.aptos request = elim request.account_address [
  | none ↦ err account_address_required
  | some address ↦ ok address
]
account_address_of Platform.polkadot request = elim request.account_address [
  | none ↦ err account_address_required
  | some address ↦ ok address
]
account_address_of Platform.near request = elim request.account_address [
  | none ↦ err account_address_required
  | some address ↦ ok address
]

module _ (store : AuthStore) (verify_message : Platform → (message signature public_key : ℕ) → Bool)
    (generate_auth_credentials : ℕ → Credentials) where
  unfoldable pub request_message : (v4 : ℕ) → store.State → ℕ × store.State
  request_message v4 s = (v4, store.cache_set v4 s)

  -- The checks before the database is used: the account that is logged in to.
  unfoldable pub verified_account : VerifySignatureRequest → store.State → Result Account
  unfolding chain_key_to_platform account_address_of
  verified_account request s = do
    throw_if (not (store.cache_get request.message s)) (grpc_cache_not_found request.message)
    platform ← chain_key_to_platform (chain_key_or_default request.chain_key)
    address ← account_address_of platform request
    throw_if (not (verify_message platform request.message request.signature request.public_key))
        (grpc_internal "Signature is invalid")
    ok (record {
      address = address;
      chain_key = chain_key_or_default request.chain_key;
      mainnet = request.mainnet;
    })

  abbrev pub new_user : Account → Starter → NewUser
  new_user account starter = record {
    account = account;
    energy = Energy.get_max_energy (pos 1);
    golds = starter.golds;
    placed_items = home starter.home ∷ map starter_tile starter.tiles;
  }

  -- The user of the account, who is created with the starter where there is none.
  unfoldable pub user_of : Account → store.State → Result (ℕ × store.State)
  user_of account s = elim (store.find_account account s) [
    | some user_id ↦ ok (user_id, s)
    | none ↦
        elim (deref (store.find_starter s) >>= λ starter.
        store.create_user (new_user account starter) s) [
          | err e ↦ err (transaction_failed e)
          | ok created ↦ ok created
        ]
  ]

  -- Saves the session, and responds with its tokens.
  unfoldable pub open_session : ℕ → store.State → Result Tokens × store.State
  open_session user_id s =
      let credentials = generate_auth_credentials user_id in
      elim (store.save_session
        (record {
          refresh_token = credentials.refresh_token;
          expired_at = credentials.expired_at;
          user_id = user_id;
        })
        s) [
          | err e ↦ (err (transaction_failed e), s)
          | ok s' ↦ (
            ok (record {
              access_token = credentials.access_token;
              refresh_token = credentials.refresh_token;
            }),
            s',
          )
        ]

  unfoldable pub verify_signature :
      VerifySignatureRequest → store.State → Result Tokens × store.State
  unfolding verified_account user_of open_session
  verify_signature request s = elim (verified_account request s >>= λ account. user_of account s) [
    | err e ↦ (err e, s)
    | ok (user_id, s') ↦ open_session user_id s'
  ]

  -- `refresh` at the time `now`.
  unfoldable pub refresh : (now refresh_token : ℕ) → store.State → Result Tokens × store.State
  unfolding open_session
  refresh now refresh_token s = elim (store.find_session refresh_token s) [
    | none ↦ (err (grpc_unauthenticated "Session not found"), s)
    | some session ↦
        let opened = open_session session.user_id s in
        if ltb session.expired_at now
        then (err (grpc_unauthenticated "Refresh token is expired"), s)
        else opened
  ]
