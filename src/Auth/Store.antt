-- ===== src/Auth/Store.antt =====
-- What the services of authentication read and write, and what is relied on of it: a session that is
-- saved is found by its token, and nothing else of the rows and the cache changes.
use cifarm_server_alternativ.Prelude.{ℕ, ◌≡◌, ◌≢◌, Bool, true, Option, some, List, ℤ}
use cifarm_server_alternativ.Result.{Result, ok}
use cifarm_server_alternativ.Entities.{Starter, Position}

-- `SupportedChainKey`
pub data ChainKey : Type 0 where
  sui aptos avalanche solana bsc algorand polkadot near : ChainKey

pub data Platform : Type 0 where
  evm solana aptos algorand polkadot near : Platform

pub record Account : Type 0 where
  pub address : ℕ
  pub chain_key : ChainKey
  pub mainnet : Bool

pub record Session : Type 0 where
  pub refresh_token : ℕ
  pub expired_at : ℕ
  pub user_id : ℕ

-- The placed items of a new user, by their types.
pub data NewItem : Type 0 where
  home starter_tile : Position → NewItem

pub record NewUser : Type 0 where
  pub account : Account
  pub energy : ℤ
  pub golds : ℤ
  pub placed_items : List NewItem

pub record AuthStore : Type 1 where
  pub State : Type 0
  -- the cache of messages; an entry lives for a minute
  pub cache_get : ℕ → State → Bool
  pub cache_set : ℕ → State → State
  pub find_account : Account → State → Option ℕ
  pub find_starter : State → Option Starter
  pub create_user : NewUser → State → Result (ℕ × State)
  pub find_session : ℕ → State → Option Session
  pub save_session : Session → State → Result State

pub record AuthStoreLaws (store : AuthStore) : Type 0 where
  pub set_get :
      (message : ℕ) (s : store.State) → store.cache_get message (store.cache_set message s) ≡ true
  pub saved :
      (session : Session) (s s' : store.State)
      → store.save_session session s ≡ ok s'
      → store.find_session session.refresh_token s' ≡ some session
  pub saved_other :
      (session : Session) (s s' : store.State) (token : ℕ)
      → store.save_session session s ≡ ok s'
      → token ≢ session.refresh_token
      → store.find_session token s' ≡ store.find_session token s
  pub saved_account :
      (session : Session) (s s' : store.State) (account : Account)
      → store.save_session session s ≡ ok s'
      → store.find_account account s' ≡ store.find_account account s
  pub saved_cache :
      (session : Session) (s s' : store.State) (message : ℕ)
      → store.save_session session s ≡ ok s'
      → store.cache_get message s' ≡ store.cache_get message s
  pub created :
      (new : NewUser) (s s' : store.State) (user_id : ℕ)
      → store.create_user new s ≡ ok (user_id, s')
      → store.find_account new.account s' ≡ some user_id
  pub created_cache :
      (new : NewUser) (s s' : store.State) (user_id message : ℕ)
      → store.create_user new s ≡ ok (user_id, s')
      → store.cache_get message s' ≡ store.cache_get message s
