-- ===== src/Tests/Stores/Accounts.antt =====
-- Messages, accounts by their addresses, and sessions.
use cifarm_server_alternativ.Prelude.{
  ℕ, ◌≡◌, ◌≢◌, refl, Bool, false, ◌||◌, ◌+◌, Option, none, some, List, [], ◌∷◌, pos, ◌==◌, ==_refl,
  ==→eq, if◌then◌else◌, Bool-cases, inl, inr, arith,
}
use cifarm_server_alternativ.Result.{ok}
use cifarm_server_alternativ.Auth.{Credentials}
use cifarm_server_alternativ.Auth.Store.{Session, AuthStore, AuthStoreLaws, Platform}

pub record Rows : Type 0 where
  pub cache : List ℕ
  pub accounts : List (ℕ × ℕ)
  pub sessions : List Session

abbrev pub has : ℕ → List ℕ → Bool
has m [] = false
has m (n ∷ rest) = m == n || has m rest

abbrev pub account_at : ℕ → List (ℕ × ℕ) → Option ℕ
account_at address [] = none
account_at address ((a, user_id) ∷ rest) =
    if address == a then some user_id else account_at address rest

abbrev pub session_at : ℕ → List Session → Option Session
session_at token [] = none
session_at token (session ∷ rest) =
    if token == session.refresh_token then some session else session_at token rest

abbrev pub accounts : AuthStore
accounts = record {
  State = Rows;
  cache_get = λ message s. has message s.cache;
  cache_set = λ message s. record s { cache = message ∷ s.cache };
  find_account = λ account s. account_at account.address s.accounts;
  find_starter =
      λ s. some (record { golds = pos 1000; home = record { x = pos 4; y = pos 0 }; tiles = [] });
  create_user = λ new s. ok (9, record s { accounts = (new.account.address, 9) ∷ s.accounts });
  find_session = λ token s. session_at token s.sessions;
  save_session = λ session s. ok (record s { sessions = session ∷ s.sessions });
}

session_first :
    (session : Session) (rest : List Session)
    → session_at session.refresh_token (session ∷ rest) ≡ some session
session_first session rest = rw (==_refl session.refresh_token) refl

session_later :
    (session : Session) (rest : List Session) (token : ℕ)
    → token ≢ session.refresh_token
    → session_at token (session ∷ rest) ≡ session_at token rest
session_later session rest token other = elim (Bool-cases (token == session.refresh_token)) [
  | inl same ↦ absurd (other (==→eq token session.refresh_token same))
  | inr new ↦ ground arith
]

pub accounts_laws : AuthStoreLaws accounts
accounts_laws = record {
  set_get = λ message s. ground (arith, ==_refl message);
  saved = λ session s s' h. ground (arith, session_first session s.sessions);
  saved_other =
      λ session s s' token h other. ground (arith, session_later session s.sessions token other);
  saved_account = λ session s s' account h. ground arith;
  saved_cache = λ session s s' message h. ground arith;
  created = λ new s s' user_id h. ground (arith, ==_refl new.account.address);
  created_cache = λ new s s' user_id message h. ground arith;
}

-- A signature is good if it is the sum of the message and the public key.
abbrev pub sums : Platform → ℕ → ℕ → ℕ → Bool
sums platform message signature public_key = signature == message + public_key

abbrev pub credentials : ℕ → Credentials
credentials user_id = record {
  access_token = user_id;
  refresh_token = 100 + user_id;
  expired_at = 50;
}

-- The message 3 was sent out, the address 70 is that of user 7, who has a session.
abbrev pub known : Rows
known = record {
  cache = 3 ∷ [];
  accounts = (70, 7) ∷ [];
  sessions = record { refresh_token = 1; expired_at = 50; user_id = 7 } ∷ [];
}
