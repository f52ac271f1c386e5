-- ===== src/Tests/Login.antt =====
-- A login, and a refresh.
use cifarm_server_alternativ.Prelude.{ℕ, Bool, ◌+◌, [], arith, refl, ◌≡◌, false, some, ◌∷◌}
use cifarm_server_alternativ.Result.{ok}
use cifarm_server_alternativ.Auth.{
  VerifySignatureRequest, Tokens, Credentials, verify_signature, refresh, chain_key_to_platform,
}
use cifarm_server_alternativ.Auth.Store.{ChainKey, Platform, Session}
use cifarm_server_alternativ.Auth.Login.{IsLogin, verify_signature-IsLogin}
use cifarm_server_alternativ.Auth.Takeover.{login_as_anyone}
use cifarm_server_alternativ.Auth.Refreshed.{IsRefreshed, refresh-IsRefreshed}
use cifarm_server_alternativ.Auth.Signature.{KeyPair}
use cifarm_server_alternativ.Gateway.Session.{AuthCall, AuthResponse, serve_auth, session_flow}
use cifarm_server_alternativ.Tests.Stores.Accounts.{
  Rows, accounts, accounts_laws, sums, credentials, known,
}

-- The owner of the key 4 signs the message 3 and names the address 70.
abbrev signed : VerifySignatureRequest
signed = record {
  message = 3;
  public_key = 4;
  signature = 7;
  chain_key = some ChainKey.near;
  mainnet = false;
  account_address = some 70;
}

abbrev tokens : Tokens
tokens = record { access_token = 7; refresh_token = 107 }

abbrev logged_in : Rows
logged_in = (verify_signature accounts sums credentials signed known).1

abbrev refreshed : Rows
refreshed = (refresh accounts sums credentials 10 1 known).1

verify_signature-IsLogin_example : IsLogin accounts sums credentials signed known logged_in tokens
unfolding verify_signature
verify_signature-IsLogin_example =
    verify_signature-IsLogin accounts sums credentials accounts_laws signed known logged_in tokens
      refl

login_as_anyone_example :
    (again : Tokens) × (s : Rows) × (session : Session) × (verify_signature accounts sums
        credentials signed known
      ≡ (ok again, s))
    × (accounts.find_session again.refresh_token s ≡ some session)
    × (session.user_id ≡ 7)
unfolding chain_key_to_platform
login_as_anyone_example =
    login_as_anyone accounts sums credentials accounts_laws
      (λ session s. (record s { sessions = session ∷ s.sessions }, refl)) signed Platform.near 70 7
      known refl refl refl refl refl refl

refresh-IsRefreshed_example : IsRefreshed accounts sums credentials 10 1 known refreshed tokens
unfolding refresh
refresh-IsRefreshed_example =
    refresh-IsRefreshed accounts sums credentials 10 1 accounts_laws known refreshed tokens refl

abbrev made_up : Platform → ℕ → KeyPair
made_up platform n = record { public_key = n; private_key = n }

abbrev sum_signature : Platform → ℕ → ℕ → ℕ → ℕ
sum_signature platform message private_key public_key = message + public_key

abbrev same_key : ℕ → ℕ
same_key key = key

abbrev no_account : Bool → ℕ
no_account mainnet = 0

-- The request for the message 5, which the owner of the key 4 signs; the session is used at 20.
abbrev answer : VerifySignatureRequest
answer = record signed { message = 5; signature = 9 }

-- The draw of the second call.
abbrev credentials_of_refresh : ℕ → Credentials
credentials_of_refresh user_id = record {
  access_token = user_id;
  refresh_token = 200 + user_id;
  expired_at = 60;
}

session_flow_example :
    (first second : Tokens) × (s1 s2 s3 : Rows) × (serve_auth accounts sums credentials made_up
        sum_signature same_key no_account 10 5 AuthCall.request_message known
      ≡ (ok (AuthResponse.message 5), s1))
    × (serve_auth accounts sums credentials made_up sum_signature same_key no_account 10 6
          (AuthCall.verify_signature answer)
          s1
        ≡ (ok (AuthResponse.tokens first), s2))
    × (serve_auth accounts sums credentials_of_refresh made_up sum_signature same_key no_account 20
          6
          (AuthCall.refresh first.refresh_token)
          s2
        ≡ (ok (AuthResponse.tokens second), s3))
    × ((session : Session) × (accounts.find_session second.refresh_token s3 ≡ some session)
        × (session.user_id ≡ 7))
unfolding chain_key_to_platform cifarm_server_alternativ.Auth.account_address_of
    cifarm_server_alternativ.Auth.user_of
session_flow_example =
    session_flow accounts sums made_up sum_signature same_key no_account credentials
      credentials_of_refresh accounts_laws
      (λ session s free. (record s { sessions = session ∷ s.sessions }, refl)) 10 20 5 6 70 7
      Platform.near answer known (record known { cache = 5 ∷ 3 ∷ [] }) refl refl refl refl refl refl
      refl (λ e. absurd (omega arith)) (omega arith)
