-- ===== src/Gateway/Session.antt =====
-- The routes of authentication of `GameplayController`, which are not guarded and pass the request on
-- with the device, which is left out here; and the controllers of apps/gameplay-service/src/auth. The
-- request is the one that reaches the service: what gRPC makes of a field that is missing is left out.
use cifarm_server_alternativ.Prelude.{
  ℕ, ◌≤◌, ◌≡◌, ◌≢◌, ◌∙◌, refl, ap, Bool, true, false, Option, none, some, ltb, arith,
}
use cifarm_server_alternativ.Result.{Result, ok, err}
use cifarm_server_alternativ.Auth.{
  VerifySignatureRequest, Tokens, Credentials, chain_key_or_default, chain_key_to_platform,
  account_address_of, verified_account, user_of, open_session,
}
use cifarm_server_alternativ.Auth
use cifarm_server_alternativ.Auth.Signature
use cifarm_server_alternativ.Auth.Store.{ChainKey, Platform, AuthStore, AuthStoreLaws, Session}
use cifarm_server_alternativ.Auth.Signature.{KeyPair}

pub data AuthCall : Type 0 where
  request_message : AuthCall
  generate_signature : Option ℕ → Option ChainKey → Bool → AuthCall
  verify_signature : VerifySignatureRequest → AuthCall
  refresh : ℕ → AuthCall

pub data AuthResponse : Type 0 where
  message : ℕ → AuthResponse
  signature : VerifySignatureRequest → AuthResponse
  tokens : Tokens → AuthResponse

abbrev answered : {A : Type 0} → (A → AuthResponse) → Result A → Result AuthResponse
answered respond (err e) = err e
answered respond (ok a) = ok (respond a)

module _ (store : AuthStore) (verify_message : Platform → (message signature public_key : ℕ) → Bool)
    (generate_auth_credentials : ℕ → Credentials) (get_fake_key_pair : Platform → ℕ → KeyPair)
    (sign_message : Platform → (message private_key public_key : ℕ) → ℕ) (to_address : ℕ → ℕ)
    (near_account : Bool → ℕ) where
  -- At the time `now`; `v4` is the message that is made. The session and its token are drawn anew on
  -- each call of the program: `generate_auth_credentials` is the draw of this call.
  unfoldable pub serve_auth :
      (now v4 : ℕ) → AuthCall → store.State → Result AuthResponse × store.State
  serve_auth now v4 AuthCall.request_message s =
      let (text, s') = Auth.request_message store verify_message generate_auth_credentials v4 s in
      (ok (AuthResponse.message text), s')
  serve_auth now v4 (AuthCall.generate_signature account_number chain_key mainnet) s =
      let (response, s') =
        Signature.generate_signature store verify_message generate_auth_credentials
          get_fake_key_pair sign_message to_address near_account v4 account_number chain_key mainnet
          s in
      (answered AuthResponse.signature response, s')
  serve_auth now v4 (AuthCall.verify_signature request) s =
      let (response, s') =
        Auth.verify_signature store verify_message generate_auth_credentials request s in
      (answered AuthResponse.tokens response, s')
  serve_auth now v4 (AuthCall.refresh token) s =
      let (response, s') =
        Auth.refresh store verify_message generate_auth_credentials now token s in
      (answered AuthResponse.tokens response, s')

-- The refresh token of a new session is unique among the rows.
abbrev pub AcceptsNewSessions : AuthStore → Type 0
AcceptsNewSessions store =
    (session : Session) (s : store.State)
    → store.find_session session.refresh_token s ≡ none
    → (s' : store.State) × (store.save_session session s ≡ ok s')

module _ (store : AuthStore) (verify_message : Platform → (message signature public_key : ℕ) → Bool)
    (get_fake_key_pair : Platform → ℕ → KeyPair)
    (sign_message : Platform → (message private_key public_key : ℕ) → ℕ) (to_address : ℕ → ℕ)
    (near_account : Bool → ℕ) where
  -- On rows that meet the laws and accept every session whose refresh token is not taken, with the
  -- token that is drawn for the login and the other one that is drawn for the refresh both free, a
  -- message is handed out, a request that signs it and is answered for an account that is found or
  -- can be created returns tokens, and their refresh token returns tokens again until its session
  -- expires; the last refresh token is that of a session of the same user.
  pub session_flow :
      (draw_of_login draw_of_refresh : ℕ → Credentials)
      → AuthStoreLaws store
      → AcceptsNewSessions store
      → (now later v4 w4 address user_id : ℕ) (platform : Platform)
        (request : VerifySignatureRequest) (s t : store.State)
      → request.message ≡ v4
      → chain_key_to_platform (chain_key_or_default request.chain_key) ≡ ok platform
      → account_address_of platform request ≡ ok address
      → verify_message platform v4 request.signature request.public_key ≡ true
      → user_of store verify_message draw_of_login
          (record {
            address = address;
            chain_key = chain_key_or_default request.chain_key;
            mainnet = request.mainnet;
          })
          (store.cache_set v4 s)
        ≡ ok (user_id, t)
      → store.find_session (draw_of_login user_id).refresh_token t ≡ none
      → store.find_session (draw_of_refresh user_id).refresh_token t ≡ none
      → (draw_of_refresh user_id).refresh_token ≢ (draw_of_login user_id).refresh_token
      → later ≤ (draw_of_login user_id).expired_at
      → (first second : Tokens) × (s1 s2 s3 : store.State) × (serve_auth store verify_message
            draw_of_login get_fake_key_pair sign_message to_address near_account now v4
            AuthCall.request_message s
          ≡ (ok (AuthResponse.message v4), s1))
        × (serve_auth store verify_message draw_of_login get_fake_key_pair sign_message to_address
              near_account now w4
              (AuthCall.verify_signature request)
              s1
            ≡ (ok (AuthResponse.tokens first), s2))
        × (serve_auth store verify_message draw_of_refresh get_fake_key_pair sign_message to_address
              near_account later w4
              (AuthCall.refresh first.refresh_token)
              s2
            ≡ (ok (AuthResponse.tokens second), s3))
        × ((session : Session) × (store.find_session second.refresh_token s3 ≡ some session)
            × (session.user_id ≡ user_id))
  unfolding serve_auth Auth.request_message Auth.verify_signature verified_account Auth.refresh
      open_session
  session_flow draw_of_login draw_of_refresh laws accepts now later v4 w4 address user_id platform
        request s t named on at signed owner free still_free apart early =
      let credentials = draw_of_login user_id in
      let renewed = draw_of_refresh user_id in
      let session : Session = record {
        refresh_token = credentials.refresh_token;
        expired_at = credentials.expired_at;
        user_id = user_id;
      } in
      let next : Session = record {
        refresh_token = renewed.refresh_token;
        expired_at = renewed.expired_at;
        user_id = user_id;
      } in
      let (s2, saved) = accepts session t free in
      let (s3, again) =
        accepts next s2
          (laws.saved_other session t s2 renewed.refresh_token saved apart ∙ still_free) in
      let given : Tokens = record {
        access_token = credentials.access_token;
        refresh_token = credentials.refresh_token;
      } in
      let given_again : Tokens = record {
        access_token = renewed.access_token;
        refresh_token = renewed.refresh_token;
      } in
      let cached = laws.set_get v4 s in
      let found = laws.saved session t s2 saved in
      let fresh : ltb credentials.expired_at later ≡ false = ground arith in
      let verified : Auth.verify_signature store verify_message draw_of_login request
            (store.cache_set v4 s)
          ≡ (ok given, s2) =
        ground (arith, named, on, at, signed, cached, owner, saved) in
      let refreshed : Auth.refresh store verify_message draw_of_refresh later
            credentials.refresh_token s2
          ≡ (ok given_again, s3) =
        ground (arith, found, fresh, again) in
      (
        given,
        given_again,
        store.cache_set v4 s,
        s2,
        s3,
        refl,
        ap (λ r. (answered AuthResponse.tokens r.0, r.1)) verified,
        ap (λ r. (answered AuthResponse.tokens r.0, r.1)) refreshed,
        (next, laws.saved next s2 s3 again, refl),
      )
