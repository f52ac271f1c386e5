-- ===== src/Auth/Takeover.antt =====
-- Whose account a login is for.
use cifarm_server_alternativ.Prelude.{ℕ, ◌≡◌, Bool, true, false, some, ap, ◌∙◌, sym, arith}
use cifarm_server_alternativ.Result.{ok}
use cifarm_server_alternativ.Auth.{
  VerifySignatureRequest, Tokens, Credentials, verify_signature, verified_account, user_of,
  open_session, chain_key_or_default, chain_key_to_platform, account_address_of,
}
use cifarm_server_alternativ.Auth.Store.{Platform, Account, AuthStore, AuthStoreLaws, Session}
use cifarm_server_alternativ.Auth.Login.{verify_signature-IsLogin, open_session-saved}

-- The platforms whose requests name the address.
abbrev pub names_address : Platform → Bool
names_address Platform.aptos = true
names_address Platform.polkadot = true
names_address Platform.near = true
names_address _ = false

address_given :
    (platform : Platform) (request : VerifySignatureRequest) (address : ℕ)
    → names_address platform ≡ true
    → request.account_address ≡ some address
    → account_address_of platform request ≡ ok address
unfolding account_address_of
address_given platform request address named given = ground arith

module _ (store : AuthStore) (verify_message : Platform → (message signature public_key : ℕ) → Bool)
    (generate_auth_credentials : ℕ → Credentials) where
  abbrev Accepts : Type 0
  Accepts =
      (session : Session) (s : store.State)
      → (s' : store.State) × (store.save_session session s ≡ ok s')

  pub session_opened :
      Accepts
      → (user_id : ℕ) (s : store.State)
      → (tokens : Tokens) × (s' : store.State) × (open_session store verify_message
            generate_auth_credentials user_id s
          ≡ (ok tokens, s'))
  unfolding open_session
  session_opened accepts user_id s =
      let credentials = generate_auth_credentials user_id in
      let (s', saved) =
        accepts
          (record {
            refresh_token = credentials.refresh_token;
            expired_at = credentials.expired_at;
            user_id = user_id;
          })
          s in
      (
        record {
          access_token = credentials.access_token;
          refresh_token = credentials.refresh_token;
        },
        s',
        ground arith,
      )

  -- On rows that meet the laws and accept every session, with a message of the cache and a
  -- signature that is good for any public key, a request for Aptos, Polkadot or Near that names the
  -- address of another user returns tokens, and the refresh token is that of a session of that
  -- user.
  pub login_as_anyone :
      AuthStoreLaws store
      → ((session : Session) (s : store.State)
          → (s' : store.State) × (store.save_session session s ≡ ok s'))
      → (request : VerifySignatureRequest) (platform : Platform) (address victim : ℕ)
        (s : store.State)
      → store.cache_get request.message s ≡ true
      → chain_key_to_platform (chain_key_or_default request.chain_key) ≡ ok platform
      → names_address platform ≡ true
      → verify_message platform request.message request.signature request.public_key ≡ true
      → request.account_address ≡ some address
      → store.find_account
          (record {
            address = address;
            chain_key = chain_key_or_default request.chain_key;
            mainnet = request.mainnet;
          })
          s
        ≡ some victim
      → (tokens : Tokens) × (s' : store.State) × (session : Session) × (verify_signature store
            verify_message generate_auth_credentials request s
          ≡ (ok tokens, s'))
        × (store.find_session tokens.refresh_token s' ≡ some session)
        × (session.user_id ≡ victim)
  unfolding verify_signature verified_account user_of
  login_as_anyone laws accepts request platform address victim s cached on named signed given
        found =
      let (tokens, s', opened) = session_opened accepts victim s in
      let (session, saved, owner, token, there) =
        open_session-saved store verify_message generate_auth_credentials laws victim s s' tokens
          opened in
      let at = address_given platform request address named given in
      (tokens, s', session, ground (arith, cached, on, at, signed, found, opened), there, owner)

  -- On rows that meet the laws and accept every session, a request that has returned tokens returns
  -- tokens when it is sent again at once.
  pub signature_used_again :
      AuthStoreLaws store
      → ((session : Session) (s : store.State)
          → (s' : store.State) × (store.save_session session s ≡ ok s'))
      → (request : VerifySignatureRequest) (s s' : store.State) (tokens : Tokens)
      → verify_signature store verify_message generate_auth_credentials request s ≡ (ok tokens, s')
      → (again : Tokens) × (s'' : store.State) × (verify_signature store verify_message
            generate_auth_credentials request s'
          ≡ (ok again, s''))
  unfolding verify_signature verified_account user_of
  signature_used_again laws accepts request s s' tokens h =
      let login =
        verify_signature-IsLogin store verify_message generate_auth_credentials laws request s s'
          tokens h in
      let v = login.verified in
      let (again, s'', opened) = session_opened accepts login.user_id s' in
      let account : Account = record {
        address = login.account.address;
        chain_key = chain_key_or_default request.chain_key;
        mainnet = request.mainnet;
      } in
      let same : login.account ≡ account = ground (arith, v.same_chain, v.same_network) in
      let owner : store.find_account account s' ≡ some login.user_id =
        ap (λ a. store.find_account a s') (sym same) ∙ login.owner in
      (again, s'', ground (arith, login.still_cached, v.on, v.address, v.signed, owner, opened))
