-- ===== src/Auth/Login.antt =====
-- What a login has checked, and what it leaves.
use cifarm_server_alternativ.Prelude.{
  ℕ, ◌≡◌, refl, ap, ◌∙◌, Bool, true, some, none, ◌⊎◌, inl, inr, arith, Option-cases,
}
use mathlib.Core.Path.{subst}
use cifarm_server_alternativ.Result.{ok, Result-cases}
use cifarm_server_alternativ.Auth.{
  VerifySignatureRequest, Tokens, Credentials, verify_signature, verified_account, user_of,
  open_session, new_user, chain_key_or_default, chain_key_to_platform, account_address_of,
}
use cifarm_server_alternativ.Auth.Store.{Platform, Account, AuthStore, AuthStoreLaws, Session}

module _ (store : AuthStore) (verify_message : Platform → (message signature public_key : ℕ) → Bool)
    (generate_auth_credentials : ℕ → Credentials) where
  -- What the checks of a login have found.
  pub record IsVerified (request : VerifySignatureRequest) (s : store.State) (account : Account)
      : Type 0 where
    pub platform : Platform
    pub requested : store.cache_get request.message s ≡ true
    pub on : chain_key_to_platform (chain_key_or_default request.chain_key) ≡ ok platform
    pub signed : verify_message platform request.message request.signature request.public_key ≡ true
    pub address : account_address_of platform request ≡ ok account.address
    pub same_chain : account.chain_key ≡ chain_key_or_default request.chain_key
    pub same_network : account.mainnet ≡ request.mainnet

  verified_account-IsVerified :
      (request : VerifySignatureRequest) (s : store.State) (account : Account)
      → verified_account store verify_message generate_auth_credentials request s ≡ ok account
      → IsVerified request s account
  unfolding verified_account
  verified_account-IsVerified request s account h =
      elim (Result-cases (chain_key_to_platform (chain_key_or_default request.chain_key))) [
        | inl (e, threw) ↦ absurd (ground arith)
        | inr (platform, on) ↦ elim (Result-cases (account_address_of platform request)) [
          | inl (e, threw) ↦ absurd (ground arith)
          | inr (address, given) ↦ record {
            platform = platform;
            requested = ground arith;
            on = on;
            signed = ground arith;
            address = ground arith;
            same_chain = ground arith;
            same_network = ground arith;
          }
        ]
      ]

  -- The user of the account, found before the login or created in it.
  user_of-found :
      AuthStoreLaws store
      → (account : Account) (s s' : store.State) (user_id : ℕ)
      → user_of store verify_message generate_auth_credentials account s ≡ ok (user_id, s')
      → (store.find_account account s' ≡ some user_id)
        × ((message : ℕ) → store.cache_get message s' ≡ store.cache_get message s)
        × ((s' ≡ s) ⊎ (store.find_account account s ≡ none))
  unfolding user_of
  user_of-found laws account s s' user_id h = elim (Option-cases (store.find_account account s)) [
    | inr (found_id, found) ↦
        let same : s' ≡ s = ground arith in
        let same_id : found_id ≡ user_id = ground arith in
        (ground arith, λ message. ap (store.cache_get message) same, inl same)
    | inl missing ↦ elim (Option-cases (store.find_starter s)) [
      | inl no_starter ↦ absurd (ground arith)
      | inr (starter, starts) ↦
          let new = new_user store verify_message generate_auth_credentials account starter in
          let made : store.create_user new s ≡ ok (user_id, s') = ground arith in
          (
            laws.created new s s' user_id made,
            λ message. laws.created_cache new s s' user_id message made,
            inr missing,
          )
    ]
  ]

  pub open_session-saved :
      AuthStoreLaws store
      → (user_id : ℕ) (s s' : store.State) (tokens : Tokens)
      → open_session store verify_message generate_auth_credentials user_id s ≡ (ok tokens, s')
      → (session : Session) × (store.save_session session s ≡ ok s')
        × (session.user_id ≡ user_id)
        × (session.refresh_token ≡ tokens.refresh_token)
        × (store.find_session tokens.refresh_token s' ≡ some session)
  unfolding open_session
  open_session-saved laws user_id s s' tokens h =
      let credentials = generate_auth_credentials user_id in
      let session : Session = record {
        refresh_token = credentials.refresh_token;
        expired_at = credentials.expired_at;
        user_id = user_id;
      } in
      elim (Result-cases (store.save_session session s)) [
        | inl (e, threw) ↦ absurd (ground arith)
        | inr (s1, saved) ↦
            let done : store.save_session session s ≡ ok s' = ground arith in
            let token : session.refresh_token ≡ tokens.refresh_token = ground arith in
            (
              session,
              done,
              refl,
              token,
              subst (λ t. store.find_session t s' ≡ some session) token
                  (laws.saved session s s' done),
            )
      ]

  -- What a login leaves: the message and the signature were checked, the user of the account has a
  -- new session, and the message is still in the cache.
  pub record IsLogin (request : VerifySignatureRequest) (s s' : store.State) (tokens : Tokens)
      : Type 0 where
    pub account : Account
    pub user_id : ℕ
    pub session : Session
    pub verified : IsVerified request s account
    pub owner : store.find_account account s' ≡ some user_id
    pub opened : store.find_session tokens.refresh_token s' ≡ some session
    pub for_owner : session.user_id ≡ user_id
    pub still_cached : store.cache_get request.message s' ≡ true

  -- On rows that meet the laws, a call of `verify_signature` that returns tokens has found the
  -- message in the cache, and a signature that the platform of the chain accepts for the public
  -- key. The user of the account, who is new where there was none, has a session with the refresh
  -- token; and the message is still in the cache.
  pub verify_signature-IsLogin :
      AuthStoreLaws store
      → (request : VerifySignatureRequest) (s s' : store.State) (tokens : Tokens)
      → verify_signature store verify_message generate_auth_credentials request s ≡ (ok tokens, s')
      → IsLogin request s s' tokens
  unfolding verify_signature
  verify_signature-IsLogin laws request s s' tokens h =
      elim (Result-cases
        (verified_account store verify_message generate_auth_credentials request s)) [
          | inl (e, threw) ↦ absurd (ground arith)
          | inr (account, checked) ↦
              elim (Result-cases
                (user_of store verify_message generate_auth_credentials account s)) [
                  | inl (e, threw) ↦ absurd (ground arith)
                  | inr ((user_id, s1), found) ↦
                      let v = verified_account-IsVerified request s account checked in
                      let (owner, cached, made) = user_of-found laws account s s1 user_id found in
                      let (session, saved, for_owner, token, opened) =
                        open_session-saved laws user_id s1 s' tokens (ground arith) in
                      record {
                        account = account;
                        user_id = user_id;
                        session = session;
                        verified = v;
                        owner = laws.saved_account session s1 s' account saved ∙ owner;
                        opened = opened;
                        for_owner = for_owner;
                        still_cached =
                            laws.saved_cache session s1 s' request.message saved
                            ∙ (cached request.message ∙ v.requested);
                      }
                ]
        ]
