-- ===== src/Auth/Refreshed.antt =====
-- What a refresh leaves of the session that it is asked for.
use cifarm_server_alternativ.Prelude.{
  ℕ, ◌≡◌, ◌≢◌, ◌≤◌, Bool, some, ◌∙◌, arith, inl, inr, Option-cases,
}
use cifarm_server_alternativ.Result.{ok}
use cifarm_server_alternativ.Auth.{Tokens, Credentials, refresh}
use cifarm_server_alternativ.Auth.Store.{Platform, AuthStore, AuthStoreLaws, Session}
use cifarm_server_alternativ.Auth.Login.{open_session-saved}

module _ (store : AuthStore) (verify_message : Platform → (message signature public_key : ℕ) → Bool)
    (generate_auth_credentials : ℕ → Credentials) (now refresh_token : ℕ) where
  -- A session is found and not expired, and a session of its user is new.
  pub record IsRefreshed (s s' : store.State) (tokens : Tokens) : Type 0 where
    pub old : Session
    pub new : Session
    pub found : store.find_session refresh_token s ≡ some old
    pub in_time : now ≤ old.expired_at
    pub opened : store.find_session tokens.refresh_token s' ≡ some new
    pub same_user : new.user_id ≡ old.user_id
    pub kept : refresh_token ≢ tokens.refresh_token → store.find_session refresh_token s' ≡ some old

  -- On rows that meet the laws, a call of `refresh` that returns tokens has found a session with
  -- the old token that has not expired, and the new refresh token is that of a session of the same
  -- user. Where the two tokens differ, the old session is still there.
  pub refresh-IsRefreshed :
      AuthStoreLaws store
      → (s s' : store.State) (tokens : Tokens)
      → refresh store verify_message generate_auth_credentials now refresh_token s ≡ (ok tokens, s')
      → IsRefreshed s s' tokens
  unfolding refresh
  refresh-IsRefreshed laws s s' tokens h =
      elim (Option-cases (store.find_session refresh_token s)) [
        | inl missing ↦ absurd (ground arith)
        | inr (old, found) ↦
            let (new, saved, user, token, opened) =
              open_session-saved store verify_message generate_auth_credentials laws old.user_id s
                s' tokens (ground arith) in
            record {
              old = old;
              new = new;
              found = found;
              in_time = ground arith;
              opened = opened;
              same_user = user;
              kept = λ other.
                  laws.saved_other new s s' refresh_token saved (λ e. other (e ∙ token)) ∙ found;
            }
      ]
