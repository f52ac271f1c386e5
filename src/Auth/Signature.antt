-- ===== src/Auth/Signature.antt =====
-- `GenerateSignatureService` (apps/gameplay-service/src/auth/generate-signature), which signs for
-- one of the accounts that are made up for testing. `get_fake_key_pair` and `sign_message` stand for
-- those methods of src/blockchain/auth, `to_address` for that of Aptos, and `near_account` is the
-- account of the configuration.
use cifarm_server_alternativ.Prelude.{
  ℕ, ◌≡◌, Bool, true, refl, sym, ap, ◌∙◌, Option, none, some, arith, inl, inr,
}
use cifarm_server_alternativ.Result.{Result, ok, err, Result-cases}
use cifarm_server_alternativ.Auth.{
  VerifySignatureRequest, Tokens, Credentials, chain_key_or_default, chain_key_to_platform,
  account_address_of, request_message, verified_account, user_of, verify_signature,
}
use cifarm_server_alternativ.Auth.Store.{ChainKey, Platform, AuthStore, AuthStoreLaws, Session}
use cifarm_server_alternativ.Auth.Takeover.{session_opened}

-- The public key of Evm and Algorand is the address.
pub record KeyPair : Type 0 where
  pub public_key : ℕ
  pub private_key : ℕ

-- `accountNumber ?? 0`
abbrev pub account_number_or_default : Option ℕ → ℕ
account_number_or_default none = 0
account_number_or_default (some account_number) = account_number

module _ (store : AuthStore) (verify_message : Platform → (message signature public_key : ℕ) → Bool)
    (generate_auth_credentials : ℕ → Credentials) (get_fake_key_pair : Platform → ℕ → KeyPair)
    (sign_message : Platform → (message private_key public_key : ℕ) → ℕ) (to_address : ℕ → ℕ)
    (near_account : Bool → ℕ) where
  -- The address in the response.
  unfoldable pub signer_address : Platform → Bool → ℕ → ℕ
  signer_address Platform.aptos mainnet public_key = to_address public_key
  signer_address Platform.near mainnet public_key = near_account mainnet
  signer_address Platform.evm mainnet public_key = public_key
  signer_address Platform.solana mainnet public_key = public_key
  signer_address Platform.algorand mainnet public_key = public_key
  signer_address Platform.polkadot mainnet public_key = public_key

  unfoldable pub signed_by : Platform → ℕ → ChainKey → Bool → KeyPair → VerifySignatureRequest
  unfolding signer_address
  signed_by platform message chain_key mainnet keys = record {
    message = message;
    public_key = keys.public_key;
    signature = sign_message platform message keys.private_key keys.public_key;
    chain_key = some chain_key;
    mainnet = mainnet;
    account_address = some (signer_address platform mainnet keys.public_key);
  }

  -- The message is cached before anything can throw.
  unfoldable pub generate_signature :
      (v4 : ℕ) (account_number : Option ℕ)
      → Option ChainKey
      → (mainnet : Bool) → store.State
      → Result VerifySignatureRequest × store.State
  unfolding signed_by
  generate_signature v4 account_number chain_key mainnet s =
      let (message, s') = request_message store verify_message generate_auth_credentials v4 s in
      let key = chain_key_or_default chain_key in
      elim (chain_key_to_platform key) [
        | err e ↦ (err e, s')
        | ok platform ↦ (
          ok (
              signed_by platform message key mainnet
                (get_fake_key_pair platform (account_number_or_default account_number))),
          s',
        )
      ]

  account_address_of-signed_by :
      (platform : Platform) (message : ℕ) (chain_key : ChainKey) (mainnet : Bool) (keys : KeyPair)
      → account_address_of platform (signed_by platform message chain_key mainnet keys)
        ≡ ok (signer_address platform mainnet keys.public_key)
  unfolding account_address_of signed_by signer_address
  account_address_of-signed_by Platform.evm message chain_key mainnet keys = refl
  account_address_of-signed_by Platform.solana message chain_key mainnet keys = refl
  account_address_of-signed_by Platform.aptos message chain_key mainnet keys = refl
  account_address_of-signed_by Platform.algorand message chain_key mainnet keys = refl
  account_address_of-signed_by Platform.polkadot message chain_key mainnet keys = refl
  account_address_of-signed_by Platform.near message chain_key mainnet keys = refl

  verified_account-signed_by :
      AuthStoreLaws store
      → (platform : Platform) (message : ℕ) (chain_key : ChainKey) (mainnet : Bool) (keys : KeyPair)
        (s : store.State)
      → chain_key_to_platform chain_key ≡ ok platform
      → verify_message platform message
          (sign_message platform message keys.private_key keys.public_key)
          keys.public_key
        ≡ true
      → verified_account store verify_message generate_auth_credentials
          (signed_by platform message chain_key mainnet keys)
          (store.cache_set message s)
        ≡ ok (record {
          address = signer_address platform mainnet keys.public_key;
          chain_key = chain_key;
          mainnet = mainnet;
        })
  unfolding verified_account signed_by
  verified_account-signed_by laws platform message chain_key mainnet keys s on good =
      let at = account_address_of-signed_by platform message chain_key mainnet keys in
      let cached = laws.set_get message s in ground (arith, on, good, at, cached)

  -- On rows that meet the laws and accept every session, where the platforms verify what they sign
  -- with the keys of a made-up account, the response of `generate_signature` is a request that
  -- `verify_signature` answers with tokens, on the rows that the first call leaves, if the user of
  -- the address in it is found or can be created.
  pub generated_logs_in :
      AuthStoreLaws store
      → ((session : Session) (s : store.State)
          → (s' : store.State) × (store.save_session session s ≡ ok s'))
      → ((platform : Platform) (message account_number : ℕ)
          → (let keys = get_fake_key_pair platform account_number in
              verify_message platform message
                (sign_message platform message keys.private_key keys.public_key)
                keys.public_key
              ≡ true))
      → (v4 : ℕ) (account_number : Option ℕ) (chain_key : Option ChainKey) (mainnet : Bool)
        (s s' t : store.State) (request : VerifySignatureRequest) (address user_id : ℕ)
      → generate_signature v4 account_number chain_key mainnet s ≡ (ok request, s')
      → request.account_address ≡ some address
      → user_of store verify_message generate_auth_credentials
          (record {
            address = address;
            chain_key = chain_key_or_default chain_key;
            mainnet = mainnet;
          })
          s'
        ≡ ok (user_id, t)
      → (tokens : Tokens) × (t' : store.State) × (verify_signature store verify_message
            generate_auth_credentials request s'
          ≡ (ok tokens, t'))
  unfolding generate_signature request_message verify_signature
  generated_logs_in laws accepts verifies v4 account_number chain_key mainnet s s' t request address
        user_id h named owner =
      let (tokens, t', opened) =
        session_opened store verify_message generate_auth_credentials accepts user_id t in
      elim (Result-cases (chain_key_to_platform (chain_key_or_default chain_key))) [
        | inl (e, threw) ↦ absurd (ground arith)
        | inr (platform, on) ↦
            let good = verifies platform v4 (account_number_or_default account_number) in
            let keys = get_fake_key_pair platform (account_number_or_default account_number) in
            let key = chain_key_or_default chain_key in
            let made : request ≡ signed_by platform v4 key mainnet keys = ground (arith, on) in
            let cached : s' ≡ store.cache_set v4 s = ground (arith, on) in
            let same : some address ≡ some (signer_address platform mainnet keys.public_key) =
              sym named ∙ ap (λ r. r.account_address) made in
            let verified = verified_account-signed_by laws platform v4 key mainnet keys s on good in
            let same_address : address ≡ signer_address platform mainnet keys.public_key =
              ground (arith, same) in
            (tokens, t', ground (arith, made, cached, verified, same_address, owner, opened))
      ]
