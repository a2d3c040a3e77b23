-- ===== src/Page/Signing.antt =====
-- lib/webauthn.ts and app/smart-accounts/page.tsx: what a passkey signs, and its signature.
use latch_playground.Common.{ℕ, Option, none, some, List, [], ◌∷◌, String}
use latch_playground.Common.Result.{Result, ok, err}
use latch_playground.Text.{Text, lit}
use latch_playground.Bytes.Base64.{to_base64_url, from_base64_url}
use latch_playground.Der.{der_to_compact}
use latch_playground.Effects.{◌>>=◌, give, attempt}
use latch_playground.Chain.{Sdk, scv_map, scv_symbol, scv_bytes, entry, no_entries, AuthEntry}
use latch_playground.Entries.{hash_payload, digest_of, set_expiration}
use latch_playground.BuildDelegated.{address_credentials}
use latch_playground.Build.{Built}
use latch_playground.Page.{sign_challenge, Browser, Task, ask}

-- `PasskeySignature`
pub record PasskeySignature : Type 0 where
  pub authenticator_data : List ℕ
  pub client_data_json : List ℕ
  pub signature : List ℕ

-- A DER signature that is cut off makes the source fail.
abbrev pub compact : Option (List ℕ) → Result String (List ℕ)
compact none = err "Invalid DER signature"
compact (some bytes) = ok bytes

-- `computeAuthDigest`
unfoldable pub compute_auth_digest :
    Sdk → AuthEntry → (passphrase : Text) → (context_rule_ids : List ℕ) → Task (List ℕ)
compute_auth_digest sdk e passphrase ids = do
  payload ← attempt (hash_payload sdk e passphrase)
  give (digest_of sdk payload ids)

-- `encodeWebAuthnSigData`
abbrev pub encode_webauthn_sig_data : Sdk → PasskeySignature → List ℕ
encode_webauthn_sig_data sdk s = sdk.xdr_of (
    scv_map (
      entry (scv_symbol (lit "authenticator_data")) (scv_bytes s.authenticator_data) (
        entry (scv_symbol (lit "client_data")) (scv_bytes s.client_data_json)
          (entry (scv_symbol (lit "signature")) (scv_bytes s.signature) no_entries))))

module _ (hostname : Text) (b : Browser) where
  -- `signWithPasskey`
  unfoldable pub sign_with_passkey :
      (credential_id : Text) → (digest : List ℕ) → Task PasskeySignature
  sign_with_passkey credential_id digest = do
    let challenge = to_base64_url digest
    r ←
        ask (λ log. b.sign_challenge log credential_id challenge hostname)
          (sign_challenge credential_id challenge hostname)
    signature ← attempt (compact (der_to_compact (from_base64_url r.signature)))
    give (record {
      authenticator_data = from_base64_url r.authenticator_data;
      client_data_json = from_base64_url r.client_data_json;
      signature = signature;
    })

-- What the passkey signs for a built transaction: the digest of the answer's entry, until the
-- answer's ledger, for the rule 0.
unfoldable pub passkey_digest : Sdk → Built → Task (List ℕ)
passkey_digest sdk built = do
  e ← attempt (sdk.parse_auth_entry built.auth_entry_xdr)
  attempt (address_credentials e.credentials) >>= λ c.
      compute_auth_digest sdk (set_expiration built.valid_until_ledger e) sdk.testnet_passphrase
        (0 ∷ [])
