-- ===== src/Submit/Phantom.antt =====
-- app/api/transaction/submit/route.ts: a message of the smart account that Phantom signed. The
-- diagnostics that the route adds to an error, and their console output, are left out.
use latch_playground.Common.{
  ℕ, ◌+◌, Bool, true, false, ◌&&◌, ◌||◌, leb, Option, some, List, [], ◌∷◌, String, ◌==◌, length,
  all, drop,
}
use latch_playground.Common.Result.{Result, ok, err}
use latch_playground.Text.{Text, lit, text_eq, starts_with, contains}
use latch_playground.Bytes.Hex.{to_hex, from_hex}
use latch_playground.Effects.{
  Response, Route, ◌>>=◌, ◌>>◌, give, throw, caught, catch_500, unless, attempt, or_fail,
}
use latch_playground.Chain.{Sdk, ChainConfig, given_text, passphrase_of, BaseTx, AuthEntry}
use latch_playground.Server.{Event, Services, fetched_account}
use latch_playground.Submit.{simulate, send, Submitted}
use latch_playground.Submit.Delegated.{with_entries}
use latch_playground.Requests.{JsonBody, json_body}
use latch_playground.Entries.{auth_payload, set_signature, digest_of, hash_payload}
use latch_playground.Funding.{fund_if_missing}
pub mod Hex
pub mod Matched

pub record PhantomBody : Type 0 where
  pub tx_xdr : Option Text
  pub auth_entry_xdr : Option Text
  pub auth_signature_hex : Option Text
  pub prefixed_message : Option Text
  pub public_key_hex : Option Text

-- The guarded members of a body.
pub record PhantomInput : Type 0 where
  pub tx_xdr : Text
  pub auth_entry_xdr : Text
  pub auth_signature_hex : Text
  pub prefixed_message : Text
  pub public_key_hex : Text

abbrev pub expected_prefix : Text
expected_prefix = lit "Stellar Smart Account Auth:\n"

-- `/^[0-9a-f]{n}$/`
unfoldable pub is_lower_hex : ℕ → Text → Bool
is_lower_hex n s = length s == n && all (λ c. (leb 48 c && leb c 57) || (leb 97 c && leb c 102)) s

abbrev pub signed_hex : Text → Text
signed_hex message = drop (length expected_prefix) message

unfoldable pub phantom_input : PhantomBody → Route Event Submitted PhantomInput
phantom_input body = do
  tx_xdr ← or_fail 400 "Missing required parameters" (given_text body.tx_xdr)
  entry_xdr ← or_fail 400 "Missing required parameters" (given_text body.auth_entry_xdr)
  signature ← or_fail 400 "Missing required parameters" (given_text body.auth_signature_hex)
  message ← or_fail 400 "Missing required parameters" (given_text body.prefixed_message)
  public_key ← or_fail 400 "Missing required parameters" (given_text body.public_key_hex)
  unless (length message == length expected_prefix + 64 && starts_with message expected_prefix) 400
      "prefixedMessage must be 92 chars"
  unless (is_lower_hex 64 (signed_hex message)) 400
      "Auth hash in prefixedMessage must be 64 lowercase hex chars"
  unless (is_lower_hex 128 signature) 400
      "authSignatureHex must be 128 hex chars (64-byte Ed25519 signature)"
  unless (is_lower_hex 64 public_key) 400
      "publicKeyHex must be 64 hex chars (32-byte Ed25519 public key)"
  give (record {
    tx_xdr = tx_xdr;
    auth_entry_xdr = entry_xdr;
    auth_signature_hex = signature;
    prefixed_message = message;
    public_key_hex = public_key;
  })

-- The digest that the smart account checks, for the context rule 0.
abbrev pub digested : Sdk → Result String (List ℕ) → Result String (List ℕ)
digested sdk (ok payload) = ok (digest_of sdk payload (0 ∷ []))
digested sdk (err m) = err m

unfoldable pub auth_digest : Sdk → ChainConfig → AuthEntry → Result String (List ℕ)
auth_digest sdk config entry = digested sdk (hash_payload sdk entry (passphrase_of sdk config))

abbrev pub soroban_data_of : BaseTx → Option Text → Route Event Submitted Text
soroban_data_of tx resources = unless tx.is_v1 400 "Expected a v1 transaction envelope" >>= λ u.
    or_fail 400 "Transaction is missing Soroban resource data." resources

module _ (sdk : Sdk) (config : ChainConfig) (s : Services) where
  -- `fundAccountIfNeeded`
  abbrev pub fund_account_if_needed : Text → Route Event Submitted Unit
  fund_account_if_needed address = fund_if_missing s "Failed to fund account" address

  -- The fee payer's account is looked up, and funded where there is none.
  abbrev pub fund : Bool → String → Text → Route Event Submitted Unit
  fund true m address = fund_account_if_needed address
  fund false m address = throw m

  abbrev pub funded : Text → Result String ℕ → Route Event Submitted Unit
  funded address (ok sequence) = give tt
  funded address (err m) = fund (contains (lit m) (lit "Account not found")) m address

  unfoldable pub ensure_account : Text → Route Event Submitted Unit
  ensure_account address =
      caught (λ log. s.get_account log address) (fetched_account address) >>= λ account.
      funded address account

  unfoldable pub submit_signed :
      (verifier secret : Text) → PhantomInput → Route Event Submitted Submitted
  submit_signed verifier secret input = do
    tx ← attempt (sdk.parse_transaction input.tx_xdr (passphrase_of sdk config))
    parsed ← attempt (sdk.parse_auth_entry input.auth_entry_xdr)
    digest ← attempt (auth_digest sdk config parsed)
    unless (text_eq (signed_hex input.prefixed_message) (to_hex digest)) 400
        "Signed auth hash does not match authDigest."
    unless (length (from_hex input.auth_signature_hex) == 64) 400
        "authSignatureHex must decode to exactly 64 bytes"
    unless (length (from_hex input.public_key_hex) == 32) 400
        "publicKeyHex must decode to exactly 32 bytes"
    attempt (sdk.check_address verifier)
    entry ← attempt (
        set_signature parsed (
          auth_payload verifier (from_hex input.public_key_hex) (from_hex input.auth_signature_hex)
            (0 ∷ [])))
    soroban_data ← soroban_data_of tx tx.soroban_data
    p ← simulate s (with_entries tx (some soroban_data) (entry ∷ []))
    address ← attempt (sdk.public_key_of secret)
    ensure_account address
    send s "Transaction submission failed" (with_entries tx (some soroban_data) (entry ∷ [])) p
        secret

  unfoldable pub submit_phantom : JsonBody PhantomBody → Route Event Submitted Submitted
  submit_phantom json = do
    secret ←
        or_fail 500 "BUNDLER_SECRET is not set in environment variables."
          (given_text config.bundler_secret)
    verifier ←
        or_fail 500 "NEXT_PUBLIC_VERIFIER_ADDRESS is not set in environment variables."
          (given_text config.verifier_address)
    body ← json_body json
    input ← phantom_input body
    submit_signed verifier secret input

  abbrev pub submit_phantom_post :
      JsonBody PhantomBody → List Event → Response Submitted × List Event
  submit_phantom_post json = catch_500 (submit_phantom json)
