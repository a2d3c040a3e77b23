-- ===== src/BuildDelegated.antt =====
-- app/api/transaction/build-delegated/route.ts: the call of the counter for a smart account whose
-- signer is a classic account, with the entry that the classic account signs.
use latch_playground.Common.{
  ℕ, ℤ, pos, negsuc, ◌+◌, ◌-◌, ◌^◌, Bool, true, false, Option, none, some, List, [], ◌∷◌, String,
  if◌then◌else◌, ltb,
}
use latch_playground.Common.Result.{Result, ok, err}
use latch_playground.Text.{Text, lit}
use latch_playground.Bytes.Hex.{to_hex}
use latch_playground.Bytes.Digits.{be_value}
use latch_playground.Effects.{
  Response, Route, ◌>>=◌, ◌>>◌, give, throw, call, catch_500, attempt, or_fail,
}
use latch_playground.Ceremony.{JsonMember}
use latch_playground.Chain.{
  Sdk, ChainConfig, given_text, passphrase_of, ScVal, scv_symbol, scv_bytes, scv_address, scv_void,
  scv_vec, scv_map, no_values, value, no_entries, entry, AddressCredentials, Credentials,
  source_account, of_address, AuthEntry, RawEntry, Tx, Passed,
}
use latch_playground.Server.{Event, Services, fetched_account, simulated, random_nonce}
use latch_playground.Requests.{JsonBody, json_body, string_member}
use latch_playground.Entries.{
  rule_ids, read_entry, digest_of, hash_payload, set_signature, set_expiration,
}
use latch_playground.Entries.Delegated.{check_auth_entry}
use latch_playground.Rules.{counter_of}
use latch_playground.Build.{increment_tx, unless_error, assembled}
pub mod Answered

pub record DelegatedBuildBody : Type 0 where
  pub smart_account_address : JsonMember
  pub g_address : JsonMember

pub record DelegatedBuilt : Type 0 where
  pub tx_xdr : Text
  pub smart_account_auth_entry_xdr : Text
  pub g_address_preimage_xdr : Text
  pub g_address_entry_template_xdr : Text
  pub auth_digest_hex : Text
  pub valid_until_ledger : ℕ

-- `buildDelegatedAuthPayload`
unfoldable pub delegated_auth_payload : (g_address : Text) → ScVal
delegated_auth_payload g_address =
    let signer =
      scv_vec (value (scv_symbol (lit "Delegated")) (value (scv_address g_address) no_values)) in
    scv_map (
      entry (scv_symbol (lit "context_rule_ids")) (scv_vec (rule_ids (0 ∷ []))) (
        entry (scv_symbol (lit "signers")) (scv_map (entry signer (scv_bytes []) no_entries))
          no_entries))

-- `bytes.readBigInt64BE(0)`, of 8 bytes.
unfoldable pub read_int64 : List ℕ → ℤ
read_int64 bytes =
    let n = be_value 0 bytes in if ltb n (2 ^ 63) then pos n else negsuc (2 ^ 64 - 1 - n)

abbrev pub first_entry : {R : Type 0} → List RawEntry → Route Event R RawEntry
first_entry [] = throw "No auth entries in simulation result"
first_entry (e ∷ es) = give e

-- `credentials().address()`
abbrev pub address_credentials : Credentials → Result String AddressCredentials
address_credentials source_account = err "address not set"
address_credentials (of_address c) = ok c

module _ (sdk : Sdk) (config : ChainConfig) (s : Services) where
  -- The answer, from the account's entry on. The transaction holds the entry itself, so its text has
  -- the signature that is set on it later.
  unfoldable pub build_check :
      (account g_address : Text)
      → Tx
      → Passed
      → AuthEntry
      → Route Event DelegatedBuilt DelegatedBuilt
  build_check account g_address tx p unsigned = do
    let valid_until = p.latest_ledger + 60
    payload ← attempt (hash_payload sdk unsigned (passphrase_of sdk config))
    let digest = digest_of sdk payload (0 ∷ [])
    attempt (sdk.check_address g_address)
    own ← attempt (set_signature unsigned (delegated_auth_payload g_address))
    nonce_bytes ← call s.make_nonce random_nonce
    let nonce = read_int64 nonce_bytes
    let template = check_auth_entry account g_address scv_void nonce valid_until digest
    give (record {
      tx_xdr = sdk.print_transaction (assembled sdk tx p (own ∷ []));
      smart_account_auth_entry_xdr = sdk.print_auth_entry own;
      g_address_preimage_xdr =
          sdk.encode_base64 (
            sdk.preimage_xdr (sdk.hash (passphrase_of sdk config)) nonce valid_until template.root);
      g_address_entry_template_xdr = sdk.print_auth_entry template;
      auth_digest_hex = to_hex digest;
      valid_until_ledger = valid_until;
    })

  unfoldable pub build_delegated :
      JsonBody DelegatedBuildBody → Route Event DelegatedBuilt DelegatedBuilt
  build_delegated json = do
    secret ← or_fail 500 "BUNDLER_SECRET is not set." (given_text config.bundler_secret)
    source ← attempt (sdk.public_key_of secret)
    body ← json_body json
    account ← or_fail 400 "Missing smartAccountAddress" (string_member body.smart_account_address)
    g_address ← or_fail 400 "Missing gAddress" (string_member body.g_address)
    sequence ← call (λ log. s.get_account log source) (fetched_account source)
    attempt (sdk.check_contract (counter_of config))
    attempt (sdk.check_address account)
    let tx = increment_tx config source sequence account
    sim ← call (λ log. s.simulate_transaction log tx) (simulated tx)
    p ← unless_error sim
    found ← first_entry p.auth
    raw ← attempt (read_entry sdk found)
    _ ← attempt (address_credentials raw.credentials)
    build_check account g_address tx p (set_expiration (p.latest_ledger + 60) raw)

  abbrev pub build_delegated_post :
      JsonBody DelegatedBuildBody → List Event → Response DelegatedBuilt × List Event
  build_delegated_post json = catch_500 (build_delegated json)
