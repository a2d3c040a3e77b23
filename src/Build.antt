-- ===== src/Build.antt =====
-- app/api/transaction/build/route.ts: the call of the counter for a smart account, with what is to be
-- signed for it. The console output under DEBUG_SOROBAN_AUTH is left out.
use latch_playground.Common.{
  ℕ, ◌+◌, Bool, true, false, Option, none, some, List, [], ◌∷◌, ◌++◌, String, if◌then◌else◌, length,
  map, is_some,
}
use latch_playground.Common.Result.{Result, ok, err}
use latch_playground.Text.{Text, lit, starts_with, contains}
use latch_playground.Bytes.Hex.{to_hex}
use latch_playground.Effects.{
  Response, Route, ◌>>=◌, ◌>>◌, give, throw, call, caught, catch_500, attempt, or_fail,
}
use latch_playground.Ceremony.{JsonMember, absent, text, other}
use latch_playground.Chain.{
  Sdk, ChainConfig, given_text, passphrase_of, scv_address, no_values, value, contract_call,
  AuthEntry, Tx, Passed, Simulation, simulation_error, passed, tx_of,
}
use latch_playground.Server.{Event, Services, fetched_account, simulated}
use latch_playground.Requests.{JsonBody, json_body, string_member}
use latch_playground.Funding.{fund_if_missing}
use latch_playground.Entries.{hash_payload, digest_of, normalize_auth_entries, set_expiration}
use latch_playground.Entries.Delegated.{delegated_entry}
use latch_playground.Rules.{counter_of, discover_rule}
use latch_playground.Entries.Indices.{account_entry, delegated_indices, blob_payloads}
pub mod Rows
pub mod Answered

pub record BuildBody : Type 0 where
  pub smart_account_address : JsonMember
  pub signer_g : JsonMember

-- The transaction data, fee and ledger of the simulation, which the source answers as JSON text.
pub record SimulationResult : Type 0 where
  pub transaction_data : Text
  pub min_resource_fee : Text
  pub latest_ledger : ℕ

pub record Built : Type 0 where
  pub tx_xdr : Text
  pub auth_entry_xdr : Text
  pub auth_entries_xdr : List Text
  pub smart_account_auth_entry_index : ℕ
  pub delegated_native_auth_entry_indices : List ℕ
  pub delegated_native_sign_blob_payloads_base64 : List Text
  pub delegated_g_auth_entry_synthesized : Bool
  pub context_rule_id : ℕ
  pub context_rule_matched : Bool
  pub simulation_result : SimulationResult
  pub auth_digest_hex : Text
  pub signature_payload_hex : Text
  pub valid_until_ledger : ℕ

-- `typeof signerG === "string" && signerG.startsWith("G") ? signerG : null`
abbrev pub signer_of : JsonMember → Option Text
signer_of absent = none
signer_of other = none
signer_of (text s) = if starts_with s (lit "G") then some s else none

abbrev pub unless_error : {R : Type 0} → Simulation → Route Event R Passed
unless_error (simulation_error m) = throw "Simulation failed"
unless_error (passed p) = give p

abbrev pub some_entries : {R : Type 0} → List AuthEntry → Route Event R (List AuthEntry)
some_entries [] = throw "No auth entries in simulation result"
some_entries (e ∷ es) = give (e ∷ es)

abbrev pub present_entry : {R : Type 0} → Option (ℕ × AuthEntry) → Route Event R (ℕ × AuthEntry)
present_entry none =
    throw
      "No SorobanAuthorizationEntry matches smartAccountAddress credentials; cannot build auth digest."
present_entry (some e) = give e

-- `assembleTransaction(tx, simResult)`, with its operation replaced by one that carries the entries.
unfoldable pub assembled : Sdk → Tx → Passed → List AuthEntry → Tx
assembled sdk tx p entries = record {
  source = tx.source;
  sequence = tx.sequence;
  fee = sdk.assembled_fee tx.fee p;
  timeout = tx.timeout;
  soroban_data = some p.resources;
  operation = record { source = tx.operation.source; func = tx.operation.func; auth = entries };
}

-- The rows of a built transaction, and the digest and the payload that are signed.
abbrev pub synthesize :
    {R : Type 0}
    → Sdk
    → Services
    → (account : Text) → (signer : Option Text) → (payload : List ℕ) → (expiration : ℕ)
    → List AuthEntry
    → List ℕ
    → Route Event R (List AuthEntry × List ℕ × Bool)
synthesize sdk s account (some signer) payload expiration entries [] =
    delegated_entry sdk s account signer payload expiration >>= λ e.
    give (entries ++ (e ∷ []), length entries ∷ [], true)
synthesize sdk s account signer payload expiration entries indices = give (entries, indices, false)

abbrev pub rule_or_0 : Option ℕ → ℕ
rule_or_0 none = 0
rule_or_0 (some id) = id

abbrev pub increment_tx : ChainConfig → (source : Text) → (sequence : ℕ) → (account : Text) → Tx
increment_tx config source sequence account =
    tx_of source (sequence + 1) 1000000 300
      (contract_call (counter_of config) (lit "increment") (value (scv_address account) no_values))

module _ (sdk : Sdk) (config : ChainConfig) (s : Services) where
  -- The bundler's account, funded where there is none.
  abbrev pub fund_account_if_needed : Text → Route Event Built Unit
  fund_account_if_needed address = fund_if_missing s "Failed to fund account" address

  abbrev pub account_after :
      (address : Text) → (includes_not_found : Bool) → (m : String) → Route Event Built ℕ
  account_after address true m = fund_account_if_needed address >>= λ u.
      call (λ log. s.get_account log address) (fetched_account address)
  account_after address false m = throw m

  abbrev pub account_or_funded : (address : Text) → Result String ℕ → Route Event Built ℕ
  account_or_funded address (ok sequence) = give sequence
  account_or_funded address (err m) =
      account_after address (contains (lit m) (lit "Account not found")) m

  unfoldable pub bundler_sequence : (address : Text) → Route Event Built ℕ
  bundler_sequence address =
      caught (λ log. s.get_account log address) (fetched_account address) >>= λ account.
      account_or_funded address account

  -- The answer, from the simulation on.
  unfoldable pub build_entries :
      (account : Text)
      → (signer : Option Text) → (rule : Option ℕ) → Tx
      → Passed
      → List AuthEntry
      → Route Event Built Built
  build_entries account signer rule tx p entries = do
    (index, own) ← present_entry (account_entry account signer 0 entries)
    payload ← attempt (hash_payload sdk own (passphrase_of sdk config))
    (rows, indices, synthesized) ←
        synthesize sdk s account signer payload (p.latest_ledger + 60) entries
          (delegated_indices account signer 0 entries)
    payloads ← attempt (blob_payloads sdk (passphrase_of sdk config) rows indices)
    give (record {
      tx_xdr = sdk.print_transaction (assembled sdk tx p rows);
      auth_entry_xdr = sdk.print_auth_entry own;
      auth_entries_xdr = map sdk.print_auth_entry rows;
      smart_account_auth_entry_index = index;
      delegated_native_auth_entry_indices = indices;
      delegated_native_sign_blob_payloads_base64 = payloads;
      delegated_g_auth_entry_synthesized = synthesized;
      context_rule_id = rule_or_0 rule;
      context_rule_matched = is_some rule;
      simulation_result = record {
        transaction_data = p.resources;
        min_resource_fee = p.min_resource_fee;
        latest_ledger = p.latest_ledger;
      };
      auth_digest_hex = to_hex (digest_of sdk payload (0 ∷ []));
      signature_payload_hex = to_hex payload;
      valid_until_ledger = p.latest_ledger + 60;
    })

  unfoldable pub build : JsonBody BuildBody → Route Event Built Built
  build json = do
    secret ← or_fail 500 "BUNDLER_SECRET is not set." (given_text config.bundler_secret)
    address ← attempt (sdk.public_key_of secret)
    body ← json_body json
    account ← or_fail 400 "Missing smartAccountAddress" (string_member body.smart_account_address)
    rule ← discover_rule s sdk (counter_of config) account
    sequence ← bundler_sequence address
    attempt (sdk.check_contract (counter_of config))
    attempt (sdk.check_address account)
    let tx = increment_tx config address sequence account
    sim ← call (λ log. s.simulate_transaction log tx) (simulated tx)
    p ← unless_error sim
    raw_entries ← attempt (normalize_auth_entries sdk p.auth)
    entries ← some_entries raw_entries
    build_entries account (signer_of body.signer_g) rule tx p
        (map (set_expiration (p.latest_ledger + 60)) entries)

  abbrev pub build_post : JsonBody BuildBody → List Event → Response Built × List Event
  build_post json = catch_500 (build json)
