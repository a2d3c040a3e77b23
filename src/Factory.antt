-- ===== src/Factory.antt =====
-- lib/smart-account-factory-webauthn.ts: the deployment of a smart account through the factory.
use latch_playground.Common.{
  ℕ, zero, suc, ◌+◌, Bool, true, false, Option, none, some, List, [], ◌∷◌, ◌++◌, String, ltb,
  if◌then◌else◌,
}
use latch_playground.Common.Result.{Result, ok, err}
use latch_playground.Text.{Text, lit, text_eq}
use latch_playground.Bytes.Hex.{from_hex}
use latch_playground.Effects.{Route, ◌>>=◌, ◌>>◌, give, throw, call, unless, attempt}
use latch_playground.Chain.{
  Sdk, ChainConfig, given_text, passphrase_of, ScVal, scv_map, scv_symbol, scv_bytes, scv_vec,
  scv_void, entry, no_entries, value, no_values, Tx, Passed, Simulation, simulation_error, passed,
  TxStatus, not_found, failed, success, contract_call, Native, string, tx_of,
}
use latch_playground.Server.{
  Event, Services, random_keypair, fetched_account, counted_entries, simulated, sent, polled,
}
use latch_playground.Submit.{or_throw, wait}
pub mod Deployed

-- The variables that `getFactoryConfigFromEnv` requires.
abbrev pub factory_of : {R : Type 0} → Option Text → Route Event R Text
factory_of none = throw "NEXT_PUBLIC_FACTORY_ADDRESS not configured."
factory_of (some address) = give address

abbrev pub factory_address_of : {R : Type 0} → ChainConfig → Route Event R Text
factory_address_of config = factory_of (given_text config.factory_address)

abbrev pub salt_version : Text
salt_version = lit "webauthn-v1"

-- `deriveWebauthnSalt`
unfoldable pub derive_salt : Sdk → Text → List ℕ
derive_salt sdk key_data_hex = sdk.hash (key_data_hex ++ salt_version)

-- `buildWebauthnAccountInitParams`
unfoldable pub account_init_params : Text → List ℕ → ScVal
account_init_params key_data_hex salt =
    let signer = scv_map (
      entry (scv_symbol (lit "key_data")) (scv_bytes (from_hex key_data_hex)) (
        entry (scv_symbol (lit "signer_kind"))
          (scv_vec (value (scv_symbol (lit "WebAuthn")) no_values)) no_entries)) in
    let external = scv_vec (value (scv_symbol (lit "External")) (value signer no_values)) in
    scv_map (
      entry (scv_symbol (lit "account_salt")) (scv_bytes salt) (
        entry (scv_symbol (lit "signers")) (scv_vec (value external no_values))
          (entry (scv_symbol (lit "threshold")) scv_void no_entries)))

abbrev pub factory_tx :
    (source : Text) → (sequence fee timeout : ℕ) → (factory function : Text) → ScVal → Tx
factory_tx source sequence fee timeout factory function params =
    tx_of source sequence fee timeout (contract_call factory function (value params no_values))

abbrev pub simulation_passed : {R : Type 0} → String → Simulation → Route Event R Passed
simulation_passed m (simulation_error e) = throw m
simulation_passed m (passed p) = give p

-- `scValToNative(sim.result!.retval)`
abbrev pub returned : {R : Type 0} → Option Native → Route Event R Native
returned none = throw "Cannot read properties of undefined"
returned (some v) = give v

-- A value that is no text is refused where it is next used, as an address.
abbrev pub as_address : {R : Type 0} → Native → Route Event R Text
as_address (string s) = give s
as_address _ = throw "Unsupported address type"

-- A missing or empty address falls back to the predicted one.
abbrev pub address_or : Text → Option Text → Text
address_or predicted none = predicted
address_or predicted (some []) = predicted
address_or predicted (some (c ∷ s)) = c ∷ s

pub record Deployment : Type 0 where
  pub smart_account_address : Text
  pub already_deployed : Bool

module _ (sdk : Sdk) (s : Services) {R : Type 0} where
  -- `predictWebauthnSmartAccountAddress`
  unfoldable pub predict_address : (factory : Text) → ScVal → Route Event R Text
  predict_address factory params = do
    source ← call s.random_public_key random_keypair
    attempt (sdk.check_contract factory)
    let tx = factory_tx source 1 100 30 factory (lit "get_account_address") params
    sim ← call (λ log. s.simulate_transaction log tx) (simulated tx)
    p ← simulation_passed "get_account_address simulation failed" sim
    v ← returned p.return_value
    as_address v

  -- `isSorobanContractDeployed`
  unfoldable pub is_deployed : Text → Route Event R Bool
  is_deployed address = do
    attempt (sdk.check_address address)
    n ← call (λ log. s.get_ledger_entries log address) (counted_entries address)
    give (ltb 0 n)

  -- A round of the factory's polling: other than a missing transaction, its end.
  abbrev pub ended : TxStatus → Route Event R (Option Text) → Route Event R (Option Text)
  ended not_found rest = rest
  ended failed rest = throw "Factory deployment failed"
  ended (success v) rest = give v

  unfoldable pub poll_deployment : ℕ → Text → Route Event R (Option Text)
  poll_deployment zero hash = give none
  poll_deployment (suc n) hash = do
    wait 1000
    status ← call (λ log. s.get_transaction log hash) (polled hash)
    ended status (poll_deployment n hash)

  unfoldable pub create_account :
      (mismatch : String)
      → (factory secret source : Text) → ScVal
      → (predicted : Text) → Route Event R Deployment
  create_account mismatch factory secret source params predicted = do
    sequence ← call (λ log. s.get_account log source) (fetched_account source)
    attempt (sdk.check_contract factory)
    let tx = factory_tx source (sequence + 1) 1500000 300 factory (lit "create_account") params
    sim ← call (λ log. s.simulate_transaction log tx) (simulated tx)
    p ← simulation_passed "create_account simulation failed" sim
    result ← call (λ log. s.send_transaction log tx p secret) (sent tx p secret)
    hash ← or_throw "Factory create_account failed" result
    address ← poll_deployment 30 hash
    (if text_eq (address_or predicted address) predicted then give tt else throw mismatch)
    give (record { smart_account_address = address_or predicted address; already_deployed = false })

  abbrev pub unless_deployed : Text → Bool → Route Event R Deployment → Route Event R Deployment
  unless_deployed predicted true create =
      give (record { smart_account_address = predicted; already_deployed = true })
  unless_deployed predicted false create = create

  -- `deployWebauthnSmartAccount`
  unfoldable pub deploy :
      (factory secret : Text) → ScVal → (predicted : Text) → Route Event R Deployment
  deploy factory secret params predicted = do
    source ← attempt (sdk.public_key_of secret)
    there ← is_deployed predicted
    unless_deployed predicted there
        (create_account "Deterministic address mismatch" factory secret source params predicted)
