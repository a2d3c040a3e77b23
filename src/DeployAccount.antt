-- ===== src/DeployAccount.antt =====
-- app/api/smart-account/route.ts: smart accounts that are deployed without a factory. The stack and the
-- name that the route adds to an error, the prefix before an error of the key's address, and the text
-- of a refused transaction's result are left out.
use Prim.Native.String.{◌++◌ as ◌+++◌}
use latch_playground.Common.{
  ℕ, ◌+◌, Bool, true, false, ◌||◌, Option, none, some, List, [], ◌∷◌, ◌++◌, String, if◌then◌else◌,
}
use latch_playground.Common.Result.{Result, ok, err}
use latch_playground.Text.{Text, lit, contains}
use latch_playground.Bytes.Hex.{from_hex}
use latch_playground.Effects.{
  Response, Route, ◌>>=◌, ◌>>◌, give, throw, call, handle, catch_500, attempt, or_fail,
}
use latch_playground.Chain.{
  Sdk, ChainConfig, given_text, passphrase_of, ScVals, scv_map, scv_vec, no_entries, value,
  no_values, HostFunction, create_contract, Tx, tx_of, Passed, Simulation, simulation_error, passed,
  TxStatus, not_found, failed, success,
}
use latch_playground.Server.{Event, Services, deploy_cache, fetched_account, simulated, sent}
use latch_playground.Requests.{JsonBody, json_body, string_member}
use latch_playground.Caches.{read_account_cache, set_account_cache, or_cached}
use latch_playground.Entries.{external_signer}
use latch_playground.Submit.{poll, or_throw}
use latch_playground.FactoryAccount.{KeyBody, key_of, configured, g_address_of}
pub mod Reported
pub mod Deployed

-- The variables that `getTestnetConfig` requires.
pub record DeployConfig : Type 0 where
  pub secret : Text
  pub verifier : Text
  pub counter : Text
  pub wasm_hash : Text

abbrev pub or_default_wasm : Option Text → Text
or_default_wasm none = lit "c00f972cb8ed5eba151f4cd6e97519db679a7a31cc657838449b405fb9cf53c4"
or_default_wasm (some s) = s

-- `getTestnetConfig`
unfoldable pub deploy_config : {R : Type 0} → ChainConfig → Route Event R DeployConfig
deploy_config config = do
  secret ←
      configured "BUNDLER_SECRET environment variable is required"
        (given_text config.bundler_secret)
  verifier ←
      configured "Missing required contract addresses in environment variables"
        (given_text config.verifier_address)
  counter ←
      configured "Missing required contract addresses in environment variables"
        (given_text config.counter_address)
  give (record {
    secret = secret;
    verifier = verifier;
    counter = counter;
    wasm_hash = or_default_wasm (given_text config.smart_account_wasm_hash);
  })

pub record ContractDeployment : Type 0 where
  pub smart_account_address : Text
  pub g_address : Text
  pub already_deployed : Bool

pub record NetworkInfo : Type 0 where
  pub verifier_address : Text
  pub counter_address : Text
  pub network : Text

abbrev pub known_contract : Text × Text → ContractDeployment
known_contract (address, g_address) = record {
  smart_account_address = address;
  g_address = g_address;
  already_deployed = true;
}

unfoldable pub deploy_salt : Sdk → (public_key_hex : Text) → List ℕ
deploy_salt sdk public_key_hex = sdk.hash (public_key_hex ++ lit "v8-ed25519-verifier-fix")

-- `buildConstructorArgs`
unfoldable pub constructor_args : (public_key_hex verifier : Text) → ScVals
constructor_args public_key_hex verifier =
    value (scv_vec (value (external_signer verifier (from_hex public_key_hex)) no_values))
      (value (scv_map no_entries) no_values)

-- The address that a contract of this deployer and salt has.
unfoldable pub contract_address : Sdk → (passphrase deployer : Text) → (salt : List ℕ) → Text
contract_address sdk passphrase deployer salt =
    sdk.encode_contract (sdk.hash (sdk.contract_preimage (sdk.hash passphrase) deployer salt))

abbrev pub deploy_tx : (source : Text) → (sequence : ℕ) → (wasm_hash salt : List ℕ) → ScVals → Tx
deploy_tx source sequence wasm_hash salt args =
    tx_of source (sequence + 1) 1000000 300
      (record { source = none; func = create_contract source wasm_hash salt args; auth = [] })

abbrev pub deployable : {R : Type 0} → Simulation → Route Event R Passed
deployable (simulation_error m) = throw ("Deployment simulation failed: " +++ m)
deployable (passed p) = give p

abbrev pub returned_contract : {R : Type 0} → Option Text → Route Event R Text
returned_contract none = throw "No return value from deployment transaction"
returned_contract (some address) = give address

-- The address after the polling: where the deployment failed, the contract is taken to be there.
abbrev pub address_after : {R : Type 0} → (computed : Text) → Option TxStatus → Route Event R Text
address_after computed none = throw "Transaction not found after polling"
address_after computed (some (success v)) = returned_contract v
address_after computed (some failed) = give computed
address_after computed (some not_found) = throw "Deployment transaction status"

-- The error says that the contract is there.
abbrev pub is_there : String → Bool
is_there m = contains (lit m) (lit "already exists") || contains (lit m) (lit "ExistingValue")

abbrev pub there_or_throw : {R : Type 0} → (computed : Text) → String → Route Event R Text
there_or_throw computed m = if is_there m then give computed else throw m

module _ (sdk : Sdk) (config : ChainConfig) (s : Services) {R : Type 0} where
  -- The deployment, with the address of the contract.
  unfoldable pub deploy_contract :
      (secret source computed : Text) → (wasm_hash salt : List ℕ) → ScVals → Route Event R Text
  deploy_contract secret source computed wasm_hash salt args = do
    sequence ← call (λ log. s.get_account log source) (fetched_account source)
    attempt (sdk.check_address source)
    let tx = deploy_tx source sequence wasm_hash salt args
    sim ← call (λ log. s.simulate_transaction log tx) (simulated tx)
    p ← deployable sim
    result ← call (λ log. s.send_transaction log tx p secret) (sent tx p secret)
    hash ← or_throw "Deployment failed" result
    status ← poll s 30 hash none
    address_after computed status

module _ (sdk : Sdk) (config : ChainConfig) (s : Services) where
  unfoldable pub create_contract_account :
      DeployConfig
      → (public_key_hex g_address : Text) → Route Event ContractDeployment ContractDeployment
  create_contract_account c public_key_hex g_address = do
    attempt (sdk.check_address c.verifier)
    source ← attempt (sdk.public_key_of c.secret)
    let salt = deploy_salt sdk public_key_hex
    let computed = contract_address sdk (passphrase_of sdk config) source salt
    address ← handle (there_or_throw computed) (
        deploy_contract sdk config s c.secret source computed (from_hex c.wasm_hash) salt
          (constructor_args public_key_hex c.verifier))
    set_account_cache deploy_cache public_key_hex address g_address
    give (record {
      smart_account_address = address;
      g_address = g_address;
      already_deployed = false;
    })

  -- `POST`; a fresh answer also repeats the verifier's and the counter's address.
  unfoldable pub deploy_account :
      JsonBody KeyBody → Route Event ContractDeployment ContractDeployment
  deploy_account json = do
    c ← deploy_config config
    body ← json_body json
    public_key_hex ←
        or_fail 400 "Invalid public key. Expected 64-character hex string."
          (key_of (string_member body.public_key_hex))
    g_address ← g_address_of sdk public_key_hex
    hit ← read_account_cache deploy_cache public_key_hex
    or_cached known_contract hit (create_contract_account c public_key_hex g_address)

  abbrev pub deploy_account_post :
      JsonBody KeyBody → List Event → Response ContractDeployment × List Event
  deploy_account_post json = catch_500 (deploy_account json)

  -- `GET`
  unfoldable pub network_info : Route Event NetworkInfo NetworkInfo
  network_info = do
    c ← deploy_config config
    give (record {
      verifier_address = c.verifier;
      counter_address = c.counter;
      network = lit "testnet";
    })
