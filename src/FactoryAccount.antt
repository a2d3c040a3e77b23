-- ===== src/FactoryAccount.antt =====
-- app/api/smart-account/factory/route.ts: smart accounts whose signer is an Ed25519 key. The stack and
-- the name that the route adds to an error, the prefix before an error of the key's address, and the
-- factory's address in an answer are left out. The lookup's failing simulation has the error text of
-- `predict_address`. A returned value that is no address is taken as an empty text.
use latch_playground.Common.{
  ℕ, ◌+◌, Bool, true, false, Option, none, some, List, [], ◌∷◌, ◌++◌, String, if◌then◌else◌, ◌==◌,
  length,
}
use latch_playground.Common.Result.{Result, ok, err}
use latch_playground.Text.{Text, lit}
use latch_playground.Bytes.Hex.{from_hex}
use latch_playground.Effects.{
  Response, Route, ◌>>=◌, ◌>>◌, give, throw, call, catch_500, attempt, or_fail,
}
use latch_playground.Ceremony.{JsonMember}
use latch_playground.Chain.{
  Sdk, ChainConfig, given_text, ScVal, scv_map, scv_symbol, scv_bytes, scv_vec, scv_void, entry,
  no_entries, value, no_values, Native, string, Passed, Simulation, TxStatus, not_found, failed,
  success,
}
use latch_playground.Server.{Event, Services, factory_cache, fetched_account, simulated, sent}
use latch_playground.Requests.{JsonBody, json_body, string_member}
use latch_playground.Caches.{read_account_cache, set_account_cache, or_cached}
use latch_playground.Funding.{fund_if_missing}
use latch_playground.Submit.{poll, or_throw}
use latch_playground.Factory.{predict_address, is_deployed, factory_tx, simulation_passed}
use latch_playground.SmartAccount.{Lookup}
pub mod Created

-- `deriveSalt`: the salt is the hash of the key and the version, through hexadecimal text and back.
unfoldable pub derive_salt : Sdk → (public_key_hex : Text) → List ℕ
derive_salt sdk public_key_hex = sdk.hash (public_key_hex ++ lit "factory-v2")

-- `buildParamsMap`
unfoldable pub params_map : (public_key_hex : Text) → (salt : List ℕ) → ScVal
params_map public_key_hex salt =
    let init = scv_map (
      entry (scv_symbol (lit "key_data")) (scv_bytes (from_hex public_key_hex)) (
        entry (scv_symbol (lit "signer_kind"))
          (scv_vec (value (scv_symbol (lit "Ed25519")) no_values)) no_entries)) in
    let signer = scv_vec (value (scv_symbol (lit "External")) (value init no_values)) in
    scv_map (
      entry (scv_symbol (lit "account_salt")) (scv_bytes salt) (
        entry (scv_symbol (lit "signers")) (scv_vec (value signer no_values))
          (entry (scv_symbol (lit "threshold")) scv_void no_entries)))

abbrev pub account_params : Sdk → (public_key_hex : Text) → ScVal
account_params sdk public_key_hex = params_map public_key_hex (derive_salt sdk public_key_hex)

pub record KeyBody : Type 0 where
  pub public_key_hex : JsonMember

-- The answer of a deployment.
pub record KeyDeployment : Type 0 where
  pub smart_account_address : Text
  pub g_address : Text
  pub already_deployed : Bool

-- A key is given with 64 characters.
abbrev pub key_of : Option Text → Option Text
key_of none = none
key_of (some s) = if length s == 64 then some s else none

abbrev pub found_account : Text × Text → Lookup
found_account (address, g_address) = record { deployed = true; smart_account_address = address }

abbrev pub known_account : Text × Text → KeyDeployment
known_account (address, g_address) = record {
  smart_account_address = address;
  g_address = g_address;
  already_deployed = true;
}

-- The address that the simulation returned; an empty text where it returned none.
abbrev pub previewed : Option Native → Text
previewed (some (string s)) = s
previewed _ = []

abbrev pub settled_address : Text → Option Text → Text
settled_address preview none = preview
settled_address preview (some s) = s

-- The address of a deployment that settled.
abbrev pub settled : {R : Type 0} → Text → Option TxStatus → Route Event R Text
settled preview none = throw "Transaction not found after polling"
settled preview (some (success v)) = give (settled_address preview v)
settled preview (some _) = throw "Factory deployment transaction status"

-- `deriveGAddressFromPubkey`
abbrev pub g_address_of : {R : Type 0} → Sdk → (public_key_hex : Text) → Route Event R Text
g_address_of sdk public_key_hex = attempt (sdk.encode_public_key (from_hex public_key_hex))

abbrev pub configured : {R : Type 0} → String → Option Text → Route Event R Text
configured m none = throw m
configured m (some s) = give s

module _ (sdk : Sdk) (config : ChainConfig) (s : Services) where
  unfoldable pub look_up_key_chain : (factory public_key_hex : Text) → Route Event Lookup Lookup
  look_up_key_chain factory public_key_hex = do
    predicted ← predict_address sdk s factory (account_params sdk public_key_hex)
    deployed ← is_deployed sdk s predicted
    (if deployed
        then (g_address_of sdk public_key_hex >>= λ g_address.
            set_account_cache factory_cache public_key_hex predicted g_address)
        else give tt)
    give (record { deployed = deployed; smart_account_address = predicted })

  -- `GET`, by the query's `pubkey`.
  unfoldable pub look_up_key : Option Text → Route Event Lookup Lookup
  look_up_key query = do
    public_key_hex ←
        or_fail 400 "Missing or invalid pubkey query param (expected 64-char hex)."
          (key_of (given_text query))
    factory ← or_fail 500 "Factory address not configured." (given_text config.factory_address)
    hit ← read_account_cache factory_cache public_key_hex
    or_cached found_account hit (look_up_key_chain factory public_key_hex)

  abbrev pub look_up_key_get : Option Text → List Event → Response Lookup × List Event
  look_up_key_get query = catch_500 (look_up_key query)

  -- `fundAccountIfNeeded`
  abbrev pub fund_account_if_needed : Text → Route Event KeyDeployment Unit
  fund_account_if_needed g_address = fund_if_missing s "Failed to fund account" g_address

  unfoldable pub create_key_account :
      (public_key_hex g_address : Text) → Route Event KeyDeployment KeyDeployment
  create_key_account public_key_hex g_address = do
    fund_account_if_needed g_address
    secret ←
        configured
          "BUNDLER_SECRET environment variable is required and currently missing from .env."
          (given_text config.bundler_secret)
    factory ←
        configured "Missing NEXT_PUBLIC_FACTORY_ADDRESS in environment variables."
          (given_text config.factory_address)
    source ← attempt (sdk.public_key_of secret)
    attempt (sdk.check_contract factory)
    sequence ← call (λ log. s.get_account log source) (fetched_account source)
    let tx =
        factory_tx source (sequence + 1) 1500000 300 factory (lit "create_account")
          (account_params sdk public_key_hex)
    sim ← call (λ log. s.simulate_transaction log tx) (simulated tx)
    p ← simulation_passed "Factory deployment simulation failed" sim
    result ← call (λ log. s.send_transaction log tx p secret) (sent tx p secret)
    hash ← or_throw "Factory deployment failed" result
    status ← poll s 30 hash none
    address ← settled (previewed p.return_value) status
    set_account_cache factory_cache public_key_hex address g_address
    give (record {
      smart_account_address = address;
      g_address = g_address;
      already_deployed = false;
    })

  -- `POST`
  unfoldable pub create_key : JsonBody KeyBody → Route Event KeyDeployment KeyDeployment
  create_key json = do
    body ← json_body json
    public_key_hex ←
        or_fail 400 "Invalid public key. Expected 64-character hex string."
          (key_of (string_member body.public_key_hex))
    g_address ← g_address_of sdk public_key_hex
    hit ← read_account_cache factory_cache public_key_hex
    or_cached known_account hit (create_key_account public_key_hex g_address)

  abbrev pub create_key_post : JsonBody KeyBody → List Event → Response KeyDeployment × List Event
  create_key_post json = catch_500 (create_key json)
