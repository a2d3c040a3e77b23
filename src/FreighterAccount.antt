-- ===== src/FreighterAccount.antt =====
-- app/api/smart-account/freighter/route.ts: smart accounts whose signer is a classic account. A
-- predicted value that is no address is refused at once; the source's creation refuses it where it
-- compares it with the settled address.
use latch_playground.Common.{
  ℕ, Bool, true, false, Option, none, some, List, [], ◌∷◌, ◌++◌, String, if◌then◌else◌,
}
use latch_playground.Common.Result.{Result, ok, err}
use latch_playground.Text.{Text, lit}
use latch_playground.Effects.{Response, Route, ◌>>=◌, ◌>>◌, give, catch_500, attempt, or_fail}
use latch_playground.Ceremony.{JsonMember}
use latch_playground.Chain.{
  Sdk, ChainConfig, given_text, ScVal, scv_map, scv_symbol, scv_bytes, scv_address, scv_vec,
  scv_void, entry, no_entries, value, no_values,
}
use latch_playground.Server.{Event, Services, freighter_cache}
use latch_playground.Requests.{JsonBody, json_body, string_member}
use latch_playground.Caches.{read_cache, set_cache, or_cached}
use latch_playground.Funding.{fund_if_missing}
use latch_playground.Factory.{predict_address, is_deployed, create_account, Deployment}
use latch_playground.SmartAccount.{Lookup, found, known}
pub mod Created

-- `deriveSalt`
unfoldable pub derive_salt : Sdk → (g_address : Text) → List ℕ
derive_salt sdk g_address = sdk.hash (g_address ++ lit "freighter-delegated-v1")

-- `buildParamsMap`
unfoldable pub params_map : (g_address : Text) → (salt : List ℕ) → ScVal
params_map g_address salt =
    let delegated =
      scv_vec (value (scv_symbol (lit "Delegated")) (value (scv_address g_address) no_values)) in
    scv_map (
      entry (scv_symbol (lit "account_salt")) (scv_bytes salt) (
        entry (scv_symbol (lit "signers")) (scv_vec (value delegated no_values))
          (entry (scv_symbol (lit "threshold")) scv_void no_entries)))

abbrev pub account_params : Sdk → (g_address : Text) → ScVal
account_params sdk g_address = params_map g_address (derive_salt sdk g_address)

-- `!gAddress || !StrKey.isValidEd25519PublicKey(gAddress)` fails.
abbrev pub valid_address : Sdk → Option Text → Option Text
valid_address sdk none = none
valid_address sdk (some s) = if sdk.is_public_key s then some s else none

pub record DelegatedAccountBody : Type 0 where
  pub g_address : JsonMember

module _ (sdk : Sdk) (s : Services) {R : Type 0} where
  -- `predictAddress`
  abbrev pub predict : (factory : Text) → ScVal → Route Event R Text
  predict factory params = predict_address sdk s factory params

  -- `fundIfNeeded`
  abbrev pub fund_if_needed : Text → Route Event R Unit
  fund_if_needed g_address = fund_if_missing s "Friendbot failed" g_address

module _ (sdk : Sdk) (config : ChainConfig) (s : Services) where
  unfoldable pub look_up_delegated_chain : (g_address : Text) → Route Event Lookup Lookup
  look_up_delegated_chain g_address = do
    factory ←
        or_fail 500 "NEXT_PUBLIC_FACTORY_ADDRESS not configured."
          (given_text config.factory_address)
    attempt (sdk.check_address g_address)
    predicted ← predict sdk s factory (account_params sdk g_address)
    deployed ← is_deployed sdk s predicted
    (if deployed then set_cache freighter_cache g_address predicted else give tt)
    give (record { deployed = deployed; smart_account_address = predicted })

  -- `GET`, by the query's `gAddress`.
  unfoldable pub look_up_delegated : Option Text → Route Event Lookup Lookup
  look_up_delegated query = do
    g_address ← or_fail 400 "Missing or invalid gAddress." (valid_address sdk (given_text query))
    hit ← read_cache freighter_cache g_address
    or_cached found hit (look_up_delegated_chain g_address)

  abbrev pub look_up_delegated_get : Option Text → List Event → Response Lookup × List Event
  look_up_delegated_get query = catch_500 (look_up_delegated query)

  unfoldable pub create_delegated_chain :
      (factory secret g_address : Text) → Route Event Deployment Deployment
  create_delegated_chain factory secret g_address = do
    fund_if_needed sdk s g_address
    source ← attempt (sdk.public_key_of secret)
    attempt (sdk.check_address g_address)
    attempt (sdk.check_contract factory)
    predicted ← predict sdk s factory (account_params sdk g_address)
    d ←
        create_account sdk s "Address mismatch" factory secret source (account_params sdk g_address)
          predicted
    set_cache freighter_cache g_address d.smart_account_address
    give d

  -- `POST`
  unfoldable pub create_delegated :
      JsonBody DelegatedAccountBody → Route Event Deployment Deployment
  create_delegated json = do
    secret ← or_fail 500 "BUNDLER_SECRET not set." (given_text config.bundler_secret)
    factory ← or_fail 500 "NEXT_PUBLIC_FACTORY_ADDRESS not set." (given_text config.factory_address)
    body ← json_body json
    g_address ←
        or_fail 400 "Invalid gAddress. Expected a valid Stellar G-address."
          (valid_address sdk (string_member body.g_address))
    hit ← read_cache freighter_cache g_address
    or_cached known hit (create_delegated_chain factory secret g_address)

  abbrev pub create_delegated_post :
      JsonBody DelegatedAccountBody → List Event → Response Deployment × List Event
  create_delegated_post json = catch_500 (create_delegated json)
