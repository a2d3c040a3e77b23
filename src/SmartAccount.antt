-- ===== src/SmartAccount.antt =====
-- app/api/smart-account/webauthn/route.ts. The in-memory cache is what the log says was set.
use latch_playground.Common.{
  ℕ, Bool, true, false, Option, none, some, List, [], ◌∷◌, String, leb, if◌then◌else◌, length,
}
use latch_playground.Text.{Text, text_eq}
use latch_playground.Effects.{
  Response, Exit, done, Route, ◌>>=◌, ◌>>◌, give, catch_500, unless, or_fail,
}
use latch_playground.Ceremony.{JsonMember, absent, text, other}
use latch_playground.Chain.{Sdk, ChainConfig, given_text}
use latch_playground.Server.{Event, Services, cache_set, webauthn_cache}
use latch_playground.Factory.{
  factory_address_of, derive_salt, account_init_params, predict_address, is_deployed, deploy,
  Deployment,
}
use latch_playground.Requests.{JsonBody, json_body, string_member}
use latch_playground.Caches.{read_cache, set_cache, or_cached}
pub mod Cached

pub record Query : Type 0 where
  pub credential_id : Option Text
  pub key_data_hex : Option Text

pub record Lookup : Type 0 where
  pub deployed : Bool
  pub smart_account_address : Text

pub record DeployBody : Type 0 where
  pub key_data_hex : JsonMember
  pub credential_id : JsonMember

abbrev pub found : Text → Lookup
found address = record { deployed = true; smart_account_address = address }

abbrev pub known : Text → Deployment
known address = record { smart_account_address = address; already_deployed = true }

module _ (sdk : Sdk) (config : ChainConfig) (s : Services) where
  unfoldable pub look_up_chain : (id key_data_hex : Text) → Route Event Lookup Lookup
  look_up_chain id key_data_hex = do
    factory ← factory_address_of config
    predicted ←
        predict_address sdk s factory
          (account_init_params key_data_hex (derive_salt sdk key_data_hex))
    deployed ← is_deployed sdk s predicted
    (if deployed then set_cache webauthn_cache id predicted else give tt)
    give (record { deployed = deployed; smart_account_address = predicted })

  -- `GET`
  unfoldable pub look_up : Query → Route Event Lookup Lookup
  look_up query = do
    id ←
        or_fail 400 "Missing credentialId or keyDataHex query params."
          (given_text query.credential_id)
    key_data_hex ←
        or_fail 400 "Missing credentialId or keyDataHex query params."
          (given_text query.key_data_hex)
    hit ← read_cache webauthn_cache id
    or_cached found hit (look_up_chain id key_data_hex)

  abbrev pub look_up_get : Query → List Event → Response Lookup × List Event
  look_up_get query = catch_500 (look_up query)

  unfoldable pub deploy_account :
      (factory secret id key_data_hex : Text) → Route Event Deployment Deployment
  deploy_account factory secret id key_data_hex = do
    let params = account_init_params key_data_hex (derive_salt sdk key_data_hex)
    predicted ← predict_address sdk s factory params
    d ← deploy sdk s factory secret params predicted
    set_cache webauthn_cache id d.smart_account_address
    give d

  -- `POST`
  unfoldable pub create : JsonBody DeployBody → Route Event Deployment Deployment
  create json = do
    factory ← factory_address_of config
    secret ← or_fail 500 "BUNDLER_SECRET not set." (given_text config.bundler_secret)
    body ← json_body json
    key_data_hex ←
        or_fail 400 "keyDataHex must be at least 132 hex chars (65-byte pubkey + credentialId)."
          (string_member body.key_data_hex)
    unless (leb 132 (length key_data_hex)) 400
        "keyDataHex must be at least 132 hex chars (65-byte pubkey + credentialId)."
    id ← or_fail 400 "credentialId is required." (string_member body.credential_id)
    hit ← read_cache webauthn_cache id
    or_cached known hit (deploy_account factory secret id key_data_hex)

  abbrev pub create_post : JsonBody DeployBody → List Event → Response Deployment × List Event
  create_post json = catch_500 (create json)
