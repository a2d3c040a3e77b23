-- ===== src/Registration.antt =====
-- The route that finishes a registration: app/api/webauthn/registration/finish/route.ts. The hash
-- `determinismCheck` of the answer is left out.
use latch_playground.Common.{
  ℕ, Bool, true, false, ◌||◌, Option, none, some, List, [], ◌∷◌, ◌++◌, String, if◌then◌else◌,
}
use latch_playground.Text.{Text, text_eq}
use latch_playground.Bytes.Hex.{to_hex}
use latch_playground.Bytes.Base64.{from_base64_url}
use latch_playground.Passkey.{CborValue, cose_to_raw}
use latch_playground.Extension.{Environment, Headers}
use latch_playground.Ceremony.{JsonMember, Expected, finish_verification}
use latch_playground.Effects.{
  Response, Route, ◌>>=◌, ◌>>◌, give, fail_with, throw, call, catch_500, unless, or_fail,
}
use latch_playground.Chain.{Sdk, ChainConfig, given_text}
use latch_playground.Server.{
  Event, Services, registration, ChallengeRow, Check, Created, Registration, Owner, CredentialWrite,
  AccountWrite, found_challenge, verified_registration, found_owner, upserted_credential,
  upserted_account, deleted_challenge,
}
use latch_playground.Session.{get_or_create_session, clock_now, new_id}
use latch_playground.Authentication.{client_data_origin, unexpired, or_400}
use latch_playground.Factory.{
  factory_address_of, derive_salt, account_init_params, predict_address, is_deployed, deploy,
  Deployment,
}
use latch_playground.Requests.{JsonBody, malformed, null, members}
pub mod Written

pub record FinishBody : Type 0 where
  pub response : Option Created
  pub chrome_extension_id : JsonMember

pub record FinishRequest : Type 0 where
  pub cookie : Option Text
  pub headers : Headers
  pub body : JsonBody FinishBody

pub record Registered : Type 0 where
  pub credential_id : Text
  pub key_data_hex : Text
  pub salt_hex : Text
  pub smart_account_address : Text
  pub deployed : Bool
  pub already_deployed : Bool

-- The body, which must be JSON, and its response.
abbrev pub finish_body : {R : Type 0} → JsonBody FinishBody → Route Event R (Created × JsonMember)
finish_body malformed = throw "Unexpected token in JSON"
finish_body null = fail_with 400 "Missing response"
finish_body (members b) = elim b.response [
  | none ↦ fail_with 400 "Missing response"
  | some r ↦ give (r, b.chrome_extension_id)
]

-- The key of the verified credential, or the error of the COSE decoder.
abbrev pub raw_key : {R : Type 0} → Option (List ℕ) → Route Event R (List ℕ)
raw_key none = throw "Unsupported COSE key format"
raw_key (some key) = give key

-- The row's user is the session's, if there is a row.
abbrev pub is_own : Text → Option Owner → Bool
is_own user_id none = true
is_own user_id (some owner) = text_eq owner.user_id user_id

abbrev pub transports_of : Option (List Text) → Option (List Text) → Option (List Text)
transports_of none given = given
transports_of (some t) given = some t

module _ (parse_url : Text → Option (Text × Text)) (parse_origin : List ℕ → Option Text)
    (cbor_decode : List ℕ → Option (ℕ → CborValue)) (sdk : Sdk) (env : Environment)
    (config : ChainConfig) (s : Services) where
  -- The id of a row that is there, or a new one.
  abbrev pub credential_row_id : {R : Type 0} → Option Owner → Route Event R Text
  credential_row_id none = new_id env s
  credential_row_id (some owner) = give owner.id

  -- From the answer of the database on: the rows are written, and the challenge deleted.
  unfoldable pub keep :
      (now : ℕ) (challenge_id : Text)
      → Option Owner
      → CredentialWrite
      → AccountWrite
      → Route Event Registered Unit
  keep now challenge_id owner credential account = do
    unless (is_own credential.user_id owner) 409
        "This passkey is already registered to a different user session."
    row_id ← credential_row_id owner
    call (λ log. s.upsert_credential log row_id credential now)
        (upserted_credential row_id credential now)
    account_id ← new_id env s
    call (λ log. s.upsert_account log account_id account now)
        (upserted_account account_id account now)
    call (λ log. s.delete_challenge log challenge_id) (deleted_challenge challenge_id)

  -- From the verified registration on.
  unfoldable pub register :
      (user_id : Text) (now : ℕ) (challenge_id : Text)
      → Created
      → Registration
      → Route Event Registered Registered
  register user_id now challenge_id response reg = do
    key ← raw_key (cose_to_raw cbor_decode reg.public_key)
    let id_bytes = from_base64_url reg.credential_id
    let key_data_hex = to_hex (key ++ id_bytes)
    let salt = derive_salt sdk key_data_hex
    factory ← factory_address_of config
    secret ← or_fail 500 "BUNDLER_SECRET not set." (given_text config.bundler_secret)
    let params = account_init_params key_data_hex salt
    predicted ← predict_address sdk s factory params
    before ← is_deployed sdk s predicted
    result ← deploy sdk s factory secret params predicted
    after ← is_deployed sdk s predicted
    owner ← call (λ log. s.find_owner log reg.credential_id) (found_owner reg.credential_id)
    keep now challenge_id owner
        (record {
          user_id = user_id;
          credential_id = reg.credential_id;
          credential_id_bytes = id_bytes;
          cose_public_key = reg.public_key;
          p256_raw_public_key = key;
          sign_count = reg.counter;
          transports = transports_of reg.transports response.transports;
          device_type = reg.device_type;
          backed_up = reg.backed_up;
        })
        (record {
          user_id = user_id;
          credential_id = reg.credential_id;
          key_data_hex = key_data_hex;
          salt_hex = to_hex salt;
          smart_account_address = predicted;
          deployed = after;
        })
    give (record {
      credential_id = reg.credential_id;
      key_data_hex = key_data_hex;
      salt_hex = to_hex salt;
      smart_account_address = predicted;
      deployed = after;
      already_deployed = result.already_deployed || before;
    })

  -- The newest registration challenge of the session's user is looked up.
  unfoldable pub registration_finish : FinishRequest → Route Event Registered Registered
  registration_finish req = do
    session ← get_or_create_session env s req.cookie
    body ← finish_body req.body
    now ← clock_now env s
    found ←
        call (λ log. s.find_challenge log (some session.user_id) registration)
          (found_challenge (some session.user_id) registration)
    challenge ← unexpired "Registration challenge expired" now found
    expected ← or_400 (
        finish_verification parse_url env challenge.origin challenge.rp_id
          (client_data_origin parse_origin body.0.client_data) body.1 req.headers)
    let check : Check = record {
      challenge = challenge.challenge;
      origin = expected.origin;
      rp_ids = expected.rp_ids;
    }
    verification ←
        call (λ log. s.verify_registration log body.0 check) (verified_registration body.0 check)
    reg ← or_fail 400 "Registration verification failed" verification
    register session.user_id now challenge.id body.0 reg

  abbrev pub registration_finish_post :
      FinishRequest → List Event → Response Registered × List Event
  registration_finish_post req = catch_500 (registration_finish req)
