-- ===== src/Server.antt =====
-- What the routes call: the database through Prisma (prisma/schema.prisma), the clock, random ids,
-- the WebAuthn library and the network. Each is a function of the log, so any behaviour of theirs is covered.
use latch_playground.Common.{ℕ, Bool, Option, List, String}
use latch_playground.Common.Result.{Result}
use latch_playground.Text.{Text}
use latch_playground.Chain.{Tx, Passed, Simulation, Sent, TxStatus}

pub data SameSite : Type 0 where
  same_site_none same_site_lax : SameSite

pub record CookieAttrs : Type 0 where
  pub same_site : SameSite
  pub secure : Bool

pub data Purpose : Type 0 where
  registration authentication : Purpose

-- The columns of `sessions`, `webauthn_challenges` and `webauthn_credentials` that are selected.
pub record SessionRow : Type 0 where
  pub id : Text
  pub user_id : Text
  pub expires_at : ℕ

pub record ChallengeRow : Type 0 where
  pub id : Text
  pub challenge : Text
  pub expires_at : ℕ
  pub rp_id : Text
  pub origin : Text

pub record CredentialRow : Type 0 where
  pub user_id : Text
  pub credential_id : Text
  pub cose_public_key : List ℕ
  pub sign_count : ℕ

pub record AccountRow : Type 0 where
  pub smart_account_address : Text
  pub deployed : Bool
  pub key_data_hex : Text

-- The options that the WebAuthn library makes: a challenge, and the RP id if it names one.
pub record Options : Type 0 where
  pub challenge : Text
  pub rp_id : Option Text

-- A row of the list of a user's accounts.
pub record ListedAccount : Type 0 where
  pub smart_account_address : Text
  pub credential_id : Text
  pub deployed : Bool

-- The members of the response of an authentication that the routes read.
pub record Assertion : Type 0 where
  pub id : Text
  pub client_data : List ℕ

-- What a finish request's response is checked against.
pub record Check : Type 0 where
  pub challenge : Text
  pub origin : Text
  pub rp_ids : List Text

-- What the verification of a registration finds.
pub record Registration : Type 0 where
  pub credential_id : Text
  pub public_key : List ℕ
  pub counter : ℕ
  pub transports : Option (List Text)
  pub device_type : Text
  pub backed_up : Bool

-- The members of the response of a registration that the routes read.
pub record Created : Type 0 where
  pub client_data : List ℕ
  pub transports : Option (List Text)

-- The columns that a registration writes, besides the ids and times of new rows.
pub record CredentialWrite : Type 0 where
  pub user_id : Text
  pub credential_id : Text
  pub credential_id_bytes : List ℕ
  pub cose_public_key : List ℕ
  pub p256_raw_public_key : List ℕ
  pub sign_count : ℕ
  pub transports : Option (List Text)
  pub device_type : Text
  pub backed_up : Bool

pub record AccountWrite : Type 0 where
  pub user_id : Text
  pub credential_id : Text
  pub key_data_hex : Text
  pub salt_hex : Text
  pub smart_account_address : Text
  pub deployed : Bool

-- The id and the user of a credential.
pub record Owner : Type 0 where
  pub id : Text
  pub user_id : Text

-- The columns of a row of `account_signers` that stands for a backup passkey to come.
pub record SignerWrite : Type 0 where
  pub smart_account_address : Text
  pub label : Text
  pub created_at : ℕ

-- The in-memory caches of the smart-account routes.
pub data CacheName : Type 0 where
  webauthn_cache freighter_cache factory_cache deploy_cache : CacheName

-- One call, with its arguments and, where it has one, its answer.
pub data Event : Type 0 where
  clock : Result String ℕ → Event
  random_id : Result String Text → Event
  found_session : Text → Result String (Option SessionRow) → Event
  extended_session : Text → ℕ → Result String Unit → Event
  created_session :
      (session_id user_id : Text) → (created_at expires_at : ℕ) → Result String Unit → Event
  set_cookie : (name value : Text) → (max_age : ℕ) → CookieAttrs → Event
  made_registration_options : (rp_id user_id user_name : Text) → Result String Options → Event
  made_authentication_options : Text → Option (List Text) → Result String Options → Event
  listed_credentials : Text → Result String (List Text) → Event
  created_challenge :
      (id user_id : Text)
      → Purpose
      → (challenge rp_id origin : Text) → (expires_at created_at : ℕ) → Result String Unit
      → Event
  found_challenge : Option Text → Purpose → Result String (Option ChallengeRow) → Event
  deleted_challenge : Text → Result String Unit → Event
  found_credential : Text → Result String (Option CredentialRow) → Event
  verified_assertion : Assertion → Check → CredentialRow → Result String (Option ℕ) → Event
  updated_sign_count : Text → ℕ → Result String Unit → Event
  moved_credential : (credential_id user_id : Text) → Result String Unit → Event
  found_account : Text → Result String (Option AccountRow) → Event
  listed_accounts : Text → Result String (List ListedAccount) → Event
  verified_registration : Created → Check → Result String (Option Registration) → Event
  found_owner : Text → Result String (Option Owner) → Event
  upserted_credential :
      (id : Text) → CredentialWrite → (created_at : ℕ) → Result String Unit → Event
  upserted_account : (id : Text) → AccountWrite → (created_at : ℕ) → Result String Unit → Event
  found_owned : (user_id address : Text) → Result String (Option Text) → Event
  found_intent : (address : Text) → Result String (Option Text) → Event
  updated_signer : (id : Text) → SignerWrite → Result String Unit → Event
  created_signer : SignerWrite → Result String Unit → Event
  waited : ℕ → Event
  random_keypair : Result String Text → Event
  fetched_account : Text → Result String ℕ → Event
  counted_entries : Text → Result String ℕ → Event
  simulated : Tx → Result String Simulation → Event
  sent : Tx → Passed → (secret : Text) → Result String Sent → Event
  polled : Text → Result String TxStatus → Event
  checked_horizon : Text → Result String Bool → Event
  asked_friendbot : Text → Result String Bool → Event
  random_raw_key : Result String (List ℕ) → Event
  random_nonce : Result String (List ℕ) → Event
  cache_set : CacheName → (key address : Text) → Event
  account_cache_set : CacheName → (key address g_address : Text) → Event

pub record Services : Type 0 where
  pub now : List Event → Result String ℕ
  pub random_uuid : List Event → Result String Text
  pub find_session : List Event → Text → Result String (Option SessionRow)
  pub extend_session : List Event → Text → ℕ → Result String Unit
  pub create_session :
      List Event → (session_id user_id : Text) → (created_at expires_at : ℕ) → Result String Unit
  pub make_registration_options :
      List Event → (rp_id user_id user_name : Text) → Result String Options
  pub make_authentication_options : List Event → Text → Option (List Text) → Result String Options
  pub list_credentials : List Event → Text → Result String (List Text)
  pub create_challenge :
      List Event
      → (id user_id : Text) → Purpose
      → (challenge rp_id origin : Text) → (expires_at created_at : ℕ) → Result String Unit
  pub find_challenge : List Event → Option Text → Purpose → Result String (Option ChallengeRow)
  pub delete_challenge : List Event → Text → Result String Unit
  pub find_credential : List Event → Text → Result String (Option CredentialRow)
  pub verify_assertion : List Event → Assertion → Check → CredentialRow → Result String (Option ℕ)
  pub update_sign_count : List Event → Text → ℕ → Result String Unit
  pub move_credential : List Event → (credential_id user_id : Text) → Result String Unit
  pub find_account : List Event → Text → Result String (Option AccountRow)
  pub list_accounts : List Event → Text → Result String (List ListedAccount)
  pub random_public_key : List Event → Result String Text
  pub make_raw_key : List Event → Result String (List ℕ)
  pub make_nonce : List Event → Result String (List ℕ)
  pub get_account : List Event → Text → Result String ℕ
  pub get_ledger_entries : List Event → Text → Result String ℕ
  pub simulate_transaction : List Event → Tx → Result String Simulation
  pub send_transaction : List Event → Tx → Passed → (secret : Text) → Result String Sent
  pub get_transaction : List Event → Text → Result String TxStatus
  pub check_horizon : List Event → Text → Result String Bool
  pub ask_friendbot : List Event → Text → Result String Bool
  pub verify_registration : List Event → Created → Check → Result String (Option Registration)
  pub find_owner : List Event → Text → Result String (Option Owner)
  pub upsert_credential :
      List Event → (id : Text) → CredentialWrite → (created_at : ℕ) → Result String Unit
  pub upsert_account :
      List Event → (id : Text) → AccountWrite → (created_at : ℕ) → Result String Unit
  pub find_owned : List Event → (user_id address : Text) → Result String (Option Text)
  pub find_intent : List Event → (address : Text) → Result String (Option Text)
  pub update_signer : List Event → (id : Text) → SignerWrite → Result String Unit
  pub create_signer : List Event → SignerWrite → Result String Unit
