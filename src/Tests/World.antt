-- ===== src/Tests/World.antt =====
-- A server whose services answer at once: the clock stands at 1000, and one account is known.
use latch_playground.Common.{ℕ, true, Option, none, some, List, [], ◌∷◌, pos, replicate}
use latch_playground.Common.Result.{ok}
use latch_playground.Text.{Text, lit}
use latch_playground.Extension.{Environment, Headers}
use latch_playground.Chain.{
  passed, accepted, success, AuthEntry, of_address, known, scv_void, invocation, contract_fn,
  no_values, no_invocations, Passed, string, decoded,
}
use latch_playground.Server.{
  Services, ChallengeRow, CredentialRow, AccountRow, ListedAccount, Registration, Options,
}

abbrev pub bare_environment : Environment
bare_environment = record {
  webauthn_extension_ids = none;
  webauthn_rp_id = none;
  webauthn_origin = none;
  api_cors_allowed_origins = none;
  node_env = none;
}

abbrev pub bare_headers : Headers
bare_headers = record {
  origin = none;
  referer = none;
  host = none;
  x_forwarded_proto = none;
  x_latch_chrome_extension_id = none;
  x_chrome_extension_id = none;
}

abbrev pub site : Text
site = lit "http://localhost"

abbrev pub issued : ChallengeRow
issued = record {
  id = lit "c";
  challenge = lit "x";
  expires_at = 2000;
  rp_id = lit "localhost";
  origin = site;
}

abbrev pub known_credential : CredentialRow
known_credential = record {
  user_id = lit "v";
  credential_id = lit "k";
  cose_public_key = [];
  sign_count = 6;
}

abbrev pub known_account : AccountRow
known_account = record { smart_account_address = lit "C"; deployed = true; key_data_hex = lit "04" }

abbrev pub listed_account : ListedAccount
listed_account = record {
  smart_account_address = lit "C";
  credential_id = lit "k";
  deployed = true;
}

abbrev pub made_options : Options
made_options = record { challenge = lit "y"; rp_id = none }

abbrev pub registered : Registration
registered = record {
  credential_id = lit "aw";
  public_key = [];
  counter = 0;
  transports = none;
  device_type = lit "multiDevice";
  backed_up = true;
}

-- The entry of the account C, for a call of its counter.
abbrev pub call_entry : AuthEntry
call_entry = record {
  credentials =
      of_address
        (record { address = known (lit "C"); nonce = pos 5; expiration = 0; signature = scv_void });
  root = invocation (contract_fn (known (lit "N")) (lit "increment") no_values) no_invocations;
}

abbrev pub passed_once : Passed
passed_once = record {
  resources = lit "r";
  min_resource_fee = lit "7";
  return_value = some (string (lit "C"));
  auth = decoded call_entry ∷ [];
  latest_ledger = 40;
}

abbrev pub services : Services
services = record {
  now = λ log. ok 1000;
  random_uuid = λ log. ok (lit "u");
  find_session = λ log id. ok none;
  extend_session = λ log id at. ok tt;
  create_session = λ log id user at until. ok tt;
  make_registration_options = λ log rp user name. ok made_options;
  make_authentication_options = λ log rp ids. ok made_options;
  list_credentials = λ log user. ok [];
  create_challenge = λ log id user purpose challenge rp origin until at. ok tt;
  find_challenge = λ log user purpose. ok (some issued);
  delete_challenge = λ log id. ok tt;
  find_credential = λ log id. ok (some known_credential);
  verify_assertion = λ log response check row. ok (some 7);
  update_sign_count = λ log id n. ok tt;
  move_credential = λ log id user. ok tt;
  find_account = λ log id. ok (some known_account);
  list_accounts = λ log user. ok (listed_account ∷ []);
  random_public_key = λ log. ok (lit "G");
  make_raw_key = λ log. ok (replicate 32 200);
  make_nonce = λ log. ok (replicate 8 255);
  get_account = λ log key. ok 4;
  get_ledger_entries = λ log address. ok 0;
  simulate_transaction = λ log tx. ok (passed passed_once);
  send_transaction = λ log tx p secret. ok (accepted (lit "h"));
  get_transaction = λ log hash. ok (success (some (lit "C")));
  check_horizon = λ log key. ok true;
  ask_friendbot = λ log key. ok true;
  find_owned = λ log user address. ok (some address);
  find_intent = λ log address. ok (some (lit "i"));
  update_signer = λ log id row. ok tt;
  create_signer = λ log row. ok tt;
  verify_registration = λ log response check. ok (some registered);
  find_owner = λ log id. ok none;
  upsert_credential = λ log id row at. ok tt;
  upsert_account = λ log id row at. ok tt;
}

abbrev pub no_url : Text → Option (Text × Text)
no_url s = none

abbrev pub site_data : List ℕ → Option Text
site_data client_data = some site
