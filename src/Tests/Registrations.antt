-- ===== src/Tests/Registrations.antt =====
-- A registration at a concrete request.
use latch_playground.Common.{ℕ, Option, none, some, List, [], ◌∷◌, ◌++◌, false, Bool, replicate}
use latch_playground.Common.Result.{Result, err}
use latch_playground.Text.{Text, lit}
use latch_playground.Bytes.Hex.{to_hex}
use latch_playground.Bytes.Base64.{from_base64_url}
use latch_playground.Passkey.{CborValue, bytes}
use latch_playground.Ceremony.{absent}
use latch_playground.Server.{Event, Registration}
use latch_playground.Factory.{derive_salt}
use latch_playground.Registration.{FinishRequest, Registered, registration_finish_post}
use latch_playground.Tests.World.{bare_environment, bare_headers, services, no_url, site_data}
use latch_playground.Tests.Chain.{sdk, config}
use latch_playground.Requests.{members}

abbrev ones : ℕ → CborValue
ones n = bytes (replicate 32 1)

abbrev read_ones : List ℕ → Option (ℕ → CborValue)
read_ones cose = some ones

abbrev register_request : FinishRequest
register_request = record {
  cookie = none;
  headers = bare_headers;
  body = members (record {
    response = some (record { client_data = []; transports = none });
    chrome_extension_id = absent;
  });
}

abbrev one_key : List ℕ
one_key = 4 ∷ (replicate 32 1 ++ replicate 32 1)

abbrev one_key_hex : Text
one_key_hex = to_hex (one_key ++ from_base64_url (lit "aw"))

abbrev answer : Registered
answer = record {
  credential_id = lit "aw";
  key_data_hex = one_key_hex;
  salt_hex = to_hex (derive_salt sdk one_key_hex);
  smart_account_address = lit "C";
  deployed = false;
  already_deployed = false;
}

abbrev registration_log : List Event
registration_log =
    (registration_finish_post no_url site_data read_ones sdk bare_environment config services
      register_request []).1
