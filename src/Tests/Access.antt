-- ===== src/Tests/Access.antt =====
-- Cross-origin access and recovery at concrete requests.
use latch_playground.Common.{ℕ, ◌≡◌, refl, ◌↔◌, true, Option, none, some, List, [], ◌∷◌}
use latch_playground.Common.Result.{ok}
use latch_playground.Text.{Text, lit, is_given, includes}
use latch_playground.Extension.{Environment}
use latch_playground.Ceremony.{text}
use latch_playground.Effects.{json, done, ◌>>=◌, call}
use latch_playground.Server.{Event, clock, found_owned, found_intent}
use latch_playground.Session.{SessionInfo, create_session_for, get_or_create_session}
use latch_playground.Cors.{allowed_origins, allow_origin, middleware}
use latch_playground.Cors.Granted.{header_of, middleware_iff}
use latch_playground.Recovery.{
  RecoveryBody, RecoveryRequest, recovery_body, label_or, recover, recover_post,
}
use latch_playground.Recovery.Owned.{written, recover-written}
use latch_playground.Tests.World.{bare_environment, services}
use latch_playground.Requests.{members, string_member}

abbrev open_environment : Environment
open_environment = record bare_environment {
  api_cors_allowed_origins = some (lit "https://a, https://b");
}

middleware_iff_example :
    (header_of allow_origin
        (middleware open_environment (lit "GET") (some (lit "https://b"))).headers
      ≡ some (lit "https://b"))
    ↔ ((some (lit "https://b") ≡ some (lit "https://b"))
        × (is_given (lit "https://b") ≡ true)
        × (includes (allowed_origins open_environment) (lit "https://b") ≡ true))
middleware_iff_example =
    middleware_iff open_environment (lit "GET") (some (lit "https://b")) (lit "https://b")

abbrev recovery_request : RecoveryRequest
recovery_request = record {
  cookie = none;
  body = members (record { smart_account_address = text (lit "C"); label = none });
}

abbrev recovery_log : List Event
recovery_log = (recover_post bare_environment services recovery_request []).1

recovers : recover_post bare_environment services recovery_request [] ≡ (json tt, recovery_log)
unfolding recover get_or_create_session create_session_for ◌>>=◌ call
recovers = refl

recover-written_example :
    (session : SessionInfo) × (mid : List Event) × (body : RecoveryBody) × (start : List Event)
    × (address owned : Text) × (existing : Option Text) × (now : ℕ) × (get_or_create_session
          bare_environment services {R = Unit} none []
        ≡ (done session, mid))
    × (recovery_body recovery_request.body mid ≡ (done body, start))
    × (string_member body.smart_account_address ≡ some address)
    × (recovery_log
        ≡ written existing (record {
          smart_account_address = address;
          label = label_or body.label;
          created_at = now;
        })
          ∷ clock (ok now)
          ∷ found_intent address (ok existing)
          ∷ found_owned session.user_id address (ok (some owned))
          ∷ start)
recover-written_example = recover-written bare_environment services recovery_request [] recovers
