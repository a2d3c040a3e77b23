-- ===== src/Tests/Routes.antt =====
-- Routes at concrete requests.
use latch_playground.Common.{
  length, ℕ, ◌<◌, ◌+◌, ◌≡◌, ◌≢◌, refl, sym, ap, ◌⊎◌, Option, none, some, List, [], ◌∷◌, arith,
  ltb→lt,
}
use latch_playground.Common.Result.{Result, ok, err}
use latch_playground.Text.{
  Text, lit, text_eq, drop_start, drop_end, is_space, trim, lower_unit, to_lower, starts_with,
  split, includes, unique,
}
use latch_playground.Extension.{is_extension_id, id_of_url, id_of_headers}
use latch_playground.Ceremony.{
  absent, JsonMember, Context, Expected, ceremony_context, finish_verification, begin_sources,
  parts_of, push_ids, rp_id_of_request, origin_of_request, expected_rp_ids, finish_for_site,
  finish_sources,
}
use latch_playground.Effects.{Exit, early, thrown, json, done, ◌>>=◌, call}
use latch_playground.Server.{
  Event, Assertion, Services, SessionRow, Options, registration, authentication, ChallengeRow,
  clock, found_challenge,
}
use latch_playground.Session.{SessionInfo, create_session_for, keep_session, get_or_create_session}
use latch_playground.Session.Continuity.{sessions, KeepsSessions, get_or_create_session_twice}
use latch_playground.Session.Cookie.{sid_of, brought}
use latch_playground.Begin.{
  BeginBody, BeginRequest, members_of, store_challenge, registration_begin, authentication_begin,
  registration_begin_post, authentication_begin_post,
}
use latch_playground.Begin.Stored.{
  IsStored, registration_begin-IsStored, authentication_begin-IsStored,
}
use latch_playground.Authentication.{
  FinishRequest, Login, client_data_origin, attach, log_in, check_assertion, authentication_finish,
  authentication_finish_post,
}
use latch_playground.Authentication.LoggedIn.{
  response_of, IsCheckedLogin, authentication_finish-IsCheckedLogin,
}
use latch_playground.Authentication.Justified.{IsJustified, authentication_finish-IsJustified}
use latch_playground.Tests.World.{
  bare_environment, bare_headers, known_account, listed_account, services, no_url, site_data,
  made_options,
}
use latch_playground.Requests.{malformed, members}

abbrev begin_request : BeginRequest
begin_request = record { cookie = none; headers = bare_headers; body = malformed }

abbrev finish_request : FinishRequest
finish_request = record {
  cookie = none;
  headers = bare_headers;
  body = members (record {
    response = some (record { id = lit "k"; client_data = [] });
    chrome_extension_id = absent;
  });
}

abbrev login : Login
login = record {
  account = known_account;
  active_credential_id = lit "k";
  accounts = listed_account ∷ [];
}

abbrev registration_log : List Event
registration_log = (registration_begin_post no_url bare_environment services begin_request []).1

abbrev authentication_log : List Event
authentication_log = (authentication_begin_post no_url bare_environment services begin_request []).1

abbrev login_log : List Event
login_log =
    (authentication_finish_post no_url site_data bare_environment services finish_request []).1

registration_answers :
    registration_begin_post no_url bare_environment services begin_request []
    ≡ (json made_options, registration_log)
unfolding registration_begin get_or_create_session create_session_for store_challenge ◌>>=◌ call
    ceremony_context begin_sources parts_of id_of_headers id_of_url unique rp_id_of_request
    origin_of_request split trim drop_start drop_end latch_playground.Common.Result.◌>>=◌
registration_answers = refl

registration_begin-IsStored_example :
    (session : SessionInfo) × (mid : List Event) × (body : BeginBody) × (c : Context)
    × (get_or_create_session bare_environment services {R = Options} none [] ≡ (done session, mid))
    × (members_of malformed ≡ some body)
    × (ceremony_context no_url bare_environment bare_headers body.chrome_extension_id ≡ ok c)
    × IsStored registration session.user_id c made_options registration_log
registration_begin-IsStored_example =
    registration_begin-IsStored no_url bare_environment services begin_request []
      registration_answers

authentication_answers :
    authentication_begin_post no_url bare_environment services begin_request []
    ≡ (json made_options, authentication_log)
unfolding authentication_begin get_or_create_session create_session_for store_challenge ◌>>=◌ call
    ceremony_context begin_sources parts_of id_of_headers id_of_url unique rp_id_of_request
    origin_of_request split trim drop_start drop_end latch_playground.Common.Result.◌>>=◌
authentication_answers = refl

authentication_begin-IsStored_example :
    (session : SessionInfo) × (mid : List Event) × (body : BeginBody) × (c : Context)
    × (get_or_create_session bare_environment services {R = Options} none [] ≡ (done session, mid))
    × (members_of malformed ≡ some body)
    × (ceremony_context no_url bare_environment bare_headers body.chrome_extension_id ≡ ok c)
    × IsStored authentication session.user_id c made_options authentication_log
authentication_begin-IsStored_example =
    authentication_begin-IsStored no_url bare_environment services begin_request []
      authentication_answers

login_answers :
    authentication_finish_post no_url site_data bare_environment services finish_request []
    ≡ (json login, login_log)
unfolding authentication_finish get_or_create_session create_session_for check_assertion log_in
    attach ◌>>=◌ call finish_verification finish_sources parts_of id_of_headers id_of_url unique
    finish_for_site text_eq expected_rp_ids push_ids trim drop_start drop_end is_space to_lower
    lower_unit starts_with includes is_extension_id latch_playground.Common.Result.◌>>=◌
login_answers = refl

authentication_finish-IsCheckedLogin_example :
    (session : SessionInfo) × (mid : List Event) × (body : Assertion × JsonMember) × (now : ℕ)
    × (challenge : ChallengeRow) × (expected : Expected) × (get_or_create_session bare_environment
          services {R = Login} none []
        ≡ (done session, mid))
    × (response_of finish_request.body ≡ some body)
    × (now < challenge.expires_at)
    × (finish_verification no_url bare_environment challenge.origin challenge.rp_id
          (client_data_origin site_data body.0.client_data)
          body.1
          bare_headers
        ≡ ok expected)
    × IsCheckedLogin session challenge body.0 expected
        (found_challenge none authentication (ok (some challenge)) ∷ clock (ok now) ∷ mid)
        login
        login_log
authentication_finish-IsCheckedLogin_example =
    authentication_finish-IsCheckedLogin no_url site_data bare_environment services finish_request
      [] login_answers

authentication_finish-IsJustified_example : IsJustified login_log
authentication_finish-IsJustified_example =
    authentication_finish-IsJustified no_url site_data bare_environment services finish_request []
      tt

-- The services with a table of sessions that is empty at first.
abbrev empty_table : Text → Option SessionRow
empty_table id = none

abbrev remembering : Services
remembering = record services {
  now = λ log. ok (1000 + length log);
  find_session = λ log id. ok (sessions empty_table log id);
}

remembering-KeepsSessions : KeepsSessions remembering empty_table
remembering-KeepsSessions = record { found = λ log id h. ground arith; keyed = λ id row h. cc }

abbrev first_session : SessionInfo
first_session = record { session_id = lit "u"; user_id = lit "u" }

abbrev first_log : List Event
first_log = (get_or_create_session bare_environment remembering {R = Unit} none []).1

abbrev second_log : List Event
second_log =
    (get_or_create_session bare_environment remembering {R = Unit} (some (lit "u")) first_log).1

abbrev session_of : Exit Unit SessionInfo → SessionInfo
session_of (done info) = info
session_of (early n m) = record { session_id = []; user_id = [] }
session_of (thrown m) = record { session_id = []; user_id = [] }

-- The session of a second request, with the cookie that the first one set.
abbrev second_session : SessionInfo
second_session = session_of (
    (get_or_create_session bare_environment remembering {R = Unit}
      (brought 1000 (1000 + length first_log) (sid_of first_log)) first_log).0)

get_or_create_session_twice_example : second_session ≡ first_session
unfolding get_or_create_session create_session_for keep_session sessions sid_of text_eq ◌>>=◌ call
get_or_create_session_twice_example =
    get_or_create_session_twice bare_environment remembering empty_table {R = Unit}
      remembering-KeepsSessions none 1000 (1000 + length first_log) [] first_log first_log
      second_log first_session second_session refl refl refl refl (ltb→lt _ _ refl) (λ e. cc) refl
