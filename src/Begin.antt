-- ===== src/Begin.antt =====
-- The routes that begin a ceremony: app/api/webauthn/registration/begin/route.ts and
-- app/api/webauthn/authentication/begin/route.ts.
use latch_playground.Common.{
  ℕ, ◌+◌, ◌*◌, Bool, true, false, Option, none, some, List, [], ◌∷◌, ltb, if◌then◌else◌, length,
  String,
}
use latch_playground.Common.Result.{Result, ok, err}
use latch_playground.Text.{Text, lit, is_given}
use latch_playground.Extension.{Environment, Headers, or_empty}
use latch_playground.Ceremony.{
  CeremonyError, message, JsonMember, absent, Context, ceremony_context,
}
use latch_playground.Effects.{Response, Route, ◌>>=◌, ◌>>◌, give, fail_with, throw, call, catch_500}
use latch_playground.Server.{
  Event, Services, Purpose, registration, authentication, Options, made_registration_options,
  made_authentication_options, listed_credentials, created_challenge,
}
use latch_playground.Session.{SessionInfo, get_or_create_session, clock_now, new_id}
use latch_playground.Requests.{JsonBody, malformed, null, members}
pub mod Stored

pub record BeginBody : Type 0 where
  pub display_name : Option Text
  pub chrome_extension_id : JsonMember

pub record BeginRequest : Type 0 where
  pub cookie : Option Text
  pub headers : Headers
  pub body : JsonBody BeginBody

-- 5 minutes, in milliseconds
abbrev pub challenge_ttl_ms : ℕ
challenge_ttl_ms = 5 * 60 * 1000

abbrev or_local_user : Option Text → Text
or_local_user none = lit "local-user"
or_local_user (some []) = lit "local-user"
or_local_user (some (c ∷ s)) = c ∷ s

abbrev issued_rp_id : Text → Option Text → Text
issued_rp_id rp_id none = rp_id
issued_rp_id rp_id (some id) = id

-- `await request.json().catch(() => ({}))`, of which a member is read.
abbrev pub read_body : JsonBody BeginBody → Route Event Options BeginBody
read_body malformed = give (record { display_name = none; chrome_extension_id = absent })
read_body null = throw "Cannot read properties of null"
read_body (members b) = give b

-- The members that `read_body` gives, if it does not throw.
abbrev pub members_of : JsonBody BeginBody → Option BeginBody
members_of malformed = some (record { display_name = none; chrome_extension_id = absent })
members_of null = none
members_of (members b) = some b

abbrev pub or_400 : {R A : Type 0} → Result CeremonyError A → Route Event R A
or_400 (ok a) = give a
or_400 (err e) = fail_with 400 (message e)

-- The credentials that are allowed, if there is one.
abbrev allow : List Text → Option (List Text)
allow [] = none
allow (id ∷ ids) = some (id ∷ ids)

module _ (parse_url : Text → Option (Text × Text)) (env : Environment) (s : Services) where
  -- The challenge is kept for the session's user, with the RP id that the options name.
  unfoldable pub store_challenge :
      Purpose → String → (user_id : Text) → Context → Options → Route Event Options Options
  store_challenge purpose missing user_id c options =
      if is_given options.challenge
      then (do
        now ← clock_now env s
        id ← new_id env s
        call
            (λ log.
              s.create_challenge log id user_id purpose options.challenge
                (issued_rp_id c.rp_id options.rp_id) c.origin (now + challenge_ttl_ms) now)
            (created_challenge id user_id purpose options.challenge
              (issued_rp_id c.rp_id options.rp_id) c.origin (now + challenge_ttl_ms) now)
        give options)
      else throw missing

  unfoldable pub registration_begin : BeginRequest → Route Event Options Options
  registration_begin req = do
    session ← get_or_create_session env s req.cookie
    body ← read_body req.body
    c ← or_400 (ceremony_context parse_url env req.headers body.chrome_extension_id)
    options ←
        call
          (λ log.
            s.make_registration_options log c.rp_id session.user_id
              (or_local_user body.display_name))
          (made_registration_options c.rp_id session.user_id (or_local_user body.display_name))
    store_challenge registration "WebAuthn registration options missing challenge" session.user_id c
        options

  unfoldable pub authentication_begin : BeginRequest → Route Event Options Options
  authentication_begin req = do
    session ← get_or_create_session env s req.cookie
    body ← read_body req.body
    c ← or_400 (ceremony_context parse_url env req.headers body.chrome_extension_id)
    creds ←
        call (λ log. s.list_credentials log session.user_id) (listed_credentials session.user_id)
    options ←
        call (λ log. s.make_authentication_options log c.rp_id (allow creds))
          (made_authentication_options c.rp_id (allow creds))
    store_challenge authentication "WebAuthn authentication options missing challenge"
        session.user_id c options

  abbrev pub registration_begin_post : BeginRequest → List Event → Response Options × List Event
  registration_begin_post req = catch_500 (registration_begin req)

  abbrev pub authentication_begin_post : BeginRequest → List Event → Response Options × List Event
  authentication_begin_post req = catch_500 (authentication_begin req)
