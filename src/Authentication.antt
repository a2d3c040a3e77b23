-- ===== src/Authentication.antt =====
-- The route that finishes an authentication: app/api/webauthn/authentication/finish/route.ts. Of the
-- client data, `JSON.parse` with the member `origin` is a parameter, from the decoded bytes.
use latch_playground.Common.{
  ℕ, Bool, true, false, not, Option, none, some, List, [], ◌∷◌, ltb, if◌then◌else◌, String,
}
use latch_playground.Common.Result.{Result, ok, err}
use latch_playground.Text.{Text, text_eq}
use latch_playground.Bytes.Base64.{from_base64_url}
use latch_playground.Extension.{Environment, Headers}
use latch_playground.Ceremony.{CeremonyError, message, JsonMember, Expected, finish_verification}
use latch_playground.Effects.{
  Response, Route, ◌>>=◌, ◌>>◌, give, fail_with, throw, call, catch_500, unless, or_fail,
}
use latch_playground.Server.{
  Event, Services, authentication, ChallengeRow, CredentialRow, AccountRow, ListedAccount,
  Assertion, Check, found_challenge, found_credential, verified_assertion, updated_sign_count,
  moved_credential, found_account, listed_accounts, deleted_challenge,
}
use latch_playground.Session.{SessionInfo, get_or_create_session, clock_now}
use latch_playground.Requests.{JsonBody, malformed, null, members}
pub mod LoggedIn
pub mod Justified

-- The members of the body that are read.
pub record FinishBody : Type 0 where
  pub response : Option Assertion
  pub chrome_extension_id : JsonMember

pub record FinishRequest : Type 0 where
  pub cookie : Option Text
  pub headers : Headers
  pub body : JsonBody FinishBody

pub record Login : Type 0 where
  pub account : AccountRow
  pub active_credential_id : Text
  pub accounts : List ListedAccount

-- `getOriginFromClientDataJSON`
abbrev pub client_data_origin : (List ℕ → Option Text) → List ℕ → Option Text
client_data_origin parse_origin client_data = parse_origin (from_base64_url client_data)

-- The body, which must be JSON, and its response.
abbrev pub finish_body : {R : Type 0} → JsonBody FinishBody → Route Event R (Assertion × JsonMember)
finish_body malformed = throw "Unexpected token in JSON"
finish_body null = fail_with 400 "Missing response"
finish_body (members b) = elim b.response [
  | none ↦ fail_with 400 "Missing response"
  | some r ↦ give (r, b.chrome_extension_id)
]

-- The row of a challenge that has not expired.
abbrev pub unexpired : {R : Type 0} → String → ℕ → Option ChallengeRow → Route Event R ChallengeRow
unexpired m now none = fail_with 400 m
unexpired m now (some row) = if ltb now row.expires_at then give row else fail_with 400 m

abbrev pub or_400 : {R A : Type 0} → Result CeremonyError A → Route Event R A
or_400 (ok a) = give a
or_400 (err e) = fail_with 400 (message e)

module _ (parse_url : Text → Option (Text × Text)) (parse_origin : List ℕ → Option Text)
    (env : Environment) (s : Services) where
  -- The credential goes over to the session's user, with its accounts, if it was another's.
  unfoldable pub attach : (credential_id owner user_id : Text) → Route Event Login Unit
  attach credential_id owner user_id =
      if text_eq owner user_id
      then give tt
      else call (λ log. s.move_credential log credential_id user_id)
          (moved_credential credential_id user_id)

  -- From the verified assertion on.
  unfoldable pub log_in :
      SessionInfo → ChallengeRow → CredentialRow → Text → ℕ → Route Event Login Login
  log_in session challenge cred credential_id new_counter = do
    call (λ log. s.update_sign_count log credential_id new_counter)
        (updated_sign_count credential_id new_counter)
    attach credential_id cred.user_id session.user_id
    found ← call (λ log. s.find_account log credential_id) (found_account credential_id)
    account ← or_fail 500 "Credential verified, but no smart account mapping exists." found
    accounts ← call (λ log. s.list_accounts log session.user_id) (listed_accounts session.user_id)
    call (λ log. s.delete_challenge log challenge.id) (deleted_challenge challenge.id)
    give (record { account = account; active_credential_id = credential_id; accounts = accounts })

  unfoldable pub check_assertion :
      SessionInfo → ChallengeRow → Assertion → Expected → Route Event Login Login
  check_assertion session challenge response expected = do
    found ← call (λ log. s.find_credential log response.id) (found_credential response.id)
    cred ← or_fail 404 "No account found for this passkey (unknown credentialId)." found
    let check : Check = record {
      challenge = challenge.challenge;
      origin = expected.origin;
      rp_ids = expected.rp_ids;
    }
    verification ←
        call (λ log. s.verify_assertion log response check cred)
          (verified_assertion response check cred)
    new_counter ← or_fail 400 "Authentication verification failed" verification
    log_in session challenge cred response.id new_counter

  -- The newest authentication challenge is looked up, whoever it was issued for.
  unfoldable pub authentication_finish : FinishRequest → Route Event Login Login
  authentication_finish req = do
    session ← get_or_create_session env s req.cookie
    body ← finish_body req.body
    now ← clock_now env s
    found ←
        call (λ log. s.find_challenge log none authentication) (found_challenge none authentication)
    challenge ← unexpired "Authentication challenge expired" now found
    expected ← or_400 (
        finish_verification parse_url env challenge.origin challenge.rp_id
          (client_data_origin parse_origin body.0.client_data) body.1 req.headers)
    check_assertion session challenge body.0 expected

  abbrev pub authentication_finish_post : FinishRequest → List Event → Response Login × List Event
  authentication_finish_post req = catch_500 (authentication_finish req)
