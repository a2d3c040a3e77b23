-- ===== src/Ceremony.antt =====
-- The ceremony parameters of WebAuthn: `resolveWebauthnCeremonyContext`,
-- `resolveWebauthnFinishVerification` and what they call, in lib/webauthn-server.ts. A thrown
-- `WebauthnCeremonyConfigError` is a value of `CeremonyError`, one constructor for each message.
use latch_playground.Common.{
  ℕ, Bool, not, ◌&&◌, ◌||◌, Option, none, some, List, [], ◌∷◌, ◌++◌, map, ltb, if◌then◌else◌,
  length, filter, String,
}
use latch_playground.Common.Result.{Result, ok, err, ◌>>=◌, ◌>>◌, require}
use latch_playground.Text.{Text, lit, text_eq, trim, to_lower, split, is_given, includes, unique}
use latch_playground.Extension.{
  Environment, Headers, or_empty, or_else, is_extension_id, scheme, rp_id_candidates,
  allowed_extension_ids, id_of_url, id_of_headers, normalize_origin, checked_id,
}
pub mod Sources
pub mod Begin
pub mod Finish

pub data CeremonyError : Type 0 where
  missing_client_data_origin id_not_string invalid_id_format conflicting_ids : CeremonyError
  empty_allowlist not_allowed origin_mismatch challenge_mismatch : CeremonyError

-- The message of each error.
unfoldable pub message : CeremonyError → String
message missing_client_data_origin = "Missing clientData origin"
message id_not_string = "chromeExtensionId must be a string"
message invalid_id_format = "Invalid chromeExtensionId format"
message conflicting_ids = "Conflicting extension ids"
message empty_allowlist =
    "Extension WebAuthn requires WEBAUTHN_EXTENSION_IDS to list allowed extension ids"
message not_allowed = "Extension id is not in WEBAUTHN_EXTENSION_IDS allowlist"
message origin_mismatch = "clientData origin does not match chrome-extension ceremony"
message challenge_mismatch = "WebAuthn response origin does not match issued challenge"

-- A member of the request's JSON body: missing or null, a string, or a value of another type.
pub data JsonMember : Type 0 where
  absent : JsonMember
  text : Text → JsonMember
  other : JsonMember

pub record Context : Type 0 where
  pub rp_id : Text
  pub origin : Text

pub record Expected : Type 0 where
  pub origin : Text
  pub rp_ids : List Text

abbrev first_part : List Text → Text
first_part [] = []
first_part (s ∷ ss) = s

abbrev or_default : Text → Option Text → Text
or_default d none = d
or_default d (some []) = d
or_default d (some (c ∷ s)) = c ∷ s

-- An environment variable that is set and not blank.
abbrev pub set_variable : Option Text → Option Text
set_variable none = none
set_variable (some s) = if is_given (trim s) then some (trim s) else none

unfoldable pub rp_id_of_request : Environment → Headers → Text
rp_id_of_request env req = elim (set_variable env.webauthn_rp_id) [
  | some id ↦ id
  | none ↦ first_part (split b':' (or_default (lit "localhost") req.host))
]

unfoldable pub origin_of_request : Environment → Headers → Text
origin_of_request env req = elim (set_variable env.webauthn_origin) [
  | some o ↦ o
  | none ↦
      or_default (lit "http") req.x_forwarded_proto
      ++ (lit "://" ++ or_default (lit "localhost") req.host)
]

-- The allowlist as both functions read it.
unfoldable pub allowlist : Environment → List Text
allowlist env = filter is_given (map (λ x. to_lower (trim x)) (allowed_extension_ids env))

-- A string of the body, trimmed and in lower case; nothing for any other value.
abbrev pub body_id : JsonMember → Text
body_id (text s) = to_lower (trim s)
body_id _ = []

unfoldable pub parts_of : Text → Option Text → Option Text → List Text
parts_of a b c = filter is_given (a ∷ or_empty b ∷ or_empty c ∷ [])

abbrev pub agreed : List Text → Result CeremonyError (Option Text)
agreed [] = ok none
agreed (s ∷ []) = ok (some s)
agreed (s ∷ t ∷ ss) = err conflicting_ids

-- The id that the body of a finish request names, checked before it is compared.
abbrev pub finish_body_id : JsonMember → Result CeremonyError (Option Text)
finish_body_id absent = ok none
finish_body_id other = err id_not_string
finish_body_id (text s) =
    let t = to_lower (trim s) in
    if is_given t
    then (if is_extension_id t then ok (some t) else err invalid_id_format)
    else ok none

abbrev pub given_origin : Option Text → Result CeremonyError Text
given_origin none = err missing_client_data_origin
given_origin (some s) = if is_given (trim s) then ok s else err missing_client_data_origin

module _ (parse_url : Text → Option (Text × Text)) (env : Environment) where
  -- The extension ids that a request to begin a ceremony names.
  unfoldable pub begin_sources : Headers → JsonMember → List Text
  begin_sources req id =
      parts_of (body_id id) (id_of_headers req)
        (or_else (id_of_url parse_url req.origin) (id_of_url parse_url req.referer))

  -- The branch of `resolveWebauthnCeremonyContext` for an extension.
  unfoldable pub extension_context : Text → Result CeremonyError Context
  extension_context ext_raw = do
    let ext = to_lower ext_raw
    require (is_extension_id ext) invalid_id_format
    require (ltb 0 (length (allowlist env))) empty_allowlist
    require (includes (allowlist env) ext) not_allowed
    ok (record { rp_id = ext; origin = scheme ++ ext })

  abbrev pub context_for : Headers → Option Text → Result CeremonyError Context
  context_for req none =
      ok (record { rp_id = rp_id_of_request env req; origin = origin_of_request env req })
  context_for req (some ext) = extension_context ext

  -- `resolveWebauthnCeremonyContext`
  unfoldable pub ceremony_context : Headers → JsonMember → Result CeremonyError Context
  ceremony_context req id = do ext ← agreed (unique (begin_sources req id)); context_for req ext

  -- One `push` of `getExpectedRpidsForVerification`, onto the set so far.
  abbrev extension_of_text : Text → Option Text
  extension_of_text t = or_else (id_of_url parse_url (some t)) (checked_id (to_lower t))

  abbrev candidates : Option Text → List Text
  candidates none = []
  candidates (some ext) = rp_id_candidates ext

  unfoldable pub push_ids : Option Text → List Text
  push_ids s =
      let t = trim (or_empty s) in if is_given t then t ∷ candidates (extension_of_text t) else []

  abbrev or_localhost : Text → Text
  or_localhost t = if is_given t then t else lit "localhost"

  abbrev ids_or : Text → List Text → List Text
  ids_or rp_id [] = or_localhost (trim rp_id) ∷ []
  ids_or rp_id (s ∷ ss) = s ∷ ss

  -- `getExpectedRpidsForVerification`
  unfoldable pub expected_rp_ids :
      (challenge_origin challenge_rp_id : Text) (client_origin finish_id : Option Text) → List Text
  expected_rp_ids challenge_origin challenge_rp_id client_origin finish_id =
      ids_or challenge_rp_id (
        unique (
          push_ids (some challenge_rp_id)
          ++ (push_ids (id_of_url parse_url (some challenge_origin))
              ++ (push_ids (id_of_url parse_url client_origin) ++ push_ids finish_id))))

  unfoldable pub finish_for_extension : Text → Text → Result CeremonyError Expected
  finish_for_extension ext client_origin = do
    require (ltb 0 (length (allowlist env)) && includes (allowlist env) ext) not_allowed
    require (text_eq (normalize_origin client_origin) (normalize_origin (scheme ++ ext)))
        origin_mismatch
    ok (record { origin = scheme ++ ext; rp_ids = rp_id_candidates ext })

  unfoldable pub finish_for_site :
      (challenge_origin challenge_rp_id client_origin : Text) → Result CeremonyError Expected
  finish_for_site challenge_origin challenge_rp_id client_origin = do
    require (text_eq client_origin challenge_origin) challenge_mismatch
    ok (record {
      origin = challenge_origin;
      rp_ids = expected_rp_ids challenge_origin challenge_rp_id (some client_origin) none;
    })

  abbrev pub finish_for :
      (challenge_origin challenge_rp_id client_origin : Text)
      → Option Text
      → Result CeremonyError Expected
  finish_for challenge_origin challenge_rp_id client_origin none =
      finish_for_site challenge_origin challenge_rp_id client_origin
  finish_for challenge_origin challenge_rp_id client_origin (some ext) =
      finish_for_extension ext client_origin

  unfoldable pub finish_sources : Option Text → Headers → Text → List Text
  finish_sources from_body req client_origin =
      parts_of (or_empty from_body) (id_of_headers req) (id_of_url parse_url (some client_origin))

  -- `resolveWebauthnFinishVerification`
  unfoldable pub finish_verification :
      (challenge_origin challenge_rp_id : Text)
      → Option Text
      → JsonMember
      → Headers
      → Result CeremonyError Expected
  finish_verification challenge_origin challenge_rp_id client_data_origin id req = do
    client_origin ← given_origin client_data_origin
    from_body ← finish_body_id id
    ext ← agreed (unique (finish_sources from_body req client_origin))
    finish_for challenge_origin challenge_rp_id client_origin ext
