-- ===== src/Cors.antt =====
-- middleware.ts: the headers that let a page of another origin call the API.
use latch_playground.Common.{
  Bool, true, false, Option, none, some, List, [], ◌∷◌, map, filter, if◌then◌else◌,
}
use latch_playground.Text.{Text, lit, text_eq, trim, split, is_given, includes}
use latch_playground.Extension.{Environment}
use latch_playground.Ceremony.{set_variable}
pub mod Granted

abbrev origins_of : Option Text → List Text
origins_of none = []
origins_of (some raw) = filter is_given (map trim (split b',' raw))

-- `parseApiCorsAllowedOrigins`
unfoldable pub allowed_origins : Environment → List Text
allowed_origins env = origins_of (set_variable env.api_cors_allowed_origins)

-- A response: passed on to the route, or empty with status 204; with the headers that are added.
pub record CorsResponse : Type 0 where
  pub passed_on : Bool
  pub headers : List (Text × Text)

abbrev pub allow_origin : Text
allow_origin = lit "Access-Control-Allow-Origin"

abbrev pub preflight_headers : Text → List (Text × Text)
preflight_headers origin =
    (allow_origin, origin)
    ∷ (lit "Access-Control-Allow-Credentials", lit "true")
    ∷ (lit "Access-Control-Allow-Methods", lit "GET, POST, PUT, PATCH, DELETE, OPTIONS")
    ∷ (
      lit "Access-Control-Allow-Headers",
      lit "Content-Type, Cookie, Authorization, X-Latch-Chrome-Extension-Id, X-Chrome-Extension-Id",
    )
    ∷ (lit "Access-Control-Max-Age", lit "86400")
    ∷ (lit "Vary", lit "Origin")
    ∷ []

abbrev pub route_headers : Text → List (Text × Text)
route_headers origin =
    (allow_origin, origin)
    ∷ (lit "Access-Control-Allow-Credentials", lit "true")
    ∷ (lit "Vary", lit "Origin")
    ∷ []

-- `origin && allowed.includes(origin)`
unfoldable pub permitted : List Text → Option Text → Option Text
permitted allowed none = none
permitted allowed (some origin) =
    if is_given origin then (if includes allowed origin then some origin else none) else none

abbrev pub headers_for : (Text → List (Text × Text)) → Option Text → List (Text × Text)
headers_for make none = []
headers_for make (some origin) = make origin

abbrev pub respond_cors : List Text → (method : Text) → (origin : Option Text) → CorsResponse
respond_cors [] method origin = record { passed_on = true; headers = [] }
respond_cors (o ∷ os) method origin =
    if text_eq method (lit "OPTIONS")
    then record {
      passed_on = false;
      headers = headers_for preflight_headers (permitted (o ∷ os) origin);
    }
    else record {
      passed_on = true;
      headers = headers_for route_headers (permitted (o ∷ os) origin);
    }

-- `middleware`
unfoldable pub middleware : Environment → (method : Text) → (origin : Option Text) → CorsResponse
middleware env method origin = respond_cors (allowed_origins env) method origin
