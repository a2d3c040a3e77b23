-- ===== src/Cors/Granted.antt =====
-- The origins that middleware.ts allows.
use latch_playground.Common.{
  ◌≡◌, refl, sym, ◌↔◌, true, Option, none, some, List, [], ◌∷◌, Bool-cases, inl, inr, arith,
  if◌then◌else◌,
}
use latch_playground.Text.{Text, lit, text_eq, is_given, includes}
use latch_playground.Extension.{Environment}
use latch_playground.Cors.{
  allowed_origins, allow_origin, preflight_headers, route_headers, permitted, headers_for,
  respond_cors, middleware,
}

-- The value of the first header of a name.
unfoldable pub header_of : Text → List (Text × Text) → Option Text
header_of name [] = none
header_of name ((n, v) ∷ headers) =
    let rest = header_of name headers in if text_eq n name then some v else rest

granted_preflight :
    (origin : Option Text) → header_of allow_origin (headers_for preflight_headers origin) ≡ origin
unfolding header_of text_eq
granted_preflight none = refl
granted_preflight (some o) = refl

granted_route :
    (origin : Option Text) → header_of allow_origin (headers_for route_headers origin) ≡ origin
unfolding header_of text_eq
granted_route none = refl
granted_route (some o) = refl

permitted_empty : (origin : Option Text) → permitted [] origin ≡ none
unfolding permitted includes
permitted_empty none = refl
permitted_empty (some []) = refl
permitted_empty (some (c ∷ s)) = refl

granted :
    (allowed : List Text) (method : Text) (origin : Option Text)
    → header_of allow_origin (respond_cors allowed method origin).headers ≡ permitted allowed origin
granted [] method origin = unfold header_of in sym (permitted_empty origin)
granted (o ∷ os) method origin = elim (Bool-cases (text_eq method (lit "OPTIONS"))) [
  | inl e ↦ rw e (granted_preflight (permitted (o ∷ os) origin))
  | inr e ↦ rw e (granted_route (permitted (o ∷ os) origin))
]

permitted_iff :
    (allowed : List Text) (origin : Option Text) (v : Text)
    → (permitted allowed origin ≡ some v)
      ↔ ((origin ≡ some v) × (is_given v ≡ true) × (includes allowed v ≡ true))
unfolding permitted
permitted_iff allowed none v = (λ h. cc, λ h. cc)
permitted_iff allowed (some o) v =
    (λ h. (ground arith, ground arith, ground arith), λ h. ground arith)

-- Whatever the method, a response allows an origin exactly when it is the request's own, not
-- empty, and one of the origins that the environment lists.
pub middleware_iff :
    (env : Environment) (method : Text) (origin : Option Text) (v : Text)
    → (header_of allow_origin (middleware env method origin).headers ≡ some v)
      ↔ ((origin ≡ some v) × (is_given v ≡ true) × (includes (allowed_origins env) v ≡ true))
unfolding middleware
middleware_iff env method origin v =
    rw (sym (granted (allowed_origins env) method origin)) at
      (permitted_iff (allowed_origins env) origin v)
