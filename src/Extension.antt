-- ===== src/Extension.antt =====
-- Chrome extension ids: the first half of lib/webauthn-server.ts. The URL parser of the platform is
-- a parameter, from a text to the protocol and the host name that it finds, or `none` where
-- `new URL` throws.
use latch_playground.Common.{
  ℕ, ◌≡◌, Bool, not, ◌&&◌, ◌||◌, Option, none, some, List, [], ◌∷◌, ◌++◌, map, ltb, leb, ◌==◌,
  if◌then◌else◌, length, all, filter,
}
use latch_playground.Text.{
  Text, lit, text_eq, trim, to_lower, starts_with, first_unit, last_unit, without_last, is_unit,
  split, is_given, drop_end,
}
use mathlib.Core.List.{tail}
pub mod Ids

-- The variables of `process.env` that are read.
pub record Environment : Type 0 where
  pub webauthn_extension_ids : Option Text
  pub webauthn_rp_id : Option Text
  pub webauthn_origin : Option Text
  pub api_cors_allowed_origins : Option Text
  pub node_env : Option Text

-- The request headers that are read; `none` is a missing header.
pub record Headers : Type 0 where
  pub origin : Option Text
  pub referer : Option Text
  pub host : Option Text
  pub x_forwarded_proto : Option Text
  pub x_latch_chrome_extension_id : Option Text
  pub x_chrome_extension_id : Option Text

-- `value ?? ""`
abbrev pub or_empty : Option Text → Text
or_empty none = []
or_empty (some s) = s

-- `a ?? b`
abbrev pub or_else : Option Text → Option Text → Option Text
or_else (some a) b = some a
or_else none b = b

-- `/^[a-p]{32}$/`
unfoldable pub is_extension_id : Text → Bool
is_extension_id s = length s == 32 && all (λ c. leb 97 c && leb c 112) s

abbrev pub scheme : Text
scheme = lit "chrome-extension://"

unfoldable pub rp_id_candidates : Text → List Text
rp_id_candidates ext =
    let e = to_lower (trim ext) in if is_extension_id e then e ∷ (scheme ++ e) ∷ [] else e ∷ []

abbrev both_are : ℕ → Text → Bool
both_are c t = is_unit c (first_unit t) && is_unit c (last_unit t)

pub strip_surrounding_quotes : Text → Text
strip_surrounding_quotes s =
    let t = trim s in
    if leb 2 (length t) && (both_are b'"' t || both_are 39 t)
    then trim (without_last (tail t))
    else t

unfoldable pub parse_comma_separated_env : Option Text → List Text
parse_comma_separated_env value =
    let raw = strip_surrounding_quotes (trim (or_empty value)) in
    if is_given raw
    then filter is_given (map (λ s. strip_surrounding_quotes (trim s)) (split b',' raw))
    else []

unfoldable pub allowed_extension_ids : Environment → List Text
unfolding parse_comma_separated_env
allowed_extension_ids env = parse_comma_separated_env env.webauthn_extension_ids

abbrev pub checked_id : Text → Option Text
checked_id id = if is_extension_id id then some id else none

-- `parseChromeExtensionRpIdFromUrl`
module _ (parse_url : Text → Option (Text × Text)) where
  unfoldable pub id_of_url : Option Text → Option Text
  id_of_url none = none
  id_of_url (some raw) =
      let trimmed = trim raw in
      if is_given raw && starts_with (to_lower trimmed) scheme
      then elim (parse_url trimmed) [
        | none ↦ none
        | some url ↦
            if text_eq url.0 (lit "chrome-extension:") then checked_id (to_lower url.1) else none
      ]
      else none

-- `parseChromeExtensionIdFromHeaders`
unfoldable pub id_of_headers : Headers → Option Text
id_of_headers req = elim (or_else req.x_latch_chrome_extension_id req.x_chrome_extension_id) [
  | none ↦ none
  | some raw ↦ if is_given (trim raw) then checked_id (to_lower (trim raw)) else none
]

unfoldable pub normalize_origin : Text → Text
normalize_origin s = drop_end (λ c. c == b'/') (to_lower (trim s))
