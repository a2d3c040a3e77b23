-- ===== src/Session.antt =====
-- lib/session.ts and lib/cookie-cross-site.ts.
use latch_playground.Common.{
  ℕ, ◌+◌, ◌*◌, ◌/◌, Bool, true, false, ◌||◌, Option, none, some, List, [], ◌∷◌, ltb, if◌then◌else◌,
  any, String,
}
use latch_playground.Common.Result.{Result, ok, err}
use latch_playground.Text.{Text, lit, text_eq, trim, to_lower, split, starts_with, is_given}
use latch_playground.Extension.{Environment, scheme, or_empty}
use latch_playground.Effects.{Route, Exit, ◌>>=◌, ◌>>◌, give, call, done}
use latch_playground.Server.{
  Event, Services, CookieAttrs, SameSite, same_site_none, same_site_lax, SessionRow, clock,
  random_id, found_session, extended_session, created_session, set_cookie,
}
pub mod Cookie
pub mod Continuity

abbrev is_production : Option Text → Bool
is_production none = false
is_production (some s) = text_eq s (lit "production")

abbrev names_extension : Option Text → Bool
names_extension none = false
names_extension (some s) = any (λ o. starts_with (to_lower (trim o)) scheme) (split b',' s)

-- `crossSiteCookieAttrs`
unfoldable pub cross_site_cookie_attrs : Environment → CookieAttrs
cross_site_cookie_attrs env =
    let cross_site =
      is_production env.node_env
      || is_given (trim (or_empty env.webauthn_extension_ids))
      || names_extension env.api_cors_allowed_origins in
    record { same_site = if cross_site then same_site_none else same_site_lax; secure = cross_site }

abbrev pub session_cookie : Text
session_cookie = lit "sid"

-- 30 days, in milliseconds
abbrev pub session_ttl_ms : ℕ
session_ttl_ms = 1000 * 60 * 60 * 24 * 30

pub record SessionInfo : Type 0 where
  pub session_id : Text
  pub user_id : Text

module _ (env : Environment) (s : Services) {R : Type 0} where
  abbrev pub clock_now : Route Event R ℕ
  clock_now = call s.now clock

  abbrev pub new_id : Route Event R Text
  new_id = call s.random_uuid random_id

  abbrev pub put_cookie : Text → Text → ℕ → Route Event R Unit
  put_cookie name value max_age log =
      (done tt, set_cookie name value max_age (cross_site_cookie_attrs env) ∷ log)

  unfoldable pub create_session_for : ℕ → Route Event R SessionInfo
  create_session_for now = do
    user_id ← new_id
    session_id ← new_id
    call (λ log. s.create_session log session_id user_id now (now + session_ttl_ms))
        (created_session session_id user_id now (now + session_ttl_ms))
    put_cookie session_cookie session_id (session_ttl_ms / 1000)
    give (record { session_id = session_id; user_id = user_id })

  unfoldable pub keep_session : ℕ → SessionRow → Route Event R SessionInfo
  keep_session now row = do
    call (λ log. s.extend_session log row.id (now + session_ttl_ms))
        (extended_session row.id (now + session_ttl_ms))
    put_cookie session_cookie row.id (session_ttl_ms / 1000)
    give (record { session_id = row.id; user_id = row.user_id })

  -- The row of the cookie's session, while it lasts.
  abbrev pub use_row : ℕ → Option SessionRow → Route Event R SessionInfo
  use_row now none = create_session_for now
  use_row now (some row) =
      if ltb now row.expires_at then keep_session now row else create_session_for now

  abbrev pub use_cookie : ℕ → Option Text → Route Event R SessionInfo
  use_cookie now none = create_session_for now
  use_cookie now (some []) = create_session_for now
  use_cookie now (some (c ∷ id)) = do
    row ← call (λ log. s.find_session log (c ∷ id)) (found_session (c ∷ id))
    use_row now row

  -- `getOrCreateSession`, given the value of the cookie `sid`.
  unfoldable pub get_or_create_session : Option Text → Route Event R SessionInfo
  get_or_create_session existing = do now ← clock_now; use_cookie now existing
