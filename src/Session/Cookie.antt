-- ===== src/Session/Cookie.antt =====
-- The cookie that lib/session.ts sets, as a browser keeps it.
use latch_playground.Common.{
  ℕ, ◌+◌, ◌*◌, ◌/◌, ◌≡◌, Option, none, some, List, [], ◌∷◌, arith, ltb, if◌then◌else◌, Bool-cases,
  inl, inr,
}
use latch_playground.Text.{Text, text_eq, text_eq_refl}
use latch_playground.Extension.{Environment}
use latch_playground.Effects.{done, ◌>>=◌, call}
use latch_playground.Effects.Steps.{called}
use latch_playground.Server.{Event, Services, SessionRow}
use latch_playground.Session.{
  SessionInfo, session_cookie, session_ttl_ms, create_session_for, keep_session, use_row,
  get_or_create_session,
}
use latch_playground.Server.{set_cookie}

-- The cookie `sid` that a browser has after the answers of a log: its value and how long it is kept, in
-- seconds.
unfoldable pub sid_of : List Event → Option (Text × ℕ)
sid_of [] = none
sid_of (set_cookie name value max_age attrs ∷ log) =
    let rest = sid_of log in if text_eq name session_cookie then some (value, max_age) else rest
sid_of (_ ∷ log) = sid_of log

-- What a request brings of a cookie that was set at a time: a cookie whose time is over is gone.
abbrev pub brought : (set_at now : ℕ) → Option (Text × ℕ) → Option Text
brought set_at now none = none
brought set_at now (some (value, max_age)) =
    if ltb now (set_at + 1000 * max_age) then some value else none

abbrev pub SetsSid : SessionInfo → List Event → Type 0
SetsSid info log = sid_of log ≡ some (info.session_id, session_ttl_ms / 1000)

module _ (env : Environment) (s : Services) {R : Type 0} where
  create-sid :
      (now : ℕ) (h : List Event) {info : SessionInfo} {log : List Event}
      → create_session_for env s {R = R} now h ≡ (done info, log)
      → SetsSid info log
  unfolding create_session_for ◌>>=◌ call sid_of
  create-sid now h e = ground (arith, text_eq_refl session_cookie)

  keep-sid :
      (now : ℕ) (row : SessionRow) (h : List Event) {info : SessionInfo} {log : List Event}
      → keep_session env s {R = R} now row h ≡ (done info, log)
      → SetsSid info log
  unfolding keep_session ◌>>=◌ call sid_of
  keep-sid now row h e = ground (arith, text_eq_refl session_cookie)

  use_row-sid :
      (now : ℕ) (row : Option SessionRow) (h : List Event) {info : SessionInfo} {log : List Event}
      → use_row env s {R = R} now row h ≡ (done info, log)
      → SetsSid info log
  use_row-sid now none h e = create-sid now h e
  use_row-sid now (some row) h e = elim (Bool-cases (ltb now row.expires_at)) [
    | inl l ↦ keep-sid now row h (rw l at e)
    | inr l ↦ create-sid now h (rw l at e)
  ]

  -- A session that is returned is the one that the cookie names, for 30 days.
  pub get_or_create_session-sid :
      (existing : Option Text) (h : List Event) {info : SessionInfo} {log : List Event}
      → get_or_create_session env s {R = R} existing h ≡ (done info, log)
      → SetsSid info log
  unfolding get_or_create_session
  get_or_create_session-sid none h e = called _ _ _ h e λ now c e₁. create-sid now _ e₁
  get_or_create_session-sid (some []) h e = called _ _ _ h e λ now c e₁. create-sid now _ e₁
  get_or_create_session-sid (some (x ∷ id)) h e =
      called _ _ _ h e λ now c e₁. called _ _ _ _ e₁ λ row f e₂. use_row-sid now row _ e₂
