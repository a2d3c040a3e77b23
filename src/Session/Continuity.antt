-- ===== src/Session/Continuity.antt =====
-- The table of sessions that a log of calls leads to (lib/session.ts), and a request that brings the
-- cookie of an earlier one.
use latch_playground.Common.{
  ℕ, ◌+◌, ◌<◌, ◌≡◌, ◌≢◌, refl, sym, ◌∙◌, true, Option, none, some, List, [], ◌∷◌, arith, ltb,
  lt→ltb, if◌then◌else◌, Bool-cases, inl, inr,
}
use latch_playground.Common.Result.{ok, err, Result-cases}
use latch_playground.Text.{Text, text_eq, text_eq_iff, text_eq_refl}
use latch_playground.Extension.{Environment}
use latch_playground.Effects.{done, thrown, ◌>>=◌, call}
use latch_playground.Server.{
  Event, Services, SessionRow, clock, found_session, extended_session, created_session,
}
use latch_playground.Session.{
  SessionInfo, session_ttl_ms, create_session_for, keep_session, use_row, get_or_create_session,
}
use latch_playground.Session.Cookie.{sid_of, brought, get_or_create_session-sid}

abbrev pub re_dated : ℕ → Option SessionRow → Option SessionRow
re_dated expires none = none
re_dated expires (some row) = some (record row { expires_at = expires })

-- The table `sessions` after the calls of a log, from the rows that it holds at first.
module _ (first : Text → Option SessionRow) where
  unfoldable pub sessions : List Event → Text → Option SessionRow
  sessions [] id = first id
  sessions (created_session sid uid created expires (ok _) ∷ log) id =
      let rest = sessions log id in
      if text_eq sid id
      then some (record { id = sid; user_id = uid; expires_at = expires })
      else rest
  sessions (extended_session sid expires (ok _) ∷ log) id =
      let rest = sessions log id in if text_eq sid id then re_dated expires rest else rest
  sessions (_ ∷ log) id = sessions log id

-- What is assumed of the database: a lookup that answers gives the row of the table, and rows are
-- kept under their ids.
pub record KeepsSessions (s : Services) (first : Text → Option SessionRow) : Type 0 where
  pub found :
      (log : List Event) (id : Text) {row : Option SessionRow}
      → s.find_session log id ≡ ok row
      → row ≡ sessions first log id
  pub keyed : (id : Text) (row : SessionRow) → first id ≡ some row → row.id ≡ id

re_dated_id :
    (expires : ℕ) (o : Option SessionRow) (id : Text) (row : SessionRow)
    → ((r : SessionRow) → o ≡ some r → r.id ≡ id)
    → re_dated expires o ≡ some row
    → row.id ≡ id
re_dated_id expires none id row k h = cc
re_dated_id expires (some r) id row k h = let e = k r refl in ground arith

sessions_keyed :
    (first : Text → Option SessionRow)
    → ((id : Text) (row : SessionRow) → first id ≡ some row → row.id ≡ id)
    → (log : List Event) (id : Text) (row : SessionRow) → sessions first log id ≡ some row
    → row.id ≡ id
unfolding sessions
sessions_keyed first k [] id row h = k id row h
sessions_keyed first k (created_session sid uid created expires (ok _) ∷ log) id row h =
    ground (arith, text_eq_iff sid id, sessions_keyed first k log id row)
sessions_keyed first k (extended_session sid expires (ok _) ∷ log) id row h =
    elim (Bool-cases (text_eq sid id)) [
      | inl e ↦
          re_dated_id expires (sessions first log id) id row (sessions_keyed first k log id)
            (rw e at h)
      | inr e ↦ sessions_keyed first k log id row (rw e at h)
    ]
sessions_keyed first k (_ ∷ log) id row h = sessions_keyed first k log id row h

-- The row of a session that was made or kept at the time `now`.
abbrev Stored : (Text → Option SessionRow) → ℕ → SessionInfo → List Event → Type 0
Stored first now info log =
    sessions first log info.session_id
    ≡ some
        (record { id = info.session_id; user_id = info.user_id; expires_at = now + session_ttl_ms })

module _ (env : Environment) (s : Services) (first : Text → Option SessionRow) {R : Type 0} where
  create-Stored :
      (now : ℕ) (h : List Event) {info : SessionInfo} {log : List Event}
      → create_session_for env s {R = R} now h ≡ (done info, log)
      → Stored first now info log
  unfolding create_session_for ◌>>=◌ call sessions
  create-Stored now h {info} e = ground (arith, text_eq_refl info.session_id)

  keep-Stored :
      (now : ℕ) (row : SessionRow) (h : List Event) {info : SessionInfo} {log : List Event}
      → sessions first h row.id ≡ some row
      → keep_session env s {R = R} now row h ≡ (done info, log)
      → Stored first now info log
  unfolding keep_session ◌>>=◌ call sessions
  keep-Stored now row h {info} r e = ground (arith, text_eq_refl row.id)

  use_row-Stored :
      KeepsSessions s first
      → (now : ℕ) (id : Text) (row : Option SessionRow) (h : List Event) {info : SessionInfo}
        {log : List Event}
      → row ≡ sessions first h id
      → use_row env s {R = R} now row h ≡ (done info, log)
      → Stored first now info log
  use_row-Stored d now id none h r e = create-Stored now h e
  use_row-Stored d now id (some row) h r e = elim (Bool-cases (ltb now row.expires_at)) [
    | inl l ↦
        let k = sessions_keyed first d.keyed h id row (sym r) in
        keep-Stored now row h (simp k (sym r)) (rw l at e)
    | inr l ↦ create-Stored now h (rw l at e)
  ]

  -- A session that is returned is a row of the table, which lasts 30 days from now.
  pub get_or_create_session-Stored :
      KeepsSessions s first
      → (existing : Option Text) (now : ℕ) (h : List Event) {info : SessionInfo} {log : List Event}
      → s.now h ≡ ok now
      → get_or_create_session env s {R = R} existing h ≡ (done info, log)
      → Stored first now info log
  unfolding get_or_create_session ◌>>=◌ call sessions
  get_or_create_session-Stored d none now h c e = create-Stored now _ (rw c at e)
  get_or_create_session-Stored d (some []) now h c e = create-Stored now _ (rw c at e)
  get_or_create_session-Stored d (some (x ∷ id)) now h c e =
      elim (Result-cases (s.find_session (clock (ok now) ∷ h) (x ∷ id))) [
        | inl (row, f) ↦
            use_row-Stored d now (x ∷ id) row (found_session (x ∷ id) (ok row) ∷ clock (ok now) ∷ h)
              (d.found (clock (ok now) ∷ h) (x ∷ id) f) (rw (c, f) at e)
        | inr (m, f) ↦
            let k : (thrown m, found_session (x ∷ id) (err m) ∷ clock (ok now) ∷ h) ≡ (done _, _) =
              rw (c, f) at e in
            cc
      ]

  keep_session-info :
      (now : ℕ) (row : SessionRow) (h : List Event) {info : SessionInfo} {log : List Event}
      → keep_session env s {R = R} now row h ≡ (done info, log)
      → info ≡ record { session_id = row.id; user_id = row.user_id }
  unfolding keep_session ◌>>=◌ call
  keep_session-info now row h e = ground arith

  resumed :
      (now expires : ℕ) (info info' : SessionInfo) (row : Option SessionRow) (h log : List Event)
      → row ≡ some (record { id = info.session_id; user_id = info.user_id; expires_at = expires })
      → now < expires
      → use_row env s {R = R} now row h ≡ (done info', log)
      → info' ≡ info
  resumed now expires info info' none h log r l e = cc
  resumed now expires info info' (some row) h log r l e =
      let d : expires ≡ row.expires_at = ground arith in
      let t : ltb now row.expires_at ≡ true = lt→ltb _ _ (omega arith) in
      let k = keep_session-info now row h (rw t at e) in ground arith

  resume_from :
      KeepsSessions s first
      → (now expires : ℕ) (id : Text) (later log : List Event) (info info' : SessionInfo) → id ≢ []
      → s.now later ≡ ok now
      → now < expires
      → sessions first later id
        ≡ some (record { id = info.session_id; user_id = info.user_id; expires_at = expires })
      → get_or_create_session env s {R = R} (some id) later ≡ (done info', log)
      → info' ≡ info
  unfolding get_or_create_session ◌>>=◌ call sessions
  resume_from d now expires [] later log info info' n c l r e = absurd (n refl)
  resume_from d now expires (x ∷ id) later log info info' n c l r e =
      elim (Result-cases (s.find_session (clock (ok now) ∷ later) (x ∷ id))) [
        | inl (row, f) ↦
            resumed now expires info info' row
              (found_session (x ∷ id) (ok row) ∷ clock (ok now) ∷ later) log
              (d.found (clock (ok now) ∷ later) (x ∷ id) f ∙ r) l (rw (c, f) at e)
        | inr (m, f) ↦
            let k : (thrown m, found_session (x ∷ id) (err m) ∷ clock (ok now) ∷ later)
                ≡ (done info', log) =
              rw (c, f) at e in
            cc
      ]

  -- A request of the browser that keeps the cookie of an earlier request, and brings it back before 30
  -- days have passed, gets the session and the user that the earlier one was given, whatever was
  -- called in between, if the row of the session is what it was.
  pub get_or_create_session_twice :
      KeepsSessions s first
      → (existing : Option Text) (now now' : ℕ) (h log later log' : List Event)
        (info info' : SessionInfo)
      → s.now h ≡ ok now
      → get_or_create_session env s {R = R} existing h ≡ (done info, log)
      → sessions first later info.session_id ≡ sessions first log info.session_id
      → s.now later ≡ ok now'
      → now' < now + session_ttl_ms
      → info.session_id ≢ []
      → get_or_create_session env s {R = R} (brought now now' (sid_of log)) later
        ≡ (done info', log')
      → info' ≡ info
  unfolding get_or_create_session ◌>>=◌ call sessions
  get_or_create_session_twice d existing now now' h log later log' info info' c e same c' l n e' =
      resume_from d now' (now + session_ttl_ms) info.session_id later log' info info' n c' l
        (same ∙ get_or_create_session-Stored d existing now h c e)
        (rw (get_or_create_session-sid env s existing h e, lt→ltb now' (now + session_ttl_ms) l) at
          e')
