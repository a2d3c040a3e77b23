-- ===== src/Authentication/Justified.antt =====
-- The writes to a credential in the log of a run of app/api/webauthn/authentication/finish, whatever
-- way it ends, and the calls before them.
use latch_playground.Common.{
  ℕ, ◌≡◌, refl, Option, none, some, List, [], ◌∷◌, inl, inr, String, ltb, Bool-cases, Option-cases,
}
use latch_playground.Common.Result.{Result, ok, err}
use latch_playground.Text.{Text, text_eq}
use latch_playground.Extension.{Environment}
use latch_playground.Ceremony.{CeremonyError, Expected}
use latch_playground.Effects.{or_fail}
use latch_playground.Server.{
  Event, Assertion, Services, ChallengeRow, CredentialRow, Check, found_credential,
  verified_assertion, updated_sign_count, moved_credential, SessionRow,
}
use latch_playground.Session.{
  SessionInfo, get_or_create_session, create_session_for, keep_session, use_row, use_cookie,
  put_cookie,
}
use latch_playground.Authentication.{
  FinishBody, FinishRequest, Login, finish_body, unexpired, or_400, attach, log_in, check_assertion,
  authentication_finish, authentication_finish_post,
}
use latch_playground.Requests.{JsonBody, malformed, null, members}
use latch_playground.Effects.Every.{
  step_every, call_every, respond_every, quiet_every, last_every, or_fail_every,
}

-- The counter `n` was verified for the stored credential of the id `id`, in the last two calls.
abbrev pub IsVerified : Text → ℕ → List Event → Type 0
IsVerified id n log =
    (response : Assertion) × (response.id ≡ id)
    × (check : Check) × (row : CredentialRow) × (rest : List Event) × (log
        ≡ verified_assertion response check row (ok (some n))
          ∷ found_credential id (ok (some row))
          ∷ rest)

-- A counter is written only after it was verified, and a credential changes hands only after its
-- counter was written.
abbrev pub IsJustified : List Event → Type 0
IsJustified [] = Unit
IsJustified (updated_sign_count id n _ ∷ log) = IsVerified id n log × IsJustified log
IsJustified (moved_credential id user_id _ ∷ log) =
    ((n : ℕ) × (rest : List Event) × (log ≡ updated_sign_count id n (ok tt) ∷ rest))
    × IsJustified log
IsJustified (_ ∷ log) = IsJustified log

module _ (env : Environment) (s : Services) (R : Type 0) where
  create_session_for-IsJustified :
      (now : ℕ) (h : List Event)
      → IsJustified h
      → IsJustified (create_session_for env s {R = R} now h).1
  unfolding create_session_for
  create_session_for-IsJustified now h j =
      call_every IsJustified _ _ _ h (λ r. j)
        λ user_id e₁.
          call_every IsJustified _ _ _ _ (λ r. j)
            λ session_id e₂.
              call_every IsJustified _ _ _ _ (λ r. j)
                λ u e₃. step_every IsJustified (put_cookie env s _ _ _) _ _ j λ u₂ e₄. j

  keep_session-IsJustified :
      (now : ℕ) (row : SessionRow) (h : List Event)
      → IsJustified h
      → IsJustified (keep_session env s {R = R} now row h).1
  unfolding keep_session
  keep_session-IsJustified now row h j =
      call_every IsJustified _ _ _ h (λ r. j)
        λ u e₁. step_every IsJustified (put_cookie env s _ _ _) _ _ j λ u₂ e₂. j

  use_row-IsJustified :
      (now : ℕ) (row : Option SessionRow) (h : List Event)
      → IsJustified h
      → IsJustified (use_row env s {R = R} now row h).1
  use_row-IsJustified now none h j = create_session_for-IsJustified now h j
  use_row-IsJustified now (some row) h j = elim (Bool-cases (ltb now row.expires_at)) [
    | inl e ↦ rw e (keep_session-IsJustified now row h j)
    | inr e ↦ rw e (create_session_for-IsJustified now h j)
  ]

  use_cookie-IsJustified :
      (now : ℕ) (existing : Option Text) (h : List Event)
      → IsJustified h
      → IsJustified (use_cookie env s {R = R} now existing h).1
  use_cookie-IsJustified now none h j = create_session_for-IsJustified now h j
  use_cookie-IsJustified now (some []) h j = create_session_for-IsJustified now h j
  use_cookie-IsJustified now (some (c ∷ id)) h j =
      call_every IsJustified _ _ _ h (λ r. j) λ row e. use_row-IsJustified now row _ j

  pub get_or_create_session-IsJustified :
      (existing : Option Text) (h : List Event)
      → IsJustified h
      → IsJustified (get_or_create_session env s {R = R} existing h).1
  unfolding get_or_create_session
  get_or_create_session-IsJustified existing h j =
      call_every IsJustified _ _ _ h (λ r. j) λ now e. use_cookie-IsJustified now existing _ j

or_fail_log :
    {A : Type 0} (R : Type 0) (n : ℕ) (m : String) (o : Option A) (log : List Event)
    → (or_fail {R = R} n m o log).1 ≡ log
or_fail_log R n m none log = refl
or_fail_log R n m (some a) log = refl

or_400_log :
    {A : Type 0} (R : Type 0) (r : Result CeremonyError A) (log : List Event)
    → (or_400 {R = R} r log).1 ≡ log
or_400_log R (ok a) log = refl
or_400_log R (err e) log = refl

unexpired_log :
    (R : Type 0) (m : String) (now : ℕ) (o : Option ChallengeRow) (log : List Event)
    → (unexpired {R = R} m now o log).1 ≡ log
unexpired_log R m now none log = refl
unexpired_log R m now (some row) log = elim (Bool-cases (ltb now row.expires_at)) [
  | inl e ↦ rw e
  | inr e ↦ rw e
]

finish_body_log :
    (R : Type 0) (j : JsonBody FinishBody) (log : List Event) → (finish_body {R = R} j log).1 ≡ log
finish_body_log R malformed log = refl
finish_body_log R null log = refl
finish_body_log R (members b) log = elim (Option-cases b.response) [
  | inl e ↦ rw e
  | inr (r, e) ↦ rw e
]

module _ (parse_url : Text → Option (Text × Text)) (parse_origin : List ℕ → Option Text)
    (env : Environment) (s : Services) where
  attach-IsJustified :
      (id owner user_id : Text) (n : ℕ) (log : List Event)
      → IsJustified (updated_sign_count id n (ok tt) ∷ log)
      → IsJustified
          (attach parse_url parse_origin env s id owner user_id
            (updated_sign_count id n (ok tt) ∷ log)).1
  unfolding attach
  attach-IsJustified id owner user_id n log j = elim (Bool-cases (text_eq owner user_id)) [
    | inl e ↦ rw e j
    | inr e ↦ rw e (last_every Login IsJustified _ _ _ (λ r. ((n, log, refl), j)))
  ]

  log_in-IsJustified :
      (session : SessionInfo) (challenge : ChallengeRow) (cred : CredentialRow) (id : Text) (n : ℕ)
      (log : List Event)
      → IsVerified id n log
      → IsJustified log
      → IsJustified (log_in parse_url parse_origin env s session challenge cred id n log).1
  unfolding log_in
  log_in-IsJustified session challenge cred id n log v j =
      call_every IsJustified _ _ _ log (λ r. (v, j))
        λ u e₁.
          let a = attach-IsJustified id cred.user_id session.user_id n log (v, j) in
          step_every IsJustified
            (attach parse_url parse_origin env s id cred.user_id session.user_id) _ _ a
            λ u₂ e₂.
              call_every IsJustified _ _ _ _ (λ r. a)
                λ found e₃.
                  quiet_every IsJustified (or_fail 500 _ found) _ _
                    (or_fail_log Login 500 _ found _) a
                    λ account.
                      call_every IsJustified _ _ _ _ (λ r. a)
                        λ accounts e₄. call_every IsJustified _ _ _ _ (λ r. a) λ u₅ e₅. a

  check_assertion-IsJustified :
      (session : SessionInfo) (challenge : ChallengeRow) (response : Assertion)
      (expected : Expected) (log : List Event)
      → IsJustified log
      → IsJustified
          (check_assertion parse_url parse_origin env s session challenge response expected log).1
  unfolding check_assertion
  check_assertion-IsJustified session challenge response expected log j =
      call_every IsJustified _ _ _ log (λ r. j)
        λ found e₁. or_fail_every IsJustified 404 _ found _ _ j λ cred e₂.
          let check : Check = record {
            challenge = challenge.challenge;
            origin = expected.origin;
            rp_ids = expected.rp_ids;
          } in
          call_every IsJustified _ _ _ _ (λ r. j)
            λ verification e₃. or_fail_every IsJustified 400 _ verification _ _ j λ n e₄.
              log_in-IsJustified session challenge cred response.id n _
                (response, refl, check, cred, log, rw (e₂, e₄)) j

  -- From any log in which every write to a credential is justified, every run of the finish route,
  -- whether it answers, refuses or throws, leaves such a log.
  pub authentication_finish-IsJustified :
      (req : FinishRequest) (h : List Event)
      → IsJustified h
      → IsJustified (authentication_finish_post parse_url parse_origin env s req h).1
  unfolding authentication_finish
  authentication_finish-IsJustified req h j =
      respond_every IsJustified (authentication_finish parse_url parse_origin env s req h) (
        let a = get_or_create_session-IsJustified env s Login req.cookie h j in
        step_every IsJustified (get_or_create_session env s req.cookie) _ _ a λ session e₁.
          quiet_every IsJustified (finish_body req.body) _ _ (finish_body_log Login req.body _) a
            λ body.
              call_every IsJustified _ _ _ _ (λ r. a)
                λ now e₂.
                  call_every IsJustified _ _ _ _ (λ r. a)
                    λ found e₃.
                      quiet_every IsJustified (unexpired _ now found) _ _
                        (unexpired_log Login _ now found _) a
                        λ challenge.
                          quiet_every IsJustified (or_400 _) _ _ (or_400_log Login _ _) a
                            λ expected.
                              check_assertion-IsJustified session challenge body.0 expected _ a)
