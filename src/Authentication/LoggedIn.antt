-- ===== src/Authentication/LoggedIn.antt =====
-- What stands behind an answer of app/api/webauthn/authentication/finish.
use latch_playground.Common.{
  ℕ, ◌<◌, ◌≡◌, refl, ◌⊎◌, true, false, Option, none, some, List, ◌∷◌, arith, ltb, Bool-cases,
  Option-cases, inl, inr, String,
}
use latch_playground.Common.Result.{Result, ok, err}
use latch_playground.Text.{Text, text_eq}
use latch_playground.Extension.{Environment}
use latch_playground.Ceremony.{CeremonyError, Expected, finish_verification, JsonMember}
use latch_playground.Effects.{json, done, early, Route, ◌>>=◌, next}
use latch_playground.Effects.Steps.{called, call_done, step_done, respond_json, present}
use latch_playground.Server.{
  Event, Assertion, Services, authentication, ChallengeRow, CredentialRow, clock, found_challenge,
  found_credential, verified_assertion, updated_sign_count, moved_credential, found_account,
  listed_accounts, deleted_challenge,
}
use latch_playground.Session.{SessionInfo, get_or_create_session}
use latch_playground.Authentication.{
  FinishBody, FinishRequest, Login, client_data_origin, finish_body, unexpired, or_400, attach,
  log_in, check_assertion, authentication_finish, authentication_finish_post,
}
use latch_playground.Requests.{JsonBody, malformed, null, members}

pub accepted :
    {R A B C : Type 0} (r : Result CeremonyError A) (k : A → Route Event R B) (log : List Event)
    {b : B} {log' : List Event}
    → (or_400 r >>= k) log ≡ (done b, log')
    → ((a : A) → r ≡ ok a → k a log ≡ (done b, log') → C)
    → C
unfolding ◌>>=◌
accepted (ok a) k log h f = f a refl h
accepted (err e) k log h f = cc

pub still_valid :
    {R B C : Type 0} (m : String) (now : ℕ) (o : Option ChallengeRow)
    (k : ChallengeRow → Route Event R B) (log : List Event) {b : B} {log' : List Event}
    → (unexpired m now o >>= k) log ≡ (done b, log')
    → ((row : ChallengeRow) → o ≡ some row → now < row.expires_at → k row log ≡ (done b, log') → C)
    → C
unfolding ◌>>=◌
still_valid m now none k log h f = cc
still_valid m now (some row) k log h f = elim (Bool-cases (ltb now row.expires_at)) [
  | inl e ↦ f row refl (ground arith) (rw e at h)
  | inr e ↦ let l : next {B = _} (early 400 m) log k ≡ (done _, _) = rw e at h in cc
]

abbrev paired : Option Assertion → JsonMember → Option (Assertion × JsonMember)
paired none id = none
paired (some r) id = some (r, id)

-- The response and the extension id of a body that has a response.
abbrev pub response_of : JsonBody FinishBody → Option (Assertion × JsonMember)
response_of malformed = none
response_of null = none
response_of (members b) = paired b.response b.chrome_extension_id

body_read :
    {R B C : Type 0} (j : JsonBody FinishBody) (k : Assertion × JsonMember → Route Event R B)
    (log : List Event) {b : B} {log' : List Event}
    → (finish_body j >>= k) log ≡ (done b, log')
    → ((r : Assertion × JsonMember) → response_of j ≡ some r → k r log ≡ (done b, log') → C)
    → C
unfolding ◌>>=◌
body_read malformed k log h f = cc
body_read null k log h f = cc
body_read (members b) k log h f = elim (Option-cases b.response) [
  | inl e ↦
      let l : next {B = _} (early 400 "Missing response") log k ≡ (done _, _) = rw e at h in cc
  | inr (r, e) ↦ f (r, b.chrome_extension_id) (rw e) (rw e at h)
]

-- The calls from the lookup of the credential to the deletion of the challenge, on top of `before`.
pub record IsCheckedLogin (session : SessionInfo) (challenge : ChallengeRow) (response : Assertion)
    (expected : Expected) (before : List Event) (login : Login) (trace : List Event) : Type 0 where
  pub cred : CredentialRow
  pub new_counter : ℕ
  pub moved : List Event
  pub verified :
      (text_eq cred.user_id session.user_id ≡ true)
        × (moved
            ≡ updated_sign_count response.id new_counter (ok tt)
              ∷ verified_assertion response
                  (record {
                    challenge = challenge.challenge;
                    origin = expected.origin;
                    rp_ids = expected.rp_ids;
                  })
                  cred
                  (ok (some new_counter))
              ∷ found_credential response.id (ok (some cred))
              ∷ before)
      ⊎ (text_eq cred.user_id session.user_id ≡ false)
        × (moved
            ≡ moved_credential response.id session.user_id (ok tt)
              ∷ updated_sign_count response.id new_counter (ok tt)
              ∷ verified_assertion response
                  (record {
                    challenge = challenge.challenge;
                    origin = expected.origin;
                    rp_ids = expected.rp_ids;
                  })
                  cred
                  (ok (some new_counter))
              ∷ found_credential response.id (ok (some cred))
              ∷ before)
  pub calls :
      trace
      ≡ deleted_challenge challenge.id (ok tt)
        ∷ listed_accounts session.user_id (ok login.accounts)
        ∷ found_account response.id (ok (some login.account))
        ∷ moved
  pub active : login.active_credential_id ≡ response.id

module _ (parse_url : Text → Option (Text × Text)) (parse_origin : List ℕ → Option Text)
    (env : Environment) (s : Services) where
  attach_done :
      (id owner user_id : Text) (log : List Event) {u : Unit} {log' : List Event}
      → attach parse_url parse_origin env s id owner user_id log ≡ (done u, log')
      → ((text_eq owner user_id ≡ true) × (log' ≡ log))
        ⊎ ((text_eq owner user_id ≡ false) × (log' ≡ moved_credential id user_id (ok tt) ∷ log))
  unfolding attach
  attach_done id owner user_id log h = elim (Bool-cases (text_eq owner user_id)) [
    | inl e ↦ let k : (done tt, log) ≡ (done _, _) = rw e at h in inl (e, ground arith)
    | inr e ↦ inr (
      e,
      (call_done (λ l. s.move_credential l id user_id) (moved_credential id user_id) log
          (rw e at h)).1,
    )
  ]

  log_in_done :
      (session : SessionInfo) (challenge : ChallengeRow) (cred : CredentialRow) (id : Text) (n : ℕ)
      (log : List Event) {login : Login} {log' : List Event}
      → log_in parse_url parse_origin env s session challenge cred id n log ≡ (done login, log')
      → (moved : List Event) × (attach parse_url parse_origin env s id cred.user_id session.user_id
            (updated_sign_count id n (ok tt) ∷ log)
          ≡ (done tt, moved))
        × (log'
            ≡ deleted_challenge challenge.id (ok tt)
              ∷ listed_accounts session.user_id (ok login.accounts)
              ∷ found_account id (ok (some login.account))
              ∷ moved)
        × (login.active_credential_id ≡ id)
  unfolding log_in
  log_in_done session challenge cred id n log h = called _ _ _ log h λ u e₁ h₁.
      step_done (attach parse_url parse_origin env s id cred.user_id session.user_id) _ _ h₁
        λ u₂ moved e₂ h₂. called _ _ _ _ h₂ λ found e₃ h₃.
          present 500 _ found _ _ h₃ λ account e₄ h₄.
            called _ _ _ _ h₄ λ accounts e₅ h₅.
              called _ _ _ _ h₅ λ u₆ e₆ h₆. (moved, e₂, ground arith, ground arith)

  check_assertion_done :
      (session : SessionInfo) (challenge : ChallengeRow) (response : Assertion)
      (expected : Expected) (log : List Event) {login : Login} {log' : List Event}
      → check_assertion parse_url parse_origin env s session challenge response expected log
        ≡ (done login, log')
      → IsCheckedLogin session challenge response expected log login log'
  unfolding check_assertion
  check_assertion_done session challenge response expected log h = called _ _ _ log h λ found e₁ h₁.
      present 404 _ found _ _ h₁ λ cred e₂ h₂. called _ _ _ _ h₂ λ verification e₃ h₃.
        present 400 _ verification _ _ h₃ λ n e₄ h₄.
          let l = log_in_done session challenge cred response.id n _ h₄ in
          let a = attach_done response.id cred.user_id session.user_id _ l.1 in
          record {
            cred = cred;
            new_counter = n;
            moved = l.0;
            verified = rw (e₂, e₄) at a;
            calls = l.2;
            active = l.3;
          }

  -- A login that is answered has a session; a challenge that was found among the authentication
  -- challenges and had not expired at the time of the clock; an origin that was accepted for the
  -- signed client data; an assertion, the body's, that the library verified for that challenge, that origin and
  -- the stored credential of the response's id; the new signature counter written; the credential
  -- given to the session's user if it was another's; and, as the last call, the challenge deleted.
  pub authentication_finish-IsCheckedLogin :
      (req : FinishRequest) (h : List Event) {login : Login} {log : List Event}
      → authentication_finish_post parse_url parse_origin env s req h ≡ (json login, log)
      → (session : SessionInfo) × (mid : List Event) × (body : Assertion × JsonMember) × (now : ℕ)
        × (challenge : ChallengeRow) × (expected : Expected) × (get_or_create_session env s
              {R = Login} req.cookie h
            ≡ (done session, mid))
        × (response_of req.body ≡ some body)
        × (now < challenge.expires_at)
        × (finish_verification parse_url env challenge.origin challenge.rp_id
              (client_data_origin parse_origin body.0.client_data)
              body.1
              req.headers
            ≡ ok expected)
        × IsCheckedLogin session challenge body.0 expected
            (found_challenge none authentication (ok (some challenge)) ∷ clock (ok now) ∷ mid)
            login
            log
  unfolding authentication_finish
  authentication_finish-IsCheckedLogin req h e =
      step_done (get_or_create_session env s req.cookie) _ h (respond_json _ e) λ session mid es h₁.
        body_read req.body _ _ h₁ λ body eb h₂. called _ _ _ _ h₂ λ now en h₃.
          called _ _ _ _ h₃ λ found ef h₄. still_valid _ now found _ _ h₄ λ challenge ec valid h₅.
            accepted _ _ _ h₅ λ expected ex h₆.
              let c = check_assertion_done session challenge body.0 expected _ h₆ in
              (session, mid, body, now, challenge, expected, es, eb, valid, ex, rw ec at c)
