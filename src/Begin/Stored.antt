-- ===== src/Begin/Stored.antt =====
-- The log behind an answer of app/api/webauthn/registration/begin or authentication/begin.
use latch_playground.Common.{
  ℕ, ◌+◌, ◌≡◌, true, Option, some, List, ◌∷◌, arith, Bool-cases, inl, inr, String,
}
use latch_playground.Common.Result.{Result, ok, err}
use latch_playground.Text.{Text, is_given}
use latch_playground.Extension.{Environment}
use latch_playground.Ceremony.{CeremonyError, Context, ceremony_context}
use latch_playground.Effects.{json, done, thrown}
use latch_playground.Effects.Steps.{called, step_done, respond_json}
use latch_playground.Server.{
  Event, Services, Purpose, registration, authentication, Options, clock, random_id,
  created_challenge,
}
use latch_playground.Session.{SessionInfo, get_or_create_session}
use latch_playground.Begin.{
  BeginBody, BeginRequest, challenge_ttl_ms, issued_rp_id, read_body, members_of, or_400,
  store_challenge, registration_begin, authentication_begin, registration_begin_post,
  authentication_begin_post,
}
use latch_playground.Requests.{JsonBody, malformed, null, members}

-- The log ends in the insertion of the challenge, at the time of the clock read just before, and
-- the insertion succeeded.
pub record IsStored (p : Purpose) (user_id : Text) (c : Context) (o : Options) (trace : List Event)
    : Type 0 where
  pub now : ℕ
  pub id : Text
  pub before : List Event
  pub calls :
      trace
      ≡ created_challenge id user_id p o.challenge
          (issued_rp_id c.rp_id o.rp_id)
          c.origin
          (now + challenge_ttl_ms)
          now
          (ok tt)
        ∷ random_id (ok id)
        ∷ clock (ok now)
        ∷ before
  pub challenge : is_given o.challenge ≡ true

read_body_done :
    (j : JsonBody BeginBody) (log : List Event) {b : BeginBody} {log' : List Event}
    → read_body j log ≡ (done b, log')
    → members_of j ≡ some b
read_body_done malformed log h = ground arith
read_body_done null log h = cc
read_body_done (members b) log h = ground arith

or_400_ok :
    {R A : Type 0} (r : Result CeremonyError A) (log : List Event) {a : A} {log' : List Event}
    → or_400 {R = R} r log ≡ (done a, log')
    → r ≡ ok a
or_400_ok (ok b) log h = ground arith
or_400_ok (err e) log h = cc

module _ (parse_url : Text → Option (Text × Text)) (env : Environment) (s : Services) where
  store_challenge_lem :
      (p : Purpose) (missing : String) (user_id : Text) (c : Context) (options : Options)
      (log : List Event) {o : Options} {log' : List Event}
      → store_challenge parse_url env s p missing user_id c options log ≡ (done o, log')
      → IsStored p user_id c o log'
  unfolding store_challenge
  store_challenge_lem p missing user_id c options log h =
      elim (Bool-cases (is_given options.challenge)) [
        | inl g ↦ called s.now clock _ log (rw g at h) λ now en h₁.
            called s.random_uuid random_id _ _ h₁ λ id ei h₂. called _ _ _ _ h₂ λ u ek h₃. record {
              now = now;
              id = id;
              before = log;
              calls = ground arith;
              challenge = ground arith;
            }
        | inr g ↦ let k : (thrown missing, log) ≡ (done _, _) = rw g at h in cc
      ]

  -- A registration that is begun with an answer has a session, a ceremony context that was accepted
  -- for the request, and, as its last call, the insertion of the answered challenge for the
  -- session's user, under the context's origin, to expire 5 minutes after it was made.
  pub registration_begin-IsStored :
      (req : BeginRequest) (h : List Event) {o : Options} {log : List Event}
      → registration_begin_post parse_url env s req h ≡ (json o, log)
      → (session : SessionInfo) × (mid : List Event) × (body : BeginBody) × (c : Context)
        × (get_or_create_session env s {R = Options} req.cookie h ≡ (done session, mid))
        × (members_of req.body ≡ some body)
        × (ceremony_context parse_url env req.headers body.chrome_extension_id ≡ ok c)
        × IsStored registration session.user_id c o log
  unfolding registration_begin
  registration_begin-IsStored req h e =
      step_done (get_or_create_session env s req.cookie) _ h (respond_json _ e) λ session mid es h₁.
        step_done (read_body req.body) _ _ h₁ λ body mid₂ eb h₂.
          step_done (or_400 _) _ _ h₂ λ c mid₃ ec h₃. called _ _ _ _ h₃ λ options eo h₄. (
            session,
            mid,
            body,
            c,
            es,
            read_body_done _ _ eb,
            or_400_ok _ _ ec,
            store_challenge_lem _ _ _ c options _ h₄,
          )

  -- An authentication that is begun with an answer has a session, a ceremony context that was accepted
  -- for the request, and, as its last call, the insertion of the answered challenge for the
  -- session's user, under the context's origin, to expire 5 minutes after it was made.
  pub authentication_begin-IsStored :
      (req : BeginRequest) (h : List Event) {o : Options} {log : List Event}
      → authentication_begin_post parse_url env s req h ≡ (json o, log)
      → (session : SessionInfo) × (mid : List Event) × (body : BeginBody) × (c : Context)
        × (get_or_create_session env s {R = Options} req.cookie h ≡ (done session, mid))
        × (members_of req.body ≡ some body)
        × (ceremony_context parse_url env req.headers body.chrome_extension_id ≡ ok c)
        × IsStored authentication session.user_id c o log
  unfolding authentication_begin
  authentication_begin-IsStored req h e =
      step_done (get_or_create_session env s req.cookie) _ h (respond_json _ e) λ session mid es h₁.
        step_done (read_body req.body) _ _ h₁ λ body mid₂ eb h₂.
          step_done (or_400 _) _ _ h₂ λ c mid₃ ec h₃. called _ _ _ _ h₃ λ creds ed h₄.
            called _ _ _ _ h₄ λ options eo h₅. (
              session,
              mid,
              body,
              c,
              es,
              read_body_done _ _ eb,
              or_400_ok _ _ ec,
              store_challenge_lem _ _ _ c options _ h₅,
            )
