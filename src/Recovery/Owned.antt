-- ===== src/Recovery/Owned.antt =====
-- What stands behind an answer of app/api/recovery/backup-passkey.
use latch_playground.Common.{ℕ, ◌≡◌, Option, none, some, List, ◌∷◌}
use latch_playground.Common.Result.{ok}
use latch_playground.Text.{Text}
use latch_playground.Extension.{Environment}
use latch_playground.Effects.{json, done}
use latch_playground.Effects.Steps.{step_done, called, call_done, respond_json, present}
use latch_playground.Server.{
  Event, Services, SignerWrite, clock, found_owned, found_intent, updated_signer, created_signer,
}
use latch_playground.Session.{SessionInfo, get_or_create_session}
use latch_playground.Recovery.{
  RecoveryBody, RecoveryRequest, recovery_body, label_or, write_intent, recover, recover_post,
}
use latch_playground.Requests.{string_member}

-- The write that follows the lookup of an earlier intent.
abbrev pub written : Option Text → SignerWrite → Event
written none row = created_signer row (ok tt)
written (some id) row = updated_signer id row (ok tt)

module _ (env : Environment) (s : Services) where
  write_done :
      (existing : Option Text) (row : SignerWrite) (log : List Event) {u : Unit} {log' : List Event}
      → write_intent env s existing row log ≡ (done u, log')
      → log' ≡ written existing row ∷ log
  write_done none row log h = (call_done (λ l. s.create_signer l row) (created_signer row) log h).1
  write_done (some id) row log h =
      (call_done (λ l. s.update_signer l id row) (updated_signer id row) log h).1

  -- A recovery that is answered has a session, and an account address in its body that the database
  -- found among the accounts of the session's user. Its last call writes the intent for that
  -- address, under the body's label or the default one, at the time of the clock: over the row of
  -- the earlier intent for the address, if the database found one, and as a new row otherwise.
  pub recover-written :
      (req : RecoveryRequest) (h : List Event) {u : Unit} {log : List Event}
      → recover_post env s req h ≡ (json u, log)
      → (session : SessionInfo) × (mid : List Event) × (body : RecoveryBody) × (start : List Event)
        × (address owned : Text) × (existing : Option Text) × (now : ℕ) × (get_or_create_session env
              s {R = Unit} req.cookie h
            ≡ (done session, mid))
        × (recovery_body req.body mid ≡ (done body, start))
        × (string_member body.smart_account_address ≡ some address)
        × (log
            ≡ written existing (record {
              smart_account_address = address;
              label = label_or body.label;
              created_at = now;
            })
              ∷ clock (ok now)
              ∷ found_intent address (ok existing)
              ∷ found_owned session.user_id address (ok (some owned))
              ∷ start)
  unfolding recover
  recover-written req h e =
      step_done (get_or_create_session env s req.cookie) _ h (respond_json _ e) λ session mid es h₁.
        step_done (recovery_body req.body) _ mid h₁ λ body start eb h₂.
          present 400 _ (string_member body.smart_account_address) _ _ h₂ λ address ea h₃.
            called _ _ _ _ h₃ λ found ef h₄. present 404 _ found _ _ h₄ λ owned eo h₅.
              called _ _ _ _ h₅ λ existing ei h₆. called _ _ _ _ h₆ λ now en h₇.
                let w = write_done existing _ _ h₇ in
                (session, mid, body, start, address, owned, existing, now, es, eb, ea, rw eo at w)
