-- ===== src/Submit/Vetted.antt =====
-- The transactions that a run of app/api/transaction/submit-webauthn or submit-delegated sends,
-- whatever way it ends, and the simulations before them.
use latch_playground.Common.{
  ℕ, zero, suc, ◌≡◌, refl, ap, Option, none, some, List, [], ◌∷◌, ◌++◌, String, length, ◌==◌,
}
use latch_playground.Common.Result.{Result, ok, err}
use latch_playground.Text.{Text}
use latch_playground.Effects.{Route, ◌>>=◌, call, next, settle, attempt}
use latch_playground.Chain.{
  Sdk, ChainConfig, given_text, Tx, Passed, Simulation, simulation_error, passed, Sent, refused,
  accepted, TxStatus, not_found, failed, success,
}
use latch_playground.Server.{Event, Services, simulated, sent}
use latch_playground.Submit.{
  or_refuse, or_throw, wait, again, succeeded, poll, send, simulate, Submitted,
}
use latch_playground.Submit.Webauthn.{SubmitBody, submit_webauthn, submit_webauthn_post, with_auth}
use latch_playground.Submit.Delegated.{
  DelegatedBody, submit_delegated, submit_delegated_post, v1_of,
}
use latch_playground.Requests.{JsonBody}
use latch_playground.Effects.Every.{
  step_every, call_every, unless_every, respond_every, attempt_every, or_fail_every,
}
use latch_playground.Requests.Read.{json_body_every}
use latch_playground.Entries.{set_signature}

-- The transaction passed a simulation with these resources, somewhere in the log.
abbrev pub IsSimulated : Tx → Passed → List Event → Type 0
IsSimulated tx p log =
    (later : List Event) × (earlier : List Event) × (log
      ≡ later ++ (simulated tx (ok (passed p)) ∷ earlier))

abbrev pub IsVetted : List Event → Type 0
IsVetted [] = Unit
IsVetted (sent tx p secret r ∷ log) = IsSimulated tx p log × IsVetted log
IsVetted (_ ∷ log) = IsVetted log

pub later-IsSimulated :
    (e : Event) (tx : Tx) (p : Passed) (log : List Event)
    → IsSimulated tx p log
    → IsSimulated tx p (e ∷ log)
later-IsSimulated e tx p log (later, earlier, l) = (e ∷ later, earlier, ap (λ t. e ∷ t) l)

module _ (s : Services) (R : Type 0) where
  or_refuse-IsVetted :
      {B : Type 0} (n : ℕ) (sim : Simulation) (k : Passed → Route Event R B) (log : List Event)
      → IsVetted log
      → ((p : Passed) → sim ≡ passed p → IsVetted (k p log).1)
      → IsVetted ((or_refuse n sim >>= k) log).1
  unfolding ◌>>=◌
  or_refuse-IsVetted n (simulation_error m) k log v f = v
  or_refuse-IsVetted n (passed p) k log v f = f p refl

  again-IsVetted :
      (status : TxStatus) (rest : Route Event R (Option TxStatus)) (log : List Event)
      → IsVetted log
      → IsVetted (rest log).1
      → IsVetted (again status rest log).1
  again-IsVetted not_found rest log v w = w
  again-IsVetted failed rest log v w = v
  again-IsVetted (success r) rest log v w = v

  poll-IsVetted :
      (n : ℕ) (hash : Text) (last : Option TxStatus) (log : List Event)
      → IsVetted log
      → IsVetted (poll s {R = R} n hash last log).1
  unfolding poll
  poll-IsVetted zero hash last log v = v
  poll-IsVetted (suc n) hash last log v = step_every IsVetted (wait 1000) _ log v λ u e.
      call_every IsVetted _ _ _ _ (λ r. v)
        λ status e₂. again-IsVetted status _ _ v (poll-IsVetted n hash (some status) _ v)

  succeeded-IsVetted :
      (hash : Text) (last : Option TxStatus) (log : List Event)
      → IsVetted log
      → IsVetted (succeeded {R = R} hash last log).1
  succeeded-IsVetted hash none log v = v
  succeeded-IsVetted hash (some not_found) log v = v
  succeeded-IsVetted hash (some failed) log v = v
  succeeded-IsVetted hash (some (success r)) log v = v

  or_throw-IsVetted :
      {B : Type 0} (m : String) (result : Sent) (k : Text → Route Event R B) (log : List Event)
      → IsVetted log
      → ((hash : Text) → IsVetted (k hash log).1)
      → IsVetted ((or_throw m result >>= k) log).1
  unfolding ◌>>=◌
  or_throw-IsVetted m refused k log v f = v
  or_throw-IsVetted m (accepted hash) k log v f = f hash

  pub send-IsVetted :
      (m : String) (tx : Tx) (p : Passed) (secret : Text) (log : List Event)
      → IsSimulated tx p log
      → IsVetted log
      → IsVetted (send s {R = R} m tx p secret log).1
  unfolding send
  send-IsVetted m tx p secret log i v =
      call_every IsVetted _ _ _ log (λ r. (i, v))
        λ result e.
          or_throw-IsVetted m result _ _ (i, v)
            λ hash.
              step_every IsVetted (poll s 30 hash none) _ _ (poll-IsVetted 30 hash none _ (i, v))
                λ status e₂. succeeded-IsVetted hash status _ (poll-IsVetted 30 hash none _ (i, v))

  answer-IsVetted :
      {B : Type 0} (tx : Tx) (answer : Result String Simulation) (k : Passed → Route Event R B)
      (log : List Event)
      → IsVetted log
      → ((p : Passed) → IsVetted (k p (simulated tx (ok (passed p)) ∷ log)).1)
      → (let x = settle {R = R} answer (simulated tx answer) log in
          let y = next x.0 x.1 (or_refuse 400) in IsVetted (next y.0 y.1 k).1)
  answer-IsVetted tx (ok (simulation_error m)) k log v f = v
  answer-IsVetted tx (ok (passed p)) k log v f = f p
  answer-IsVetted tx (err m) k log v f = v

  pub simulate-IsVetted :
      {B : Type 0} (tx : Tx) (k : Passed → Route Event R B) (log : List Event)
      → IsVetted log
      → ((p : Passed) → IsVetted (k p (simulated tx (ok (passed p)) ∷ log)).1)
      → IsVetted ((simulate s tx >>= k) log).1
  unfolding simulate ◌>>=◌ call
  simulate-IsVetted tx k log v f = answer-IsVetted tx (s.simulate_transaction log tx) k log v f

  -- A transaction that passed its simulation is sent at once.
  simulated-IsVetted :
      (m : String) (tx : Tx) (secret : Text) (key : Result String Text) (log : List Event)
      → IsVetted log
      → IsVetted
          ((simulate s {R = R} tx >>= λ p. attempt key >>= λ address. send s {R = R} m tx p secret)
            log).1
  simulated-IsVetted m tx secret key log v = simulate-IsVetted tx _ log v λ p.
      attempt_every IsVetted key _ _ v λ address e. send-IsVetted m tx p secret _ ([], log, refl) v

module _ (sdk : Sdk) (config : ChainConfig) (s : Services) where
  -- From any log of vetted transactions, every run of the WebAuthn submission, whether it answers,
  -- refuses or throws, leaves such a log: each transaction that was sent had passed a simulation,
  -- with the very resources that it was assembled from.
  pub submit_webauthn-IsVetted :
      (json : JsonBody SubmitBody) (h : List Event)
      → IsVetted h
      → IsVetted (submit_webauthn_post sdk config s json h).1
  unfolding submit_webauthn
  submit_webauthn-IsVetted json h v = respond_every IsVetted (submit_webauthn sdk config s json h) (
      or_fail_every IsVetted 500 _ (given_text config.bundler_secret) _ _ v λ secret _.
        or_fail_every IsVetted 500 _ (given_text config.webauthn_verifier_address) _ _ v
          λ verifier _. json_body_every IsVetted json _ _ v λ body _.
            or_fail_every IsVetted 400 _ (given_text body.tx_xdr) _ _ v λ tx_xdr _.
              or_fail_every IsVetted 400 _ (given_text body.auth_entry_xdr) _ _ v λ entry_xdr _.
                or_fail_every IsVetted 400 _ (given_text body.sig_data_xdr) _ _ v λ sig_data _.
                  or_fail_every IsVetted 400 _ (given_text body.key_data_hex) _ _ v λ key_data _.
                    attempt_every IsVetted (sdk.parse_transaction _ _) _ _ v λ tx e₁.
                      attempt_every IsVetted (sdk.parse_auth_entry _) _ _ v λ parsed e₂.
                        attempt_every IsVetted (sdk.check_address _) _ _ v λ u e₃.
                          attempt_every IsVetted (set_signature parsed _) _ _ v λ entry e₄.
                            simulated-IsVetted s Submitted _ (with_auth tx entry) secret _ _ v)

  -- From any log of vetted transactions, every run of the delegated submission, whether it answers,
  -- refuses or throws, leaves such a log.
  pub submit_delegated-IsVetted :
      (json : JsonBody DelegatedBody) (h : List Event)
      → IsVetted h
      → IsVetted (submit_delegated_post sdk config s json h).1
  unfolding submit_delegated
  submit_delegated-IsVetted json h v =
      respond_every IsVetted (submit_delegated sdk config s json h) (
        or_fail_every IsVetted 500 _ (given_text config.bundler_secret) _ _ v λ secret _.
          json_body_every IsVetted json _ _ v λ body _.
            or_fail_every IsVetted 400 _ (given_text body.tx_xdr) _ _ v λ tx_xdr _.
              or_fail_every IsVetted 400 _ (given_text body.smart_account_auth_entry_xdr) _ _ v
                λ account_xdr _.
                  or_fail_every IsVetted 400 _ (given_text body.g_address_entry_template_xdr) _ _ v
                    λ template_xdr _.
                      or_fail_every IsVetted 400 _ (given_text body.signed_auth_entry_base64) _ _ v
                        λ signature _.
                          or_fail_every IsVetted 400 _ (given_text body.signer_address) _ _ v
                            λ signer _.
                              attempt_every IsVetted (sdk.parse_transaction _ _) _ _ v λ tx e₁.
                                attempt_every IsVetted (sdk.parse_auth_entry _) _ _ v λ account e₂.
                                  unless_every IsVetted (length (sdk.decode_base64 signature) == 64)
                                    400 _ _ _ v
                                    λ e₃.
                                      attempt_every IsVetted (sdk.decode_public_key _) _ _ v
                                        λ public_key e₄.
                                          attempt_every IsVetted (sdk.parse_auth_entry _) _ _ v
                                            λ template e₅.
                                              attempt_every IsVetted (set_signature template _) _ _
                                                v
                                                λ entry e₆.
                                                  attempt_every IsVetted (v1_of tx) _ _ v λ u e₇.
                                                    simulated-IsVetted s Submitted _ _ secret _ _ v)
