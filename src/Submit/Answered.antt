-- ===== src/Submit/Answered.antt =====
-- What stands behind an answer of app/api/transaction/submit-webauthn.
use latch_playground.Common.{ℕ, ◌<◌, ◌≡◌, Option, some, List, [], ◌∷◌, String}
use latch_playground.Common.Result.{Result, ok, err}
use latch_playground.Text.{Text}
use latch_playground.Bytes.Hex.{from_hex}
use latch_playground.Effects.{json, done, Route, ◌>>=◌, next, settle, call}
use latch_playground.Effects.Steps.{respond_json, attempted, present}
use latch_playground.Chain.{
  Sdk, ChainConfig, given_text, passphrase_of, BaseTx, AuthEntry, Tx, Passed, Simulation,
  simulation_error, passed,
}
use latch_playground.Server.{Event, Services, simulated}
use latch_playground.Submit.{or_refuse, simulate, Submitted}
use latch_playground.Submit.Sending.{sent_log, send_done}
use latch_playground.Submit.Webauthn.{
  SubmitBody, rule_id_of, with_auth, submit_webauthn, submit_webauthn_post,
}
use latch_playground.Requests.{JsonBody, members}
use latch_playground.Requests.Read.{json_read}
use latch_playground.Entries.{auth_payload, set_signature}

answer_passed :
    {R B C : Type 0} (tx : Tx) (answer : Result String Simulation) (k : Passed → Route Event R B)
    (log : List Event) {b : B} {log' : List Event}
    → (let x = settle {R = R} answer (simulated tx answer) log in
        let y = next x.0 x.1 (or_refuse 400) in next y.0 y.1 k ≡ (done b, log'))
    → ((p : Passed) → k p (simulated tx (ok (passed p)) ∷ log) ≡ (done b, log') → C)
    → C
answer_passed tx (ok (simulation_error m)) k log h f = cc
answer_passed tx (ok (passed p)) k log h f = f p h
answer_passed tx (err m) k log h f = cc

pub simulation_done :
    {R B C : Type 0} (s : Services) (tx : Tx) (k : Passed → Route Event R B) (log : List Event)
    {b : B} {log' : List Event}
    → (simulate s tx >>= k) log ≡ (done b, log')
    → ((p : Passed) → k p (simulated tx (ok (passed p)) ∷ log) ≡ (done b, log') → C)
    → C
unfolding simulate ◌>>=◌ call
simulation_done s tx k log h f = answer_passed tx (s.simulate_transaction log tx) k log h f

-- The members of the body that a submission was made of.
pub record IsGiven (sdk : Sdk) (config : ChainConfig) (json : JsonBody SubmitBody) (tx : BaseTx)
    (entry : AuthEntry) (secret : Text) : Type 0 where
  pub body : SubmitBody
  pub verifier : Text
  pub tx_xdr : Text
  pub auth_entry_xdr : Text
  pub sig_data : Text
  pub key_data : Text
  pub parsed : AuthEntry
  pub posted : json ≡ members body
  pub key : given_text config.bundler_secret ≡ some secret
  pub contract : given_text config.webauthn_verifier_address ≡ some verifier
  pub transaction :
      (given_text body.tx_xdr ≡ some tx_xdr)
      × (sdk.parse_transaction tx_xdr (passphrase_of sdk config) ≡ ok tx)
  pub authorization :
      (given_text body.auth_entry_xdr ≡ some auth_entry_xdr)
      × (sdk.parse_auth_entry auth_entry_xdr ≡ ok parsed)
  pub signature : given_text body.sig_data_xdr ≡ some sig_data
  pub signer : given_text body.key_data_hex ≡ some key_data
  pub signed :
      set_signature parsed (
        auth_payload verifier
          (from_hex key_data)
          (from_hex sig_data)
          (rule_id_of body.context_rule_id ∷ []))
      ≡ ok entry

module _ (sdk : Sdk) (config : ChainConfig) (s : Services) where
  -- A WebAuthn submission that is answered made these calls and no others: the transaction of the
  -- body, with its authorization entry signed by the body's key and signature data under the body's
  -- context rule, passed a simulation, was sent with the resources found there, and was reported as
  -- successful within 30 rounds of polling, under the hash that is answered.
  pub submit_webauthn-IsGiven :
      (body : JsonBody SubmitBody) (h : List Event) {r : Submitted} {log : List Event}
      → submit_webauthn_post sdk config s body h ≡ (json r, log)
      → (tx : BaseTx) × (entry : AuthEntry) × (secret : Text) × (p : Passed) × (v : Option Text)
        × (k : ℕ) × IsGiven sdk config body tx entry secret
        × (k < 30)
        × (log
            ≡ sent_log
                (with_auth tx entry)
                p
                secret
                r.hash
                v
                k
                (simulated (with_auth tx entry) (ok (passed p)) ∷ h))
  unfolding submit_webauthn
  submit_webauthn-IsGiven posted h {r} {log} e =
      present 500 _ (given_text config.bundler_secret) _ h (respond_json _ e) λ secret e₁ h₁.
        present 500 _ (given_text config.webauthn_verifier_address) _ _ h₁ λ verifier e₂ h₂.
          json_read posted _ _ h₂ λ body e₃ h₃.
            present 400 _ (given_text body.tx_xdr) _ _ h₃ λ tx_xdr e₄ h₄.
              present 400 _ (given_text body.auth_entry_xdr) _ _ h₄ λ entry_xdr e₅ h₅.
                present 400 _ (given_text body.sig_data_xdr) _ _ h₅ λ sig_data e₆ h₆.
                  present 400 _ (given_text body.key_data_hex) _ _ h₆ λ key_data e₇ h₇.
                    attempted (sdk.parse_transaction _ _) _ _ h₇ λ tx e₈ h₈.
                      attempted (sdk.parse_auth_entry _) _ _ h₈ λ parsed e₉ h₉.
                        attempted (sdk.check_address _) _ _ h₉ λ u f₁ k₁.
                          attempted (set_signature parsed _) _ _ k₁ λ entry f₂ k₂.
                            simulation_done s (with_auth tx entry) _ _ k₂ λ p k₃.
                              attempted (sdk.public_key_of secret) _ _ k₃ λ address f₃ k₄.
                                let d = send_done s _ (with_auth tx entry) p secret _ k₄ in
                                (
                                  tx,
                                  entry,
                                  secret,
                                  p,
                                  d.0,
                                  d.1,
                                  record {
                                    body = body;
                                    verifier = verifier;
                                    tx_xdr = tx_xdr;
                                    auth_entry_xdr = entry_xdr;
                                    sig_data = sig_data;
                                    key_data = key_data;
                                    parsed = parsed;
                                    posted = e₃;
                                    key = e₁;
                                    contract = e₂;
                                    transaction = (e₄, e₈);
                                    authorization = (e₅, e₉);
                                    signature = e₆;
                                    signer = e₇;
                                    signed = f₂;
                                  },
                                  d.2,
                                  d.3,
                                )
