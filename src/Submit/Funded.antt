-- ===== src/Submit/Funded.antt =====
-- The transactions that a run of app/api/transaction/submit sends, whatever way it ends, and the
-- simulation and the funding of the fee payer before them.
use latch_playground.Common.{ℕ, refl, Bool, true, false, Option, none, some, List, [], ◌∷◌, String}
use latch_playground.Common.Result.{Result, ok, err}
use latch_playground.Text.{Text, contains, lit}
use latch_playground.Effects.{caught, or_fail}
use latch_playground.Chain.{BaseTx, Sdk, ChainConfig, given_text, Tx, Passed}
use latch_playground.Server.{Event, Services, fetched_account, checked_horizon}
use latch_playground.Submit.Vetted.{
  IsSimulated, IsVetted, later-IsSimulated, simulate-IsVetted, send-IsVetted,
}
use latch_playground.Submit.{Submitted}
use latch_playground.Submit.Delegated.{with_entries}
use latch_playground.Submit.Phantom.{
  PhantomBody, PhantomInput, phantom_input, is_lower_hex, signed_hex, submit_signed, ensure_account,
  fund, funded, submit_phantom, submit_phantom_post, soroban_data_of, auth_digest,
}
use latch_playground.Requests.{JsonBody}
use latch_playground.Effects.Every.{
  step_every, call_every, unless_every, respond_every, attempt_every, or_fail_every,
}
use latch_playground.Requests.Read.{json_body_every}
use latch_playground.Entries.{set_signature}
use latch_playground.Funding.{friendbot_ok, ask, unless_known, fund_if_missing}

module _ (sdk : Sdk) (config : ChainConfig) (s : Services) (tx : Tx) (p : Passed) where
  abbrev IsReady : List Event → Type 0
  IsReady log = IsSimulated tx p log × IsVetted log

  friendbot_ok-IsReady :
      (m : String) (b : Bool) (log : List Event)
      → IsReady log
      → IsReady (friendbot_ok {R = Submitted} m b log).1
  friendbot_ok-IsReady m true log v = v
  friendbot_ok-IsReady m false log v = v

  ask-IsReady :
      (m : String) (address : Text) (log : List Event)
      → IsReady log
      → IsReady (ask s {R = Submitted} m address log).1
  ask-IsReady m address log v =
      call_every IsReady _ _ _ log (λ r. (later-IsSimulated _ tx p log v.0, v.1))
        λ answered e. friendbot_ok-IsReady m answered _ (later-IsSimulated _ tx p log v.0, v.1)

  unless_known-IsReady :
      (m : String) (address : Text) (r : Result String Bool) (log : List Event)
      → IsReady log
      → IsReady (unless_known s {R = Submitted} m address r log).1
  unless_known-IsReady m address (ok true) log v = v
  unless_known-IsReady m address (ok false) log v = ask-IsReady m address log v
  unless_known-IsReady m address (err e) log v = ask-IsReady m address log v

  fund-IsReady :
      (b : Bool) (m : String) (address : Text) (log : List Event)
      → IsReady log
      → IsReady (fund sdk config s b m address log).1
  unfolding fund_if_missing
  fund-IsReady false m address log v = v
  fund-IsReady true m address log v =
      step_every IsReady (caught (λ l. s.check_horizon l address) (checked_horizon address)) _ log
        (later-IsSimulated _ tx p log v.0, v.1)
        λ known e. unless_known-IsReady _ address known _ (later-IsSimulated _ tx p log v.0, v.1)

  funded-IsReady :
      (address : Text) (r : Result String ℕ) (log : List Event)
      → IsReady log
      → IsReady (funded sdk config s address r log).1
  funded-IsReady address (ok n) log v = v
  funded-IsReady address (err m) log v =
      fund-IsReady (contains (lit m) (lit "Account not found")) m address log v

  ensure_account-IsReady :
      (address : Text) (log : List Event)
      → IsReady log
      → IsReady (ensure_account sdk config s address log).1
  unfolding ensure_account
  ensure_account-IsReady address log v =
      step_every IsReady (caught (λ l. s.get_account l address) (fetched_account address)) _ log
        (later-IsSimulated _ tx p log v.0, v.1)
        λ account e. funded-IsReady address account _ (later-IsSimulated _ tx p log v.0, v.1)

or_fail-IsVetted :
    {A : Type 0} (R : Type 0) (n : ℕ) (m : String) (o : Option A) (log : List Event)
    → IsVetted log
    → IsVetted (or_fail {R = R} n m o log).1
or_fail-IsVetted R n m none log v = v
or_fail-IsVetted R n m (some a) log v = v

soroban_data_of-IsVetted :
    (tx : BaseTx) (resources : Option Text) (log : List Event)
    → IsVetted log
    → IsVetted (soroban_data_of tx resources log).1
soroban_data_of-IsVetted tx resources log v =
    unless_every IsVetted tx.is_v1 400 _ _ log v
      λ e. or_fail-IsVetted Submitted 400 _ resources log v

phantom_input-IsVetted :
    (body : PhantomBody) (log : List Event) → IsVetted log → IsVetted (phantom_input body log).1
unfolding phantom_input
phantom_input-IsVetted body log v =
    or_fail_every IsVetted 400 _ (given_text body.tx_xdr) _ _ v λ tx_xdr _.
      or_fail_every IsVetted 400 _ (given_text body.auth_entry_xdr) _ _ v λ entry_xdr _.
        or_fail_every IsVetted 400 _ (given_text body.auth_signature_hex) _ _ v λ signature _.
          or_fail_every IsVetted 400 _ (given_text body.prefixed_message) _ _ v λ message _.
            or_fail_every IsVetted 400 _ (given_text body.public_key_hex) _ _ v λ public_key _.
              unless_every IsVetted _ 400 _ _ _ v λ e₁.
                unless_every IsVetted (is_lower_hex 64 (signed_hex message)) 400 _ _ _ v λ e₂.
                  unless_every IsVetted (is_lower_hex 128 signature) 400 _ _ _ v
                    λ e₃. unless_every IsVetted (is_lower_hex 64 public_key) 400 _ _ _ v λ e₄. v

module _ (sdk : Sdk) (config : ChainConfig) (s : Services) where
  submit_signed-IsVetted :
      (verifier secret : Text) (input : PhantomInput) (log : List Event)
      → IsVetted log
      → IsVetted (submit_signed sdk config s verifier secret input log).1
  unfolding submit_signed
  submit_signed-IsVetted verifier secret input log v =
      attempt_every IsVetted (sdk.parse_transaction _ _) _ _ v λ tx e₁.
        attempt_every IsVetted (sdk.parse_auth_entry _) _ _ v λ parsed e₂.
          attempt_every IsVetted (auth_digest sdk config parsed) _ _ v λ digest e₀.
            unless_every IsVetted _ 400 _ _ _ v λ e₃. unless_every IsVetted _ 400 _ _ _ v λ e₄.
              unless_every IsVetted _ 400 _ _ _ v λ e₅.
                attempt_every IsVetted (sdk.check_address verifier) _ _ v λ u e₆.
                  attempt_every IsVetted (set_signature parsed _) _ _ v λ entry e₇.
                    step_every IsVetted (soroban_data_of tx tx.soroban_data) _ _
                      (soroban_data_of-IsVetted tx tx.soroban_data _ v)
                      λ resources e₈.
                        let w = soroban_data_of-IsVetted tx tx.soroban_data log v in
                        simulate-IsVetted s Submitted
                          (with_entries tx (some resources) (entry ∷ [])) _ _ w
                          λ p. attempt_every IsVetted (sdk.public_key_of secret) _ _ w λ address e₉.
                            let tx' = with_entries tx (some resources) (entry ∷ []) in
                            let r =
                              ensure_account-IsReady sdk config s tx' p address _
                                (([], _, refl), w) in
                            step_every IsVetted (ensure_account sdk config s address) _ _ r.1
                              λ u₂ e. send-IsVetted s Submitted _ tx' p secret _ r.0 r.1

  -- From any log of vetted transactions, every run of the submission that Phantom signed, whether it
  -- answers, refuses or throws, leaves such a log, also where it funds the fee payer between the
  -- simulation and the sending.
  pub submit_phantom-IsVetted :
      (json : JsonBody PhantomBody) (h : List Event)
      → IsVetted h
      → IsVetted (submit_phantom_post sdk config s json h).1
  unfolding submit_phantom
  submit_phantom-IsVetted json h v = respond_every IsVetted (submit_phantom sdk config s json h) (
      or_fail_every IsVetted 500 _ (given_text config.bundler_secret) _ _ v λ secret _.
        or_fail_every IsVetted 500 _ (given_text config.verifier_address) _ _ v λ verifier _.
          json_body_every IsVetted json _ _ v λ body _.
            let w = phantom_input-IsVetted body h v in
            step_every IsVetted (phantom_input body) _ _ w
              λ input e. submit_signed-IsVetted verifier secret input _ w)
