-- ===== src/Factory/Deployed.antt =====
-- What stands behind a deployment of lib/smart-account-factory-webauthn.ts that comes to its end.
use latch_playground.Common.{
  ℕ, zero, suc, ◌+◌, ◌<◌, ◌≡◌, refl, sym, ap, ◌∙◌, arith, Bool, true, false, Option, none, List,
  ◌∷◌, ◌⊎◌, inl, inr, String, ltb, ltb→lt, if◌then◌else◌,
}
use latch_playground.Common.Result.{ok}
use latch_playground.Text.{Text, lit, text_eq, text_eq_iff}
use latch_playground.Effects.{done, Route, ◌>>=◌, give, throw}
use latch_playground.Effects.Steps.{step_done, called, attempted, give_done}
use latch_playground.Chain.{
  Sdk, ScVal, Passed, Simulation, simulation_error, passed, accepted, TxStatus, not_found, failed,
  success,
}
use latch_playground.Server.{
  Event, Services, waited, fetched_account, counted_entries, simulated, sent, polled,
}
use latch_playground.Submit.{wait}
use latch_playground.Factory.{
  factory_tx, simulation_passed, address_or, Deployment, is_deployed, ended, poll_deployment,
  create_account, deploy, unless_deployed,
}
use latch_playground.Submit.Sending.{or_throw_done, unseen}

pub simulated_or :
    {R B C : Type 0} (m : String) (sim : Simulation) (k : Passed → Route Event R B)
    (log : List Event) {b : B} {log' : List Event}
    → (simulation_passed m sim >>= k) log ≡ (done b, log')
    → ((p : Passed) → sim ≡ passed p → k p log ≡ (done b, log') → C)
    → C
unfolding ◌>>=◌
simulated_or m (simulation_error e) k log h f = cc
simulated_or m (passed p) k log h f = f p refl h

-- What a polling of at most `n` rounds leaves: rounds in which the network did not know the
-- transaction, and a last one that reported its success and the value `a`; or `n` rounds without it.
abbrev pub IsPolled : ℕ → Text → Option Text → List Event → List Event → Type 0
IsPolled n hash a log log' =
    ((a ≡ none) × (log' ≡ unseen n hash log))
    ⊎ ((k : ℕ) × (k < n) × (log' ≡ polled hash (ok (success a)) ∷ waited 1000 ∷ unseen k hash log))

later_round :
    (n : ℕ) (hash : Text) (a : Option Text) (log log' : List Event)
    → IsPolled n hash a (polled hash (ok not_found) ∷ waited 1000 ∷ log) log'
    → IsPolled (suc n) hash a log log'
later_round n hash a log log' (inl (q, l)) = inl (q, l)
later_round n hash a log log' (inr (k, le, l)) = inr (suc k, omega arith, l)

module _ (sdk : Sdk) (s : Services) (R : Type 0) where
  ended_done :
      (n : ℕ) (hash : Text) (status : TxStatus) (rest : Route Event R (Option Text))
      (log : List Event) {a : Option Text} {log' : List Event}
      → ended sdk s status rest (polled hash (ok status) ∷ waited 1000 ∷ log) ≡ (done a, log')
      → (rest (polled hash (ok not_found) ∷ waited 1000 ∷ log) ≡ (done a, log')
          → IsPolled n hash a (polled hash (ok not_found) ∷ waited 1000 ∷ log) log')
      → IsPolled (suc n) hash a log log'
  ended_done n hash not_found rest log h f = later_round n hash _ log _ (f h)
  ended_done n hash failed rest log h f = cc
  ended_done n hash (success v) rest log h f =
      let g = give_done R v _ h in
      inr (
        zero,
        omega arith,
        sym g.1 ∙ ap (λ w. polled hash (ok (success w)) ∷ waited 1000 ∷ log) g.0,
      )

  poll_deployment_done :
      (n : ℕ) (hash : Text) (log : List Event) {a : Option Text} {log' : List Event}
      → poll_deployment sdk s {R = R} n hash log ≡ (done a, log')
      → IsPolled n hash a log log'
  unfolding poll_deployment
  poll_deployment_done zero hash log h = let g = give_done R none log h in inl (sym g.0, sym g.1)
  poll_deployment_done (suc n) hash log h = step_done (wait 1000) _ log h λ u mid e₁ h₁.
      let m : waited 1000 ∷ log ≡ mid = ap (λ x. x.1) e₁ in
      called _ _ _ _ h₁ λ status e₂ h₂.
        ended_done n hash status (poll_deployment sdk s {R = R} n hash) log (rw (sym m) at h₂)
          (λ g. poll_deployment_done n hash _ g)

  fits :
      {B C : Type 0} (test : Bool) (m : String) (k : Unit → Route Event R B) (log : List Event)
      {b : B} {log' : List Event}
      → ((if test then give tt else throw m) >>= k) log ≡ (done b, log')
      → (test ≡ true → k tt log ≡ (done b, log') → C)
      → C
  unfolding ◌>>=◌
  fits true m k log h f = f refl h
  fits false m k log h f = cc

  -- The calls of a deployment that was not there, up to the sending.
  abbrev pub creation_log :
      (factory secret source : Text) → ScVal → ℕ → Passed → Text → List Event → List Event
  creation_log factory secret source params sequence p hash log =
      let tx = factory_tx source (sequence + 1) 1500000 300 factory (lit "create_account") params in
      sent tx p secret (ok (accepted hash))
      ∷ simulated tx (ok (passed p))
      ∷ fetched_account source (ok sequence)
      ∷ log

  pub create_account_done :
      (mismatch : String) (factory secret source : Text) (params : ScVal) (predicted : Text)
      (log : List Event) {d : Deployment} {log' : List Event}
      → create_account sdk s {R = R} mismatch factory secret source params predicted log
        ≡ (done d, log')
      → (d.smart_account_address ≡ predicted)
        × (d.already_deployed ≡ false)
        × (sequence : ℕ) × (p : Passed) × (hash : Text) × (answer : Option Text) × (address_or
              predicted answer
            ≡ predicted)
        × IsPolled 30 hash answer
            (creation_log factory secret source params sequence p hash log)
            log'
  unfolding create_account
  create_account_done mismatch factory secret source params predicted log h =
      called _ _ _ log h λ sequence e₁ h₀. attempted (sdk.check_contract factory) _ _ h₀ λ u e₀ h₁.
        called _ _ _ _ h₁ λ sim e₂ h₂. simulated_or _ sim _ _ h₂ λ p e₃ h₃.
          called _ _ _ _ h₃ λ result e₄ h₄. or_throw_done _ result _ _ h₄ λ hash e₅ h₅.
            step_done (poll_deployment sdk s 30 hash) _ _ h₅ λ address mid e₆ h₆.
              fits (text_eq (address_or predicted address) predicted) _ _ mid h₆ λ e₇ h₇.
                let q = poll_deployment_done 30 hash _ e₆ in
                let same = text_eq_iff (address_or predicted address) predicted in
                let last : mid ≡ _ = ap (λ x. x.1) h₇ in
                (
                  ground arith,
                  ground arith,
                  sequence,
                  p,
                  hash,
                  address,
                  same.0 e₇,
                  rw (e₃, e₅, last) at q,
                )

  pub count_done :
      (address : Text) (log : List Event) {b : Bool} {log' : List Event}
      → is_deployed sdk s {R = R} address log ≡ (done b, log')
      → (n : ℕ) × (b ≡ ltb 0 n) × (log' ≡ counted_entries address (ok n) ∷ log)
  unfolding is_deployed
  count_done address log h =
      attempted (sdk.check_address address) _ log h
        λ u e₁ h₁. called _ _ _ log h₁ λ n e₂ h₂. (n, ground arith, ground arith)

  unless_deployed_done :
      (predicted : Text) (there : Bool) (create : Route Event R Deployment) (log : List Event)
      {d : Deployment} {log' : List Event}
      → unless_deployed sdk s predicted there create log ≡ (done d, log')
      → ((there ≡ true)
          × (d.smart_account_address ≡ predicted)
          × (d.already_deployed ≡ true)
          × (log' ≡ log))
        ⊎ ((there ≡ false) × (create log ≡ (done d, log')))
  unless_deployed_done predicted true create log h =
      inl (refl, ground arith, ground arith, ground arith)
  unless_deployed_done predicted false create log h = inr (refl, h)

  -- A deployment that comes to its end gives the predicted address. It reports the account as there
  -- before if the ledger held an entry for it, and then it did nothing else. Otherwise the ledger
  -- held none, the creation passed its simulation and was sent once, at the sequence number after
  -- the fee payer's, and nothing followed but the polling: rounds in which the network did not know the
  -- transaction, at most 29 of them before one that reported its success, with the predicted address
  -- or none, or 30 of them.
  pub deploy-IsPolled :
      (factory secret : Text) (params : ScVal) (predicted : Text) (log : List Event)
      {d : Deployment} {log' : List Event}
      → deploy sdk s {R = R} factory secret params predicted log ≡ (done d, log')
      → (d.smart_account_address ≡ predicted)
        × (((d.already_deployed ≡ true)
              × (n : ℕ) × (0 < n)
              × (log' ≡ counted_entries predicted (ok n) ∷ log))
            ⊎ ((d.already_deployed ≡ false)
                × (source : Text) × (sequence : ℕ) × (p : Passed) × (hash : Text) × (answer : Option
                    Text)
                × (sdk.public_key_of secret ≡ ok source)
                × (address_or predicted answer ≡ predicted)
                × IsPolled 30 hash answer
                    (creation_log factory secret source params sequence p hash
                      (counted_entries predicted (ok 0) ∷ log))
                    log'))
  unfolding deploy
  deploy-IsPolled factory secret params predicted log h =
      attempted (sdk.public_key_of secret) _ log h λ source e₁ h₁.
        step_done (is_deployed sdk s predicted) _ log h₁ λ there mid e₂ h₂.
          let c = count_done predicted log e₂ in
          elim (unless_deployed_done predicted there _ mid h₂) [
            | inl (t, a, b, l) ↦ (a, inl (b, c.0, ltb→lt 0 c.0 (sym c.1 ∙ t), l ∙ c.2))
            | inr (t, g) ↦
                let f = create_account_done _ factory secret source params predicted mid g in
                let zero_entries : c.0 ≡ 0 = ground (arith, sym c.1 ∙ t) in
                (f.0, inr (f.1, source, f.2, f.3, f.4, f.5, e₁, f.6, rw (c.2, zero_entries) at f.7))
          ]
