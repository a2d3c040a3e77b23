-- ===== src/DeployAccount/Reported.antt =====
-- The deployment that app/api/smart-account makes, as the network reports it.
use mathlib.Core.Path.{subst}
use latch_playground.Common.{
  ℕ, ◌≡◌, refl, sym, ap, ◌∙◌, ◌<◌, ◌⊎◌, inl, inr, arith, true, Option, none, some, List, ◌∷◌,
  String, Bool-cases,
}
use latch_playground.Common.Result.{ok}
use latch_playground.Text.{Text}
use latch_playground.Effects.{Exit, done, early, thrown, Route, ◌>>=◌, handled}
use latch_playground.Effects.Steps.{step_done, called, attempted, give_done}
use latch_playground.Chain.{
  accepted, Sdk, ChainConfig, given_text, ScVals, Passed, Simulation, simulation_error, passed,
  TxStatus, not_found, failed, success,
}
use latch_playground.Server.{waited, sent, fetched_account, simulated, Event, Services, polled}
use latch_playground.Submit.{poll}
use latch_playground.Submit.Sending.{unseen, or_throw_done, poll_done}
use latch_playground.FactoryAccount.Created.{configured_done}
use latch_playground.DeployAccount.{
  deploy_tx, or_default_wasm, DeployConfig, deploy_config, deployable, returned_contract,
  address_after, is_there, there_or_throw, deploy_contract,
}

-- From a log on, the deployment passed its simulation and was sent, and the network reported this
-- status of it, in the last call, within 30 rounds.
abbrev pub IsReported :
    (secret source : Text)
    → (wasm_hash salt : List ℕ) → ScVals
    → TxStatus
    → List Event
    → List Event
    → Type 0
IsReported secret source wasm_hash salt args status h log =
    (sequence : ℕ) × (p : Passed) × (hash : Text) × (k : ℕ) × (k < 30)
    × (log
        ≡ polled hash (ok status)
          ∷ waited 1000
          ∷ unseen k hash (
              sent (deploy_tx source sequence wasm_hash salt args) p secret (ok (accepted hash))
              ∷ simulated (deploy_tx source sequence wasm_hash salt args) (ok (passed p))
              ∷ fetched_account source (ok sequence)
              ∷ h))

-- The variables of the environment that a deployment takes.
abbrev pub IsConfigured : ChainConfig → DeployConfig → Type 0
IsConfigured config c =
    (given_text config.bundler_secret ≡ some c.secret)
    × (given_text config.verifier_address ≡ some c.verifier)
    × (given_text config.counter_address ≡ some c.counter)
    × (c.wasm_hash ≡ or_default_wasm (given_text config.smart_account_wasm_hash))

returned_contract_done :
    {R : Type 0} (v : Option Text) (log : List Event) {a : Text} {log' : List Event}
    → returned_contract {R = R} v log ≡ (done a, log')
    → (v ≡ some a) × (log ≡ log')
returned_contract_done none log h = cc
returned_contract_done (some b) log h = (ground arith, ap (λ x. x.1) h)

address_after_done :
    {R : Type 0} (computed : Text) (status : Option TxStatus) (log : List Event) {a : Text}
    {log' : List Event}
    → address_after {R = R} computed status log ≡ (done a, log')
    → ((a ≡ computed) × (status ≡ some failed) × (log ≡ log'))
      ⊎ ((status ≡ some (success (some a))) × (log ≡ log'))
address_after_done computed none log h = cc
address_after_done computed (some not_found) log h = cc
address_after_done {R} computed (some failed) log h =
    let g = give_done R computed log h in inl (sym g.0, refl, g.1)
address_after_done computed (some (success v)) log h =
    let d = returned_contract_done v log h in inr (ap (λ w. some (success w)) d.0, d.1)

deployable_done :
    {R B C : Type 0} (sim : Simulation) (k : Passed → Route Event R B) (log : List Event) {b : B}
    {log' : List Event}
    → (deployable sim >>= k) log ≡ (done b, log')
    → ((p : Passed) → sim ≡ passed p → k p log ≡ (done b, log') → C)
    → C
unfolding ◌>>=◌
deployable_done (simulation_error m) k log h f = cc
deployable_done (passed p) k log h f = f p refl h

there_or_throw_done :
    {R : Type 0} (computed : Text) (m : String) (log : List Event) {a : Text} {log' : List Event}
    → there_or_throw {R = R} computed m log ≡ (done a, log')
    → (a ≡ computed) × (is_there m ≡ true) × (log ≡ log')
there_or_throw_done {R} computed m log h = elim (Bool-cases (is_there m)) [
  | inl q ↦ let g = give_done R computed log (rw q at h) in (sym g.0, q, g.1)
  | inr q ↦ let k = rw q at h in cc
]

pub deploy_config_done :
    {R : Type 0} (config : ChainConfig) (h : List Event) {c : DeployConfig} {log : List Event}
    → deploy_config {R = R} config h ≡ (done c, log)
    → IsConfigured config c × (log ≡ h)
unfolding deploy_config
deploy_config_done {R} config h e =
    configured_done _ (given_text config.bundler_secret) _ h e λ secret e₁ h₁.
      configured_done _ (given_text config.verifier_address) _ h h₁ λ verifier e₂ h₂.
        configured_done _ (given_text config.counter_address) _ h h₂ λ counter e₃ h₃.
          let g = give_done R _ h h₃ in
          (subst (IsConfigured config) g.0 (e₁, e₂, e₃, refl), sym g.1)

module _ (sdk : Sdk) (config : ChainConfig) (s : Services) {R : Type 0} where
  pub deploy_contract_done :
      (secret source computed : Text) (wasm_hash salt : List ℕ) (args : ScVals) (log : List Event)
      {a : Text} {log' : List Event}
      → deploy_contract sdk config s {R = R} secret source computed wasm_hash salt args log
        ≡ (done a, log')
      → ((a ≡ computed) × IsReported secret source wasm_hash salt args failed log log')
        ⊎ IsReported secret source wasm_hash salt args (success (some a)) log log'
  unfolding deploy_contract
  deploy_contract_done secret source computed wasm_hash salt args log {a} {log'} h =
      called _ _ _ log h λ sequence e₁ h₁. attempted (sdk.check_address source) _ _ h₁ λ u e₂ h₂.
        called _ _ _ _ h₂ λ sim e₃ h₃. deployable_done sim _ _ h₃ λ p e₀ h₄.
          called _ _ _ _ h₄ λ result e₄ h₅. or_throw_done _ result _ _ h₅ λ hash e₅ h₆.
            step_done (poll s {R = R} 30 hash none) _ _ h₆ λ status mid e₆ h₇.
              elim (address_after_done computed status mid h₇) [
                | inl (same, q, l) ↦
                    let r : poll s {R = R} 30 hash none _ ≡ (done (some failed), mid) =
                      rw q at e₆ in
                    let found = poll_done s 30 hash none _ (λ x. cc) (λ x. cc) r in
                    inl (
                      same,
                      (sequence, p, hash, found.0, found.1, rw (e₀, e₅) at (sym l ∙ found.2)),
                    )
                | inr (q, l) ↦
                    let r : poll s {R = R} 30 hash none _ ≡ (done (some (success (some a))), mid) =
                      rw q at e₆ in
                    let found = poll_done s 30 hash none _ (λ x. cc) (λ x. cc) r in
                    inr (sequence, p, hash, found.0, found.1, rw (e₀, e₅) at (sym l ∙ found.2))
              ]

  pub handled_done :
      (computed : Text) (x : Exit R Text × List Event) {a : Text} {log' : List Event}
      → handled (there_or_throw computed) x ≡ (done a, log')
      → ((a ≡ computed) × (m : String) × (is_there m ≡ true) × (x ≡ (thrown m, log')))
        ⊎ (x ≡ (done a, log'))
  handled_done computed (done b, log) h = inr h
  handled_done computed (early n m, log) h = cc
  handled_done computed (thrown m, log) h =
      let t = there_or_throw_done computed m log h in inl (t.0, m, t.1, ap (λ l. (thrown m, l)) t.2)
