-- ===== src/DeployAccount/Deployed.antt =====
-- What stands behind an account that app/api/smart-account deployed.
use mathlib.Core.Path.{subst}
use latch_playground.Common.{
  ◌≡◌, refl, sym, ap, ◌∙◌, ◌⊎◌, inl, inr, true, false, Option, none, some, List, ◌∷◌, String,
}
use latch_playground.Common.Result.{ok}
use latch_playground.Text.{Text}
use latch_playground.Bytes.Hex.{from_hex}
use latch_playground.Effects.{json, done, thrown, Route, handle}
use latch_playground.Effects.Steps.{step_done, attempted, present, give_done, respond_json}
use latch_playground.Chain.{Sdk, ChainConfig, passphrase_of, failed, success}
use latch_playground.Server.{Event, Services, deploy_cache, account_cache_set}
use latch_playground.Requests.{JsonBody, members, string_member}
use latch_playground.Requests.Read.{json_read}
use latch_playground.Caches.{account_cached, read_account_cache, set_account_cache, or_cached}
use latch_playground.FactoryAccount.{KeyBody, key_of}
use latch_playground.DeployAccount.{
  DeployConfig, ContractDeployment, deploy_config, deploy_salt, contract_address, is_there,
  there_or_throw, deploy_contract, create_contract_account, constructor_args, deploy_account,
  deploy_account_post, known_contract,
}
use latch_playground.DeployAccount.Reported.{
  IsReported, IsConfigured, deploy_config_done, deploy_contract_done, handled_done,
}

module _ (sdk : Sdk) (config : ChainConfig) (s : Services) where
  -- How a deployment for a key leads to an address. The network reported its success with the address;
  -- or the address is the one that the deployer and the key determine, and the network reported a
  -- failure, or an error says that the contract is there.
  abbrev pub IsOrigin :
      DeployConfig → (key source address : Text) → List Event → List Event → Type 0
  IsOrigin c key source address h log =
      let salt = deploy_salt sdk key in
      let computed = contract_address sdk (passphrase_of sdk config) source salt in
      let code = from_hex c.wasm_hash in
      let args = constructor_args key c.verifier in
      IsReported c.secret source code salt args (success (some address)) h log
      ⊎ ((address ≡ computed)
          × (IsReported c.secret source code salt args failed h log
              ⊎ ((m : String) × (is_there m ≡ true)
                  × (deploy_contract sdk config s {R = ContractDeployment} c.secret source computed
                        code salt args h
                      ≡ (thrown m, log)))))

  -- What a fresh answer for a key stands on, from a log on: the bundler's deployment, and the address
  -- in the cache, with the classic address of the key.
  abbrev pub IsFresh :
      DeployConfig → (key : Text) → List Event → ContractDeployment → List Event → Type 0
  IsFresh c key h d log =
      (source : Text) × (before : List Event) × (sdk.public_key_of c.secret ≡ ok source)
      × (sdk.encode_public_key (from_hex key) ≡ ok d.g_address)
      × (log ≡ account_cache_set deploy_cache key d.smart_account_address d.g_address ∷ before)
      × IsOrigin c key source d.smart_account_address h before

  deployment-IsOrigin :
      (c : DeployConfig) (key source : Text) (h : List Event) {address : Text} {log : List Event}
      → (let salt = deploy_salt sdk key in
          let computed = contract_address sdk (passphrase_of sdk config) source salt in
          handle
            (there_or_throw computed)
            (deploy_contract sdk config s {R = ContractDeployment} c.secret source computed
              (from_hex c.wasm_hash)
              salt
              (constructor_args key c.verifier))
            h
          ≡ (done address, log))
      → IsOrigin c key source address h log
  unfolding handle
  deployment-IsOrigin c key source h e =
      let salt = deploy_salt sdk key in
      let computed = contract_address sdk (passphrase_of sdk config) source salt in
      let code = from_hex c.wasm_hash in
      let args = constructor_args key c.verifier in
      elim (handled_done sdk config s computed
        (deploy_contract sdk config s c.secret source computed code salt args h) e) [
          | inl (same, m, there, threw) ↦ inr (same, inr (m, there, threw))
          | inr run ↦
              elim (deploy_contract_done sdk config s c.secret source computed code salt args h
                run) [ inl (same, r) ↦ inr (same, inl r) | inr r ↦ inl r ]
        ]

  create_contract_account_done :
      (c : DeployConfig) (key g_address : Text) (h : List Event) {d : ContractDeployment}
      {log : List Event}
      → sdk.encode_public_key (from_hex key) ≡ ok g_address
      → create_contract_account sdk config s c key g_address h ≡ (done d, log)
      → (d.already_deployed ≡ false) × IsFresh c key h d log
  unfolding create_contract_account
  create_contract_account_done c key g_address h {d} {log} eg e =
      attempted (sdk.check_address c.verifier) _ h e λ u e₁ h₁.
        attempted (sdk.public_key_of c.secret) _ _ h₁ λ source e₂ h₂.
          let computed =
            contract_address sdk (passphrase_of sdk config) source (deploy_salt sdk key) in
          let deploying =
            deploy_contract sdk config s {R = ContractDeployment} c.secret source computed
              (from_hex c.wasm_hash) (deploy_salt sdk key) (constructor_args key c.verifier) in
          step_done (handle (there_or_throw computed) deploying) _ h h₂ λ address l₁ e₃ h₃.
            step_done (set_account_cache deploy_cache key address g_address) _ _ h₃ λ u₂ l₂ e₄ h₄.
              let q = give_done ContractDeployment _ _ h₄ in
              let origin = deployment-IsOrigin c key source h e₃ in
              let set : account_cache_set deploy_cache key address g_address ∷ l₁ ≡ log =
                ap (λ x. x.1) e₄ ∙ q.1 in
              subst (λ t. (t.already_deployed ≡ false) × IsFresh c key h t log) q.0
                ((refl, (source, l₁, e₂, eg, sym set, origin)))

  hit_done :
      (c : DeployConfig) (key : Text) (hit : Option (Text × Text))
      (rest : Route Event ContractDeployment ContractDeployment) (log : List Event)
      {d : ContractDeployment} {log' : List Event}
      → or_cached known_contract hit rest log ≡ (done d, log')
      → (rest log ≡ (done d, log') → (d.already_deployed ≡ false) × IsFresh c key log d log')
      → ((d.already_deployed ≡ true)
          × (log' ≡ log)
          × (hit ≡ some (d.smart_account_address, d.g_address)))
        ⊎ ((d.already_deployed ≡ false) × IsFresh c key log d log')
  hit_done c key none rest log h f = inr (f h)
  hit_done c key (some (a, g)) rest log h f =
      let q = give_done ContractDeployment _ log h in
      inl (
        sym (ap (λ t. t.already_deployed) q.0),
        sym q.1,
        ap (λ t. some (t.smart_account_address, t.g_address)) q.0,
      )

  -- What stands behind every answer that is a deployed account. Either it was in the cache, and
  -- nothing was called. Or it is fresh: its address and the classic address of its key are now in the
  -- cache. Then the bundler's deployment of the configured contract for the key passed its simulation,
  -- was sent, and was reported with this address within 30 rounds of polling; or it is the address
  -- that the bundler's public key and the key determine, and the deployment was reported as failed, or
  -- threw an error that says that the contract is there.
  pub deploy_account-IsFresh :
      (posted : JsonBody KeyBody) (h : List Event) {d : ContractDeployment} {log : List Event}
      → deploy_account_post sdk config s posted h ≡ (json d, log)
      → (c : DeployConfig) × (body : KeyBody) × (key : Text) × IsConfigured config c
        × (posted ≡ members body)
        × (key_of (string_member body.public_key_hex) ≡ some key)
        × (((d.already_deployed ≡ true)
              × (log ≡ h)
              × (account_cached deploy_cache h key ≡ some (d.smart_account_address, d.g_address)))
            ⊎ ((d.already_deployed ≡ false) × IsFresh c key h d log))
  unfolding deploy_account deploy_config
  deploy_account-IsFresh posted h e =
      step_done (deploy_config config) _ h (respond_json _ e) λ c l₀ e₀ h₀.
        json_read posted _ _ h₀ λ body e₁ h₁.
          present 400 _ (key_of (string_member body.public_key_hex)) _ _ h₁ λ key e₂ h₂.
            attempted (sdk.encode_public_key (from_hex key)) _ _ h₂ λ g_address e₃ h₃.
              step_done (read_account_cache deploy_cache key) _ _ h₃ λ hit l e₄ h₄.
                let q = give_done ContractDeployment (account_cached deploy_cache l₀ key) l₀ e₄ in
                let set_up = deploy_config_done config h e₀ in
                let start : l ≡ h = sym q.1 ∙ set_up.1 in
                (
                  c,
                  body,
                  key,
                  set_up.0,
                  e₁,
                  e₂,
                  elim (hit_done c key hit (create_contract_account sdk config s c key g_address) l
                      h₄ (λ k. create_contract_account_done c key g_address l e₃ k)) [
                        | inl (a, b, f) ↦ inl (a, b ∙ start, rw set_up.1 at (q.0 ∙ f))
                        | inr fresh ↦ inr (rw start at fresh)
                      ],
                )
