-- ===== src/SmartAccount/Cached.antt =====
-- The cache of app/api/smart-account/webauthn after a creation.
use latch_playground.Common.{
  ◌≡◌, refl, ap, sym, ◌∙◌, Option, none, some, List, ◌∷◌, arith, leb, length,
}
use latch_playground.Text.{Text}
use latch_playground.Effects.{json, done, Route, ◌>>=◌}
use latch_playground.Effects.Steps.{step_done, passed, respond_json, present}
use latch_playground.Chain.{Sdk, ChainConfig, given_text}
use latch_playground.Server.{Event, Services, cache_set, webauthn_cache}
use latch_playground.Factory.{Deployment, predict_address, deploy, factory_address_of}
use latch_playground.SmartAccount.{
  Query, DeployBody, found, known, look_up, look_up_get, deploy_account, create, create_post,
}
use latch_playground.Requests.{JsonBody, members, string_member}
use latch_playground.Requests.Read.{json_read}
use latch_playground.Caches.{cached, set_cache, or_cached, cached_set}

module _ (sdk : Sdk) (config : ChainConfig) (s : Services) where
  -- The address of a finished creation is in the cache.
  deploy_account_done :
      (factory secret id key_data_hex : Text) (log : List Event) {d : Deployment}
      {log' : List Event}
      → deploy_account sdk config s factory secret id key_data_hex log ≡ (done d, log')
      → cached webauthn_cache log' id ≡ some d.smart_account_address
  unfolding deploy_account
  deploy_account_done factory secret id key_data_hex log {d} h =
      step_done (predict_address sdk s factory _) _ log h λ predicted mid e₁ h₁.
        step_done (deploy sdk s factory secret _ predicted) _ _ h₁ λ d' mid₂ e₂ h₂.
          step_done (set_cache webauthn_cache id d'.smart_account_address) _ _ h₂ λ u mid₃ e₃ h₃.
            let m : cache_set webauthn_cache id d'.smart_account_address ∷ mid₂ ≡ mid₃ =
              ap (λ x. x.1) e₃ in
            let l : mid₃ ≡ _ = ap (λ x. x.1) h₃ in
            let same : d'.smart_account_address ≡ d.smart_account_address = ground arith in
            rw (sym (m ∙ l))
              (cached_set webauthn_cache id d'.smart_account_address mid₂ ∙ ap some same)

  or_cached_done :
      (hit : Option Text) (rest : Route Event Deployment Deployment) (id : Text) (log : List Event)
      {d : Deployment} {log' : List Event}
      → cached webauthn_cache log id ≡ hit
      → or_cached known hit rest log ≡ (done d, log')
      → ((l : List Event)
          → rest log ≡ (done d, l)
          → cached webauthn_cache l id ≡ some d.smart_account_address)
      → cached webauthn_cache log' id ≡ some d.smart_account_address
  or_cached_done (some a) rest id log c h f =
      let l : log ≡ _ = ap (λ x. x.1) h in
      let same : a ≡ _ = ground arith in rw (sym l) (c ∙ ap some same)
  or_cached_done none rest id log {log' = l} c h f = f l h

  -- A lookup of a credential that is in the cache is answered from there, without a call.
  pub look_up_hit :
      (query : Query) (id key address : Text) (log : List Event)
      → given_text query.credential_id ≡ some id
      → given_text query.key_data_hex ≡ some key
      → cached webauthn_cache log id ≡ some address
      → look_up_get sdk config s query log ≡ (json (found address), log)
  unfolding look_up ◌>>=◌
  look_up_hit query id key address log i k c = rw (i, k, c)

  -- After a creation that is answered, every lookup of the same credential, whatever key data it
  -- names, is answered at once: the account is deployed, at the address that the creation answered,
  -- and nothing is called.
  pub create-look_up :
      (body : JsonBody DeployBody) (h : List Event) {d : Deployment} {log : List Event}
      → create_post sdk config s body h ≡ (json d, log)
      → (b : DeployBody) × (id : Text) × (body ≡ members b)
        × (string_member b.credential_id ≡ some id)
        × ((query : Query) (key : Text)
            → given_text query.credential_id ≡ some id
            → given_text query.key_data_hex ≡ some key
            → look_up_get sdk config s query log ≡ (json (found d.smart_account_address), log))
  unfolding create ◌>>=◌
  create-look_up body h {d} {log} e =
      step_done (factory_address_of config) _ h (respond_json _ e) λ factory mid e₁ h₁.
        present 500 _ (given_text config.bundler_secret) _ _ h₁ λ secret e₂ h₂.
          json_read body _ _ h₂ λ b e₃ h₃.
            present 400 _ (string_member b.key_data_hex) _ _ h₃ λ key_data_hex e₄ h₄.
              passed (leb 132 (length key_data_hex)) 400 _ _ _ h₄ λ e₅ h₅.
                present 400 _ (string_member b.credential_id) _ _ h₅ λ id e₆ h₆.
                  let c =
                    or_cached_done (cached webauthn_cache mid id)
                      (deploy_account sdk config s factory secret id key_data_hex) id mid refl h₆
                      (λ l g. deploy_account_done factory secret id key_data_hex mid g) in
                  (
                    b,
                    id,
                    e₃,
                    e₆,
                    λ query key i k. look_up_hit query id key d.smart_account_address log i k c,
                  )
