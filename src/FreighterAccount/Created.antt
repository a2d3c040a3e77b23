-- ===== src/FreighterAccount/Created.antt =====
-- Accounts created by app/api/smart-account/freighter.
use latch_playground.Common.{◌≡◌, refl, sym, ap, ◌∙◌, Option, none, some, List, ◌∷◌}
use latch_playground.Text.{Text}
use latch_playground.Effects.{json, done, Route, respond}
use latch_playground.Effects.Steps.{step_done, attempted, present, give_done, respond_json}
use latch_playground.Effects.Forward.{after_step, after_present}
use latch_playground.Chain.{Sdk, ChainConfig, given_text}
use latch_playground.Server.{Event, Services, freighter_cache, cache_set}
use latch_playground.Requests.{JsonBody, members, string_member}
use latch_playground.Requests.Read.{json_read}
use latch_playground.Caches.{cached, read_cache, set_cache, or_cached, cached_set}
use latch_playground.Factory.{Deployment, predict_address, create_account}
use latch_playground.SmartAccount.{found, known}
use latch_playground.FreighterAccount.{
  DelegatedAccountBody, valid_address, account_params, fund_if_needed, look_up_delegated,
  look_up_delegated_get, create_delegated_chain, create_delegated, create_delegated_post,
}

read_back :
    {R : Type 0} (key : Text) (h : List Event) {hit : Option Text} {l : List Event}
    → read_cache {R = R} freighter_cache key h ≡ (done hit, l)
    → cached freighter_cache l key ≡ hit
read_back {R} key h e = let d = give_done R (cached freighter_cache h key) h e in rw d.1 at d.0

module _ (sdk : Sdk) (config : ChainConfig) (s : Services) where
  create_delegated_chain_done :
      (factory secret g_address : Text) (h : List Event) {d : Deployment} {log : List Event}
      → create_delegated_chain sdk config s factory secret g_address h ≡ (done d, log)
      → cached freighter_cache log g_address ≡ some d.smart_account_address
  unfolding create_delegated_chain
  create_delegated_chain_done factory secret g_address h e =
      step_done (fund_if_needed sdk s g_address) _ h e λ u l₁ e₁ h₁.
        attempted (sdk.public_key_of secret) _ _ h₁ λ source e₂ h₂.
          attempted (sdk.check_address g_address) _ _ h₂ λ u₂ e₃ h₃.
            attempted (sdk.check_contract factory) _ _ h₃ λ u₃ e₄ h₄.
              step_done (predict_address sdk s factory (account_params sdk g_address)) _ _ h₄
                λ predicted l₂ e₅ h₅.
                  step_done (create_account sdk s _ factory secret source _ predicted) _ _ h₅
                    λ d' l₃ e₆ h₆.
                      step_done (set_cache freighter_cache g_address d'.smart_account_address) _ _
                        h₆
                        λ u₄ l₄ e₇ h₇.
                          let set : cache_set freighter_cache g_address d'.smart_account_address
                                ∷ l₃
                              ≡ l₄ =
                            ap (λ x. x.1) e₇ in
                          let q = give_done Deployment _ _ h₇ in
                          rw (sym (set ∙ q.1)) (
                            cached_set freighter_cache g_address d'.smart_account_address l₃
                            ∙ ap (λ t. some t.smart_account_address) q.0)

  hit_done :
      (key : Text) (hit : Option Text) (rest : Route Event Deployment Deployment) (log : List Event)
      {d : Deployment} {log' : List Event}
      → cached freighter_cache log key ≡ hit
      → or_cached known hit rest log ≡ (done d, log')
      → (rest log ≡ (done d, log') → cached freighter_cache log' key ≡ some d.smart_account_address)
      → cached freighter_cache log' key ≡ some d.smart_account_address
  hit_done key none rest log c h f = f h
  hit_done key (some a) rest log c h f =
      let q = give_done Deployment _ log h in
      rw (← q.1) (c ∙ ap (λ t. some t.smart_account_address) q.0)

  look_up_known :
      (query : Option Text) (g_address address : Text) (log : List Event)
      → valid_address sdk (given_text query) ≡ some g_address
      → cached freighter_cache log g_address ≡ some address
      → look_up_delegated_get sdk config s query log ≡ (json (found address), log)
  unfolding look_up_delegated
  look_up_known query g_address address log e c = ap respond (
      after_present 400 _ _ _ log e
      ∙ after_step (read_cache freighter_cache g_address) _ log (ap (λ o. (done o, log)) c)
      ∙ refl)

  -- After a creation that is answered, every lookup of the same classic address is answered at once:
  -- the account is deployed, at the address that the creation answered, and nothing is called.
  pub create_delegated-look_up :
      (posted : JsonBody DelegatedAccountBody) (h : List Event) {d : Deployment} {log : List Event}
      → create_delegated_post sdk config s posted h ≡ (json d, log)
      → (body : DelegatedAccountBody) × (g_address : Text) × (posted ≡ members body)
        × (valid_address sdk (string_member body.g_address) ≡ some g_address)
        × ((query : Option Text)
            → valid_address sdk (given_text query) ≡ some g_address
            → look_up_delegated_get sdk config s query log
              ≡ (json (found d.smart_account_address), log))
  unfolding create_delegated
  create_delegated-look_up posted h {d} {log} e =
      present 500 _ (given_text config.bundler_secret) _ h (respond_json _ e) λ secret e₁ h₁.
        present 500 _ (given_text config.factory_address) _ _ h₁ λ factory e₂ h₂.
          json_read posted _ _ h₂ λ body e₃ h₃.
            present 400 _ (valid_address sdk (string_member body.g_address)) _ _ h₃
              λ g_address e₄ h₄.
                step_done (read_cache freighter_cache g_address) _ _ h₄ λ hit l e₅ h₅.
                  let c =
                    hit_done g_address hit
                      (create_delegated_chain sdk config s factory secret g_address) l
                      (read_back g_address h e₅) h₅
                      (λ k. create_delegated_chain_done factory secret g_address l k) in
                  (
                    body,
                    g_address,
                    e₃,
                    e₄,
                    λ query q. look_up_known query g_address d.smart_account_address log q c,
                  )
