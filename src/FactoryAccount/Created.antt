-- ===== src/FactoryAccount/Created.antt =====
-- Accounts created by app/api/smart-account/factory.
use latch_playground.Common.{◌≡◌, refl, sym, ap, ◌∙◌, Option, none, some, List, ◌∷◌, String, true}
use latch_playground.Common.Result.{ok}
use latch_playground.Text.{Text}
use latch_playground.Bytes.Hex.{from_hex}
use latch_playground.Effects.{json, done, Route, ◌>>=◌, respond}
use latch_playground.Effects.Steps.{step_done, called, attempted, present, give_done, respond_json}
use latch_playground.Effects.Forward.{after_step, after_attempt, after_present}
use latch_playground.Chain.{Sdk, ChainConfig, given_text}
use latch_playground.Server.{Event, Services, factory_cache, account_cache_set}
use latch_playground.Requests.{JsonBody, json_body, members, string_member}
use latch_playground.Requests.Read.{json_read}
use latch_playground.Caches.{
  account_cached, read_account_cache, set_account_cache, or_cached, account_cached_set,
}
use latch_playground.FactoryAccount.{
  KeyBody, KeyDeployment, key_of, known_account, configured, settled, previewed,
  fund_account_if_needed, create_key_account, create_key, create_key_post,
}
use latch_playground.Submit.{poll}
use latch_playground.Submit.Sending.{or_throw_done}
use latch_playground.Factory.Deployed.{simulated_or}

read_back :
    {R : Type 0} (key : Text) (h : List Event) {hit : Option (Text × Text)} {l : List Event}
    → read_account_cache {R = R} factory_cache key h ≡ (done hit, l)
    → account_cached factory_cache l key ≡ hit
read_back {R} key h e =
    let d = give_done R (account_cached factory_cache h key) h e in rw d.1 at d.0

pub configured_done :
    {R B C : Type 0} (m : String) (o : Option Text) (k : Text → Route Event R B) (log : List Event)
    {b : B} {log' : List Event}
    → (configured m o >>= k) log ≡ (done b, log')
    → ((s : Text) → o ≡ some s → k s log ≡ (done b, log') → C)
    → C
unfolding ◌>>=◌
configured_done m none k log h f = cc
configured_done m (some s) k log h f = f s refl h

module _ (sdk : Sdk) (config : ChainConfig) (s : Services) where
  -- A fresh account is in the cache, with the classic address of its key.
  create_key_account_done :
      (key g_address : Text) (h : List Event) {d : KeyDeployment} {log : List Event}
      → create_key_account sdk config s key g_address h ≡ (done d, log)
      → account_cached factory_cache log key ≡ some (d.smart_account_address, d.g_address)
  unfolding create_key_account
  create_key_account_done key g_address h {d} e =
      step_done (fund_account_if_needed sdk config s g_address) _ h e λ u l₁ e₁ h₁.
        configured_done _ (given_text config.bundler_secret) _ _ h₁ λ secret e₂ h₂.
          configured_done _ (given_text config.factory_address) _ _ h₂ λ factory e₃ h₃.
            attempted (sdk.public_key_of secret) _ _ h₃ λ source e₄ h₄.
              attempted (sdk.check_contract factory) _ _ h₄ λ u₂ e₅ h₅.
                called _ _ _ _ h₅ λ sequence e₆ h₆. called _ _ _ _ h₆ λ sim e₇ h₇.
                  simulated_or _ sim _ _ h₇ λ p e₈ h₈. called _ _ _ _ h₈ λ result e₉ h₉.
                    or_throw_done _ result _ _ h₉ λ hash f₁ k₁.
                      step_done (poll s 30 hash none) _ _ k₁ λ status l₂ f₂ k₂.
                        step_done (settled (previewed p.return_value) status) _ _ k₂
                          λ address l₃ f₃ k₃.
                            step_done (set_account_cache factory_cache key address g_address) _ _ k₃
                              λ u₃ l₄ f₄ k₄.
                                let set : account_cache_set factory_cache key address g_address ∷ l₃
                                    ≡ l₄ =
                                  ap (λ x. x.1) f₄ in
                                let d' = give_done KeyDeployment _ _ k₄ in
                                rw (sym (set ∙ d'.1)) (
                                  account_cached_set factory_cache key address g_address l₃
                                  ∙ ap (λ t. some (t.smart_account_address, t.g_address)) d'.0)

  again_known :
      (body : KeyBody) (key g_address : Text) (d : KeyDeployment) (log : List Event)
      → key_of (string_member body.public_key_hex) ≡ some key
      → sdk.encode_public_key (from_hex key) ≡ ok g_address
      → account_cached factory_cache log key ≡ some (d.smart_account_address, d.g_address)
      → create_key_post sdk config s (members body) log
        ≡ (json (record d { already_deployed = true }), log)
  unfolding create_key
  again_known body key g_address d log e₁ e₂ e₃ = ap respond (
      after_step (json_body (members body)) _ log refl
      ∙ after_present 400 _ _ _ log e₁
      ∙ after_attempt _ _ log e₂
      ∙ after_step (read_account_cache factory_cache key) _ log (ap (λ o. (done o, log)) e₃)
      ∙ refl)

  hit_done :
      (key : Text) (hit : Option (Text × Text)) (rest : Route Event KeyDeployment KeyDeployment)
      (log : List Event) {d : KeyDeployment} {log' : List Event}
      → account_cached factory_cache log key ≡ hit
      → or_cached known_account hit rest log ≡ (done d, log')
      → (rest log ≡ (done d, log')
          → account_cached factory_cache log' key ≡ some (d.smart_account_address, d.g_address))
      → account_cached factory_cache log' key ≡ some (d.smart_account_address, d.g_address)
  hit_done key none rest log c h f = f h
  hit_done key (some (a, g)) rest log {d} c h f =
      let q = give_done KeyDeployment _ log h in
      rw (← q.1) (c ∙ ap (λ t. some (t.smart_account_address, t.g_address)) q.0)

  -- A creation is made once: after one that is answered, the same request is answered with the same
  -- addresses, as already deployed, and without a call.
  pub create_key_twice :
      (posted : JsonBody KeyBody) (h : List Event) {d : KeyDeployment} {log : List Event}
      → create_key_post sdk config s posted h ≡ (json d, log)
      → create_key_post sdk config s posted log ≡ (json (record d { already_deployed = true }), log)
  unfolding create_key
  create_key_twice posted h {d} {log} e = json_read posted _ h (respond_json _ e) λ body e₁ h₁.
      present 400 _ (key_of (string_member body.public_key_hex)) _ _ h₁ λ key e₂ h₂.
        attempted (sdk.encode_public_key (from_hex key)) _ _ h₂ λ g_address e₃ h₃.
          step_done (read_account_cache factory_cache key) _ _ h₃ λ hit l e₄ h₄.
            let c =
              hit_done key hit (create_key_account sdk config s key g_address) l
                (read_back key h e₄) h₄ (λ k. create_key_account_done key g_address l k) in
            rw e₁ (again_known body key g_address d log e₂ e₃ c)
