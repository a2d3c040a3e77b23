-- ===== src/BuildDelegated/Answered.antt =====
-- What stands behind an answer of app/api/transaction/build-delegated.
use mathlib.Core.Path.{subst}
use latch_playground.Common.{ℕ, ◌+◌, ◌≡◌, refl, some, List, [], ◌∷◌, sym}
use latch_playground.Common.Result.{ok}
use latch_playground.Text.{Text}
use latch_playground.Bytes.Hex.{to_hex}
use latch_playground.Effects.{json, done, Route, ◌>>=◌}
use latch_playground.Effects.Steps.{called, attempted, present, give_done, respond_json}
use latch_playground.Chain.{
  Sdk, ChainConfig, given_text, passphrase_of, scv_void, AuthEntry, RawEntry, Tx, Passed, passed,
}
use latch_playground.Server.{Event, Services, simulated, random_nonce, fetched_account}
use latch_playground.Requests.{JsonBody, members, string_member}
use latch_playground.Requests.Read.{json_read}
use latch_playground.Entries.{read_entry, set_expiration, hash_payload, set_signature, digest_of}
use latch_playground.Entries.Delegated.{check_auth_entry}
use latch_playground.Rules.{counter_of}
use latch_playground.Build.{increment_tx, assembled}
use latch_playground.Build.Answered.{no_error}
use latch_playground.BuildDelegated.{
  DelegatedBuildBody, DelegatedBuilt, delegated_auth_payload, read_int64, first_entry,
  address_credentials, build_check, build_delegated, build_delegated_post,
}

-- What an answer is made of: the account's entry, signed with the payload of a delegated signer, and an
-- entry in which this signer lets the account check the digest.
pub record IsDelegated (sdk : Sdk) (config : ChainConfig) (s : Services)
    (posted : JsonBody DelegatedBuildBody) (h : List Event) (b : DelegatedBuilt) (log : List Event)
    (tx : Tx) (p : Passed) (own template : AuthEntry) : Type 0 where
  pub body : DelegatedBuildBody
  pub account : Text
  pub g_address : Text
  pub secret : Text
  pub source : Text
  pub sequence : ℕ
  pub found : RawEntry
  pub others : List RawEntry
  pub raw : AuthEntry
  pub payload : List ℕ
  pub nonce_bytes : List ℕ
  pub posted_body : posted ≡ members body
  pub given_account : string_member body.smart_account_address ≡ some account
  pub given_signer : string_member body.g_address ≡ some g_address
  pub bundler :
      (given_text config.bundler_secret ≡ some secret) × (sdk.public_key_of secret ≡ ok source)
  pub fetched : s.get_account h source ≡ ok sequence
  pub simulates :
      s.simulate_transaction (fetched_account source (ok sequence) ∷ h) tx ≡ ok (passed p)
  pub first : p.auth ≡ found ∷ others
  pub read : read_entry sdk found ≡ ok raw
  pub calls_counter : tx ≡ increment_tx config source sequence account
  pub next : (tx.source ≡ source) × (tx.sequence ≡ sequence + 1)
  pub hashed :
      hash_payload sdk (set_expiration (p.latest_ledger + 60) raw) (passphrase_of sdk config)
      ≡ ok payload
  pub signed :
      set_signature (set_expiration (p.latest_ledger + 60) raw) (delegated_auth_payload g_address)
      ≡ ok own
  pub checks :
      template
      ≡ check_auth_entry account g_address scv_void
          (read_int64 nonce_bytes)
          (p.latest_ledger + 60)
          (digest_of sdk payload (0 ∷ []))
  pub digest : b.auth_digest_hex ≡ to_hex (digest_of sdk payload (0 ∷ []))
  pub transaction : b.tx_xdr ≡ sdk.print_transaction (assembled sdk tx p (own ∷ []))
  pub entry : b.smart_account_auth_entry_xdr ≡ sdk.print_auth_entry own
  pub template_entry : b.g_address_entry_template_xdr ≡ sdk.print_auth_entry template
  pub preimage :
      (bytes : List ℕ) × (b.g_address_preimage_xdr ≡ sdk.encode_base64 bytes)
      × (hash_payload sdk template (passphrase_of sdk config) ≡ ok (sdk.hash bytes))
  pub calls :
      log
      ≡ random_nonce (ok nonce_bytes)
        ∷ simulated tx (ok (passed p))
        ∷ fetched_account source (ok sequence)
        ∷ h

module _ {R B C : Type 0} where
  first_done :
      (es : List RawEntry) (k : RawEntry → Route Event R B) (log : List Event) {b : B}
      {log' : List Event}
      → (first_entry es >>= k) log ≡ (done b, log')
      → ((e : RawEntry) (rest : List RawEntry) → es ≡ e ∷ rest → k e log ≡ (done b, log') → C)
      → C
  unfolding ◌>>=◌
  first_done [] k log h f = cc
  first_done (e ∷ es) k log h f = f e es refl h

module _ (sdk : Sdk) (config : ChainConfig) (s : Services) where
  -- What stands behind every answer that is a transaction for a delegated signer, and the calls of
  -- such a run. The counter's call for the account, as the bundler's next transaction, passed its
  -- simulation. The first entry of the
  -- simulation, valid for 60 ledgers more, names the signer as its signature. The other entry lets the
  -- account check the digest of that entry's payload for the context rule 0, and the bytes that the
  -- signer is to sign the hash of are those whose hash is this other entry's payload.
  pub build_delegated-IsDelegated :
      (posted : JsonBody DelegatedBuildBody) (h : List Event) {b : DelegatedBuilt}
      {log : List Event}
      → build_delegated_post sdk config s posted h ≡ (json b, log)
      → (tx : Tx) × (p : Passed) × (own : AuthEntry) × (template : AuthEntry) × IsDelegated sdk
          config s posted h b log tx p own template
  unfolding build_delegated build_check hash_payload
  build_delegated-IsDelegated posted h {b} {log} e =
      present 500 _ (given_text config.bundler_secret) _ h (respond_json _ e) λ secret e₁ h₁.
        attempted (sdk.public_key_of secret) _ _ h₁ λ source e₂ h₂.
          json_read posted _ _ h₂ λ body e₃ h₃.
            present 400 _ (string_member body.smart_account_address) _ _ h₃ λ account e₄ h₄.
              present 400 _ (string_member body.g_address) _ _ h₄ λ g_address e₅ h₅.
                called _ _ _ _ h₅ λ sequence e₆ h₆.
                  attempted (sdk.check_contract (counter_of config)) _ _ h₆ λ u₁ e₇ h₇.
                    attempted (sdk.check_address account) _ _ h₇ λ u₂ e₈ h₈.
                      called _ _ _ _ h₈ λ sim e₉ h₉. no_error sim _ _ h₉ λ p f₁ k₁.
                        first_done p.auth _ _ k₁ λ found others f₀ k₂.
                          attempted (read_entry sdk found) _ _ k₂ λ raw f₂ k₃.
                            attempted (address_credentials raw.credentials) _ _ k₃ λ c f₃ k₄.
                              attempted (hash_payload sdk _ _) _ _ k₄ λ payload f₄ k₅.
                                attempted (sdk.check_address g_address) _ _ k₅ λ u₃ f₅ k₆.
                                  attempted (set_signature _ _) _ _ k₆ λ own f₆ k₇.
                                    called _ _ _ _ k₇ λ nonce_bytes f₇ k₈.
                                      let d = give_done DelegatedBuilt _ _ k₈ in
                                      let tx = increment_tx config source sequence account in
                                      let template =
                                        check_auth_entry account g_address scv_void
                                          (read_int64 nonce_bytes) (p.latest_ledger + 60)
                                          (digest_of sdk payload (0 ∷ [])) in
                                      (
                                        tx,
                                        p,
                                        own,
                                        template,
                                        subst
                                            (λ t.
                                              IsDelegated sdk config s posted h t log tx p own
                                                template)
                                            d.0
                                            (record {
                                              body = body;
                                              account = account;
                                              g_address = g_address;
                                              source = source;
                                              sequence = sequence;
                                              secret = secret;
                                              found = found;
                                              others = others;
                                              raw = raw;
                                              bundler = (e₁, e₂);
                                              fetched = e₆;
                                              simulates = rw f₁ at e₉;
                                              first = f₀;
                                              read = f₂;
                                              payload = payload;
                                              nonce_bytes = nonce_bytes;
                                              posted_body = e₃;
                                              given_account = e₄;
                                              given_signer = e₅;
                                              calls_counter = refl;
                                              next = (refl, refl);
                                              hashed = f₄;
                                              signed = f₆;
                                              checks = refl;
                                              digest = refl;
                                              transaction = refl;
                                              entry = refl;
                                              template_entry = refl;
                                              preimage = (_, refl, refl);
                                              calls = rw f₁ at (sym d.1);
                                            }),
                                      )
