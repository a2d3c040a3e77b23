-- ===== src/Flow/Delegated.antt =====
-- A transaction that was built for a delegated signer, signed and submitted.
use latch_playground.Common.{ℕ, ◌≡◌, refl, ap, ◌∙◌, true, some, List, [], ◌∷◌, length, ==_iff}
use latch_playground.Common.Result.{ok}
use latch_playground.Text.{Text, is_given}
use latch_playground.Effects.{Route, ◌>>=◌, respond, attempt}
use latch_playground.Effects.Forward.{after_step, after_attempt, after_present, after_guard}
use latch_playground.Chain.{Sdk, ChainConfig, given_text, passphrase_of, AuthEntry, Tx, Passed}
use latch_playground.Server.{Event, Services}
use latch_playground.Requests.{JsonBody, json_body, members}
use latch_playground.Entries.{account_signature, set_signature, hash_payload}
use latch_playground.Entries.Signed.{set_signature_of_hash_payload, set_signature-hash_payload}
use latch_playground.Submit.{simulate, send, Submitted}
use latch_playground.Submit.Delegated.{with_entries, submit_delegated, submit_delegated_post}
use latch_playground.Build.{assembled}
use latch_playground.BuildDelegated.{DelegatedBuildBody, DelegatedBuilt}
use latch_playground.BuildDelegated.Answered.{IsDelegated}
use latch_playground.Flow.{base_of, delegated_body, given_text-some}

module _ (sdk : Sdk) (config : ChainConfig) (s : Services) where
  -- The rest of a submission, from the simulation of the signed transaction on.
  abbrev pub finish_delegated : (tx : Tx) → (secret : Text) → Route Event Submitted Submitted
  finish_delegated tx secret = simulate s tx >>= λ p.
      attempt (sdk.public_key_of secret) >>= λ address. send s "Submission failed" tx p secret

  -- A transaction that was built for a delegated signer and comes back signed is accepted. If the
  -- texts of the answer are read as what was printed, then the body made of the answer and of a
  -- 64-byte signature passes every guard of the submission, which is then the simulation, and so on,
  -- of the built transaction with two entries: the account's, and the signer's, which carries the
  -- signature and whose payload is still the hash of the bytes that the signer was asked to sign.
  pub submit_delegated-IsDelegated :
      {builder : Services} {posted : JsonBody DelegatedBuildBody} {h : List Event}
      {b : DelegatedBuilt} {built_log : List Event} {tx : Tx} {p : Passed}
      {own template : AuthEntry}
      (built : IsDelegated sdk config builder posted h b built_log tx p own template)
      (secret signature : Text) (public_key : List ℕ) (log : List Event)
      → given_text config.bundler_secret ≡ some secret
      → is_given b.tx_xdr ≡ true
      → is_given b.smart_account_auth_entry_xdr ≡ true
      → is_given b.g_address_entry_template_xdr ≡ true
      → is_given signature ≡ true
      → is_given built.g_address ≡ true
      → sdk.parse_transaction b.tx_xdr (passphrase_of sdk config)
        ≡ ok (base_of (assembled sdk tx p (own ∷ [])))
      → sdk.parse_auth_entry b.smart_account_auth_entry_xdr ≡ ok own
      → sdk.parse_auth_entry b.g_address_entry_template_xdr ≡ ok template
      → length (sdk.decode_base64 signature) ≡ 64
      → sdk.decode_public_key built.g_address ≡ ok public_key
      → (signed : AuthEntry) × (set_signature template
            (account_signature public_key (sdk.decode_base64 signature))
          ≡ ok signed)
        × (hash_payload sdk signed (passphrase_of sdk config) ≡ ok (sdk.hash built.preimage.0))
        × (submit_delegated_post sdk config s
              (members (delegated_body b signature built.g_address))
              log
            ≡ respond (
                finish_delegated
                  (with_entries
                    (base_of (assembled sdk tx p (own ∷ [])))
                    (some p.resources)
                    (own ∷ signed ∷ []))
                  secret
                  log))
  unfolding submit_delegated assembled
  submit_delegated-IsDelegated {b = b} {tx = tx} {p = p} {own = own} {template = template} built
        secret signature public_key log h₁ g₁ g₂ g₃ g₄ g₅ h₂ h₃ h₄ h₅ h₆ =
      let v = account_signature public_key (sdk.decode_base64 signature) in
      let passphrase = passphrase_of sdk config in
      let signed = set_signature_of_hash_payload sdk passphrase template v built.preimage.2 in
      let kept = set_signature-hash_payload sdk passphrase template v signed.1 in
      (
        signed.0,
        signed.1,
        kept.2 ∙ built.preimage.2,
        ap respond (
            after_present 500 _ _ _ log h₁
            ∙ after_step (json_body (members (delegated_body b signature built.g_address))) _ log
                refl
            ∙ after_present 400 _ _ _ log (given_text-some _ g₁)
            ∙ after_present 400 _ _ _ log (given_text-some _ g₂)
            ∙ after_present 400 _ _ _ log (given_text-some _ g₃)
            ∙ after_present 400 _ _ _ log (given_text-some _ g₄)
            ∙ after_present 400 _ _ _ log (given_text-some _ g₅)
            ∙ after_attempt _ _ log h₂
            ∙ after_attempt _ _ log h₃
            ∙ after_guard _ 400 _ _ log ((==_iff _ 64).1 h₅)
            ∙ after_attempt _ _ log h₆
            ∙ after_attempt _ _ log h₄
            ∙ after_attempt _ _ log signed.1
            ∙ after_attempt _ _ log refl),
      )
