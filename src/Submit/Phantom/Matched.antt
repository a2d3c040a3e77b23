-- ===== src/Submit/Phantom/Matched.antt =====
-- What a run of app/api/transaction/submit needs before it makes any call.
use latch_playground.Common.{
  ℕ, ◌≡◌, refl, ◌⊎◌, inl, inr, Option, none, some, List, [], ◌∷◌, ap, ◌∙◌, arith,
}
use latch_playground.Common.Result.{ok, err, Result-cases}
use latch_playground.Text.{Text, text_eq_iff}
use latch_playground.Bytes.Hex.{to_hex}
use latch_playground.Effects.{done}
use latch_playground.Effects.Every.{
  step_every, unless_every, respond_every, attempt_every, or_fail_every,
}
use latch_playground.Chain.{Sdk, ChainConfig, given_text, passphrase_of, AuthEntry}
use latch_playground.Server.{Event, Services}
use latch_playground.Requests.{JsonBody, members}
use latch_playground.Requests.Read.{json_body_every}
use latch_playground.Entries.{hash_payload, digest_of}
use latch_playground.Submit.{Submitted}
use latch_playground.Submit.Phantom.{
  PhantomBody, PhantomInput, phantom_input, signed_hex, auth_digest, submit_signed, submit_phantom,
  submit_phantom_post, is_lower_hex, digested,
}
use latch_playground.Effects.Steps.{present, passed, give_done}

-- The message is that of the entry: it names the digest of the entry's payload for the context rule 0.
abbrev pub IsSignedFor : Sdk → ChainConfig → (message entry_xdr : Text) → Type 0
IsSignedFor sdk config message entry_xdr =
    (e : AuthEntry) × (payload : List ℕ) × (sdk.parse_auth_entry entry_xdr ≡ ok e)
    × (hash_payload sdk e (passphrase_of sdk config) ≡ ok payload)
    × (signed_hex message ≡ to_hex (digest_of sdk payload (0 ∷ [])))

abbrev pub IsMatched : Sdk → ChainConfig → JsonBody PhantomBody → Type 0
IsMatched sdk config json =
    (body : PhantomBody) × (message : Text) × (entry_xdr : Text) × (json ≡ members body)
    × (body.prefixed_message ≡ some message)
    × (body.auth_entry_xdr ≡ some entry_xdr)
    × IsSignedFor sdk config message entry_xdr

given_back : (o : Option Text) (s : Text) → given_text o ≡ some s → o ≡ some s
given_back none s h = cc
given_back (some []) s h = cc
given_back (some (c ∷ t)) s h = h

phantom_input_quiet : (body : PhantomBody) (h : List Event) → (phantom_input body h).1 ≡ h
unfolding phantom_input
phantom_input_quiet body h =
    let P : List Event → Type 0 = λ l. l ≡ h in
    or_fail_every P 400 _ (given_text body.tx_xdr) _ h refl λ tx_xdr _.
      or_fail_every P 400 _ (given_text body.auth_entry_xdr) _ h refl λ entry_xdr _.
        or_fail_every P 400 _ (given_text body.auth_signature_hex) _ h refl λ signature _.
          or_fail_every P 400 _ (given_text body.prefixed_message) _ h refl λ message _.
            or_fail_every P 400 _ (given_text body.public_key_hex) _ h refl λ public_key _.
              unless_every P _ 400 _ _ h refl λ e₁.
                unless_every P (is_lower_hex 64 (signed_hex message)) 400 _ _ h refl λ e₂.
                  unless_every P (is_lower_hex 128 signature) 400 _ _ h refl
                    λ e₃. unless_every P (is_lower_hex 64 public_key) 400 _ _ h refl λ e₄. refl

phantom_input_done :
    (body : PhantomBody) (h : List Event) {input : PhantomInput} {log : List Event}
    → phantom_input body h ≡ (done input, log)
    → (body.prefixed_message ≡ some input.prefixed_message)
      × (body.auth_entry_xdr ≡ some input.auth_entry_xdr)
unfolding phantom_input
phantom_input_done body h e = present 400 _ (given_text body.tx_xdr) _ h e λ tx_xdr e₁ h₁.
    present 400 _ (given_text body.auth_entry_xdr) _ h h₁ λ entry_xdr e₂ h₂.
      present 400 _ (given_text body.auth_signature_hex) _ h h₂ λ signature e₃ h₃.
        present 400 _ (given_text body.prefixed_message) _ h h₃ λ message e₄ h₄.
          present 400 _ (given_text body.public_key_hex) _ h h₄ λ public_key e₅ h₅.
            passed _ 400 _ _ h h₅ λ f₁ k₁.
              passed (is_lower_hex 64 (signed_hex message)) 400 _ _ h k₁ λ f₂ k₂.
                passed (is_lower_hex 128 signature) 400 _ _ h k₂ λ f₃ k₃.
                  passed (is_lower_hex 64 public_key) 400 _ _ h k₃ λ f₄ k₄.
                    let d = give_done Submitted _ h k₄ in
                    (
                      given_back _ message e₄ ∙ ap (λ i. some i.prefixed_message) d.0,
                      given_back _ entry_xdr e₂ ∙ ap (λ i. some i.auth_entry_xdr) d.0,
                    )

module _ (sdk : Sdk) (config : ChainConfig) (s : Services) where
  digest_done :
      (e : AuthEntry) {digest : List ℕ}
      → auth_digest sdk config e ≡ ok digest
      → (payload : List ℕ) × (hash_payload sdk e (passphrase_of sdk config) ≡ ok payload)
        × (digest ≡ digest_of sdk payload (0 ∷ []))
  unfolding auth_digest
  digest_done e h = elim (Result-cases (hash_payload sdk e (passphrase_of sdk config))) [
    | inl (payload, q) ↦
        let k : digested sdk (ok payload) ≡ _ = rw q at h in (payload, q, ground arith)
    | inr (m, q) ↦ let k : digested sdk (err m) ≡ _ = rw q at h in cc
  ]

  submit_signed_quiet :
      (verifier secret : Text) (input : PhantomInput) (h : List Event)
      → ((submit_signed sdk config s verifier secret input h).1 ≡ h)
        ⊎ IsSignedFor sdk config input.prefixed_message input.auth_entry_xdr
  unfolding submit_signed
  submit_signed_quiet verifier secret input h =
      let P : List Event → Type 0 =
        λ l. (l ≡ h) ⊎ IsSignedFor sdk config input.prefixed_message input.auth_entry_xdr in
      attempt_every P (sdk.parse_transaction _ _) _ h (inl refl) λ tx e₁.
        attempt_every P (sdk.parse_auth_entry _) _ h (inl refl) λ parsed e₂.
          attempt_every P (auth_digest sdk config parsed) _ h (inl refl) λ digest e₃.
            unless_every P _ 400 _ _ h (inl refl) λ e₄.
              let d = digest_done parsed e₃ in
              let same : signed_hex input.prefixed_message ≡ to_hex digest =
                (text_eq_iff _ _).0 e₄ in
              inr (parsed, d.0, e₂, d.1, rw d.2 at same)

  -- No call goes out before the digest is checked: a run of the submission, whatever way it ends,
  -- leaves the log as it was, unless the message of the body names the digest of its entry.
  pub submit_phantom-IsMatched :
      (json : JsonBody PhantomBody) (h : List Event)
      → ((submit_phantom_post sdk config s json h).1 ≡ h) ⊎ IsMatched sdk config json
  unfolding submit_phantom
  submit_phantom-IsMatched json h =
      let P : List Event → Type 0 = λ l. (l ≡ h) ⊎ IsMatched sdk config json in
      respond_every P (submit_phantom sdk config s json h) (
        or_fail_every P 500 _ (given_text config.bundler_secret) _ h (inl refl) λ secret _.
          or_fail_every P 500 _ (given_text config.verifier_address) _ h (inl refl) λ verifier _.
            json_body_every P json _ h (inl refl) λ body posted.
              let quiet = phantom_input_quiet body h in
              step_every P (phantom_input body) _ h (inl quiet) λ input e.
                let d = phantom_input_done body h (λ i. (e i, (phantom_input body h).1)) in
                elim (submit_signed_quiet verifier secret input (phantom_input body h).1) [
                  | inl same ↦ inl (same ∙ quiet)
                  | inr signed ↦ inr (body, _, _, posted, d.0, d.1, signed)
                ])
