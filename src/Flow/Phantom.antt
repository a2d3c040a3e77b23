-- ===== src/Flow/Phantom.antt =====
-- A built transaction, signed by Phantom and submitted.
use latch_playground.Common.{
  ℕ, ◌+◌, ◌≡◌, refl, ap, ◌∙◌, arith, Bool, true, ◌&&◌, some, List, [], ◌∷◌, ◌++◌, length, All, ◌==◌,
  suc, and_split, ==_iff,
}
use latch_playground.Common.Result.{ok}
use latch_playground.Text.{Text, is_given, starts_with, text_eq_refl}
use latch_playground.Bytes.Hex.{IsByte, from_hex}
use latch_playground.Effects.{Route, ◌>>=◌, respond, attempt, done}
use latch_playground.Effects.Forward.{after_step, after_attempt, after_present, after_guard}
use latch_playground.Chain.{Sdk, ChainConfig, given_text, passphrase_of, AuthEntry, Tx, Passed}
use latch_playground.Server.{Event, Services}
use latch_playground.Requests.{JsonBody, members, json_body}
use latch_playground.Entries.{auth_payload, set_signature, hash_payload, digest_of}
use latch_playground.Entries.Signed.{set_signature_of_hash_payload}
use latch_playground.Submit.{simulate, send, Submitted}
use latch_playground.Submit.Delegated.{with_entries}
use latch_playground.Submit.Phantom.{
  PhantomInput, expected_prefix, is_lower_hex, phantom_input, auth_digest, soroban_data_of,
  ensure_account, submit_signed, submit_phantom, submit_phantom_post,
}
use latch_playground.Submit.Phantom.Hex.{is_lower_hex-to_hex, length-from_hex}
use latch_playground.Build.{BuildBody, Built, assembled}
use latch_playground.Build.Answered.{IsBuilt}
use latch_playground.Flow.{base_of, phantom_body, given_text-some}

lower_given : (n : ℕ) (s : Text) → is_lower_hex (suc n) s ≡ true → given_text (some s) ≡ some s
unfolding is_lower_hex
lower_given n [] h = ground arith
lower_given n (c ∷ s) h = refl

starts_with-append : (p s : Text) → starts_with (p ++ s) p ≡ true
unfolding starts_with
starts_with-append [] [] = refl
starts_with-append [] (c ∷ s) = refl
starts_with-append (c ∷ p) s = ground (arith, starts_with-append p s)

and_true : (a b : Bool) → a ≡ true → b ≡ true → (a && b) ≡ true
and_true a b h k = ground arith

digest_fits :
    (digest : Text)
    → is_lower_hex 64 digest ≡ true
    → (length (expected_prefix ++ digest) == length expected_prefix + 64) ≡ true
unfolding is_lower_hex
digest_fits digest h =
    let l : length digest ≡ 64 = (==_iff (length digest) 64).0 (and_split _ _ h).0 in
    (==_iff (length (expected_prefix ++ digest)) 92).1 (omega (arith, l))

-- The input that the guards of the submission let through.
abbrev pub input_of : Built → (signature public_key : Text) → PhantomInput
input_of b signature public_key = record {
  tx_xdr = b.tx_xdr;
  auth_entry_xdr = b.auth_entry_xdr;
  auth_signature_hex = signature;
  prefixed_message = expected_prefix ++ b.auth_digest_hex;
  public_key_hex = public_key;
}

guards_passed :
    (b : Built) (signature public_key : Text) (log : List Event)
    → is_given b.tx_xdr ≡ true
    → is_given b.auth_entry_xdr ≡ true
    → is_lower_hex 64 b.auth_digest_hex ≡ true
    → is_lower_hex 128 signature ≡ true
    → is_lower_hex 64 public_key ≡ true
    → phantom_input (phantom_body b signature public_key) log
      ≡ (done (input_of b signature public_key), log)
unfolding phantom_input
guards_passed b signature public_key log h₁ h₂ h₃ h₄ h₅ =
    after_present 400 _ _ _ log (given_text-some b.tx_xdr h₁)
    ∙ after_present 400 _ _ _ log (given_text-some b.auth_entry_xdr h₂)
    ∙ after_present 400 _ _ _ log (lower_given 127 signature h₄)
    ∙ after_present 400 "Missing required parameters" _ _ log refl
    ∙ after_present 400 _ _ _ log (lower_given 63 public_key h₅)
    ∙ after_guard _ 400 _ _ log (
        and_true _ _ (digest_fits b.auth_digest_hex h₃)
          (starts_with-append expected_prefix b.auth_digest_hex))
    ∙ after_guard _ 400 _ _ log h₃
    ∙ after_guard _ 400 _ _ log h₄
    ∙ after_guard _ 400 _ _ log h₅

data_known :
    (tx : Tx) (resources : Text) (log : List Event)
    → soroban_data_of (base_of tx) (some resources) log ≡ (done resources, log)
unfolding ◌>>=◌
data_known tx resources log = refl

module _ (sdk : Sdk) (config : ChainConfig) (s : Services) where
  digest_known :
      (e : AuthEntry) (payload : List ℕ)
      → hash_payload sdk e (passphrase_of sdk config) ≡ ok payload
      → auth_digest sdk config e ≡ ok (digest_of sdk payload (0 ∷ []))
  unfolding auth_digest
  digest_known e payload h = rw h refl

  -- The rest of a submission, from the simulation of the signed transaction on.
  abbrev pub finish : (tx : Tx) → (secret : Text) → Route Event Submitted Submitted
  finish tx secret = simulate s tx >>= λ p. attempt (sdk.public_key_of secret) >>= λ address.
      ensure_account sdk config s address >>= λ u.
      send s "Transaction submission failed" tx p secret

  -- A built transaction that comes back signed is accepted. If the texts of the answer are read as
  -- what was printed, and the hash gives 32 bytes, then the body made of the answer and of any 64-byte
  -- signature and 32-byte key, in lower case, passes every guard of the submission, the comparison of
  -- the digest included. The submission is then the simulation, and so on, of the built transaction
  -- with the account's entry, which carries the signature.
  pub submit_phantom-IsBuilt :
      {builder : Services} {posted : JsonBody BuildBody} {h : List Event} {b : Built}
      {built_log : List Event} {tx : Tx} {p : Passed} {own : AuthEntry} {payload : List ℕ}
      (built : IsBuilt sdk config builder posted h b built_log tx p own payload)
      (verifier secret signature public_key : Text) (log : List Event)
      → given_text config.verifier_address ≡ some verifier
      → given_text config.bundler_secret ≡ some secret
      → sdk.check_address verifier ≡ ok tt
      → ((bytes : List ℕ) → (length (sdk.hash bytes) ≡ 32) × All IsByte (sdk.hash bytes))
      → is_given b.tx_xdr ≡ true
      → is_given b.auth_entry_xdr ≡ true
      → sdk.parse_auth_entry b.auth_entry_xdr ≡ ok own
      → sdk.parse_transaction b.tx_xdr (passphrase_of sdk config)
        ≡ ok (base_of (assembled sdk tx p built.rows))
      → is_lower_hex 128 signature ≡ true
      → is_lower_hex 64 public_key ≡ true
      → (signed : AuthEntry) × (set_signature own
            (auth_payload verifier (from_hex public_key) (from_hex signature) (0 ∷ []))
          ≡ ok signed)
        × (submit_phantom_post sdk config s (members (phantom_body b signature public_key)) log
            ≡ respond (
                finish
                  (with_entries
                    (base_of (assembled sdk tx p built.rows))
                    (some p.resources)
                    (signed ∷ []))
                  secret
                  log))
  unfolding submit_phantom submit_signed assembled
  submit_phantom-IsBuilt {b = b} {tx = tx} {p = p} {own = own} {payload = payload} built verifier
        secret signature public_key log h₁ h₂ h₃ hash h₄ h₅ h₆ h₇ h₈ h₉ =
      let v = auth_payload verifier (from_hex public_key) (from_hex signature) (0 ∷ []) in
      let signed =
        set_signature_of_hash_payload sdk (passphrase_of sdk config) own v built.hashed in
      let lower : is_lower_hex 64 b.auth_digest_hex ≡ true =
        rw built.digest (is_lower_hex-to_hex 32 _ (hash _).0 (hash _).1) in
      let input = guards_passed b signature public_key log h₄ h₅ lower h₈ h₉ in
      (
        signed.0,
        signed.1,
        ap respond (
            after_present 500 _ _ _ log h₂
            ∙ after_present 500 _ _ _ log h₁
            ∙ after_step (json_body (members (phantom_body b signature public_key))) _ log refl
            ∙ after_step (phantom_input (phantom_body b signature public_key)) _ log input
            ∙ after_attempt _ _ log h₇
            ∙ after_attempt _ _ log h₆
            ∙ after_attempt _ _ log (digest_known own payload built.hashed)
            ∙ after_guard _ 400 _ _ log (rw built.digest (text_eq_refl _))
            ∙ after_guard _ 400 _ _ log (length-from_hex 64 signature h₈)
            ∙ after_guard _ 400 _ _ log (length-from_hex 32 public_key h₉)
            ∙ after_attempt _ _ log h₃
            ∙ after_attempt _ _ log signed.1
            ∙ after_step
                (soroban_data_of (base_of (assembled sdk tx p built.rows)) (some p.resources)) _ log
                (data_known (assembled sdk tx p built.rows) p.resources log)),
      )
