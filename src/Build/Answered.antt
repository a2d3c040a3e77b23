-- ===== src/Build/Answered.antt =====
-- What stands behind an answer of app/api/transaction/build.
use mathlib.Core.Path.{subst}
use latch_playground.Common.{
  sym, ap, ◌∙◌, true, Bool-cases, ◌⊎◌, inl, inr, String, is_some, ℕ, ◌+◌, ◌≡◌, refl, Option, none,
  some, List, [], ◌∷◌, map,
}
use latch_playground.Common.Result.{ok, err, Result-cases}
use latch_playground.Text.{Text, lit, contains}
use latch_playground.Funding.{fund_if_missing}
use latch_playground.Bytes.Hex.{to_hex}
use latch_playground.Effects.{json, done, Route, ◌>>=◌}
use latch_playground.Effects.Steps.{
  call_done, called, attempted, present, step_done, respond_json, give_done,
}
use latch_playground.Chain.{
  Sdk, ChainConfig, given_text, passphrase_of, AuthEntry, Tx, Passed, Simulation, simulation_error,
  passed,
}
use latch_playground.Server.{Event, Services, simulated, fetched_account}
use latch_playground.Requests.{JsonBody, members, string_member}
use latch_playground.Requests.Read.{json_read}
use latch_playground.Entries.{hash_payload, digest_of, normalize_auth_entries, set_expiration}
use latch_playground.Entries.Indices.{blob_payloads}
use latch_playground.Entries.Indices.First.{IsFirst, account_entry-IsFirst}
use latch_playground.Rules.{counter_of, discover_rule}
use latch_playground.Build.{
  account_after, rule_or_0, BuildBody, Built, signer_of, unless_error, some_entries, present_entry,
  assembled, synthesize, bundler_sequence, increment_tx, build_entries, build, build_post,
}
use latch_playground.Build.Rows.{IsRow, synthesize_done}

-- The sequence number of an account, as the network gave it last: at once, or after the account was
-- funded because the network did not find it.
pub record IsSequence (s : Services) (address : Text) (sequence : ℕ) (log log' : List Event)
    : Type 0 where
  pub earlier : List Event
  pub fetched : s.get_account earlier address ≡ ok sequence
  pub last : log' ≡ fetched_account address (ok sequence) ∷ earlier
  pub funded :
      (earlier ≡ log)
      ⊎ ((m : String) × (contains (lit m) (lit "Account not found") ≡ true)
          × (fund_if_missing s {R = Built} "Failed to fund account" address
                (fetched_account address (err m) ∷ log)
              ≡ (done tt, earlier)))

-- What an answer is made of: the last simulation of the log, of the counter's call for the account, as
-- the next transaction of the bundler.
pub record IsBuilt (sdk : Sdk) (config : ChainConfig) (s : Services) (posted : JsonBody BuildBody)
    (h : List Event) (b : Built) (log : List Event) (tx : Tx) (p : Passed) (own : AuthEntry)
    (payload : List ℕ) : Type 0 where
  pub body : BuildBody
  pub account : Text
  pub raw_entries : List AuthEntry
  pub rows : List AuthEntry
  pub secret : Text
  pub source : Text
  pub rule : Option ℕ
  pub sequence : ℕ
  pub searched : List Event
  pub before : List Event
  pub posted_body : posted ≡ members body
  pub given_account : string_member body.smart_account_address ≡ some account
  pub bundler :
      (given_text config.bundler_secret ≡ some secret) × (sdk.public_key_of secret ≡ ok source)
  pub discovered :
      discover_rule s {R = Built} sdk (counter_of config) account h ≡ (done rule, searched)
  pub matched : (b.context_rule_id ≡ rule_or_0 rule) × (b.context_rule_matched ≡ is_some rule)
  pub numbered : IsSequence s source sequence searched before
  pub simulates : s.simulate_transaction before tx ≡ ok (passed p)
  pub calls_counter : tx ≡ increment_tx config source sequence account
  pub next : (tx.source ≡ source) × (tx.sequence ≡ sequence + 1)
  pub read : normalize_auth_entries sdk p.auth ≡ ok raw_entries
  pub valid_until : b.valid_until_ledger ≡ p.latest_ledger + 60
  pub first :
      IsFirst account
        (signer_of body.signer_g)
        (map (set_expiration (p.latest_ledger + 60)) raw_entries)
        b.smart_account_auth_entry_index
        own
  pub hashed : hash_payload sdk own (passphrase_of sdk config) ≡ ok payload
  pub digest : b.auth_digest_hex ≡ to_hex (digest_of sdk payload (0 ∷ []))
  pub entry : b.auth_entry_xdr ≡ sdk.print_auth_entry own
  pub row :
      IsRow account
        (signer_of body.signer_g)
        payload
        (p.latest_ledger + 60)
        (map (set_expiration (p.latest_ledger + 60)) raw_entries)
        rows
        b.delegated_native_auth_entry_indices
        b.delegated_g_auth_entry_synthesized
        (simulated tx (ok (passed p)) ∷ before)
        log
  pub blobs :
      blob_payloads sdk (passphrase_of sdk config) rows b.delegated_native_auth_entry_indices
      ≡ ok b.delegated_native_sign_blob_payloads_base64
  pub transaction : b.tx_xdr ≡ sdk.print_transaction (assembled sdk tx p rows)

module _ {R C : Type 0} where
  entry_present :
      {B : Type 0} (o : Option (ℕ × AuthEntry)) (k : ℕ × AuthEntry → Route Event R B)
      (log : List Event) {b : B} {log' : List Event}
      → (present_entry o >>= k) log ≡ (done b, log')
      → ((e : ℕ × AuthEntry) → o ≡ some e → k e log ≡ (done b, log') → C)
      → C
  unfolding ◌>>=◌
  entry_present none k log h f = cc
  entry_present (some e) k log h f = f e refl h

  pub no_error :
      {B : Type 0} (sim : Simulation) (k : Passed → Route Event R B) (log : List Event) {b : B}
      {log' : List Event}
      → (unless_error sim >>= k) log ≡ (done b, log')
      → ((p : Passed) → sim ≡ passed p → k p log ≡ (done b, log') → C)
      → C
  unfolding ◌>>=◌
  no_error (simulation_error m) k log h f = cc
  no_error (passed p) k log h f = f p refl h

  entries_given :
      {B : Type 0} (es : List AuthEntry) (k : List AuthEntry → Route Event R B) (log : List Event)
      {b : B} {log' : List Event}
      → (some_entries es >>= k) log ≡ (done b, log')
      → (k es log ≡ (done b, log') → C)
      → C
  unfolding ◌>>=◌
  entries_given [] k log h f = cc
  entries_given (e ∷ es) k log h f = f h

module _ (sdk : Sdk) (config : ChainConfig) (s : Services) where
  account_after_done :
      (address : Text) (m : String) (log : List Event) {n : ℕ} {log' : List Event}
      → account_after sdk config s address
          (contains (lit m) (lit "Account not found"))
          m
          (fetched_account address (err m) ∷ log)
        ≡ (done n, log')
      → IsSequence s address n log log'
  account_after_done address m log h =
      elim (Bool-cases (contains (lit m) (lit "Account not found"))) [
        | inl q ↦
            step_done (fund_if_missing s "Failed to fund account" address) _ _ (rw q at h)
              λ u mid e₁ h₁.
                let c = call_done _ _ _ h₁ in
                record { earlier = mid; fetched = c.0; last = c.1; funded = inr (m, q, e₁) }
        | inr q ↦ let k = rw q at h in cc
      ]

  bundler_sequence_done :
      (address : Text) (log : List Event) {n : ℕ} {log' : List Event}
      → bundler_sequence sdk config s address log ≡ (done n, log')
      → IsSequence s address n log log'
  unfolding bundler_sequence ◌>>=◌
  bundler_sequence_done address log h = elim (Result-cases (s.get_account log address)) [
    | inl (n, q) ↦
        let g = give_done Built n _ (rw q at h) in
        record {
          earlier = log;
          fetched = q ∙ ap ok g.0;
          last = sym g.1 ∙ ap (λ t. fetched_account address (ok t) ∷ log) g.0;
          funded = inl refl;
        }
    | inr (m, q) ↦ account_after_done address m log (rw q at h)
  ]

  -- What stands behind every answer that is a built transaction. The body named the account, and the
  -- answer's context rule is what the search for it found. The counter's call for the account, as the
  -- transaction of the bundler after the sequence number that the network gave last, passed its
  -- simulation `p`, the last of the run. The entries of `p` are valid for 60 ledgers more. The answer gives the first of them
  -- that is the account's, with its index, the digest of its payload for the context rule 0, the
  -- indices of the signer's entries, and the transaction with all of the entries. Where a signer is
  -- given that has none, and only there, an unsigned one that lets the account check this payload
  -- follows the others.
  pub build-IsBuilt :
      (posted : JsonBody BuildBody) (h : List Event) {b : Built} {log : List Event}
      → build_post sdk config s posted h ≡ (json b, log)
      → (tx : Tx) × (p : Passed) × (own : AuthEntry) × (payload : List ℕ) × IsBuilt sdk config s
          posted h b log tx p own payload
  unfolding build build_entries
  build-IsBuilt posted h {b} {log} e =
      present 500 _ (given_text config.bundler_secret) _ h (respond_json _ e) λ secret e₁ h₁.
        attempted (sdk.public_key_of secret) _ _ h₁ λ source e₂ h₂.
          json_read posted _ _ h₂ λ body e₃ h₃.
            present 400 _ (string_member body.smart_account_address) _ _ h₃ λ account e₄ h₄.
              step_done (discover_rule s sdk (counter_of config) account) _ _ h₄ λ rule l₁ e₅ h₅.
                step_done (bundler_sequence sdk config s source) _ _ h₅ λ sequence l₂ e₆ h₆.
                  attempted (sdk.check_contract (counter_of config)) _ _ h₆ λ u₁ e₇ h₇.
                    attempted (sdk.check_address account) _ _ h₇ λ u₂ e₈ h₈.
                      called _ _ _ _ h₈ λ sim e₉ h₉. no_error sim _ _ h₉ λ p f₁ k₁.
                        attempted (normalize_auth_entries sdk p.auth) _ _ k₁ λ raw f₂ k₂.
                          entries_given raw _ _ k₂ λ k₃. entry_present _ _ _ k₃ λ x f₃ k₄.
                            attempted (hash_payload sdk x.1 _) _ _ k₄ λ payload f₄ k₅.
                              step_done (synthesize sdk s account _ payload _ _ _) _ _ k₅
                                λ y l₃ f₅ k₆.
                                  attempted (blob_payloads sdk _ y.0 y.1) _ _ k₆ λ payloads f₆ k₇.
                                    let row =
                                      synthesize_done sdk s Built account (signer_of body.signer_g)
                                        payload _ _ _ _ f₅ in
                                    let d = give_done Built _ _ k₇ in
                                    (
                                      increment_tx config source sequence account,
                                      p,
                                      x.1,
                                      payload,
                                      subst
                                          (λ t.
                                            IsBuilt sdk config s posted h t log
                                              (increment_tx config source sequence account) p x.1
                                              payload)
                                          d.0
                                          (record {
                                            body = body;
                                            account = account;
                                            raw_entries = raw;
                                            rows = y.0;
                                            secret = secret;
                                            source = source;
                                            rule = rule;
                                            sequence = sequence;
                                            searched = l₁;
                                            bundler = (e₁, e₂);
                                            discovered = e₅;
                                            matched = (refl, refl);
                                            numbered = bundler_sequence_done source l₁ e₆;
                                            simulates = rw f₁ at e₉;
                                            before = l₂;
                                            posted_body = e₃;
                                            given_account = e₄;
                                            calls_counter = refl;
                                            next = (refl, refl);
                                            read = f₂;
                                            valid_until = refl;
                                            first =
                                                account_entry-IsFirst account
                                                  (signer_of body.signer_g) _ f₃;
                                            hashed = f₄;
                                            digest = refl;
                                            entry = refl;
                                            row = rw (d.1, f₁) at row;
                                            blobs = f₆;
                                            transaction = refl;
                                          }),
                                    )
