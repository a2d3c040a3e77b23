-- ===== src/Page/Signed.antt =====
-- The three ways in which a signer makes an increment, each to its end.
use latch_playground.Common.{
  ◌≡◌, refl, ◌⊎◌, inl, inr, Bool-cases, Option, none, some, List, ◌∷◌, String, ℕ,
}
use latch_playground.Text.{Text}
use latch_playground.Effects.{◌>>=◌, attempt}
use latch_playground.Effects.Ends.{
  Ends, done-Ends, thrown-Ends, step-Ends, rescue-Ends, call-Ends, attempt-Ends, weaken-Ends,
}
use latch_playground.Chain.{Sdk, given_text}
use latch_playground.Build.{Built}
use latch_playground.Submit.{Submitted}
use latch_playground.Page.{
  TxState, Page, PageEvent, updated, page_of, PhantomReply, taken, mismatched, Reply, good, refused,
  Browser, Task, WalletConnection, PasskeySession,
}
use latch_playground.Page.Setup.{keep_counter}
use latch_playground.Page.Signing.{compute_auth_digest, passkey_digest, sign_with_passkey}
use latch_playground.Page.Increment.{
  tx_failed, signed_entry, phantom_accepted, finished, increment_by_passkey, increment_by_freighter,
  provider_there, sign_and_submit, again_with, retried, increment_by_phantom,
}
use latch_playground.Page.Coherent.{Given, TxFits, IsCoherent}
use latch_playground.Page.Shown.{
  AllShown, shown-IsCoherent, EndsShown, ask-Ends, accept-Ends, shows,
}

-- The transaction succeeded, with its hash, or failed, with an error.
abbrev pub IsSettled : Page → Type 0
IsSettled p =
    ((p.tx_state ≡ TxState.success) × Given p.tx_hash)
    ⊎ ((p.tx_state ≡ TxState.error) × Given p.tx_error)

abbrev pub Settles : List PageEvent → Type 0
Settles log = AllShown log × IsSettled (page_of log)

-- An update of the transaction's part.
pub tx-IsCoherent :
    (p : Page) (state : TxState) (hash : Option Text) (error : Option String)
    → IsCoherent p
    → TxFits state hash error
    → IsCoherent (record p { tx_state = state; tx_hash = hash; tx_error = error })
tx-IsCoherent p state hash error c t = record {
  setup = c.setup;
  passkey = c.passkey;
  tx = t;
  own_wallet = c.own_wallet;
  own_session = c.own_session;
}

abbrev signing_log : TxState → List PageEvent → List PageEvent
signing_log state log = updated (λ p. record p { tx_state = state }) ∷ log

signing : (log : List PageEvent) → AllShown log → AllShown (signing_log TxState.signing log)
signing log h =
    shows _ log (tx-IsCoherent (page_of log) TxState.signing _ _ (shown-IsCoherent log h) tt) h

submitting : (log : List PageEvent) → AllShown log → AllShown (signing_log TxState.submitting log)
submitting log h =
    shows _ log (tx-IsCoherent (page_of log) TxState.submitting _ _ (shown-IsCoherent log h) tt) h

pub tx_failed-Ends :
    {Q : String → List PageEvent → Type 0} (m : String) (log : List PageEvent)
    → AllShown log
    → Ends (λ a l. Settles l) Q (tx_failed m log)
unfolding page_of
tx_failed-Ends m log h = done-Ends tt _ (
  shows _ log (tx-IsCoherent (page_of log) TxState.error _ (some m) (shown-IsCoherent log h) tt) h,
  inr (refl, tt),
)

keep_counter-Ends :
    {Q : String → List PageEvent → Type 0} (reply : Reply ℕ) (log : List PageEvent)
    → Settles log
    → Ends (λ a l. Settles l) Q (keep_counter reply log)
unfolding page_of
keep_counter-Ends (refused m) log h = done-Ends tt log h
keep_counter-Ends (good n) log (h, s) =
    let c = shown-IsCoherent log h in
    done-Ends tt _ (
      shows _ log
          (record {
            setup = c.setup;
            passkey = c.passkey;
            tx = c.tx;
            own_wallet = c.own_wallet;
            own_session = c.own_session;
          })
          h,
      s,
    )

-- How a part of an increment ends: with a settled transaction, or an error.
abbrev pub EndsSettled : {A : Type 0} → Task A → List PageEvent → Type 0
EndsSettled m log = Ends (λ a l. Settles l) (λ e l. AllShown l) (m log)

module _ (sdk : Sdk) (hostname : Text) (b : Browser) where
  finished-Ends :
      (s : Submitted) (log : List PageEvent)
      → AllShown log
      → EndsSettled (finished sdk hostname b s) log
  unfolding AllShown page_of ◌>>=◌
  finished-Ends s log h =
      let c =
        tx-IsCoherent (page_of log) TxState.success (some s.hash) _ (shown-IsCoherent log h) tt in
      rescue-Ends tt _ _ (
        ask-Ends _ _ _ _ (λ m. ((c, h), inl (refl, tt)))
          (λ reply. keep_counter-Ends reply _ ((c, h), inl (refl, tt))))

  signed_entry-Ends :
      (error : Option (Option String)) (signed : Option Text) (log : List PageEvent)
      → AllShown log
      → EndsShown (signed_entry error signed) log
  signed_entry-Ends (some m) signed log h = thrown-Ends _ log h
  signed_entry-Ends none none log h = thrown-Ends _ log h
  signed_entry-Ends none (some t) log h = done-Ends t log h

  pub by_freighter-Ends :
      (w : WalletConnection) (address : Text) (log : List PageEvent)
      → AllShown log
      → EndsSettled (increment_by_freighter sdk hostname b w address) log
  unfolding AllShown ◌>>=◌ page_of
  by_freighter-Ends w address log h =
      ask-Ends _ _ _ log (λ m. h)
        (λ reply.
          accept-Ends _ reply _ _ (λ m. h)
            (λ built.
              ask-Ends _ _ _ _ (λ m. signing log h)
                (λ r. step-Ends (signed_entry r.error (given_text r.signed_auth_entry)) _ _ (
                  weaken-Ends _
                    (λ t l k.
                      ask-Ends _ _ _ _ (λ m. submitting l k)
                        (λ answer.
                          accept-Ends _ answer _ _ (λ m. submitting l k)
                            (λ s. finished-Ends s _ (submitting l k))))
                    (signed_entry-Ends r.error (given_text r.signed_auth_entry) _
                      (signing log h))))))

  passkey_digest-Ends :
      (built : Built) (log : List PageEvent)
      → AllShown log
      → EndsShown (passkey_digest sdk built) log
  unfolding passkey_digest compute_auth_digest
  passkey_digest-Ends built log h =
      step-Ends (attempt (sdk.parse_auth_entry built.auth_entry_xdr)) _ log (
        attempt-Ends _ log (λ m. h)
          (λ e. step-Ends (attempt _) _ log (
            attempt-Ends _ log (λ m. h)
              (λ c.
                step-Ends (attempt _) _ log
                  (attempt-Ends _ log (λ m. h) (λ payload. done-Ends _ log h))))))

  sign_with_passkey-Ends :
      (credential_id : Text) (digest : List ℕ) (log : List PageEvent)
      → AllShown log
      → EndsShown (sign_with_passkey hostname b credential_id digest) log
  unfolding sign_with_passkey AllShown
  sign_with_passkey-Ends credential_id digest log h =
      ask-Ends _ _ _ log (λ m. h)
        (λ r. step-Ends (attempt _) _ _ (attempt-Ends _ _ (λ m. h) (λ s. done-Ends _ _ h)))

  pub by_passkey-Ends :
      (session : PasskeySession) (address : Text) (log : List PageEvent)
      → AllShown log
      → EndsSettled (increment_by_passkey sdk hostname b session address) log
  unfolding AllShown ◌>>=◌ page_of
  by_passkey-Ends session address log h =
      ask-Ends _ _ _ log (λ m. h)
        (λ reply.
          accept-Ends _ reply _ _ (λ m. h)
            (λ built. step-Ends (passkey_digest sdk built) _ _ (
              weaken-Ends _
                (λ digest l k.
                  step-Ends (sign_with_passkey hostname b session.credential_id digest) _ _ (
                    weaken-Ends _
                      (λ s l' k'.
                        ask-Ends _ _ _ _ (λ m. submitting l' k')
                          (λ answer.
                            accept-Ends _ answer _ _ (λ m. submitting l' k')
                              (λ s'. finished-Ends s' _ (submitting l' k'))))
                      (sign_with_passkey-Ends session.credential_id digest _ (signing l k))))
                (passkey_digest-Ends built _ h))))

  provider_there-Ends :
      (log : List PageEvent) → AllShown log → EndsShown (provider_there sdk hostname b) log
  provider_there-Ends log h = elim (Bool-cases (b.has_phantom log)) [
    | inl q ↦ rw q (done-Ends tt log h)
    | inr q ↦ rw q (thrown-Ends _ log h)
  ]

  sign_and_submit-Ends :
      (key : Text) (built : Built) (hash_hex : Text) (log : List PageEvent)
      → AllShown log
      → EndsShown (sign_and_submit sdk hostname b key built hash_hex) log
  unfolding sign_and_submit AllShown ◌>>=◌ page_of
  sign_and_submit-Ends key built hash_hex log h = step-Ends (provider_there sdk hostname b) _ _ (
      weaken-Ends _
        (λ u l k.
          ask-Ends _ _ _ _ (λ m. k)
            (λ s. call-Ends _ _ _ (λ m. submitting l k) (λ r. submitting l k)))
        (provider_there-Ends _ (signing log h)))

  again_with-Ends :
      (key : Text) (built : Built) (first : PhantomReply) (hash : Option Text)
      (log : List PageEvent)
      → AllShown log
      → EndsShown (again_with sdk hostname b key built first hash) log
  again_with-Ends key built first none log h = done-Ends first log h
  again_with-Ends key built first (some t) log h = sign_and_submit-Ends key built t log h

  retried-Ends :
      (key : Text) (built : Built) (first : PhantomReply) (log : List PageEvent)
      → AllShown log
      → EndsShown (retried sdk hostname b key built first) log
  retried-Ends key built (taken s) log h = done-Ends _ log h
  retried-Ends key built (mismatched e t) log h =
      again_with-Ends key built (mismatched e t) (given_text t) log h

  phantom_accepted-Ends :
      (reply : PhantomReply) (log : List PageEvent)
      → AllShown log
      → EndsShown (phantom_accepted reply) log
  phantom_accepted-Ends (taken s) log h = done-Ends s log h
  phantom_accepted-Ends (mismatched none t) log h = thrown-Ends _ log h
  phantom_accepted-Ends (mismatched (some e) t) log h = thrown-Ends e log h

  pub by_phantom-Ends :
      (w : WalletConnection) (address : Text) (log : List PageEvent)
      → AllShown log
      → EndsSettled (increment_by_phantom sdk hostname b w address) log
  unfolding AllShown ◌>>=◌ page_of
  by_phantom-Ends w address log h =
      ask-Ends _ _ _ log (λ m. h)
        (λ reply.
          accept-Ends _ reply _ _ (λ m. h)
            (λ built.
              step-Ends
                (sign_and_submit sdk hostname b w.public_key_hex built built.auth_digest_hex) _ _
                (weaken-Ends _
                  (λ first l k.
                    step-Ends (retried sdk hostname b w.public_key_hex built first) _ _ (
                      weaken-Ends _
                        (λ last l' k'. step-Ends (phantom_accepted last) _ _ (
                          weaken-Ends _ (λ s l'' k''. finished-Ends s l'' k'')
                            (phantom_accepted-Ends last l' k')))
                        (retried-Ends w.public_key_hex built first l k)))
                  (sign_and_submit-Ends w.public_key_hex built built.auth_digest_hex _ h))))
