-- ===== src/Build/Rows.antt =====
-- The entries that app/api/transaction/build answers with, besides those of the simulation.

use latch_playground.Common.{
  ℕ, ◌≡◌, refl, ap, ◌⊎◌, inl, inr, arith, Bool, true, false, Option, none, some, List, [], ◌∷◌,
  ◌++◌, String, length, ◌==◌, if◌then◌else◌, ◌∙◌, sym, ◌≢◌,
}
use latch_playground.Common.Result.{ok}
use latch_playground.Text.{Text}
use latch_playground.Effects.{done, Route, ◌>>=◌, give, throw}
use latch_playground.Effects.Steps.{called, attempted, step_done}
use latch_playground.Chain.{Sdk, AuthEntry, scv_vec, no_values}
use latch_playground.Server.{Event, Services, random_raw_key}
use latch_playground.Entries.Delegated.{delegated_entry, check_auth_entry, nonce_of}
use latch_playground.Entries.Indices.{delegated_indices}
use latch_playground.Build.{synthesize}

-- The entries and the indices of the answer, the flag for an added entry, and the calls for them: the
-- entries that were found, where no signer is given or it has some; the ones found and an unsigned one
-- for the signer, where it has none.
abbrev pub IsRow :
    (account : Text)
    → (signer : Option Text) → (payload : List ℕ) → (expiration : ℕ) → List AuthEntry
    → List AuthEntry
    → List ℕ
    → Bool
    → List Event
    → List Event
    → Type 0
IsRow account signer payload expiration entries rows indices added log log' =
    (((signer ≡ none) ⊎ (delegated_indices account signer 0 entries ≢ []))
      × (rows ≡ entries)
      × (indices ≡ delegated_indices account signer 0 entries)
      × (added ≡ false)
      × (log' ≡ log))
    ⊎ ((g : Text) × (key : List ℕ) × (signer ≡ some g)
        × (delegated_indices account signer 0 entries ≡ [])
        × (rows
            ≡ entries
              ++ (check_auth_entry account g (scv_vec no_values) (nonce_of key) expiration payload
                  ∷ []))
        × (indices ≡ length entries ∷ [])
        × (added ≡ true)
        × (log' ≡ random_raw_key (ok key) ∷ log))

module _ (sdk : Sdk) (s : Services) (R : Type 0) where
  fits_32 :
      {B C : Type 0} (test : Bool) (m : String) (k : Unit → Route Event R B) (log : List Event)
      {b : B} {log' : List Event}
      → ((if test then give tt else throw m) >>= k) log ≡ (done b, log')
      → (k tt log ≡ (done b, log') → C)
      → C
  unfolding ◌>>=◌
  fits_32 true m k log h f = f h
  fits_32 false m k log h f = cc

  delegated_entry_done :
      (account signer : Text) (payload : List ℕ) (expiration : ℕ) (log : List Event) {e : AuthEntry}
      {log' : List Event}
      → delegated_entry {R = R} sdk s account signer payload expiration log ≡ (done e, log')
      → (key : List ℕ) × (e
          ≡ check_auth_entry account signer (scv_vec no_values) (nonce_of key) expiration payload)
        × (log' ≡ random_raw_key (ok key) ∷ log)
  unfolding delegated_entry
  delegated_entry_done account signer payload expiration log h =
      fits_32 (length payload == 32) _ _ log h λ h₀. called _ _ _ log h₀ λ key e₁ h₁.
        attempted (sdk.check_address account) _ _ h₁ λ u₁ e₂ h₂.
          attempted (sdk.check_address signer) _ _ h₂ λ u₂ e₃ h₃. (key, ground arith, ground arith)

  pub synthesize_done :
      (account : Text) (signer : Option Text) (payload : List ℕ) (expiration : ℕ)
      (entries : List AuthEntry) (indices : List ℕ) (log : List Event)
      {x : List AuthEntry × List ℕ × Bool} {log' : List Event}
      → synthesize {R = R} sdk s account signer payload expiration entries indices log
        ≡ (done x, log')
      → (((signer ≡ none) ⊎ (indices ≢ []))
          × (x.0 ≡ entries)
          × (x.1 ≡ indices)
          × (x.2 ≡ false)
          × (log' ≡ log))
        ⊎ ((g : Text) × (key : List ℕ) × (signer ≡ some g)
            × (indices ≡ [])
            × (x.0
                ≡ entries
                  ++ (check_auth_entry account g
                        (scv_vec no_values)
                        (nonce_of key)
                        expiration
                        payload
                      ∷ []))
            × (x.1 ≡ length entries ∷ [])
            × (x.2 ≡ true)
            × (log' ≡ random_raw_key (ok key) ∷ log))
  synthesize_done account (some signer) payload expiration entries [] log {x} h =
      step_done (delegated_entry sdk s account signer payload expiration) _ log h λ e mid e₁ h₁.
        let d = delegated_entry_done account signer payload expiration log e₁ in
        let q : entries ++ (e ∷ []) ≡ x.0 = ground arith in
        inr (
          signer,
          d.0,
          refl,
          refl,
          sym q ∙ ap (λ f. entries ++ (f ∷ [])) d.1,
          ground arith,
          ground arith,
          sym (ap (λ y. y.1) h₁) ∙ d.2,
        )
  synthesize_done account none payload expiration entries [] log h =
      inl (inl refl, ground arith, ground arith, ground arith, ground arith)
  synthesize_done account none payload expiration entries (i ∷ is) log h =
      inl (inl refl, ground arith, ground arith, ground arith, ground arith)
  synthesize_done account (some signer) payload expiration entries (i ∷ is) log h =
      inl (inr (λ q. cc), ground arith, ground arith, ground arith, ground arith)
