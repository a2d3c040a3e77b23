-- ===== src/Entries/Indices/First.antt =====
-- Which entries the loop of app/api/transaction/build/route.ts finds.
use latch_playground.Common.{
  ℕ, zero, suc, ◌+◌, ◌<◌, ◌≡◌, ◌≢◌, refl, ap, ◌↔◌, arith, Option, some, List, [], ◌∷◌, get_elem?,
  ◌⊎◌, inl, inr, Bool, true, any, ◌==◌, sym, Bool-cases,
}
use latch_playground.Text.{Text}
use latch_playground.Chain.{AuthEntry}
use latch_playground.Entries.{Role, smart_account_custom, delegated_native, other_role, classify}
use latch_playground.Entries.Indices.{account_entry, delegated_indices}

Role-cases : (r : Role) → (r ≡ smart_account_custom) ⊎ ((r ≡ delegated_native) ⊎ (r ≡ other_role))
Role-cases smart_account_custom = inl refl
Role-cases delegated_native = inr (inl refl)
Role-cases other_role = inr (inr refl)

-- The entry at the index `i` is the first one of a smart account.
abbrev pub IsFirst :
    (account : Text) → (signer : Option Text) → List AuthEntry → ℕ → AuthEntry → Type 0
IsFirst account signer es i e =
    (get_elem? es i ≡ some e)
    × (classify e account signer ≡ smart_account_custom)
    × ((j : ℕ) (f : AuthEntry)
        → j < i
        → get_elem? es j ≡ some f
        → classify f account signer ≢ smart_account_custom)

other-IsFirst :
    (account : Text) (signer : Option Text) (e : AuthEntry) (es : List AuthEntry) {i : ℕ}
    {f : AuthEntry}
    → classify e account signer ≢ smart_account_custom
    → IsFirst account signer es i f
    → IsFirst account signer (e ∷ es) (suc i) f
other-IsFirst account signer e es {i} other (at_i, own, first) = (at_i, own, before)
  where
    before :
        (j : ℕ) (g : AuthEntry)
        → j < suc i
        → get_elem? (e ∷ es) j ≡ some g
        → classify g account signer ≢ smart_account_custom
    before zero g below at_j = let q : e ≡ g = ground arith in rw q at other
    before (suc j) g below at_j = first j g (omega arith) at_j

account_entry-IsFirst_from :
    (account : Text) (signer : Option Text) (k : ℕ) (es : List AuthEntry) {n : ℕ} {f : AuthEntry}
    → account_entry account signer k es ≡ some (n, f)
    → (i : ℕ) × (n ≡ k + i) × IsFirst account signer es i f
unfolding account_entry
account_entry-IsFirst_from account signer k [] h = cc
account_entry-IsFirst_from account signer k (e ∷ es) {n} {f} h =
    let later : classify e account signer ≢ smart_account_custom
        → account_entry account signer (suc k) es ≡ some (n, f)
        → (i : ℕ) × (n ≡ k + i) × IsFirst account signer (e ∷ es) i f =
      λ other g.
        let ih = account_entry-IsFirst_from account signer (suc k) es g in
        (suc ih.0, omega (arith, ih.1), other-IsFirst account signer e es other ih.2) in
    elim (Role-cases (classify e account signer)) [
      | inl r ↦
          let here : Option (ℕ × AuthEntry) = some (k, e) in
          let found : here ≡ some (n, f) = rw r at h in
          let same : e ≡ f = ground arith in
          (0, ground arith, (ap some same, rw same at r, λ j g below at_j. absurd (omega arith)))
      | inr (inl r) ↦ later (λ q. cc) (rw r at h)
      | inr (inr r) ↦ later (λ q. cc) (rw r at h)
    ]

-- The index of the smart account's entry, counted from 0, is that of the first entry with its
-- address.
pub account_entry-IsFirst :
    (account : Text) (signer : Option Text) (es : List AuthEntry) {i : ℕ} {e : AuthEntry}
    → account_entry account signer 0 es ≡ some (i, e)
    → IsFirst account signer es i e
account_entry-IsFirst account signer es {i} {e} h =
    let f = account_entry-IsFirst_from account signer 0 es h in
    let q : f.0 ≡ i = omega (arith, f.1) in rw q at f.2

abbrev pub has : ℕ → List ℕ → Bool
has n ns = any (λ m. m == n) ns

-- The entry at the index `n`, counted from `k`, is one of the delegated signer.
abbrev pub IsDelegatedAt : (account : Text) (signer : Option Text) → ℕ → List AuthEntry → ℕ → Type 0
IsDelegatedAt account signer k es n =
    (i : ℕ) × (e : AuthEntry) × (n ≡ k + i)
    × (get_elem? es i ≡ some e)
    × (classify e account signer ≡ delegated_native)

head_or_later :
    (account : Text) (signer : Option Text) (k : ℕ) (e : AuthEntry) (es : List AuthEntry) (n : ℕ)
    → IsDelegatedAt account signer k (e ∷ es) n
    → ((n ≡ k) × (classify e account signer ≡ delegated_native))
      ⊎ IsDelegatedAt account signer (suc k) es n
head_or_later account signer k e es n (zero, f, q, at_i, r) =
    let same : e ≡ f = ground arith in inl (omega (arith, q), rw (sym same) at r)
head_or_later account signer k e es n (suc i, f, q, at_i, r) = inr (i, f, omega (arith, q), at_i, r)

later_at :
    (account : Text) (signer : Option Text) (k : ℕ) (e : AuthEntry) (es : List AuthEntry) (n : ℕ)
    → IsDelegatedAt account signer (suc k) es n
    → IsDelegatedAt account signer k (e ∷ es) n
later_at account signer k e es n (i, f, q, at_i, r) = (suc i, f, omega (arith, q), at_i, r)

-- The indices of the delegated entries are those of the entries with that role, counted from `k`.
pub delegated_indices_iff :
    (account : Text) (signer : Option Text) (k : ℕ) (es : List AuthEntry) (n : ℕ)
    → (has n (delegated_indices account signer k es) ≡ true) ↔ IsDelegatedAt account signer k es n
unfolding delegated_indices
delegated_indices_iff account signer k [] n = (λ h. cc, λ (i, e, q, at_i, r). cc)
delegated_indices_iff account signer k (e ∷ es) n =
    let ih = delegated_indices_iff account signer (suc k) es n in
    let skipped : classify e account signer ≢ delegated_native
        → (has n (delegated_indices account signer (suc k) es) ≡ true)
          ↔ IsDelegatedAt account signer k (e ∷ es) n =
      λ other. (
        λ h. later_at account signer k e es n (ih.0 h),
        λ d. elim (head_or_later account signer k e es n d) [
          | inl (q, r) ↦ absurd (other r)
          | inr l ↦ ih.1 l
        ],
      ) in
    elim (Role-cases (classify e account signer)) [
      | inl r ↦ rw r (skipped (λ q. cc))
      | inr (inl r) ↦ rw r (
        (λ h. elim (Bool-cases (k == n)) [
          | inl q ↦ (0, e, ground arith, refl, r)
          | inr q ↦ later_at account signer k e es n (ih.0 (rw q at h))
        ]),
        (λ d. elim (head_or_later account signer k e es n d) [
          | inl (q, _) ↦ ground arith
          | inr l ↦ let m = ih.1 l in ground arith
        ]),
      )
      | inr (inr r) ↦ rw r (skipped (λ q. cc))
    ]
