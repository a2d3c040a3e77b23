-- ===== src/Entries/Signed.antt =====
-- What the signature of an authorization entry changes, and what it does not: for the entries of
-- lib/soroban-auth-entries.ts and their hash of lib/soroban-auth-payload.ts.
use mathlib.Core.Path.{subst}
use latch_playground.Common.{◌≡◌, refl, Option, arith, ap, ℕ, List}
use latch_playground.Common.Result.{ok}
use latch_playground.Text.{Text}
use latch_playground.Chain.{
  ScVal, Invocation, Credentials, source_account, of_address, AuthEntry, Sdk, given_text,
}
use latch_playground.Entries.{
  sign_credentials, set_signature, hash_credentials, hash_payload, address_of, address_string,
  text_of, role_of, classify,
}

-- The credentials carry the signature.
abbrev pub HasSignature : ScVal → Credentials → Type 0
HasSignature v source_account = ⊥
HasSignature v (of_address c) = c.signature ≡ v

sign_credentials_lem :
    (sdk : Sdk) (passphrase : Text) (v : ScVal) (root : Invocation) (c : Credentials)
    {e : AuthEntry}
    → sign_credentials v root c ≡ ok e
    → HasSignature v e.credentials
      × (e.root ≡ root)
      × (address_of e.credentials ≡ address_of c)
      × (hash_credentials sdk passphrase e.root e.credentials
          ≡ hash_credentials sdk passphrase root c)
sign_credentials_lem sdk passphrase v root source_account h = cc
sign_credentials_lem sdk passphrase v root (of_address c) {e} h =
    let signed : AuthEntry = record {
      credentials = of_address (record c { signature = v });
      root = root;
    } in
    let q : signed ≡ e = ground arith in
    subst
      (λ f.
        HasSignature v f.credentials
        × (f.root ≡ root)
        × (address_of f.credentials ≡ text_of c.address)
        × (hash_credentials sdk passphrase f.root f.credentials
            ≡ hash_credentials sdk passphrase root (of_address c)))
      q (refl, refl, refl, refl)

-- Where a signature is put on an entry, the entry carries it, and what was to be signed is as before:
-- the same invocation of the same address, with the same hash. So is what the entry is for.
pub set_signature-hash_payload :
    (sdk : Sdk) (passphrase : Text) (e : AuthEntry) (v : ScVal) {signed : AuthEntry}
    → set_signature e v ≡ ok signed
    → HasSignature v signed.credentials
      × (signed.root ≡ e.root)
      × (hash_payload sdk signed passphrase ≡ hash_payload sdk e passphrase)
      × ((account : Text) (signer : Option Text)
          → classify signed account signer ≡ classify e account signer)
unfolding hash_payload classify address_string
set_signature-hash_payload sdk passphrase e v h =
    let l = sign_credentials_lem sdk passphrase v e.root e.credentials h in
    (l.0, l.1, l.3, λ account signer. ap (λ a. role_of account signer (given_text a)) l.2)

signable :
    (sdk : Sdk) (passphrase : Text) (v : ScVal) (root : Invocation) (c : Credentials)
    {payload : List ℕ}
    → hash_credentials sdk passphrase root c ≡ ok payload
    → (signed : AuthEntry) × (sign_credentials v root c ≡ ok signed)
signable sdk passphrase v root source_account h = cc
signable sdk passphrase v root (of_address c) h = (_, refl)

-- An entry whose payload can be hashed can be signed.
pub set_signature_of_hash_payload :
    (sdk : Sdk) (passphrase : Text) (e : AuthEntry) (v : ScVal) {payload : List ℕ}
    → hash_payload sdk e passphrase ≡ ok payload
    → (signed : AuthEntry) × (set_signature e v ≡ ok signed)
unfolding hash_payload
set_signature_of_hash_payload sdk passphrase e v h =
    signable sdk passphrase v e.root e.credentials h
