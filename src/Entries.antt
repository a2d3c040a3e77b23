-- ===== src/Entries.antt =====
-- lib/soroban-auth-payload.ts and lib/soroban-auth-entries.ts: what is signed of an authorization
-- entry, and what an entry is for. Also the signatures that lib/webauthn.ts and the routes of
-- app/api/transaction put on an entry.
use latch_playground.Common.{
  ℕ, Bool, false, Option, none, some, List, [], ◌∷◌, ◌++◌, String, if◌then◌else◌,
}
use latch_playground.Common.Result.{Result, ok, err, ◌>>=◌}
use latch_playground.Text.{Text, lit, text_eq}
use latch_playground.Chain.{
  ScVal, ScVals, scv_symbol, scv_bytes, scv_address, scv_u32, scv_vec, scv_map, no_values, value,
  no_entries, entry, ScAddress, known, unreadable, AuthorizedFunction, contract_fn,
  create_contract_fn, Invocation, invocation, Credentials, source_account, of_address, AuthEntry,
  RawEntry, encoded, decoded, Sdk, given_text,
}
pub mod Delegated
pub mod Native
pub mod Indices
pub mod Signed

abbrev pub rule_ids : List ℕ → ScVals
rule_ids [] = no_values
rule_ids (id ∷ ids) = value (scv_u32 id) (rule_ids ids)

-- `Signer::External(verifier, key_data)`
abbrev pub external_signer : Text → List ℕ → ScVal
external_signer verifier key_data = scv_vec (
    value (scv_symbol (lit "External"))
      (value (scv_address verifier) (value (scv_bytes key_data) no_values)))

-- `buildWebAuthnAuthPayload`
unfoldable pub auth_payload : Text → (key_data sig_data : List ℕ) → List ℕ → ScVal
auth_payload verifier key_data sig_data ids = scv_map (
    entry (scv_symbol (lit "context_rule_ids")) (scv_vec (rule_ids ids)) (
      entry (scv_symbol (lit "signers"))
        (scv_map (entry (external_signer verifier key_data) (scv_bytes sig_data) no_entries))
        no_entries))

-- The signature of a classic account: one public key and its signature.
unfoldable pub account_signature : (public_key signature : List ℕ) → ScVal
account_signature public_key signature = scv_vec (
    value
      (scv_map (
        entry (scv_symbol (lit "public_key")) (scv_bytes public_key)
          (entry (scv_symbol (lit "signature")) (scv_bytes signature) no_entries)))
      no_values)

-- `credentials().address().signature(value)`, which throws for the credentials of a source account.
abbrev pub sign_credentials : ScVal → Invocation → Credentials → Result String AuthEntry
sign_credentials v root source_account = err "address not set"
sign_credentials v root (of_address c) =
    ok (record { credentials = of_address (record c { signature = v }); root = root })

abbrev pub set_signature : AuthEntry → ScVal → Result String AuthEntry
set_signature e v = sign_credentials v e.root e.credentials

-- `hashSorobanAuthPayload`. The passphrase is hashed by its code units, its UTF-8 bytes where it is
-- ASCII.
abbrev pub hash_credentials :
    Sdk → (passphrase : Text) → Invocation → Credentials → Result String (List ℕ)
hash_credentials sdk passphrase root source_account = err "address not set"
hash_credentials sdk passphrase root (of_address c) =
    ok (sdk.hash (sdk.preimage_xdr (sdk.hash passphrase) c.nonce c.expiration root))

unfoldable pub hash_payload : Sdk → AuthEntry → (passphrase : Text) → Result String (List ℕ)
hash_payload sdk e passphrase = hash_credentials sdk passphrase e.root e.credentials

-- The digest that a smart account checks: the payload's hash bound to context rules.
abbrev pub digest_of : Sdk → (payload : List ℕ) → (ids : List ℕ) → List ℕ
digest_of sdk payload ids = sdk.hash (payload ++ sdk.xdr_of (scv_vec (rule_ids ids)))

-- `normalizeAuthEntries`
abbrev pub read_entry : Sdk → RawEntry → Result String AuthEntry
read_entry sdk (encoded xdr) = sdk.parse_auth_entry xdr
read_entry sdk (decoded e) = ok e

unfoldable pub normalize_auth_entries : Sdk → List RawEntry → Result String (List AuthEntry)
normalize_auth_entries sdk [] = ok []
normalize_auth_entries sdk (raw ∷ raws) = do
  e ← read_entry sdk raw
  es ← normalize_auth_entries sdk raws
  ok (e ∷ es)

abbrev pub expire : ℕ → Invocation → Credentials → AuthEntry
expire valid_until root source_account = record { credentials = source_account; root = root }
expire valid_until root (of_address c) = record {
  credentials = of_address (record c { expiration = valid_until });
  root = root;
}

-- `setAddressCredentialExpiration`, of each entry.
abbrev pub set_expiration : ℕ → AuthEntry → AuthEntry
set_expiration valid_until e = expire valid_until e.root e.credentials

abbrev pub text_of : ScAddress → Option Text
text_of (known s) = some s
text_of (unreadable s) = none

abbrev pub address_of : Credentials → Option Text
address_of source_account = none
address_of (of_address c) = text_of c.address

-- `addressStringFromCredentials`
unfoldable pub address_string : AuthEntry → Option Text
address_string e = address_of e.credentials

pub data Role : Type 0 where
  smart_account_custom delegated_native other_role : Role

abbrev pub is_signer : Text → Option Text → Bool
is_signer address none = false
is_signer address (some signer) = text_eq address signer

abbrev pub role_of : (account : Text) → (signer : Option Text) → Option Text → Role
role_of account signer none = other_role
role_of account signer (some address) =
    if text_eq address account
    then smart_account_custom
    else if is_signer address (given_text signer)
    then delegated_native
    else other_role

-- `classifyAuthEntryRole`
unfoldable pub classify : AuthEntry → (account : Text) → (signer : Option Text) → Role
classify e account signer = role_of account signer (given_text (address_string e))

abbrev pub root_function : Invocation → AuthorizedFunction
root_function (invocation function subs) = function

abbrev pub called_contract : AuthorizedFunction → Option Text
called_contract (contract_fn contract function args) = text_of contract
called_contract (create_contract_fn xdr) = none

-- `rootContractIdString`
unfoldable pub root_contract_id : AuthEntry → Option Text
root_contract_id e = called_contract (root_function e.root)
