-- ===== src/Passkey.antt =====
-- The key material of a passkey: `extractPublicKey` and `buildKeyData` of lib/webauthn.ts, and
-- `coseEc2ToRawP256Uncompressed` of lib/webauthn-server.ts. `none` is a thrown error. Web Crypto's
-- import and export of an SPKI key and cbor-x's decoder are parameters.
use mathlib.Core.Option
use latch_playground.Common.{
  true, false, ℕ, ◌+◌, ◌*◌, Bool, ◌&&◌, Option, none, some, List, [], ◌∷◌, ◌++◌, ◌==◌, leb,
  if◌then◌else◌, length, get_elem?, drop,
}
use latch_playground.Bytes.Base64.{from_base64_url}
use latch_playground.Der.{slice}
pub mod Layout
pub mod Agreement

-- The strings of `RegistrationResponseJSON["response"]` that are read, each base64url.
pub record Attestation : Type 0 where
  pub public_key : Option (List ℕ)
  pub authenticator_data : Option (List ℕ)
  pub attestation_object : Option (List ℕ)

-- A missing or empty string is falsy.
abbrev pub given : Option (List ℕ) → Option (List ℕ)
given none = none
given (some []) = none
given (some (c ∷ s)) = some (c ∷ s)

abbrev pub first_is : ℕ → List ℕ → Bool
first_is b [] = false
first_is b (c ∷ s) = c == b

-- `buf[i]` in an arithmetic expression: `undefined` counts as 0.
abbrev pub or_zero : Option ℕ → ℕ
or_zero none = 0
or_zero (some b) = b

abbrev pub byte_at : List ℕ → ℕ → ℕ
byte_at buf i = or_zero (get_elem? buf i)

abbrev pub is_prefix : List ℕ → List ℕ → Bool
is_prefix [] buf = true
is_prefix (p ∷ ps) [] = false
is_prefix (p ∷ ps) (b ∷ bs) = p == b && is_prefix ps bs

-- `buf.indexOf(prefix)`, for a prefix that is not empty.
unfoldable pub index_of : List ℕ → List ℕ → Option ℕ
index_of prefix [] = none
index_of prefix (b ∷ bs) =
    let rest = Option.map (λ i. i + 1) (index_of prefix bs) in
    if is_prefix prefix (b ∷ bs) then some 0 else rest

abbrev pub is_uncompressed : List ℕ → Bool
is_uncompressed key = length key == 65 && first_is 4 key

abbrev pub or_else : Option (List ℕ) → Option (List ℕ) → Option (List ℕ)
or_else (some a) b = some a
or_else none b = b

-- Path 1: `response.publicKey`.
unfoldable pub from_spki : (List ℕ → Option (List ℕ)) → List ℕ → Option (List ℕ)
from_spki import_spki spki = if is_uncompressed spki then some spki else elim (import_spki spki) [
  | none ↦ none
  | some raw ↦ if is_uncompressed raw then some raw else none
]

-- The coordinates of a COSE ES256 key by their offsets.
unfoldable pub key_of_cose : List ℕ → Option (List ℕ)
key_of_cose cose_pub_key =
    if leb 77 (length cose_pub_key)
    then some (4 ∷ (slice 10 42 cose_pub_key ++ slice 45 77 cose_pub_key))
    else none

-- Path 2: `response.authenticatorData`. The high byte is shifted by 8, and the low byte put in.
unfoldable pub from_authenticator_data : List ℕ → Option (List ℕ)
from_authenticator_data auth_data =
    let cred_id_len = byte_at auth_data 53 * 256 + byte_at auth_data 54 in
    key_of_cose (drop (55 + cred_id_len) auth_data)

abbrev pub cose_prefix : List ℕ
cose_prefix = 0xa5 ∷ 0x01 ∷ 0x02 ∷ 0x03 ∷ 0x26 ∷ 0x20 ∷ 0x01 ∷ 0x21 ∷ 0x58 ∷ 0x20 ∷ []

-- Path 3: a scan of `response.attestationObject`.
unfoldable pub from_attestation_object : List ℕ → Option (List ℕ)
from_attestation_object att_obj = elim (index_of cose_prefix att_obj) [
  | none ↦ none
  | some idx ↦
      let start = idx + 10 in
      some (4 ∷ (slice start (start + 32) att_obj ++ slice (start + 35) (start + 67) att_obj))
]

-- A path that is not given, or that finds no key, falls through to the next.
abbrev pub path : Option (List ℕ) → (List ℕ → Option (List ℕ)) → Option (List ℕ)
path text try = elim (given text) [ none ↦ none | some t ↦ try (from_base64_url t) ]

unfoldable pub extract_public_key : (List ℕ → Option (List ℕ)) → Attestation → Option (List ℕ)
extract_public_key import_spki r = or_else (path r.public_key (from_spki import_spki)) (
    or_else (path r.authenticator_data from_authenticator_data)
      (path r.attestation_object from_attestation_object))

-- `publicKey` followed by the bytes of the credential id.
unfoldable pub build_key_data : List ℕ → List ℕ → List ℕ
build_key_data public_key credential_id = public_key ++ from_base64_url credential_id

-- A decoded CBOR value, as far as the code tells it apart.
pub data CborValue : Type 0 where
  bytes : List ℕ → CborValue
  other : CborValue

abbrev pub coordinates : CborValue → CborValue → Option (List ℕ)
coordinates (bytes x) (bytes y) =
    if length x == 32 && length y == 32 then some (4 ∷ (x ++ y)) else none
coordinates _ _ = none

-- The decoder gives the value under each negative label: `n` stands for the label `-n`.
unfoldable pub cose_to_raw : (List ℕ → Option (ℕ → CborValue)) → List ℕ → Option (List ℕ)
cose_to_raw cbor_decode cose = elim (cbor_decode cose) [
  | none ↦ none
  | some decoded ↦ coordinates (decoded 2) (decoded 3)
]
