-- ===== src/Passkey/Agreement.antt =====
-- The browser's and the server's ways to a passkey's public key.
use latch_playground.Common.{
  ℕ, ◌+◌, ◌*◌, ◌≡◌, ◌≢◌, sym, ap, length-append, Option, none, some, List, [], ◌∷◌, ◌++◌, arith,
  length, All,
}
use latch_playground.Bytes.Hex.{IsByte}
use latch_playground.Bytes.Base64.{to_base64_url, from_base64_url, from_base64_url-to_base64_url}
use latch_playground.Passkey.{
  from_authenticator_data, extract_public_key, path, CborValue, bytes, cose_to_raw,
}
use latch_playground.Passkey.Layout.{cose_key, authenticator_data, from_authenticator_data_lem}

-- What is assumed of the CBOR decoder: of a canonical ES256 key it gives the two coordinates.
pub record ReadsCose (cbor_decode : List ℕ → Option (ℕ → CborValue)) : Type 0 where
  pub reads :
      (x y : List ℕ)
      → length x ≡ 32
      → length y ≡ 32
      → (d : ℕ → CborValue) × (cbor_decode (cose_key x y []) ≡ some d)
        × (d 2 ≡ bytes x)
        × (d 3 ≡ bytes y)

cose_to_raw_lem :
    (cbor_decode : List ℕ → Option (ℕ → CborValue)) (x y : List ℕ)
    → ReadsCose cbor_decode
    → length x ≡ 32
    → length y ≡ 32
    → cose_to_raw cbor_decode (cose_key x y []) ≡ some (4 ∷ (x ++ y))
unfolding cose_to_raw
cose_to_raw_lem cbor_decode x y law ex ey =
    let r = law.reads x y ex ey in rw (r.1, cose_to_raw, r.2, r.3, ex, ey)

path_given :
    (t : List ℕ) (try : List ℕ → Option (List ℕ)) {d : List ℕ}
    → from_base64_url t ≡ d
    → d ≢ []
    → path (some t) try ≡ try d
unfolding from_base64_url
path_given [] try h n = absurd (n (sym h))
path_given (c ∷ s) try h n = ap try h

-- For authenticator data that carries a canonical ES256 key, the browser's path through the data
-- and the server's path through the CBOR decoder give one and the same 65-byte key.
pub extract_public_key-cose_to_raw :
    (import_spki : List ℕ → Option (List ℕ)) (cbor_decode : List ℕ → Option (ℕ → CborValue))
    (head : List ℕ) (hi lo : ℕ) (cred_id x y : List ℕ) (object : Option (List ℕ))
    → ReadsCose cbor_decode
    → length head ≡ 53
    → length cred_id ≡ hi * 256 + lo
    → length x ≡ 32
    → length y ≡ 32
    → All IsByte (authenticator_data head hi lo cred_id (cose_key x y []))
    → (extract_public_key import_spki (record {
      public_key = none;
      authenticator_data =
          some (to_base64_url (authenticator_data head hi lo cred_id (cose_key x y [])));
      attestation_object = object;
    })
        ≡ some (4 ∷ (x ++ y)))
      × (cose_to_raw cbor_decode (cose_key x y []) ≡ some (4 ∷ (x ++ y)))
unfolding extract_public_key
extract_public_key-cose_to_raw import_spki cbor_decode head hi lo cred_id x y object law eh ec ex ey
      b =
    let auth_data = authenticator_data head hi lo cred_id (cose_key x y []) in
    let some_byte : auth_data ≢ [] = λ e.
      omega (arith, ap length e, length-append head (hi ∷ lo ∷ (cred_id ++ cose_key x y []))) in
    let given =
      path_given (to_base64_url auth_data) from_authenticator_data
        (from_base64_url-to_base64_url auth_data b) some_byte in
    let key = from_authenticator_data_lem head hi lo cred_id x y [] eh ec ex ey in
    (rw (given, key), cose_to_raw_lem cbor_decode x y law ex ey)
