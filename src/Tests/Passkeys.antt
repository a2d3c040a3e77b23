-- ===== src/Tests/Passkeys.antt =====
-- Keys and signatures at concrete bytes.
use latch_playground.Common.{
  ℕ, zero, suc, ltb, ◌==◌, if◌then◌else◌, ltb→lt, ◌^◌, all, and_split, true, ◌+◌, ◌/◌, ◌≤◌, ◌≡◌,
  refl, ◌⊎◌, Option, none, some, List, [], ◌∷◌, ◌++◌, arith, ap, ◌∙◌, append_assoc, length-append,
  drop_at, take_at, length, take, drop, All,
}
use latch_playground.Bytes.Hex.{IsByte}
use latch_playground.Bytes.Base64.{to_base64_url, from_base64_url, from_base64_url-to_base64_url}
use latch_playground.Bytes.Digits.{be_value}
use latch_playground.Der.{curve_order, der_to_compact}
use latch_playground.Der.LowS.{der_signature, IsWord, der_to_compact_low}
use latch_playground.Passkey.{
  Attestation, from_spki, extract_public_key, build_key_data, CborValue, bytes, cose_to_raw,
}
use latch_playground.Passkey.Layout.{
  IsRawKey, cose_key, authenticator_data, extract_public_key-IsRawKey, build_key_data_lem,
}
use latch_playground.Passkey.Agreement.{ReadsCose, extract_public_key-cose_to_raw}

abbrev id_bytes : List ℕ
id_bytes = 251 ∷ 240 ∷ 7 ∷ 4 ∷ []

-- A coordinate.
abbrev fives : ℕ → List ℕ
fives zero = []
fives (suc n) = 5 ∷ fives n

abbrev key65 : List ℕ
key65 = 4 ∷ (fives 32 ++ fives 32)

bytes_of : (bs : List ℕ) → all (λ b. ltb b 256) bs ≡ true → All IsByte bs
bytes_of [] h = tt
bytes_of (b ∷ bs) h =
    let s = and_split (ltb b 256) (all (λ c. ltb c 256) bs) h in (ground arith, bytes_of bs s.1)

from_base64_url-to_base64_url_example : from_base64_url (to_base64_url id_bytes) ≡ id_bytes
from_base64_url-to_base64_url_example =
    from_base64_url-to_base64_url id_bytes (bytes_of id_bytes refl)

build_key_data_example :
    (take 65 (build_key_data key65 (to_base64_url id_bytes)) ≡ key65)
    × (drop 65 (build_key_data key65 (to_base64_url id_bytes)) ≡ id_bytes)
build_key_data_example = build_key_data_lem key65 id_bytes (bytes_of id_bytes refl) refl

abbrev no_import : List ℕ → Option (List ℕ)
no_import spki = none

abbrev spki_only : Attestation
spki_only = record {
  public_key = some (to_base64_url key65);
  authenticator_data = none;
  attestation_object = none;
}

extract_public_key-IsRawKey_example : IsRawKey key65
unfolding extract_public_key from_spki to_base64_url from_base64_url
extract_public_key-IsRawKey_example =
    extract_public_key-IsRawKey no_import spki_only {key = key65} refl refl

two-IsWord : IsWord (2 ∷ [])
unfolding be_value
two-IsWord = record {
  bytes = bytes_of (2 ∷ []) refl;
  some_byte = omega arith;
  fits = ltb→lt 2 (2 ^ 256) refl;
}

abbrev two_signature : List ℕ
two_signature = der_signature 48 6 2 (2 ∷ []) 2 (2 ∷ []) []

der_to_compact_low_example :
    (c : List ℕ) × (der_to_compact two_signature ≡ some c)
    × (length c ≡ 64)
    × (be_value 0 (take 32 c) ≡ 2)
    × (be_value 0 (drop 32 c) ≤ curve_order / 2)
    × ((be_value 0 (drop 32 c) ≡ 2) ⊎ (be_value 0 (drop 32 c) + 2 ≡ curve_order))
unfolding be_value
der_to_compact_low_example =
    der_to_compact_low 48 6 2 2 (2 ∷ []) (2 ∷ []) [] two-IsWord two-IsWord
      (ltb→lt 2 curve_order refl)

-- A decoder that knows keys by their coordinates' places.
abbrev label : List ℕ → ℕ → CborValue
label cose n = if n == 2 then bytes (take 32 (drop 10 cose)) else bytes (take 32 (drop 45 cose))

abbrev reader : List ℕ → Option (ℕ → CborValue)
reader cose = some (label cose)

-- The label of a canonical key is read where the coordinate stands.
reader-ReadsCose : ReadsCose reader
reader-ReadsCose = record {
  reads = λ x y ex ey.
      let mid : List ℕ = 0x22 ∷ 0x58 ∷ 0x20 ∷ [] in
      let m : length (x ++ mid) ≡ 35 = omega (arith, length-append x mid) in
      let d : drop 35 (x ++ (0x22 ∷ 0x58 ∷ 0x20 ∷ (y ++ []))) ≡ y ++ [] =
        rw append_assoc at (drop_at 35 (x ++ mid) (y ++ []) m) in
      (
        label (cose_key x y []),
        refl,
        ap bytes (take_at 32 x (0x22 ∷ 0x58 ∷ 0x20 ∷ (y ++ [])) ex),
        ap bytes (ap (take 32) d ∙ take_at 32 y [] ey),
      );
}

abbrev head53 : List ℕ
head53 = fives 53

abbrev data_example : List ℕ
data_example = authenticator_data head53 0 4 id_bytes (cose_key (fives 32) (fives 32) [])

abbrev data_only : Attestation
data_only = record {
  public_key = none;
  authenticator_data = some (to_base64_url data_example);
  attestation_object = none;
}

extract_public_key-cose_to_raw_example :
    (extract_public_key no_import data_only ≡ some key65)
    × (cose_to_raw reader (cose_key (fives 32) (fives 32) []) ≡ some key65)
extract_public_key-cose_to_raw_example =
    extract_public_key-cose_to_raw no_import reader head53 0 4 id_bytes (fives 32) (fives 32) none
      reader-ReadsCose refl refl refl refl (bytes_of data_example refl)
