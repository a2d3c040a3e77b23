-- ===== src/Passkey/Layout.antt =====
-- What the byte offsets of `extractPublicKey` find.
use latch_playground.Common.{
  ℕ, ◌+◌, ◌-◌, ◌*◌, ◌≤◌, ◌≡◌, refl, Option, none, some, List, [], ◌∷◌, ◌++◌, arith, length,
  get_elem?, take, drop, All, length-append, length-take, length-drop, ◌⊎◌, Bool-cases, inl, inr,
  append_assoc, take_at, drop_at, get_elem?_at, leb, true,
}
use latch_playground.Bytes.Hex.{IsByte}
use latch_playground.Bytes.Base64.{to_base64_url, from_base64_url, from_base64_url-to_base64_url}
use latch_playground.Der.{slice}
use latch_playground.Passkey.{
  Attestation, given, first_is, from_spki, from_authenticator_data, from_attestation_object,
  key_of_cose, cose_prefix, extract_public_key, build_key_data, path, or_else,
}

-- 65 bytes, the first of them 0x04.
pub record IsRawKey (key : List ℕ) : Type 0 where
  pub size : length key ≡ 65
  pub tag : first_is 4 key ≡ true

length-slice :
    (from to : ℕ) (buf : List ℕ) → to ≤ length buf → length (slice from to buf) ≡ to - from
length-slice from to buf h =
    length-take (to - from) (drop from buf) (omega (arith, length-drop from buf))

pub from_spki-IsRawKey :
    (import_spki : List ℕ → Option (List ℕ)) (spki : List ℕ) {key : List ℕ}
    → from_spki import_spki spki ≡ some key
    → IsRawKey key
unfolding from_spki
from_spki-IsRawKey import_spki spki h = ground arith

key_of_cose-IsRawKey : (cose : List ℕ) {key : List ℕ} → key_of_cose cose ≡ some key → IsRawKey key
unfolding key_of_cose
key_of_cose-IsRawKey cose {key} h = elim (Bool-cases (leb 77 (length cose))) [
  | inl long ↦
      let e : some (4 ∷ (slice 10 42 cose ++ slice 45 77 cose)) ≡ some key = rw long at h in
      let m = length-append (slice 10 42 cose) (slice 45 77 cose) in
      let a = length-slice 10 42 cose (ground arith) in
      let b = length-slice 45 77 cose (ground arith) in ground arith
  | inr short ↦ ground arith
]

pub from_authenticator_data-IsRawKey :
    (auth_data : List ℕ) {key : List ℕ}
    → from_authenticator_data auth_data ≡ some key
    → IsRawKey key
unfolding from_authenticator_data
from_authenticator_data-IsRawKey auth_data h = key_of_cose-IsRawKey _ h

-- A COSE key with its labels in the canonical order, and authenticator data that carries one.
abbrev pub cose_key : List ℕ → List ℕ → List ℕ → List ℕ
cose_key x y rest = cose_prefix ++ (x ++ (0x22 ∷ 0x58 ∷ 0x20 ∷ (y ++ rest)))

abbrev pub authenticator_data : List ℕ → ℕ → ℕ → List ℕ → List ℕ → List ℕ
authenticator_data head hi lo cred_id cose = head ++ (hi ∷ lo ∷ (cred_id ++ cose))

key_of_cose_lem :
    (x y rest : List ℕ)
    → length x ≡ 32
    → length y ≡ 32
    → key_of_cose (cose_key x y rest) ≡ some (4 ∷ (x ++ y))
unfolding key_of_cose
key_of_cose_lem x y rest ex ey =
    let mid : List ℕ = 0x22 ∷ 0x58 ∷ 0x20 ∷ [] in
    let m : length (x ++ mid) ≡ 35 = omega (arith, length-append x mid) in
    let n : leb 77 (length (cose_key x y rest)) ≡ true =
      ground (arith, length-append x (0x22 ∷ 0x58 ∷ 0x20 ∷ (y ++ rest)), length-append y rest) in
    let d : drop 35 (x ++ (0x22 ∷ 0x58 ∷ 0x20 ∷ (y ++ rest))) ≡ y ++ rest =
      rw append_assoc at (drop_at 35 (x ++ mid) (y ++ rest) m) in
    rw (n, take_at 32 x (0x22 ∷ 0x58 ∷ 0x20 ∷ (y ++ rest)) ex, d, take_at 32 y rest ey)

pub from_authenticator_data_lem :
    (head : List ℕ) (hi lo : ℕ) (cred_id x y rest : List ℕ)
    → length head ≡ 53
    → length cred_id ≡ hi * 256 + lo
    → length x ≡ 32
    → length y ≡ 32
    → from_authenticator_data (authenticator_data head hi lo cred_id (cose_key x y rest))
      ≡ some (4 ∷ (x ++ y))
unfolding from_authenticator_data
from_authenticator_data_lem head hi lo cred_id x y rest eh ec ex ey =
    let cose = cose_key x y rest in
    let front : List ℕ = head ++ (hi ∷ lo ∷ []) in
    let n : length (front ++ cred_id) ≡ 55 + (hi * 256 + lo) =
      omega (arith, length-append front cred_id, length-append head (hi ∷ lo ∷ [])) in
    let m : length (head ++ (hi ∷ [])) ≡ 54 = omega (arith, length-append head (hi ∷ [])) in
    let l : get_elem? (head ++ (hi ∷ lo ∷ (cred_id ++ cose))) 54 ≡ some lo =
      rw append_assoc at (get_elem?_at 54 (head ++ (hi ∷ [])) lo (cred_id ++ cose) m) in
    let d : drop (55 + (hi * 256 + lo)) (head ++ (hi ∷ lo ∷ (cred_id ++ cose))) ≡ cose =
      simp append_assoc at (drop_at _ (front ++ cred_id) cose n) in
    rw (get_elem?_at 53 head hi (lo ∷ (cred_id ++ cose)) eh, l, d) (key_of_cose_lem x y rest ex ey)

pub or_else_cases :
    (a b : Option (List ℕ)) {key : List ℕ}
    → or_else a b ≡ some key
    → (a ≡ some key) ⊎ (b ≡ some key)
or_else_cases a b h = ground arith

path_cases :
    (text : Option (List ℕ)) (try : List ℕ → Option (List ℕ)) {key : List ℕ}
    → path text try ≡ some key
    → (t : List ℕ) × (try t ≡ some key)
path_cases none try h = cc
path_cases (some []) try h = cc
path_cases (some (c ∷ s)) try h = (from_base64_url (c ∷ s), h)

path_absent :
    (text : Option (List ℕ)) (try : List ℕ → Option (List ℕ))
    → given text ≡ none
    → path text try ≡ none
path_absent none try h = refl
path_absent (some []) try h = refl
path_absent (some (c ∷ s)) try h = cc

-- From a response without an attestation object, a key that is extracted has 65 bytes, the first
-- of them 0x04, whatever the browser's importer gives.
pub extract_public_key-IsRawKey :
    (import_spki : List ℕ → Option (List ℕ)) (r : Attestation) {key : List ℕ}
    → given r.attestation_object ≡ none
    → extract_public_key import_spki r ≡ some key
    → IsRawKey key
unfolding extract_public_key
extract_public_key-IsRawKey import_spki r absent h =
    elim (or_else_cases (path r.public_key (from_spki import_spki)) _ h) [
      | inl e ↦
          let p = path_cases r.public_key (from_spki import_spki) e in
          from_spki-IsRawKey import_spki p.0 p.1
      | inr e ↦ elim (or_else_cases (path r.authenticator_data from_authenticator_data) _ e) [
        | inl f ↦
            let p = path_cases r.authenticator_data from_authenticator_data f in
            from_authenticator_data-IsRawKey p.0 p.1
        | inr f ↦
            let nothing = path_absent r.attestation_object from_attestation_object absent in cc
      ]
    ]

-- Key data that is made of a 65-byte key and the base64url text of a credential id splits again into
-- that key and the id's bytes.
pub build_key_data_lem :
    (key id : List ℕ)
    → All IsByte id
    → length key ≡ 65
    → (take 65 (build_key_data key (to_base64_url id)) ≡ key)
      × (drop 65 (build_key_data key (to_base64_url id)) ≡ id)
unfolding build_key_data
build_key_data_lem key id b n =
    rw (from_base64_url-to_base64_url id b) (take_at 65 key id n, drop_at 65 key id n)
