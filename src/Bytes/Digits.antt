-- ===== src/Bytes/Digits.antt =====
-- Big-endian numbers in bytes and in hexadecimal text, as lib/webauthn.ts converts between them:
-- `BigInt("0x" + text)`, `n.toString(16)` and `padStart`.
use latch_playground.Common.{
  ℕ, zero, suc, ◌+◌, ◌-◌, ◌*◌, ◌/◌, ◌%◌, ◌^◌, ◌≤◌, ◌<◌, ◌≡◌, refl, sym, ap, Option, none, some,
  List, [], ◌∷◌, ◌++◌, arith, ltb, if◌then◌else◌, length, All, All-append, replicate, append_assoc,
  div_lt_pow, Bool-cases, inl, inr, length-append,
}
use latch_playground.Bytes.Hex.{
  IsByte, hex_digit, hex_value?, hex_value?-hex_digit, to_hex, from_hex, to_hex-append,
  from_hex-to_hex,
}

-- The number that digits or bytes stand for, read from the left.
unfoldable pub be_value : ℕ → List ℕ → ℕ
be_value acc [] = acc
be_value acc (b ∷ bs) = be_value (acc * 256 + b) bs

read_hex : ℕ → List ℕ → Option ℕ
read_hex acc [] = some acc
read_hex acc (c ∷ s) = elim (hex_value? c) [ none ↦ none | some v ↦ read_hex (acc * 16 + v) s ]

-- `BigInt("0x" + text)`: a `SyntaxError`, here `none`, unless the text is one or more digits.
unfoldable pub big_int : List ℕ → Option ℕ
unfolding read_hex
big_int [] = none
big_int (c ∷ s) = read_hex 0 (c ∷ s)

hex_text_from : ℕ → ℕ → List ℕ
hex_text_from zero v = []
hex_text_from (suc f) v =
    let rest = hex_text_from f (v / 16) ++ (hex_digit (v % 16) ∷ []) in
    if ltb v 16 then hex_digit v ∷ [] else rest

-- `v.toString(16)`; a number has fewer digits than its value plus one.
unfoldable pub hex_text : ℕ → List ℕ
unfolding hex_text_from hex_digit
hex_text v = hex_text_from (suc v) v

abbrev pub pad_start : ℕ → ℕ → List ℕ → List ℕ
pad_start k c t = replicate (k - length t) c ++ t

-- The last `k` hexadecimal digits of a number, and its last `k` bytes.
fixed : ℕ → ℕ → List ℕ
fixed zero v = []
fixed (suc k) v = fixed k (v / 16) ++ (hex_digit (v % 16) ∷ [])

unfoldable pub be_bytes : ℕ → ℕ → List ℕ
be_bytes zero v = []
be_bytes (suc k) v = be_bytes k (v / 256) ++ (v % 256 ∷ [])

abbrev pub twice : ℕ → ℕ
twice zero = zero
twice (suc k) = suc (suc (twice k))

read_hex-to_hex :
    (acc : ℕ) (bs : List ℕ) → All IsByte bs → read_hex acc (to_hex bs) ≡ some (be_value acc bs)
unfolding read_hex to_hex be_value
read_hex-to_hex acc [] h = refl
read_hex-to_hex acc (b ∷ bs) h =
    let e : (acc * 16 + b / 16) * 16 + b % 16 ≡ acc * 256 + b = omega arith in
    let ih = read_hex-to_hex (acc * 256 + b) bs h.1 in
    rw
      (
        hex_value?-hex_digit (b / 16) (omega arith),
        hex_value?-hex_digit (b % 16) (omega arith),
        read_hex,
        e,
      )
      ih

pub big_int-to_hex :
    (b : ℕ) (bs : List ℕ)
    → All IsByte (b ∷ bs)
    → big_int (to_hex (b ∷ bs)) ≡ some (be_value 0 (b ∷ bs))
unfolding big_int to_hex
big_int-to_hex b bs h = read_hex-to_hex 0 (b ∷ bs) h

replicate-snoc : (k c : ℕ) → replicate k c ++ (c ∷ []) ≡ replicate (suc k) c
replicate-snoc zero c = refl
replicate-snoc (suc k) c = ap (λ t. c ∷ t) (replicate-snoc k c)

fixed-zero : (k : ℕ) → fixed k 0 ≡ replicate k b'0'
unfolding fixed hex_digit
fixed-zero zero = refl
fixed-zero (suc k) = rw (fixed-zero k) (replicate-snoc k b'0')

pad_digit :
    (k v : ℕ)
    → v < 16
    → replicate k b'0' ++ (hex_digit v ∷ []) ≡ fixed k (v / 16) ++ (hex_digit (v % 16) ∷ [])
pad_digit k v h =
    let q : v / 16 ≡ 0 = omega arith in let r : v % 16 ≡ v = omega arith in rw (q, r, fixed-zero k)

pad_hex_text :
    (f k v : ℕ)
    → v < f
    → v < 16 ^ suc k
    → (pad_start (suc k) b'0' (hex_text_from f v) ≡ fixed (suc k) v)
      × (length (hex_text_from f v) ≤ suc k)
unfolding hex_text_from fixed
pad_hex_text zero k v h b = absurd (omega arith)
pad_hex_text (suc f) zero v h b = elim (Bool-cases (ltb v 16)) [
  | inl small ↦ rw small (pad_digit zero v (omega arith), omega arith)
  | inr large ↦ absurd (ground arith)
]
pad_hex_text (suc f) (suc k) v h b = elim (Bool-cases (ltb v 16)) [
  | inl small ↦
      let one : suc (suc k) - 1 ≡ suc k = omega arith in
      rw (small, one) (pad_digit (suc k) v (ground arith), omega arith)
  | inr large ↦
      let ih = pad_hex_text f k (v / 16) (ground arith) (div_lt_pow v (suc k) b) in
      let t = hex_text_from f (v / 16) in
      let c = hex_digit (v % 16) ∷ [] in
      let n : length (t ++ (hex_digit (v % 16) ∷ [])) ≡ suc (length t) =
        omega (arith, length-append t (hex_digit (v % 16) ∷ [])) in
      let m : suc (suc k) - suc (length t) ≡ suc k - length t = omega arith in
      rw (large, n, m, ← ih.0)
        (sym (append_assoc (replicate (suc k - length t) b'0') t c), omega (arith, ih.1))
]

fixed-to_hex : (k v : ℕ) → fixed (twice k) v ≡ to_hex (be_bytes k v)
unfolding fixed be_bytes to_hex
fixed-to_hex zero v = refl
fixed-to_hex (suc k) v =
    let q : v / 16 / 16 ≡ v / 256 = omega arith in
    let l : v / 16 % 16 ≡ v % 256 / 16 = omega arith in
    let r : v % 16 ≡ v % 256 % 16 = omega arith in
    rw (to_hex-append, q, l, r, fixed-to_hex k (v / 256))
      (append_assoc (to_hex (be_bytes k (v / 256))) (hex_digit (v % 256 / 16) ∷ [])
        (hex_digit (v % 256 % 16) ∷ []))

be_bytes-IsByte : (k v : ℕ) → All IsByte (be_bytes k v)
unfolding be_bytes
be_bytes-IsByte zero v = tt
be_bytes-IsByte (suc k) v =
    All-append IsByte (be_bytes k (v / 256)) _ (be_bytes-IsByte k (v / 256)) (omega arith)

pub length-be_bytes : (k v : ℕ) → length (be_bytes k v) ≡ k
unfolding be_bytes
length-be_bytes zero v = refl
length-be_bytes (suc k) v =
    omega (arith, length-append (be_bytes k (v / 256)) (v % 256 ∷ []), length-be_bytes k (v / 256))

be_value-snoc :
    (acc : ℕ) (bs : List ℕ) (b : ℕ) → be_value acc (bs ++ (b ∷ [])) ≡ be_value acc bs * 256 + b
unfolding be_value
be_value-snoc acc [] b = refl
be_value-snoc acc (c ∷ bs) b = be_value-snoc (acc * 256 + c) bs b

pub be_value-be_bytes : (k v : ℕ) → v < 16 ^ twice k → be_value 0 (be_bytes k v) ≡ v
unfolding be_bytes
be_value-be_bytes zero v h = unfold be_value in omega arith
be_value-be_bytes (suc k) v h =
    let b : v / 16 / 16 < 16 ^ twice k =
      div_lt_pow (v / 16) (twice k) (div_lt_pow v (suc (twice k)) h) in
    rw (be_value-snoc, be_value-be_bytes k (v / 256) (omega arith)) (omega arith)

-- Writing a number of at most `2k` digits as padded text and reading that text as bytes gives the
-- `k` big-endian bytes of the number.
pub from_hex-pad_start :
    (k v : ℕ)
    → v < 16 ^ twice (suc k)
    → from_hex (pad_start (twice (suc k)) b'0' (hex_text v)) ≡ be_bytes (suc k) v
unfolding hex_text
from_hex-pad_start k v h =
    rw ((pad_hex_text (suc v) (suc (twice k)) v (omega arith) h).0, fixed-to_hex (suc k) v)
      (from_hex-to_hex (be_bytes (suc k) v) (be_bytes-IsByte (suc k) v))
