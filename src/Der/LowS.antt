-- ===== src/Der/LowS.antt =====
-- `derToCompact` on every well-formed DER signature.
use latch_playground.Common.{
  ℕ, suc, ◌+◌, ◌-◌, ◌/◌, ◌^◌, ◌≤◌, ◌<◌, ◌≡◌, refl, ◌⊎◌, some, List, [], ◌∷◌, ◌++◌, arith, length,
  get_elem?, take, drop, All, take-append, drop-append, length-append,
}
use latch_playground.Bytes.Hex.{IsByte, to_hex}
use latch_playground.Bytes.Digits.{
  be_value, be_bytes, big_int, big_int-to_hex, from_hex-pad_start, be_value-be_bytes,
  length-be_bytes,
}
use latch_playground.Der.{curve_order, der_integer, low_s, padded, padded_low, der_to_compact}

get_elem?-after :
    (pre : List ℕ) (t l : ℕ) (rest : List ℕ)
    → get_elem? (pre ++ (t ∷ l ∷ rest)) (length pre + 1) ≡ some l
get_elem?-after [] t l rest = refl
get_elem?-after (x ∷ pre) t l rest =
    let e : suc (length pre) + 1 ≡ suc (length pre + 1) = omega arith in
    rw e (get_elem?-after pre t l rest)

drop-after :
    (pre : List ℕ) (t l : ℕ) (rest : List ℕ) → drop (length pre + 2) (pre ++ (t ∷ l ∷ rest)) ≡ rest
drop-after [] t l rest = refl
drop-after (x ∷ pre) t l rest =
    let e : suc (length pre) + 2 ≡ suc (length pre + 2) = omega arith in
    rw e (drop-after pre t l rest)

-- The value that stands behind a tag and its length, wherever it stands.
pub der_integer_lem :
    (pre v rest : List ℕ) (t : ℕ)
    → der_integer (pre ++ (t ∷ length v ∷ (v ++ rest))) (length pre)
      ≡ some (v, length pre + 2 + length v)
unfolding der_integer
der_integer_lem pre v rest t =
    let e : length pre + 2 + length v - (length pre + 2) ≡ length v = omega arith in
    rw (
      get_elem?-after pre t (length v) (v ++ rest),
      der_integer,
      e,
      drop-after pre t (length v) (v ++ rest),
      take-append v rest,
    )

-- `tag len 0x02 rLen r 0x02 sLen s`, with anything behind it.
abbrev pub der_signature : ℕ → ℕ → ℕ → List ℕ → ℕ → List ℕ → List ℕ → List ℕ
der_signature tag len t r u s rest = tag ∷ len ∷ t ∷ length r ∷ (r ++ (u ∷ length s ∷ (s ++ rest)))

-- A big-endian number of one byte or more that fits 32 bytes.
pub record IsWord (v : List ℕ) : Type 0 where
  pub bytes : All IsByte v
  pub some_byte : 0 < length v
  pub fits : be_value 0 v < 2 ^ 256

big_int_of_word : (v : List ℕ) → IsWord v → big_int (to_hex v) ≡ some (be_value 0 v)
big_int_of_word [] w = absurd (omega (arith, w.some_byte))
big_int_of_word (b ∷ v) w = big_int-to_hex b v w.bytes

padded_lem : (n : ℕ) → n < 2 ^ 256 → padded n ≡ be_bytes 32 n
unfolding padded
padded_lem n h = from_hex-pad_start 31 n h

low_s_bounds :
    (s : ℕ)
    → s < curve_order
    → (low_s s ≤ curve_order / 2) × ((low_s s ≡ s) ⊎ (low_s s + s ≡ curve_order))
unfolding low_s
low_s_bounds s h = ground arith

low_s-lt : (s : ℕ) → s < 2 ^ 256 → low_s s < 2 ^ 256
unfolding low_s
low_s-lt s h = ground arith

padded_low_lem : (s : ℕ) → s < curve_order → padded_low s ≡ padded (low_s s)
unfolding padded_low
padded_low_lem s h = ground arith

pub der_to_compact_lem :
    (tag len t u : ℕ) (r s rest : List ℕ)
    → IsWord r
    → IsWord s
    → be_value 0 s < curve_order
    → der_to_compact (der_signature tag len t r u s rest)
      ≡ some (be_bytes 32 (be_value 0 r) ++ be_bytes 32 (low_s (be_value 0 s)))
unfolding der_to_compact
der_to_compact_lem tag len t u r s rest hr hs h =
    let e : 4 + length r ≡ suc (suc (suc (suc (length r)))) = omega arith in
    let second = der_integer_lem (tag ∷ len ∷ t ∷ length r ∷ r) s rest u in
    rw (
      der_integer_lem (tag ∷ len ∷ []) r (u ∷ length s ∷ (s ++ rest)) t,
      e,
      second,
      big_int_of_word r hr,
      big_int_of_word s hs,
      padded_lem (be_value 0 r) hr.fits,
      padded_low_lem (be_value 0 s) h,
      padded_lem (low_s (be_value 0 s)) (low_s-lt (be_value 0 s) hs.fits),
    )

take_word : (n : ℕ) (rest : List ℕ) → take 32 (be_bytes 32 n ++ rest) ≡ be_bytes 32 n
take_word n rest = rw length-be_bytes at (take-append (be_bytes 32 n) rest)

drop_word : (n : ℕ) (rest : List ℕ) → drop 32 (be_bytes 32 n ++ rest) ≡ rest
drop_word n rest = rw length-be_bytes at (drop-append (be_bytes 32 n) rest)

-- Every DER signature with values `r` and `s` of one byte or more, `r` below 2 ^ 256 and `s` below
-- the curve's order, has a compact form of 64 bytes, whatever bytes follow it. Its first 32 bytes
-- stand for `r`. Its last 32 stand for a value of at most half the order, which is `s` or the
-- order minus `s`.
pub der_to_compact_low :
    (tag len t u : ℕ) (r s rest : List ℕ)
    → IsWord r
    → IsWord s
    → be_value 0 s < curve_order
    → (c : List ℕ) × (der_to_compact (der_signature tag len t r u s rest) ≡ some c)
      × (length c ≡ 64)
      × (be_value 0 (take 32 c) ≡ be_value 0 r)
      × (be_value 0 (drop 32 c) ≤ curve_order / 2)
      × ((be_value 0 (drop 32 c) ≡ be_value 0 s)
          ⊎ (be_value 0 (drop 32 c) + be_value 0 s ≡ curve_order))
der_to_compact_low tag len t u r s rest hr hs h =
    let x = be_bytes 32 (be_value 0 r) in
    let y = be_bytes 32 (low_s (be_value 0 s)) in
    let l = low_s_bounds (be_value 0 s) h in
    let n : length (x ++ y) ≡ 64 = omega (
      arith,
      length-append x y,
      length-be_bytes 32 (be_value 0 r),
      length-be_bytes 32 (low_s (be_value 0 s)),
    ) in
    let vx = be_value-be_bytes 32 (be_value 0 r) hr.fits in
    let vy = be_value-be_bytes 32 (low_s (be_value 0 s)) (low_s-lt (be_value 0 s) hs.fits) in
    (
      x ++ y,
      der_to_compact_lem tag len t u r s rest hr hs h,
      n,
      rw take_word vx,
      rw (drop_word, vy) l.0,
      rw (drop_word, vy) l.1,
    )
