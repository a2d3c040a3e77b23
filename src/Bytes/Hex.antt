-- ===== src/Bytes/Hex.antt =====
-- `buf.toString("hex")` and `Buffer.from(text, "hex")`, over character codes. The decoder stops at
-- the first pair that is not two hexadecimal digits, and drops an odd last digit.
use latch_playground.Common.{
  ℕ, ◌+◌, ◌-◌, ◌*◌, ◌/◌, ◌%◌, ◌<◌, ◌≡◌, refl, ◌&&◌, Option, none, some, List, [], ◌∷◌, ◌++◌, arith,
  ltb, leb, if◌then◌else◌, length, All, ap,
}

abbrev pub IsByte : ℕ → Type 0
IsByte b = b < 256

unfoldable pub hex_digit : ℕ → ℕ
hex_digit n = if ltb n 10 then 48 + n else 87 + n

unfoldable pub hex_value? : ℕ → Option ℕ
hex_value? c =
    if leb 48 c && leb c 57
    then some (c - 48)
    else if leb 97 c && leb c 102
    then some (c - 87)
    else if leb 65 c && leb c 70
    then some (c - 55)
    else none

unfoldable pub to_hex : List ℕ → List ℕ
to_hex [] = []
to_hex (b ∷ bs) = hex_digit (b / 16) ∷ hex_digit (b % 16) ∷ to_hex bs

abbrev pair_byte : Option ℕ → Option ℕ → List ℕ → List ℕ
pair_byte (some h) (some l) rest = (h * 16 + l) ∷ rest
pair_byte _ _ rest = []

unfoldable pub from_hex : List ℕ → List ℕ
from_hex [] = []
from_hex (c ∷ []) = []
from_hex (c ∷ d ∷ s) = pair_byte (hex_value? c) (hex_value? d) (from_hex s)

pub hex_value?-hex_digit : (n : ℕ) → n < 16 → hex_value? (hex_digit n) ≡ some n
unfolding hex_value? hex_digit
hex_value?-hex_digit n h = ground arith

pub from_hex-cons :
    (b : ℕ) (s : List ℕ)
    → b < 256
    → from_hex (hex_digit (b / 16) ∷ hex_digit (b % 16) ∷ s) ≡ b ∷ from_hex s
unfolding from_hex
from_hex-cons b s h = ground (arith, hex_value?-hex_digit (b / 16), hex_value?-hex_digit (b % 16))

-- Decoding the hexadecimal text of a byte string gives the byte string back.
pub from_hex-to_hex : (bs : List ℕ) → All IsByte bs → from_hex (to_hex bs) ≡ bs
unfolding to_hex
from_hex-to_hex [] h = unfold from_hex in refl
from_hex-to_hex (b ∷ bs) h = ground (arith, from_hex-cons b (to_hex bs) h.0, from_hex-to_hex bs h.1)

pub to_hex-append : (xs ys : List ℕ) → to_hex (xs ++ ys) ≡ to_hex xs ++ to_hex ys
unfolding to_hex
to_hex-append [] ys = refl
to_hex-append (x ∷ xs) ys =
    ap (λ t. hex_digit (x / 16) ∷ hex_digit (x % 16) ∷ t) (to_hex-append xs ys)

pub length-to_hex : (bs : List ℕ) → length (to_hex bs) ≡ 2 * length bs
unfolding to_hex
length-to_hex [] = refl
length-to_hex (b ∷ bs) = omega (arith, length-to_hex bs)
