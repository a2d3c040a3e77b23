-- ===== src/Der.antt =====
-- `derToCompact` of lib/webauthn.ts: the 64-byte form of a DER signature, with the lower of the two
-- values that `s` may have. `none` is the `SyntaxError` of `BigInt("0x")`.
use latch_playground.Common.{
  ℕ, suc, ◌+◌, ◌-◌, ◌/◌, Bool, Option, none, some, List, [], ◌∷◌, ◌++◌, ltb, if◌then◌else◌,
  get_elem?, take, drop,
}
use latch_playground.Bytes.Hex.{to_hex, from_hex}
use latch_playground.Bytes.Digits.{big_int, hex_text, pad_start}
pub mod LowS

-- secp256r1 curve order
abbrev pub curve_order : ℕ
curve_order = 0xffffffff00000000ffffffffffffffffbce6faada7179e84f3b9cac2fc632551

-- `buf.slice(from, to)`, both ends clamped to the buffer.
abbrev pub slice : ℕ → ℕ → List ℕ → List ℕ
slice from to buf = take (to - from) (drop from buf)

-- The tag, length and value at `offset`. A length that lies outside the buffer is `undefined`, so
-- that the slice's end is `NaN` and the slice is empty.
unfoldable pub der_integer : List ℕ → ℕ → Option (List ℕ × ℕ)
der_integer der offset = elim (get_elem? der (offset + 1)) [
  | none ↦ none
  | some len ↦ some (slice (offset + 2) (offset + 2 + len) der, offset + 2 + len)
]

infixl 5 ◌>>=◌
abbrev pub ◌>>=◌ {ℓ κ} : {A : Type ℓ} {B : Type κ} → Option A → (A → Option B) → Option B
none >>= k = none
some a >>= k = k a

-- Of a value up to the order.
unfoldable pub low_s : ℕ → ℕ
low_s s = if ltb (curve_order / 2) s then curve_order - s else s

-- `Buffer.from(n.toString(16).padStart(64, "0"), "hex")`
unfoldable pub padded : ℕ → List ℕ
padded n = from_hex (pad_start 64 b'0' (hex_text n))

-- The same of the lower value of `s`; above the order the BigInt is negative, with a sign in its text.
unfoldable pub padded_low : ℕ → List ℕ
padded_low s =
    if ltb curve_order s
    then from_hex (pad_start 64 b'0' (b'-' ∷ hex_text (s - curve_order)))
    else padded (low_s s)

unfoldable pub der_to_compact : List ℕ → Option (List ℕ)
der_to_compact der = do
  (r, offset) ← der_integer der 2
  (s, _) ← der_integer der offset
  r_big ← big_int (to_hex r)
  s_big ← big_int (to_hex s)
  some (padded r_big ++ padded_low s_big)
