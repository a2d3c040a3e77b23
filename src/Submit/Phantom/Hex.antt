-- ===== src/Submit/Phantom/Hex.antt =====
-- The hexadecimal texts that app/api/transaction/submit takes.
use latch_playground.Common.{
  ℕ, zero, suc, ◌*◌, ◌/◌, ◌%◌, ◌<◌, ◌≡◌, refl, ap, arith, Bool, true, ◌&&◌, ◌||◌, leb, List, [],
  ◌∷◌, ◌==◌, length, all, All, some, and_split, ==_iff, Bool-cases, inl, inr, ◌-◌,
}
use latch_playground.Text.{Text}
use latch_playground.Bytes.Hex.{IsByte, hex_digit, hex_value?, to_hex, from_hex, length-to_hex}
use latch_playground.Submit.Phantom.{is_lower_hex}

abbrev is_lower : ℕ → Bool
is_lower c = (leb 48 c && leb c 57) || (leb 97 c && leb c 102)

hex_digit_lower : (n : ℕ) → n < 16 → is_lower (hex_digit n) ≡ true
unfolding hex_digit
hex_digit_lower n h = ground arith

to_hex_lower : (bs : List ℕ) → All IsByte bs → all is_lower (to_hex bs) ≡ true
unfolding to_hex
to_hex_lower [] h = refl
to_hex_lower (b ∷ bs) h =
    let below : b < 256 = h.0 in
    rw (hex_digit_lower (b / 16) (omega (arith, below)), hex_digit_lower (b % 16) (omega arith))
      (to_hex_lower bs h.1)

-- The text of `n` bytes is `2 * n` digits in lower case.
pub is_lower_hex-to_hex :
    (n : ℕ) (bs : List ℕ) → length bs ≡ n → All IsByte bs → is_lower_hex (2 * n) (to_hex bs) ≡ true
unfolding is_lower_hex
is_lower_hex-to_hex n bs l h = ground (arith, length-to_hex bs, to_hex_lower bs h)

value_of_lower : (c : ℕ) → is_lower c ≡ true → (v : ℕ) × (hex_value? c ≡ some v)
unfolding hex_value?
value_of_lower c h = elim (Bool-cases (leb 48 c && leb c 57)) [
  | inl d ↦ (c - 48, rw d refl)
  | inr d ↦ let l : (leb 97 c && leb c 102) ≡ true = rw d at h in (c - 87, rw (d, l) refl)
]

length-from_hex_lower :
    (n : ℕ) (s : Text) → length s ≡ 2 * n → all is_lower s ≡ true → length (from_hex s) ≡ n
unfolding from_hex
length-from_hex_lower zero [] l h = refl
length-from_hex_lower zero (c ∷ s) l h = absurd (omega (arith, l))
length-from_hex_lower (suc n) [] l h = absurd (omega (arith, l))
length-from_hex_lower (suc n) (c ∷ []) l h = absurd (omega (arith, l))
length-from_hex_lower (suc n) (c ∷ d ∷ s) l h =
    let first = and_split (is_lower c) _ h in
    let second = and_split (is_lower d) _ first.1 in
    rw ((value_of_lower c first.0).1, (value_of_lower d second.0).1)
      (ap suc (length-from_hex_lower n s (omega (arith, l)) second.1))

-- A text of `2 * n` digits in lower case is read as `n` bytes.
pub length-from_hex :
    (n : ℕ) (s : Text) → is_lower_hex (2 * n) s ≡ true → (length (from_hex s) == n) ≡ true
unfolding is_lower_hex
length-from_hex n s h =
    let both = and_split (length s == 2 * n) _ h in
    let l = length-from_hex_lower n s ((==_iff (length s) (2 * n)).0 both.0) both.1 in
    ground (arith, l)
