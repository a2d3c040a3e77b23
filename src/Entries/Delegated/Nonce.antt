-- ===== src/Entries/Delegated/Nonce.antt =====
-- The nonces of lib/delegated-native-auth-entry.ts.
use latch_playground.Common.{
  ℕ, ℤ, pos, negsuc, ◌+◌, ◌*◌, ◌^◌, ◌<◌, ◌≡◌, ap, arith, List, [], ◌∷◌, All, ltb, Bool-cases, inl,
  inr, ltb→lt,
}
use latch_playground.Bytes.Hex.{IsByte}
use latch_playground.Entries.Delegated.{shift_in, nonce_bits, to_int32, nonce_of}

-- The integer is from -2 ^ 31 to 2 ^ 31 - 1.
abbrev pub IsInt32 : ℤ → Type 0
IsInt32 (pos n) = n < 2 ^ 31
IsInt32 (negsuc n) = n < 2 ^ 31

to_int32-IsInt32 : (n : ℕ) → n < 2 ^ 32 → IsInt32 (to_int32 n)
unfolding to_int32
to_int32-IsInt32 n h = elim (Bool-cases (ltb n (2 ^ 31))) [
  | inl small ↦ rw small (ltb→lt n 2147483648 small)
  | inr large ↦ rw large (ground arith)
]

-- The nonce of a key is made of its third to sixth byte only: the shifts of 32-bit integers drop the
-- first two. So it is one of 2 ^ 32 integers, half of which are negative.
pub nonce_of_lem :
    (b₀ b₁ b₂ b₃ b₄ b₅ : ℕ) (rest : List ℕ)
    → All IsByte (b₀ ∷ b₁ ∷ b₂ ∷ b₃ ∷ b₄ ∷ b₅ ∷ [])
    → (nonce_of (b₀ ∷ b₁ ∷ b₂ ∷ b₃ ∷ b₄ ∷ b₅ ∷ rest)
        ≡ to_int32 (b₂ * 2 ^ 24 + b₃ * 2 ^ 16 + b₄ * 2 ^ 8 + b₅))
      × IsInt32 (nonce_of (b₀ ∷ b₁ ∷ b₂ ∷ b₃ ∷ b₄ ∷ b₅ ∷ rest))
unfolding nonce_of nonce_bits
nonce_of_lem b₀ b₁ b₂ b₃ b₄ b₅ rest h =
    let h₀ : b₀ < 256 = h.0 in
    let h₁ : b₁ < 256 = h.1.0 in
    let h₂ : b₂ < 256 = h.1.1.0 in
    let h₃ : b₃ < 256 = h.1.1.1.0 in
    let h₄ : b₄ < 256 = h.1.1.1.1.0 in
    let h₅ : b₅ < 256 = h.1.1.1.1.1.0 in
    let bits =
      shift_in (shift_in (shift_in (shift_in (shift_in (shift_in 0 b₀) b₁) b₂) b₃) b₄) b₅ in
    let e : bits ≡ b₂ * 2 ^ 24 + b₃ * 2 ^ 16 + b₄ * 2 ^ 8 + b₅ = unfold shift_in in omega arith in
    (ap to_int32 e, to_int32-IsInt32 bits (omega (arith, e)))
