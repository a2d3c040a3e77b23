-- ===== src/Entries/Delegated.antt =====
-- lib/delegated-native-auth-entry.ts: the entry that a delegated signer signs.
use latch_playground.Common.{
  ℕ, ℤ, pos, negsuc, ◌+◌, ◌-◌, ◌*◌, ◌%◌, ◌^◌, List, [], ◌∷◌, if◌then◌else◌, ◌==◌, ltb, length, take,
}
use latch_playground.Text.{Text, lit}
use latch_playground.Effects.{Route, ◌>>=◌, ◌>>◌, give, throw, call, attempt}
use latch_playground.Chain.{
  ScVal, scv_bytes, scv_vec, no_values, value, known, contract_fn, invocation, no_invocations,
  of_address, AuthEntry, Sdk,
}
use latch_playground.Server.{Event, Services, random_raw_key}
pub mod Nonce

-- `(nonce << 8) | byte`, of 32-bit integers by their two's complement: the shift drops the high byte.
unfoldable pub shift_in : ℕ → ℕ → ℕ
shift_in nonce byte = nonce * 256 % 2 ^ 32 + byte

unfoldable pub nonce_bits : ℕ → List ℕ → ℕ
nonce_bits nonce [] = nonce
nonce_bits nonce (byte ∷ bytes) = nonce_bits (shift_in nonce byte) bytes

-- The integer of a 32-bit pattern.
unfoldable pub to_int32 : ℕ → ℤ
to_int32 n = if ltb n (2 ^ 31) then pos n else negsuc (2 ^ 32 - 1 - n)

-- The nonce made of the first 6 bytes of a key.
unfoldable pub nonce_of : (raw_key : List ℕ) → ℤ
nonce_of raw_key = to_int32 (nonce_bits 0 (take 6 raw_key))

abbrev pub check_auth_entry :
    (account signer : Text) → ScVal → ℤ → (expiration : ℕ) → (hash : List ℕ) → AuthEntry
check_auth_entry account signer signature nonce expiration hash = record {
  credentials = of_address (record {
    address = known signer;
    nonce = nonce;
    expiration = expiration;
    signature = signature;
  });
  root =
      invocation
        (contract_fn (known account) (lit "__check_auth") (value (scv_bytes hash) no_values))
        no_invocations;
}

-- `buildUnsignedDelegatedGCheckAuthEntry`
unfoldable pub delegated_entry :
    {R : Type 0}
    → Sdk
    → Services
    → (account signer : Text) → (payload : List ℕ) → (expiration : ℕ) → Route Event R AuthEntry
delegated_entry sdk s account signer payload expiration = do
  (if length payload == 32 then give tt else throw "authPayloadHash must be 32 bytes")
  raw_key ← call s.make_raw_key random_raw_key
  attempt (sdk.check_address account)
  attempt (sdk.check_address signer)
  give (check_auth_entry account signer (scv_vec no_values) (nonce_of raw_key) expiration payload)
