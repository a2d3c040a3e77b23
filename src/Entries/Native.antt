-- ===== src/Entries/Native.antt =====
-- lib/native-soroban-address-signature.ts: the signature of a classic account on its entry.
use latch_playground.Common.{Option, none, some, String, ◌==◌, length}
use latch_playground.Common.Result.{Result, ok, err, require, ◌>>=◌, ◌>>◌}
use latch_playground.Text.{Text, lit, starts_with}
use latch_playground.Chain.{AuthEntry, Sdk}
use latch_playground.Entries.{address_string, set_signature, hash_payload, account_signature}

abbrev pub readable : Option Text → Result String Text
readable none = err "Expected sorobanCredentialsAddress on auth entry"
readable (some s) = ok s

-- `applyNativeEd25519ToAddressCredentials`
unfoldable pub apply_native_signature :
    Sdk → AuthEntry → (signature_base64 passphrase : Text) → Result String AuthEntry
apply_native_signature sdk e signature_base64 passphrase = do
  address ← readable (address_string e)
  require (starts_with address (lit "G"))
      "Native Soroban address credentials expected a classic G address"
  let signature = sdk.decode_base64 signature_base64
  require (length signature == 64) "Native Soroban auth signature must be 64 bytes"
  payload ← hash_payload sdk e passphrase
  require (sdk.verify address payload signature)
      "nativeEd25519SignatureBase64 does not verify for this auth entry Soroban payload hash"
  public_key ← sdk.decode_public_key address
  set_signature e (account_signature public_key signature)
