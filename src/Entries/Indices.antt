-- ===== src/Entries/Indices.antt =====
-- The entries of a built transaction by their index: the loop over the entries of
-- app/api/transaction/build/route.ts, and what is signed of the delegated ones.
use latch_playground.Common.{ℕ, zero, suc, Option, none, some, List, [], ◌∷◌, String}
use latch_playground.Common.Result.{Result, ok, err, ◌>>=◌}
use latch_playground.Text.{Text}
use latch_playground.Chain.{AuthEntry, Sdk}
use latch_playground.Entries.{hash_payload, Role, smart_account_custom, delegated_native, classify}
pub mod First

-- The indices of the entries with a role, from `i` on.
abbrev pub indexed : Role → ℕ → List ℕ → List ℕ
indexed delegated_native i rest = i ∷ rest
indexed _ i rest = rest

unfoldable pub delegated_indices :
    (account : Text) → (signer : Option Text) → ℕ → List AuthEntry → List ℕ
delegated_indices account signer i [] = []
delegated_indices account signer i (e ∷ es) =
    indexed (classify e account signer) i (delegated_indices account signer (suc i) es)

abbrev pub first_of : Role → ℕ → AuthEntry → Option (ℕ × AuthEntry) → Option (ℕ × AuthEntry)
first_of smart_account_custom i e rest = some (i, e)
first_of _ i e rest = rest

-- The first entry of the smart account, with its index.
unfoldable pub account_entry :
    (account : Text) → (signer : Option Text) → ℕ → List AuthEntry → Option (ℕ × AuthEntry)
account_entry account signer i [] = none
account_entry account signer i (e ∷ es) =
    first_of (classify e account signer) i e (account_entry account signer (suc i) es)

-- `hashSorobanAuthPayload(entries[index])`, in base64, for each index.
abbrev pub entry_at : List AuthEntry → ℕ → Result String AuthEntry
entry_at [] i = err "Cannot read properties of undefined"
entry_at (e ∷ es) zero = ok e
entry_at (e ∷ es) (suc i) = entry_at es i

unfoldable pub blob_payloads :
    Sdk → (passphrase : Text) → List AuthEntry → List ℕ → Result String (List Text)
blob_payloads sdk passphrase entries [] = ok []
blob_payloads sdk passphrase entries (i ∷ is) = do
  e ← entry_at entries i
  payload ← hash_payload sdk e passphrase
  rest ← blob_payloads sdk passphrase entries is
  ok (sdk.encode_base64 payload ∷ rest)
