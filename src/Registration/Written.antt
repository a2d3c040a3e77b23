-- ===== src/Registration/Written.antt =====
-- What stands behind an answer of app/api/webauthn/registration/finish.
use latch_playground.Common.{ℕ, ◌≡◌, ltb, true, Option, none, some, List, ◌∷◌, ◌++◌}
use latch_playground.Common.Result.{ok}
use latch_playground.Text.{Text}
use latch_playground.Bytes.Hex.{to_hex}
use latch_playground.Bytes.Base64.{from_base64_url}
use latch_playground.Passkey.{CborValue, cose_to_raw}
use latch_playground.Chain.{Sdk}
use latch_playground.Server.{
  Event, Services, Created, Registration, Owner, CredentialWrite, AccountWrite, random_id,
  upserted_credential, upserted_account, deleted_challenge, found_owner, counted_entries,
}
use latch_playground.Factory.{derive_salt}
use latch_playground.Registration.{Registered, is_own, transports_of}

-- The id of the credential's row, and the log behind it: a new one where there is no row.
abbrev pub IsRowId : Option Owner → Text → List Event → List Event → Type 0
IsRowId none row_id log log' = log' ≡ random_id (ok row_id) ∷ log
IsRowId (some owner) row_id log log' = (row_id ≡ owner.id) × (log' ≡ log)

-- After a log, the trace has the writes of one registration, made at the time `now`, and no other
-- calls.
pub record IsKept (now : ℕ) (challenge_id : Text) (owner : Option Owner)
    (credential : CredentialWrite) (account : AccountWrite) (log trace : List Event) : Type 0 where
  pub row_id : Text
  pub account_id : Text
  pub before : List Event
  pub row : IsRowId owner row_id log before
  pub calls :
      trace
      ≡ deleted_challenge challenge_id (ok tt)
        ∷ upserted_account account_id account now (ok tt)
        ∷ random_id (ok account_id)
        ∷ upserted_credential row_id credential now (ok tt)
        ∷ before

-- What a registration is written as, and answered as. The owner is the one that the database finds for
-- the credential, just before the writes.
pub record IsWritten (sdk : Sdk) (s : Services) (cbor_decode : List ℕ → Option (ℕ → CborValue))
    (user_id : Text) (now : ℕ) (challenge_id : Text) (response : Created) (reg : Registration)
    (r : Registered) (trace : List Event) : Type 0 where
  pub key : List ℕ
  pub owner : Option Owner
  pub earlier : List Event
  pub ledger :
      (n : ℕ) × (rest : List Event) × (earlier
        ≡ counted_entries r.smart_account_address (ok n) ∷ rest)
      × (r.deployed ≡ ltb 0 n)
  pub looked_up : s.find_owner earlier reg.credential_id ≡ ok owner
  pub decoded : cose_to_raw cbor_decode reg.public_key ≡ some key
  pub own : is_own user_id owner ≡ true
  pub credential_id : r.credential_id ≡ reg.credential_id
  pub key_data : r.key_data_hex ≡ to_hex (key ++ from_base64_url reg.credential_id)
  pub salt : r.salt_hex ≡ to_hex (derive_salt sdk r.key_data_hex)
  pub kept :
      IsKept now challenge_id owner
        (record {
          user_id = user_id;
          credential_id = reg.credential_id;
          credential_id_bytes = from_base64_url reg.credential_id;
          cose_public_key = reg.public_key;
          p256_raw_public_key = key;
          sign_count = reg.counter;
          transports = transports_of reg.transports response.transports;
          device_type = reg.device_type;
          backed_up = reg.backed_up;
        })
        (record {
          user_id = user_id;
          credential_id = reg.credential_id;
          key_data_hex = r.key_data_hex;
          salt_hex = r.salt_hex;
          smart_account_address = r.smart_account_address;
          deployed = r.deployed;
        })
        (found_owner reg.credential_id (ok owner) ∷ earlier)
        trace
