-- ===== src/Submit/Delegated.antt =====
-- app/api/transaction/submit-delegated/route.ts. The members of the body are taken to be strings.
use latch_playground.Common.{Option, none, List, [], ◌∷◌, String, if◌then◌else◌, ◌==◌, length}
use latch_playground.Common.Result.{Result, ok, err}
use latch_playground.Text.{Text}
use latch_playground.Effects.{Response, Route, ◌>>=◌, ◌>>◌, catch_500, unless, attempt, or_fail}
use latch_playground.Chain.{Sdk, ChainConfig, given_text, passphrase_of, BaseTx, AuthEntry, Tx}
use latch_playground.Server.{Event, Services}
use latch_playground.Submit.{simulate, send, Submitted}
use latch_playground.Requests.{JsonBody, json_body}
use latch_playground.Entries.{account_signature, set_signature}

pub record DelegatedBody : Type 0 where
  pub tx_xdr : Option Text
  pub smart_account_auth_entry_xdr : Option Text
  pub g_address_entry_template_xdr : Option Text
  pub signed_auth_entry_base64 : Option Text
  pub signer_address : Option Text

-- The transaction, cloned with both entries.
unfoldable pub with_entries : BaseTx → Option Text → List AuthEntry → Tx
with_entries tx soroban_data entries = record {
  source = tx.source;
  sequence = tx.sequence;
  fee = tx.fee;
  timeout = none;
  soroban_data = soroban_data;
  operation = record { source = tx.op_source; func = tx.func; auth = entries };
}

-- `toEnvelope().v1()`
abbrev pub v1_of : BaseTx → Result String Unit
v1_of tx = if tx.is_v1 then ok tt else err "v1 not set"

abbrev missing_fields : String
missing_fields =
    "Missing required fields: txXdr, smartAccountAuthEntryXdr, gAddressEntryTemplateXdr, signedAuthEntryBase64, signerAddress"

module _ (sdk : Sdk) (config : ChainConfig) (s : Services) where
  unfoldable pub submit_delegated : JsonBody DelegatedBody → Route Event Submitted Submitted
  submit_delegated json = do
    secret ← or_fail 500 "BUNDLER_SECRET is not set." (given_text config.bundler_secret)
    body ← json_body json
    tx_xdr ← or_fail 400 missing_fields (given_text body.tx_xdr)
    account_xdr ← or_fail 400 missing_fields (given_text body.smart_account_auth_entry_xdr)
    template_xdr ← or_fail 400 missing_fields (given_text body.g_address_entry_template_xdr)
    signature ← or_fail 400 missing_fields (given_text body.signed_auth_entry_base64)
    signer ← or_fail 400 missing_fields (given_text body.signer_address)
    tx ← attempt (sdk.parse_transaction tx_xdr (passphrase_of sdk config))
    account ← attempt (sdk.parse_auth_entry account_xdr)
    unless (length (sdk.decode_base64 signature) == 64) 400
        "Expected 64-byte signature from Freighter"
    public_key ← attempt (sdk.decode_public_key signer)
    template ← attempt (sdk.parse_auth_entry template_xdr)
    entry ←
        attempt
          (set_signature template (account_signature public_key (sdk.decode_base64 signature)))
    attempt (v1_of tx)
    p ← simulate s (with_entries tx tx.soroban_data (account ∷ entry ∷ []))
    _ ← attempt (sdk.public_key_of secret)
    send s "Submission failed" (with_entries tx tx.soroban_data (account ∷ entry ∷ [])) p secret

  abbrev pub submit_delegated_post :
      JsonBody DelegatedBody → List Event → Response Submitted × List Event
  submit_delegated_post json = catch_500 (submit_delegated json)
