-- ===== src/Submit/Webauthn.antt =====
-- app/api/transaction/submit-webauthn/route.ts. The members of the body are taken to be of the types
-- that the route's comment gives.
use latch_playground.Common.{ℕ, Option, none, some, List, [], ◌∷◌}
use latch_playground.Text.{Text}
use latch_playground.Bytes.Hex.{from_hex}
use latch_playground.Effects.{Response, Route, ◌>>=◌, ◌>>◌, catch_500, attempt, or_fail}
use latch_playground.Chain.{Sdk, ChainConfig, given_text, passphrase_of, BaseTx, AuthEntry, Tx}
use latch_playground.Server.{Event, Services}
use latch_playground.Submit.{simulate, send, Submitted}
use latch_playground.Requests.{JsonBody, json_body}
use latch_playground.Entries.{auth_payload, set_signature}

pub record SubmitBody : Type 0 where
  pub tx_xdr : Option Text
  pub auth_entry_xdr : Option Text
  pub sig_data_xdr : Option Text
  pub key_data_hex : Option Text
  pub context_rule_id : Option ℕ

abbrev pub rule_id_of : Option ℕ → ℕ
rule_id_of none = 0
rule_id_of (some n) = n

-- The transaction with the one signed entry; the sequence number is the original's again.
unfoldable pub with_auth : BaseTx → AuthEntry → Tx
with_auth tx entry = record {
  source = tx.source;
  sequence = tx.sequence;
  fee = 100000;
  timeout = some 300;
  soroban_data = none;
  operation = record { source = none; func = tx.func; auth = entry ∷ [] };
}

module _ (sdk : Sdk) (config : ChainConfig) (s : Services) where
  unfoldable pub submit_webauthn : JsonBody SubmitBody → Route Event Submitted Submitted
  submit_webauthn json = do
    secret ← or_fail 500 "BUNDLER_SECRET is not set." (given_text config.bundler_secret)
    verifier ←
        or_fail 500 "NEXT_PUBLIC_WEBAUTHN_VERIFIER_ADDRESS is not set."
          (given_text config.webauthn_verifier_address)
    body ← json_body json
    tx_xdr ← or_fail 400 "Missing required parameters." (given_text body.tx_xdr)
    entry_xdr ← or_fail 400 "Missing required parameters." (given_text body.auth_entry_xdr)
    sig_data ← or_fail 400 "Missing required parameters." (given_text body.sig_data_xdr)
    key_data ← or_fail 400 "Missing required parameters." (given_text body.key_data_hex)
    tx ← attempt (sdk.parse_transaction tx_xdr (passphrase_of sdk config))
    parsed ← attempt (sdk.parse_auth_entry entry_xdr)
    attempt (sdk.check_address verifier)
    entry ← attempt (
        set_signature parsed (
          auth_payload verifier (from_hex key_data) (from_hex sig_data)
            (rule_id_of body.context_rule_id ∷ [])))
    p ← simulate s (with_auth tx entry)
    _ ← attempt (sdk.public_key_of secret)
    send s "Transaction submission failed" (with_auth tx entry) p secret

  abbrev pub submit_webauthn_post :
      JsonBody SubmitBody → List Event → Response Submitted × List Event
  submit_webauthn_post json = catch_500 (submit_webauthn json)
