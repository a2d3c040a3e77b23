-- ===== src/Flow.antt =====
-- Requests that follow each other: what app/api/transaction/build answers, signed by a wallet, is what
-- app/api/transaction/submit takes, and so for build-delegated and submit-delegated.
use latch_playground.Common.{ℕ, Bool, true, Option, none, some, List, ◌++◌, [], ◌∷◌, ◌≡◌, refl}
use latch_playground.Text.{Text, is_given}
use latch_playground.Chain.{BaseTx, Tx, given_text}
use latch_playground.Build.{Built}
use latch_playground.Submit.Phantom.{PhantomBody, expected_prefix}
use latch_playground.BuildDelegated.{DelegatedBuilt}
use latch_playground.Submit.Delegated.{DelegatedBody}
pub mod Phantom
pub mod Delegated

-- What is read of the text of a transaction.
abbrev pub base_of : Tx → BaseTx
base_of tx = record {
  source = tx.source;
  sequence = tx.sequence;
  fee = tx.fee;
  op_source = tx.operation.source;
  func = tx.operation.func;
  is_v1 = true;
  soroban_data = tx.soroban_data;
}

-- The body that the client makes of an answer, with the signature of the message under a key.
abbrev pub phantom_body : Built → (signature public_key : Text) → PhantomBody
phantom_body b signature public_key = record {
  tx_xdr = some b.tx_xdr;
  auth_entry_xdr = some b.auth_entry_xdr;
  auth_signature_hex = some signature;
  prefixed_message = some (expected_prefix ++ b.auth_digest_hex);
  public_key_hex = some public_key;
}

-- The body that the client makes of an answer for a delegated signer.
abbrev pub delegated_body : DelegatedBuilt → (signature signer : Text) → DelegatedBody
delegated_body b signature signer = record {
  tx_xdr = some b.tx_xdr;
  smart_account_auth_entry_xdr = some b.smart_account_auth_entry_xdr;
  g_address_entry_template_xdr = some b.g_address_entry_template_xdr;
  signed_auth_entry_base64 = some signature;
  signer_address = some signer;
}

pub given_text-some : (s : Text) → is_given s ≡ true → given_text (some s) ≡ some s
given_text-some [] h = cc
given_text-some (c ∷ s) h = refl
