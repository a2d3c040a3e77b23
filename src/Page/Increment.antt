-- ===== src/Page/Increment.antt =====
-- app/smart-accounts/page.tsx: the handler that increments the counter through the smart account.
use latch_playground.Common.{Option, none, some, ◌++◌, String, if◌then◌else◌}
use latch_playground.Text.{Text, to_lower}
use latch_playground.Bytes.Hex.{to_hex}
use latch_playground.Effects.{◌>>=◌, ◌>>◌, give, throw, handle}
use latch_playground.Chain.{Sdk, given_text}
use latch_playground.Build.{Built}
use latch_playground.Submit.{Submitted}
use latch_playground.Submit.Webauthn.{SubmitBody}
use latch_playground.Submit.Delegated.{DelegatedBody}
use latch_playground.Submit.Phantom.{PhantomBody, expected_prefix}
use latch_playground.Page.{
  phantom, freighter, lobstr, WalletConnection, ActiveMode, passkey_mode, TxState, PasskeySession,
  Page, build_transaction, build_delegated, sign_auth_entry, sign_message, submit_webauthn,
  submit_delegated, submit_phantom, PhantomReply, taken, mismatched, Browser, Task, get_page,
  update, ask, accept,
}
use latch_playground.Page.Setup.{fetch_counter}
use latch_playground.Page.Signing.{encode_webauthn_sig_data, passkey_digest, sign_with_passkey}

abbrev pub set_tx_state : TxState → Task Unit
set_tx_state state = update (λ p. record p { tx_state = state })

abbrev pub tx_failed : String → Task Unit
tx_failed m = update (λ p. record p { tx_error = some m; tx_state = TxState.error })

abbrev pub building_page : Page → Page
building_page p = record p { tx_state = TxState.building; tx_error = none; tx_hash = none }

abbrev pub signing_error : Option String → String
signing_error none = "Freighter signing failed"
signing_error (some m) = m

-- The signature of Freighter's answer.
abbrev pub signed_entry : Option (Option String) → Option Text → Task Text
signed_entry (some m) signed = throw (signing_error m)
signed_entry none none = throw "Freighter returned no signed auth entry"
signed_entry none (some signed) = give signed

-- Which signer the handler takes.
pub data Signer : Type 0 where
  by_passkey : PasskeySession → Signer
  by_freighter by_phantom : WalletConnection → Signer
  by_none : Signer

abbrev pub wallet_signer : Option WalletConnection → Signer
wallet_signer none = by_none
wallet_signer (some w) = elim w.wallet_type [
  | freighter ↦ by_freighter w
  | phantom ↦ by_phantom w
  | lobstr ↦ by_phantom w
]

abbrev pub signer_in : Option ActiveMode → Option PasskeySession → Option WalletConnection → Signer
signer_in (some passkey_mode) (some session) wallet = by_passkey session
signer_in _ _ wallet = wallet_signer wallet

abbrev pub phantom_accepted : PhantomReply → Task Submitted
phantom_accepted (taken s) = give s
phantom_accepted (mismatched none h) = throw "Submit failed."
phantom_accepted (mismatched (some e) h) = throw e

module _ (sdk : Sdk) (hostname : Text) (b : Browser) where
  abbrev pub finished : Submitted → Task Unit
  finished s = do
    update (λ p. record p { tx_hash = some s.hash; tx_state = TxState.success })
    fetch_counter b

  abbrev pub increment_by_passkey : PasskeySession → (address : Text) → Task Unit
  increment_by_passkey session address = do
    reply ← ask (λ log. b.build_transaction log address) (build_transaction address)
    built ← accept "Build failed." reply
    digest ← passkey_digest sdk built
    set_tx_state TxState.signing
    signature ← sign_with_passkey hostname b session.credential_id digest
    set_tx_state TxState.submitting
    let body : SubmitBody = record {
      tx_xdr = some built.tx_xdr;
      auth_entry_xdr = some built.auth_entry_xdr;
      sig_data_xdr = some (to_hex (encode_webauthn_sig_data sdk signature));
      key_data_hex = some session.key_data_hex;
      context_rule_id = some 0;
    }
    answer ← ask (λ log. b.submit_webauthn log body) (submit_webauthn body)
    submitted ← accept "Submit failed." answer
    finished submitted

  abbrev pub increment_by_freighter : WalletConnection → (address : Text) → Task Unit
  increment_by_freighter w address = do
    reply ←
        ask (λ log. b.build_delegated log address w.g_address) (build_delegated address w.g_address)
    built ← accept "Build failed." reply
    set_tx_state TxState.signing
    let preimage = built.g_address_preimage_xdr
    result ← ask (λ log. b.sign_auth_entry log preimage) (sign_auth_entry preimage)
    signed ← signed_entry result.error (given_text result.signed_auth_entry)
    set_tx_state TxState.submitting
    let body : DelegatedBody = record {
      tx_xdr = some built.tx_xdr;
      smart_account_auth_entry_xdr = some built.smart_account_auth_entry_xdr;
      g_address_entry_template_xdr = some built.g_address_entry_template_xdr;
      signed_auth_entry_base64 = some signed;
      signer_address = some result.signer_address;
    }
    answer ← ask (λ log. b.submit_delegated log body) (submit_delegated body)
    submitted ← accept "Submit failed." answer
    finished submitted

  abbrev pub provider_there : Task Unit
  provider_there log = (if b.has_phantom log then give tt else throw "Phantom not found.") log

  -- `signPrefixed` and `submitOnce`, one after the other.
  unfoldable pub sign_and_submit :
      (public_key_hex : Text) → Built → (hash_hex : Text) → Task PhantomReply
  sign_and_submit public_key_hex built hash_hex = do
    set_tx_state TxState.signing
    let message = expected_prefix ++ to_lower hash_hex
    provider_there
    signature ← ask (λ log. b.sign_message log message) (sign_message message)
    set_tx_state TxState.submitting
    let body : PhantomBody = record {
      tx_xdr = some built.tx_xdr;
      auth_entry_xdr = some built.auth_entry_xdr;
      auth_signature_hex = some (to_hex signature);
      prefixed_message = some message;
      public_key_hex = some public_key_hex;
    }
    ask (λ log. b.submit_phantom log body) (submit_phantom body)

  abbrev pub again_with :
      (public_key_hex : Text) → Built → PhantomReply → Option Text → Task PhantomReply
  again_with public_key_hex built first none = give first
  again_with public_key_hex built first (some h) = sign_and_submit public_key_hex built h

  -- Once more with the hash that the verifier expects.
  abbrev pub retried : (public_key_hex : Text) → Built → PhantomReply → Task PhantomReply
  retried public_key_hex built (taken s) = give (taken s)
  retried public_key_hex built (mismatched e h) =
      again_with public_key_hex built (mismatched e h) (given_text h)

  abbrev pub increment_by_phantom : WalletConnection → (address : Text) → Task Unit
  increment_by_phantom w address = do
    reply ← ask (λ log. b.build_transaction log address) (build_transaction address)
    built ← accept "Build failed." reply
    first ← sign_and_submit w.public_key_hex built built.auth_digest_hex
    last ← retried w.public_key_hex built first
    submitted ← phantom_accepted last
    finished submitted

  abbrev pub increment_by : Signer → (address : Text) → Task Unit
  increment_by (by_passkey session) address = increment_by_passkey session address
  increment_by (by_freighter w) address = increment_by_freighter w address
  increment_by (by_phantom w) address = increment_by_phantom w address
  increment_by by_none address = give tt

  abbrev pub increment_from : Page → Option Text → Task Unit
  increment_from p none = give tt
  increment_from p (some address) = do
    update building_page
    handle tx_failed (increment_by (signer_in p.active_mode p.passkey_session p.wallet) address)

  -- `handleIncrement`
  unfoldable pub handle_increment : Task Unit
  handle_increment = do p ← get_page; increment_from p (given_text p.smart_account_addr)
