-- ===== src/Page.antt =====
-- app/smart-accounts/page.tsx: the state of the page. The updates between two awaited calls are shown
-- together, as one event; every request is logged. Handlers run one after the other. The answers of
-- the browser and of the routes are those of an environment; the members of a route's answer are of
-- the types that the route gives them, and an answer's error is a message or missing.
use latch_playground.Common.{ℕ, Bool, Option, none, some, List, [], ◌∷◌, String}
use latch_playground.Common.Result.{Result, ok, err}
use latch_playground.Text.{Text}
use latch_playground.Effects.{done, Route, ◌>>=◌, give, throw, call}
use latch_playground.Server.{ListedAccount}
use latch_playground.SmartAccount.{Lookup}
use latch_playground.Submit.{Submitted}
use latch_playground.Submit.Webauthn.{SubmitBody}
use latch_playground.Submit.Delegated.{DelegatedBody}
use latch_playground.Submit.Phantom.{PhantomBody}
use latch_playground.Build.{Built}
use latch_playground.BuildDelegated.{DelegatedBuilt}
pub mod Setup
pub mod Signing
pub mod Increment
pub mod Coherent
pub mod Shown
pub mod Passkeys
pub mod Signers
pub mod Signed
pub mod Settled
pub mod Reached

pub data WalletType : Type 0 where
  phantom freighter lobstr : WalletType

-- `WalletConnectionResult`
pub record WalletConnection : Type 0 where
  pub public_key_hex : Text
  pub g_address : Text
  pub wallet_type : WalletType

pub data SetupState : Type 0 where
  idle connecting connected deploying ready error : SetupState

pub data PasskeyState : Type 0 where
  idle registering deploying ready error : PasskeyState

pub data TxState : Type 0 where
  idle building signing submitting success error : TxState

pub data ActiveMode : Type 0 where
  wallet_mode passkey_mode : ActiveMode

pub record PasskeySession : Type 0 where
  pub credential_id : Text
  pub key_data_hex : Text

-- The state that the page keeps by `useState`.
pub record Page : Type 0 where
  pub setup_state : SetupState
  pub wallet : Option WalletConnection
  pub setup_error : Option String
  pub passkey_state : PasskeyState
  pub passkey_session : Option PasskeySession
  pub passkey_error : Option String
  pub accounts : List ListedAccount
  pub active_account : Option Text
  pub active_mode : Option ActiveMode
  pub smart_account_addr : Option Text
  pub tx_state : TxState
  pub counter_value : Option ℕ
  pub tx_hash : Option Text
  pub tx_error : Option String

abbrev pub initial_page : Page
initial_page = record {
  setup_state = SetupState.idle;
  wallet = none;
  setup_error = none;
  passkey_state = PasskeyState.idle;
  passkey_session = none;
  passkey_error = none;
  accounts = [];
  active_account = none;
  active_mode = none;
  smart_account_addr = none;
  tx_state = TxState.idle;
  counter_value = none;
  tx_hash = none;
  tx_error = none;
}

-- A response of the browser's authenticator, in base64url.
pub record AuthenticatorResponse : Type 0 where
  pub authenticator_data : Text
  pub client_data_json : Text
  pub signature : Text

-- The answer of Freighter's `signAuthEntry`; an error has a message, if not an empty one.
pub record SignResult : Type 0 where
  pub error : Option (Option String)
  pub signed_auth_entry : Option Text
  pub signer_address : Text

pub data PageRequest : Type 0 where
  connect_wallet : WalletType → PageRequest
  look_up_account deploy_account : WalletConnection → PageRequest
  begin_registration begin_authentication list_accounts get_counter : PageRequest
  start_registration start_authentication : (options : Text) → PageRequest
  finish_registration finish_authentication : (response : Text) → PageRequest
  set_active build_transaction : (address : Text) → PageRequest
  build_delegated : (address g_address : Text) → PageRequest
  sign_challenge : (credential_id challenge rp_id : Text) → PageRequest
  sign_auth_entry sign_message : Text → PageRequest
  submit_webauthn : SubmitBody → PageRequest
  submit_delegated : DelegatedBody → PageRequest
  submit_phantom : PhantomBody → PageRequest

-- An update of the page, or a request.
pub data PageEvent : Type 0 where
  updated : (Page → Page) → PageEvent
  asked : PageRequest → PageEvent

-- The page that is shown after a log.
unfoldable pub page_of : List PageEvent → Page
page_of [] = initial_page
page_of (updated f ∷ log) = f (page_of log)
page_of (asked r ∷ log) = page_of log

-- The JSON of a response that is `ok`, or the error of another.
pub data Reply (A : Type 0) : Type 0 where
  good : A → Reply A
  refused : Option String → Reply A

-- The same for the Phantom submission, which may name the hash that the verifier expects.
pub data PhantomReply : Type 0 where
  taken : Submitted → PhantomReply
  mismatched : Option String → (verifier_hash_hex : Option Text) → PhantomReply

-- What a finished registration or authentication answers.
pub record Finished : Type 0 where
  pub credential_id : Text
  pub key_data_hex : Text
  pub smart_account_address : Text
  pub accounts : Option (List ListedAccount)

-- The browser, its wallets, and the server as the page calls it.
pub record Browser : Type 0 where
  pub connect_wallet : List PageEvent → WalletType → Result String WalletConnection
  pub look_up_account : List PageEvent → WalletConnection → Result String (Reply Lookup)
  pub deploy_account : List PageEvent → WalletConnection → Result String (Reply Text)
  pub begin_registration : List PageEvent → Result String (Reply Text)
  pub start_registration : List PageEvent → (options : Text) → Result String Text
  pub finish_registration : List PageEvent → (response : Text) → Result String (Reply Finished)
  pub begin_authentication : List PageEvent → Result String (Reply Text)
  pub start_authentication : List PageEvent → (options : Text) → Result String Text
  pub finish_authentication : List PageEvent → (response : Text) → Result String (Reply Finished)
  pub set_active : List PageEvent → (address : Text) → Result String Unit
  pub list_accounts : List PageEvent → Result String (Reply (Option (List ListedAccount)))
  pub get_counter : List PageEvent → Result String (Reply ℕ)
  pub build_transaction : List PageEvent → (address : Text) → Result String (Reply Built)
  pub build_delegated :
      List PageEvent → (address g_address : Text) → Result String (Reply DelegatedBuilt)
  pub sign_challenge :
      List PageEvent → (credential_id challenge rp_id : Text) → Result String AuthenticatorResponse
  pub sign_auth_entry : List PageEvent → (preimage_xdr : Text) → Result String SignResult
  pub has_phantom : List PageEvent → Bool
  pub sign_message : List PageEvent → (message : Text) → Result String (List ℕ)
  pub submit_webauthn : List PageEvent → SubmitBody → Result String (Reply Submitted)
  pub submit_delegated : List PageEvent → DelegatedBody → Result String (Reply Submitted)
  pub submit_phantom : List PageEvent → PhantomBody → Result String PhantomReply

abbrev pub Task : Type 0 → Type 0
Task A = Route PageEvent Unit A

abbrev pub get_page : Task Page
get_page log = (done (page_of log), log)

abbrev pub update : (Page → Page) → Task Unit
update f log = (done tt, updated f ∷ log)

abbrev pub ask : {A : Type 0} → (List PageEvent → Result String A) → PageRequest → Task A
ask service r = call service (λ answer. asked r)

-- `if (!res.ok) throw new Error(data.error ?? m)`
abbrev pub accept : {A : Type 0} → String → Reply A → Task A
accept m (good a) = give a
accept m (refused none) = throw m
accept m (refused (some e)) = throw e
