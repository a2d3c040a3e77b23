-- ===== src/Page/Coherent.antt =====
-- Which states of the page fit together.
use latch_playground.Common.{◌≡◌, refl, Option, none, some, String}
use latch_playground.Text.{Text}
use latch_playground.Page.{
  SetupState, PasskeyState, TxState, ActiveMode, wallet_mode, passkey_mode, WalletConnection,
  PasskeySession, Page, initial_page,
}

abbrev pub Given : {A : Type 0} → Option A → Type 0
Given none = ⊥
Given (some a) = Unit

-- A value that is there only in a mode.
abbrev pub OnlyIn : {A : Type 0} → ActiveMode → Option A → Option ActiveMode → Type 0
OnlyIn m none mode = Unit
OnlyIn m (some a) mode = mode ≡ some m

-- What a state of the wallet's side needs: the mode, the wallet, the account or the error.
abbrev pub SetupFits :
    SetupState → Option ActiveMode → Option WalletConnection → Option Text → Option String → Type 0
SetupFits SetupState.idle mode wallet address error = Unit
SetupFits SetupState.connecting mode wallet address error = mode ≡ some wallet_mode
SetupFits SetupState.connected mode wallet address error = (mode ≡ some wallet_mode) × Given wallet
SetupFits SetupState.deploying mode wallet address error = (mode ≡ some wallet_mode) × Given wallet
SetupFits SetupState.ready mode wallet address error =
    (mode ≡ some wallet_mode) × Given wallet × Given address
SetupFits SetupState.error mode wallet address error = (mode ≡ some wallet_mode) × Given error

-- The same for the passkey's side.
abbrev pub PasskeyFits :
    PasskeyState → Option ActiveMode → Option PasskeySession → Option Text → Option String → Type 0
PasskeyFits PasskeyState.idle mode session address error = Unit
PasskeyFits PasskeyState.registering mode session address error = mode ≡ some passkey_mode
PasskeyFits PasskeyState.deploying mode session address error = mode ≡ some passkey_mode
PasskeyFits PasskeyState.ready mode session address error =
    (mode ≡ some passkey_mode) × Given session × Given address
PasskeyFits PasskeyState.error mode session address error = (mode ≡ some passkey_mode) × Given error

-- A success has its hash, and a failure its error.
abbrev pub TxFits : TxState → Option Text → Option String → Type 0
TxFits TxState.success hash error = Given hash
TxFits TxState.error hash error = Given error
TxFits _ hash error = Unit

pub record IsCoherent (p : Page) : Type 0 where
  pub setup : SetupFits p.setup_state p.active_mode p.wallet p.smart_account_addr p.setup_error
  pub passkey :
      PasskeyFits p.passkey_state p.active_mode p.passkey_session p.smart_account_addr
        p.passkey_error
  pub tx : TxFits p.tx_state p.tx_hash p.tx_error
  pub own_wallet : OnlyIn wallet_mode p.wallet p.active_mode
  pub own_session : OnlyIn passkey_mode p.passkey_session p.active_mode

pub initial_page-IsCoherent : IsCoherent initial_page
initial_page-IsCoherent = record {
  setup = tt;
  passkey = tt;
  tx = tt;
  own_wallet = tt;
  own_session = tt;
}

-- A value of the present mode is in its mode.
pub here-OnlyIn : {A : Type 0} (m : ActiveMode) (o : Option A) → OnlyIn m o (some m)
here-OnlyIn m none = tt
here-OnlyIn m (some a) = refl

pub given-OnlyIn :
    {A : Type 0} (m : ActiveMode) (o : Option A) (mode : Option ActiveMode) {a : A}
    → o ≡ some a
    → OnlyIn m o mode
    → mode ≡ some m
given-OnlyIn m none mode e h = cc
given-OnlyIn m (some a) mode e h = h

-- Another account in place of one that is there, or not needed.
pub address-SetupFits :
    (state : SetupState) (mode : Option ActiveMode) (wallet : Option WalletConnection)
    (old : Option Text) (error : Option String) (new : Text)
    → SetupFits state mode wallet old error
    → SetupFits state mode wallet (some new) error
address-SetupFits SetupState.idle mode wallet old error new h = h
address-SetupFits SetupState.connecting mode wallet old error new h = h
address-SetupFits SetupState.connected mode wallet old error new h = h
address-SetupFits SetupState.deploying mode wallet old error new h = h
address-SetupFits SetupState.ready mode wallet old error new h = (h.0, h.1, tt)
address-SetupFits SetupState.error mode wallet old error new h = h

pub address-PasskeyFits :
    (state : PasskeyState) (mode : Option ActiveMode) (session : Option PasskeySession)
    (old : Option Text) (error : Option String) (new : Text)
    → PasskeyFits state mode session old error
    → PasskeyFits state mode session (some new) error
address-PasskeyFits PasskeyState.idle mode session old error new h = h
address-PasskeyFits PasskeyState.registering mode session old error new h = h
address-PasskeyFits PasskeyState.deploying mode session old error new h = h
address-PasskeyFits PasskeyState.ready mode session old error new h = (h.0, h.1, tt)
address-PasskeyFits PasskeyState.error mode session old error new h = h

pub some-Given : {A : Type 0} (o : Option A) {a : A} → o ≡ some a → Given o
some-Given none e = cc
some-Given (some a) e = tt

-- A session and an account in place of what is there.
pub login-PasskeyFits :
    (state : PasskeyState) (mode : Option ActiveMode) (old : Option PasskeySession)
    (address : Option Text) (error : Option String) (session : PasskeySession) (new : Text)
    → PasskeyFits state mode old address error
    → PasskeyFits state mode (some session) (some new) error
login-PasskeyFits PasskeyState.idle mode old address error session new h = h
login-PasskeyFits PasskeyState.registering mode old address error session new h = h
login-PasskeyFits PasskeyState.deploying mode old address error session new h = h
login-PasskeyFits PasskeyState.ready mode old address error session new h = (h.0, tt, tt)
login-PasskeyFits PasskeyState.error mode old address error session new h = h
