-- ===== src/Page/Signers.antt =====
-- A ready page has a signer.
use latch_playground.Common.{◌≡◌, refl, true, Option, none, some, String}
use latch_playground.Text.{Text}
use latch_playground.Page.{
  WalletType, phantom, freighter, lobstr, WalletConnection, SetupState, PasskeyState, ActiveMode,
  wallet_mode, passkey_mode, PasskeySession,
}
use latch_playground.Page.Setup.{ready_in}
use latch_playground.Page.Increment.{by_none, wallet_signer, signer_in}
use latch_playground.Page.Coherent.{Given, SetupFits, PasskeyFits}

wallet_signer-there :
    (t : WalletType) (w : WalletConnection)
    → w.wallet_type ≡ t
    → wallet_signer (some w) ≡ by_none
    → ⊥
wallet_signer-there phantom w q e = let k = rw q at e in cc
wallet_signer-there freighter w q e = let k = rw q at e in cc
wallet_signer-there lobstr w q e = let k = rw q at e in cc

wallet-there :
    (wallet : Option WalletConnection) → Given wallet → wallet_signer wallet ≡ by_none → ⊥
wallet-there none g e = elim g [ ]
wallet-there (some w) g e = wallet_signer-there w.wallet_type w refl e

session-there :
    (session : Option PasskeySession) (wallet : Option WalletConnection)
    → Given session
    → signer_in (some passkey_mode) session wallet ≡ by_none
    → ⊥
session-there none wallet g e = elim g [ ]
session-there (some s) wallet g e = cc

pub signer_in-there :
    (mode : Option ActiveMode) (setup : SetupState) (passkey : PasskeyState)
    (session : Option PasskeySession) (wallet : Option WalletConnection) (address : Option Text)
    (setup_error passkey_error : Option String)
    → ready_in mode setup passkey ≡ true
    → SetupFits setup mode wallet address setup_error
    → PasskeyFits passkey mode session address passkey_error
    → signer_in mode session wallet ≡ by_none
    → ⊥
signer_in-there (some wallet_mode) SetupState.ready passkey session wallet address e e' r s t q =
    wallet-there wallet s.1 q
signer_in-there (some passkey_mode) setup PasskeyState.ready session wallet address e e' r s t q =
    session-there session wallet t.1 q
signer_in-there _ _ _ session wallet address e e' r s t q = cc
