-- ===== src/Page/Reached.antt =====
-- The pages that are reached from the first one by handlers that run one after the other.
use latch_playground.Common.{List, [], ◌∷◌}
use latch_playground.Text.{Text}
use latch_playground.Effects.Ends.{log-Ends}
use latch_playground.Chain.{Sdk}
use latch_playground.Page.{WalletType, PageEvent, Browser, Task}
use latch_playground.Page.Setup.{
  handle_connect, handle_deploy, handle_passkey_create_account, handle_passkey_login,
  handle_switch_account, reset,
}
use latch_playground.Page.Increment.{handle_increment}
use latch_playground.Page.Shown.{
  AllShown, EndsShown, handle_connect-AllShown, handle_deploy-AllShown,
  handle_switch_account-AllShown, reset-AllShown,
}
use latch_playground.Page.Passkeys.{
  handle_passkey_create_account-AllShown, handle_passkey_login-AllShown,
}
use latch_playground.Page.Settled.{handle_increment-AllShown}

-- What the user does.
pub data Action : Type 0 where
  connect : WalletType → Action
  deploy create_account log_in increment start_over : Action
  switch_to : (address : Text) → Action

module _ (sdk : Sdk) (hostname : Text) (b : Browser) where
  abbrev pub handler : Action → Task Unit
  handler (connect type) = handle_connect b type
  handler deploy = handle_deploy b
  handler create_account = handle_passkey_create_account b
  handler log_in = handle_passkey_login b
  handler increment = handle_increment sdk hostname b
  handler start_over = reset
  handler (switch_to address) = handle_switch_account b address

  -- The log after actions, the last one first.
  abbrev pub reached : List Action → List PageEvent
  reached [] = []
  reached (action ∷ before) = (handler action (reached before)).1

  handler-AllShown :
      (action : Action) (log : List PageEvent) → AllShown log → EndsShown (handler action) log
  handler-AllShown (connect type) log h = handle_connect-AllShown b type log h
  handler-AllShown deploy log h = handle_deploy-AllShown b log h
  handler-AllShown create_account log h = handle_passkey_create_account-AllShown b log h
  handler-AllShown log_in log h = handle_passkey_login-AllShown b log h
  handler-AllShown increment log h = handle_increment-AllShown sdk hostname b log h
  handler-AllShown start_over log h = reset-AllShown log h
  handler-AllShown (switch_to address) log h = handle_switch_account-AllShown b address log h

  -- After any actions, one after the other, and whatever the browser and the server answer, every page
  -- that was shown is coherent: a wallet or a session is there only in its mode, a side that is ready
  -- has its signer and its account, an error has its message, and a success its hash.
  pub reached-AllShown : (actions : List Action) → AllShown (reached actions)
  unfolding AllShown
  reached-AllShown [] = tt
  reached-AllShown (action ∷ before) =
      log-Ends (handler action (reached before))
        (handler-AllShown action (reached before) (reached-AllShown before))
