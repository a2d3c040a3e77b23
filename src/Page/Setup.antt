-- ===== src/Page/Setup.antt =====
-- app/smart-accounts/page.tsx: the handlers that connect a wallet, log in and select an account.
use latch_playground.Common.{
  Bool, true, false, Option, none, some, List, [], String, if◌then◌else◌, ℕ,
}
use latch_playground.Text.{Text}
use latch_playground.Effects.{◌>>=◌, ◌>>◌, give, rescue, handle}
use latch_playground.Chain.{given_text}
use latch_playground.Server.{ListedAccount}
use latch_playground.SmartAccount.{Lookup}
use latch_playground.Page.{
  WalletType, WalletConnection, SetupState, PasskeyState, TxState, ActiveMode, wallet_mode,
  passkey_mode, Page, connect_wallet, look_up_account, deploy_account, begin_registration,
  begin_authentication, list_accounts, get_counter, start_registration, start_authentication,
  finish_registration, finish_authentication, set_active, Reply, good, refused, Finished, Browser,
  Task, get_page, update, ask, accept, initial_page,
}

-- The address of an account that the lookup found.
abbrev pub existing : Reply Lookup → Option Text
existing (refused m) = none
existing (good found) =
    if found.deployed then given_text (some found.smart_account_address) else none

abbrev pub show_account : Option Text → Task Unit
show_account (some address) =
    update (λ p. record p { smart_account_addr = some address; setup_state = SetupState.ready })
show_account none = update (λ p. record p { setup_state = SetupState.connected })

abbrev pub keep_accounts : Option (List ListedAccount) → Task Unit
keep_accounts none = give tt
keep_accounts (some rows) = update (λ p. record p { accounts = rows })

abbrev pub keep_listed : Reply (Option (List ListedAccount)) → Task Unit
keep_listed (refused m) = give tt
keep_listed (good rows) = keep_accounts rows

abbrev pub keep_counter : Reply ℕ → Task Unit
keep_counter (refused m) = give tt
keep_counter (good n) = update (λ p. record p { counter_value = some n })

abbrev pub connecting_page : Page → Page
connecting_page p = record p {
  setup_state = SetupState.connecting;
  setup_error = none;
  active_mode = some wallet_mode;
  passkey_state = PasskeyState.idle;
  passkey_session = none;
  passkey_error = none;
  accounts = [];
  active_account = none;
  smart_account_addr = none;
}

abbrev pub registering_page : Page → Page
registering_page p = record p {
  passkey_state = PasskeyState.registering;
  passkey_error = none;
  active_mode = some passkey_mode;
  setup_state = SetupState.idle;
  wallet = none;
  setup_error = none;
  smart_account_addr = none;
  tx_state = TxState.idle;
  tx_hash = none;
  tx_error = none;
}

abbrev pub logged_in_page : Finished → Page → Page
logged_in_page f p = record p {
  passkey_session =
      some (record { credential_id = f.credential_id; key_data_hex = f.key_data_hex });
  smart_account_addr = some f.smart_account_address;
  active_account = some f.smart_account_address;
}

abbrev pub passkey_failed : String → Task Unit
passkey_failed m =
    update (λ p. record p { passkey_error = some m; passkey_state = PasskeyState.error })

abbrev pub connect_failed : String → Task Unit
connect_failed m = update (λ p. record p { setup_error = some m; setup_state = SetupState.error })

abbrev pub deploy_failed : String → Task Unit
deploy_failed m =
    update (λ p. record p { setup_error = some m; setup_state = SetupState.connected })

module _ (b : Browser) where
  -- `refreshAccounts`
  abbrev pub refresh_accounts : Task Unit
  refresh_accounts = rescue tt (ask b.list_accounts list_accounts >>= keep_listed)

  -- `fetchCounter`
  abbrev pub fetch_counter : Task Unit
  fetch_counter = rescue tt (ask b.get_counter get_counter >>= keep_counter)

  abbrev pub connect_to : WalletType → Task Unit
  connect_to type = do
    info ← ask (λ log. b.connect_wallet log type) (connect_wallet type)
    update (λ p. record p { wallet = some info })
    reply ← ask (λ log. b.look_up_account log info) (look_up_account info)
    show_account (existing reply)

  -- `handleConnect`
  unfoldable pub handle_connect : WalletType → Task Unit
  handle_connect type = do update connecting_page; handle connect_failed (connect_to type)

  abbrev pub deploy_for : Option WalletConnection → Task Unit
  deploy_for none = give tt
  deploy_for (some w) = do
    update (λ p. record p { setup_state = SetupState.deploying; setup_error = none })
    handle deploy_failed (do
      reply ← ask (λ log. b.deploy_account log w) (deploy_account w)
      address ← accept "Failed to deploy smart account." reply
      update (λ p. record p { smart_account_addr = some address; setup_state = SetupState.ready }))

  -- `handleDeploy`
  unfoldable pub handle_deploy : Task Unit
  handle_deploy = do p ← get_page; deploy_for p.wallet

  abbrev pub register_passkey : Task Unit
  register_passkey = do
    begun ← ask b.begin_registration begin_registration
    options ← accept "Failed to begin registration" begun
    response ← ask (λ log. b.start_registration log options) (start_registration options)
    update (λ p. record p { passkey_state = PasskeyState.deploying })
    reply ← ask (λ log. b.finish_registration log response) (finish_registration response)
    finish ← accept "Failed to finish registration" reply
    update (logged_in_page finish)
    let address = finish.smart_account_address
    ask (λ log. b.set_active log address) (set_active address)
    refresh_accounts
    update (λ p. record p { passkey_state = PasskeyState.ready })

  -- `handlePasskeyCreateAccount`
  unfoldable pub handle_passkey_create_account : Task Unit
  handle_passkey_create_account = do update registering_page; handle passkey_failed register_passkey

  abbrev pub authenticate_passkey : Task Unit
  authenticate_passkey = do
    begun ← ask b.begin_authentication begin_authentication
    options ← accept "Failed to begin login" begun
    response ← ask (λ log. b.start_authentication log options) (start_authentication options)
    reply ← ask (λ log. b.finish_authentication log response) (finish_authentication response)
    finish ← accept "Failed to finish login" reply
    update (logged_in_page finish)
    let address = finish.smart_account_address
    ask (λ log. b.set_active log address) (set_active address)
    keep_accounts finish.accounts
    update (λ p. record p { passkey_state = PasskeyState.ready })

  -- `handlePasskeyLogin`
  unfoldable pub handle_passkey_login : Task Unit
  handle_passkey_login = do update registering_page; handle passkey_failed authenticate_passkey

  -- `handleSwitchAccount`
  unfoldable pub handle_switch_account : Text → Task Unit
  handle_switch_account address = do
    update (λ p. record p { smart_account_addr = some address; active_account = some address })
    ask (λ log. b.set_active log address) (set_active address)

-- `reset`: all but the counter's value.
unfoldable pub reset : Task Unit
reset = update (λ p. record initial_page { counter_value = p.counter_value })

abbrev pub ready_in : Option ActiveMode → SetupState → PasskeyState → Bool
ready_in (some wallet_mode) SetupState.ready passkey = true
ready_in (some passkey_mode) setup PasskeyState.ready = true
ready_in _ _ _ = false

-- `isReady`
abbrev pub is_ready : Page → Bool
is_ready p = ready_in p.active_mode p.setup_state p.passkey_state
