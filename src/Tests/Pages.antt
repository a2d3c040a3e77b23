-- ===== src/Tests/Pages.antt =====
-- The page, with a browser and a server that answer at once.
use latch_playground.Common.{◌≡◌, refl, none, true, false, some, List, [], ◌∷◌, replicate}
use latch_playground.Common.Result.{ok, err}
use latch_playground.Text.{lit}
use latch_playground.Effects.{◌>>=◌, call, handle}
use latch_playground.Effects.Ends.{Ends}
use latch_playground.Chain.{given_text}
use latch_playground.Page.{freighter, WalletConnection, PageEvent, page_of, good, Browser}
use latch_playground.Page.Setup.{handle_connect, is_ready}
use latch_playground.Page.Increment.{handle_increment}
use latch_playground.Page.Shown.{AllShown}
use latch_playground.Page.Signed.{Settles}
use latch_playground.Page.Settled.{handle_increment-IsSettled}
use latch_playground.Page.Reached.{connect, log_in, increment, reached, reached-AllShown}
use latch_playground.Tests.Chain.{sdk}
use latch_playground.Tests.Delegated.{check_answer}

abbrev connected_wallet : WalletConnection
connected_wallet = record {
  public_key_hex = replicate 64 b'a';
  g_address = lit "G";
  wallet_type = freighter;
}

abbrev browser : Browser
browser = record {
  connect_wallet = λ log type. ok connected_wallet;
  look_up_account =
      λ log w. ok (good (record { deployed = true; smart_account_address = lit "C" }));
  deploy_account = λ log w. ok (good (lit "C"));
  begin_registration = λ log. err "off";
  start_registration = λ log options. err "off";
  finish_registration = λ log response. err "off";
  begin_authentication = λ log. ok (good (lit "o"));
  start_authentication = λ log options. ok (lit "r");
  finish_authentication = λ log response. ok (
      good (record {
        credential_id = lit "k";
        key_data_hex = lit "04";
        smart_account_address = lit "D";
        accounts = none;
      }));
  set_active = λ log address. ok tt;
  list_accounts = λ log. err "off";
  get_counter = λ log. ok (good 7);
  build_transaction = λ log address. err "off";
  build_delegated = λ log address g_address. ok (good check_answer);
  sign_challenge = λ log credential_id challenge rp_id. err "off";
  sign_auth_entry = λ log preimage.
      ok (record { error = none; signed_auth_entry = some (lit "s"); signer_address = lit "G" });
  has_phantom = λ log. false;
  sign_message = λ log message. err "off";
  submit_webauthn = λ log body. err "off";
  submit_delegated = λ log body. ok (good (record { hash = lit "h" }));
  submit_phantom = λ log body. err "off";
}

reached-AllShown_example :
    AllShown (reached sdk (lit "host") browser (increment ∷ connect freighter ∷ log_in ∷ []))
reached-AllShown_example =
    reached-AllShown sdk (lit "host") browser (increment ∷ connect freighter ∷ log_in ∷ [])

abbrev connected_log : List PageEvent
connected_log = reached sdk (lit "host") browser (connect freighter ∷ [])

is_connected : is_ready (page_of connected_log) ≡ true
unfolding page_of handle_connect handle ◌>>=◌ call
is_connected = refl

has_account : given_text (page_of connected_log).smart_account_addr ≡ some (lit "C")
unfolding page_of handle_connect handle ◌>>=◌ call
has_account = refl

handle_increment-IsSettled_example :
    Ends (λ u l. Settles l) (λ e l. ⊥) (handle_increment sdk (lit "host") browser connected_log)
handle_increment-IsSettled_example =
    handle_increment-IsSettled sdk (lit "host") browser connected_log
      (reached-AllShown sdk (lit "host") browser (connect freighter ∷ [])) is_connected has_account
