-- ===== src/Page/Shown.antt =====
-- Every page that is shown is coherent: what the handlers show.
use latch_playground.Common.{◌≡◌, refl, Option, none, some, List, [], ◌∷◌, String}
use latch_playground.Common.Result.{Result}
use latch_playground.Text.{Text}
use latch_playground.Effects.{◌>>=◌}
use latch_playground.Effects.Ends.{Ends, done-Ends, thrown-Ends, step-Ends, handle-Ends, call-Ends}
use latch_playground.Page.{
  WalletType, WalletConnection, SetupState, ActiveMode, wallet_mode, Page, PageRequest,
  deploy_account, PageEvent, updated, asked, page_of, Reply, good, refused, Browser, Task, ask,
  accept,
}
use latch_playground.Page.Setup.{
  existing, show_account, connecting_page, connect_failed, deploy_failed, connect_to,
  handle_connect, deploy_for, handle_deploy, handle_switch_account, reset,
}
use latch_playground.Page.Coherent.{
  Given, IsCoherent, initial_page-IsCoherent, here-OnlyIn, given-OnlyIn, some-Given,
  address-SetupFits, address-PasskeyFits,
}

-- Each page that was shown is coherent.
unfoldable pub AllShown : List PageEvent → Type 0
AllShown [] = Unit
AllShown (updated f ∷ log) = IsCoherent (f (page_of log)) × AllShown log
AllShown (asked r ∷ log) = AllShown log

pub shown-IsCoherent : (log : List PageEvent) → AllShown log → IsCoherent (page_of log)
unfolding AllShown page_of
shown-IsCoherent [] h = initial_page-IsCoherent
shown-IsCoherent (updated f ∷ log) h = h.0
shown-IsCoherent (asked r ∷ log) h = shown-IsCoherent log h

-- The pages that were shown are coherent, and the present one is in the mode.
abbrev pub ShownIn : ActiveMode → List PageEvent → Type 0
ShownIn m log = AllShown log × ((page_of log).active_mode ≡ some m)

abbrev pub EndsShown : {A : Type 0} → Task A → List PageEvent → Type 0
EndsShown m log = Ends (λ a l. AllShown l) (λ e l. AllShown l) (m log)

module _ {A B : Type 0} {P : B → List PageEvent → Type 0}
    {Q : String → List PageEvent → Type 0} where
  pub ask-Ends :
      (service : List PageEvent → Result String A) (r : PageRequest) (k : A → Task B)
      (log : List PageEvent)
      → ((m : String) → Q m (asked r ∷ log))
      → ((a : A) → Ends P Q (k a (asked r ∷ log)))
      → Ends P Q ((ask service r >>= k) log)
  ask-Ends service r k log q p =
      step-Ends (ask service r) k log (call-Ends service (λ a. asked r) log q p)

  pub accept-Ends :
      (m : String) (reply : Reply A) (k : A → Task B) (log : List PageEvent)
      → ((e : String) → Q e log)
      → ((a : A) → Ends P Q (k a log))
      → Ends P Q ((accept m reply >>= k) log)
  unfolding ◌>>=◌
  accept-Ends m (good a) k log q p = p a
  accept-Ends m (refused none) k log q p = thrown-Ends m log (q m)
  accept-Ends m (refused (some e)) k log q p = thrown-Ends e log (q e)

pub shows :
    (f : Page → Page) (log : List PageEvent)
    → IsCoherent (f (page_of log))
    → AllShown log
    → AllShown (updated f ∷ log)
unfolding AllShown
shows f log c h = (c, h)

module _ {Q : String → List PageEvent → Type 0} where
  show_account-Ends :
      (found : Option Text) (log : List PageEvent)
      → ShownIn wallet_mode log
      → Given (page_of log).wallet
      → Ends (λ a l. AllShown l) Q (show_account found log)
  show_account-Ends (some address) log (h, m) w =
      let c = shown-IsCoherent log h in
      done-Ends tt _ (
        shows _ log
          (record {
            setup = (m, w, tt);
            passkey = address-PasskeyFits _ _ _ _ _ address c.passkey;
            tx = c.tx;
            own_wallet = c.own_wallet;
            own_session = c.own_session;
          })
          h)
  show_account-Ends none log (h, m) w =
      let c = shown-IsCoherent log h in
      done-Ends tt _ (
        shows _ log
          (record {
            setup = (m, w);
            passkey = c.passkey;
            tx = c.tx;
            own_wallet = c.own_wallet;
            own_session = c.own_session;
          })
          h)

connect_failed-Ends :
    (m : String) (log : List PageEvent) → ShownIn wallet_mode log → EndsShown (connect_failed m) log
connect_failed-Ends m log (h, w) =
    let c = shown-IsCoherent log h in
    done-Ends tt _ (
      shows _ log
        (record {
          setup = (w, tt);
          passkey = c.passkey;
          tx = c.tx;
          own_wallet = c.own_wallet;
          own_session = c.own_session;
        })
        h)

module _ (b : Browser) where
  pub handle_connect-AllShown :
      (type : WalletType) (log : List PageEvent)
      → AllShown log
      → EndsShown (handle_connect b type) log
  unfolding handle_connect AllShown page_of ◌>>=◌
  handle_connect-AllShown type log h =
      let c = shown-IsCoherent log h in
      let d : IsCoherent (connecting_page (page_of log)) = record {
        setup = refl;
        passkey = tt;
        tx = c.tx;
        own_wallet = here-OnlyIn wallet_mode (page_of log).wallet;
        own_session = tt;
      } in
      handle-Ends connect_failed (connect_to b type) (updated connecting_page ∷ log) (
        ask-Ends _ _ _ _ (λ m. connect_failed-Ends m _ ((d, h), refl))
          (λ info.
            let e : IsCoherent (record (connecting_page (page_of log)) { wallet = some info }) =
              record {
                setup = refl;
                passkey = tt;
                tx = c.tx;
                own_wallet = refl;
                own_session = tt;
              } in
            ask-Ends _ _ _ _ (λ m. connect_failed-Ends m _ ((e, (d, h)), refl))
              (λ reply. show_account-Ends (existing reply) _ ((e, (d, h)), refl) tt)))

  deploy_for-AllShown :
      (wallet : Option WalletConnection) (log : List PageEvent)
      → AllShown log
      → (page_of log).wallet ≡ wallet
      → EndsShown (deploy_for b wallet) log
  unfolding AllShown page_of ◌>>=◌
  deploy_for-AllShown none log h q = done-Ends tt log h
  deploy_for-AllShown (some w) log h q =
      let c = shown-IsCoherent log h in
      let m = given-OnlyIn wallet_mode _ _ q c.own_wallet in
      let g = some-Given _ q in
      let begun : Page → Page =
        λ p. record p { setup_state = SetupState.deploying; setup_error = none } in
      let d : IsCoherent (begun (page_of log)) = record {
        setup = (m, g);
        passkey = c.passkey;
        tx = c.tx;
        own_wallet = c.own_wallet;
        own_session = c.own_session;
      } in
      let failed : (e : String)
          → EndsShown (deploy_failed e) (asked (deploy_account w) ∷ updated begun ∷ log) =
        λ e. done-Ends tt _ (
          record {
            setup = (m, g);
            passkey = c.passkey;
            tx = c.tx;
            own_wallet = c.own_wallet;
            own_session = c.own_session;
          },
          (d, h),
        ) in
      handle-Ends deploy_failed _ (updated begun ∷ log) (
        ask-Ends _ _ _ _ failed (λ reply. accept-Ends _ reply _ _ failed (λ address.
          done-Ends tt _ (
            record {
              setup = (m, g, tt);
              passkey = address-PasskeyFits _ _ _ _ _ address c.passkey;
              tx = c.tx;
              own_wallet = c.own_wallet;
              own_session = c.own_session;
            },
            (d, h),
          ))))

  pub handle_deploy-AllShown :
      (log : List PageEvent) → AllShown log → EndsShown (handle_deploy b) log
  unfolding handle_deploy ◌>>=◌
  handle_deploy-AllShown log h = deploy_for-AllShown (page_of log).wallet log h refl

  pub handle_switch_account-AllShown :
      (address : Text) (log : List PageEvent)
      → AllShown log
      → EndsShown (handle_switch_account b address) log
  unfolding handle_switch_account AllShown page_of ◌>>=◌
  handle_switch_account-AllShown address log h =
      let c = shown-IsCoherent log h in
      let d : IsCoherent (record (page_of log) {
        smart_account_addr = some address;
        active_account = some address;
      }) =
        record {
          setup = address-SetupFits _ _ _ _ _ address c.setup;
          passkey = address-PasskeyFits _ _ _ _ _ address c.passkey;
          tx = c.tx;
          own_wallet = c.own_wallet;
          own_session = c.own_session;
        } in
      call-Ends _ _ _ (λ m. (d, h)) (λ u. (d, h))

pub reset-AllShown : (log : List PageEvent) → AllShown log → EndsShown reset log
unfolding reset AllShown
reset-AllShown log h =
    done-Ends tt _
      (record { setup = tt; passkey = tt; tx = tt; own_wallet = tt; own_session = tt }, h)
