-- ===== src/Page/Passkeys.antt =====
-- Every page that is shown is coherent: the passkey's handlers.
use latch_playground.Common.{refl, ◌≡◌, Option, none, some, List, ◌∷◌, String}
use latch_playground.Effects.{◌>>=◌}
use latch_playground.Effects.Ends.{
  Ends, done-Ends, step-Ends, handle-Ends, rescue-Ends, weaken-Ends,
}
use latch_playground.Server.{ListedAccount}
use latch_playground.Page.{
  PasskeyState, passkey_mode, Page, PageEvent, updated, page_of, Finished, Reply, good, refused,
  Browser, update,
}
use latch_playground.Page.Setup.{
  keep_accounts, keep_listed, registering_page, logged_in_page, passkey_failed, refresh_accounts,
  register_passkey, handle_passkey_create_account, authenticate_passkey, handle_passkey_login,
}
use latch_playground.Page.Coherent.{
  Given, IsCoherent, here-OnlyIn, address-SetupFits, login-PasskeyFits,
}
use latch_playground.Page.Shown.{
  AllShown, shown-IsCoherent, ShownIn, EndsShown, ask-Ends, accept-Ends, shows,
}

passkey_failed-Ends :
    (m : String) (log : List PageEvent)
    → ShownIn passkey_mode log
    → EndsShown (passkey_failed m) log
passkey_failed-Ends m log (h, w) =
    let c = shown-IsCoherent log h in
    done-Ends tt _ (
      shows _ log
        (record {
          setup = c.setup;
          passkey = (w, tt);
          tx = c.tx;
          own_wallet = c.own_wallet;
          own_session = c.own_session;
        })
        h)

registering_page-IsCoherent : (p : Page) → IsCoherent p → IsCoherent (registering_page p)
registering_page-IsCoherent p c = record {
  setup = tt;
  passkey = refl;
  tx = tt;
  own_wallet = tt;
  own_session = here-OnlyIn passkey_mode p.passkey_session;
}

-- A page with the passkey's session and account, in the passkey's mode.
pub record IsLoggedIn (p : Page) : Type 0 where
  pub mode : p.active_mode ≡ some passkey_mode
  pub session : Given p.passkey_session
  pub address : Given p.smart_account_addr

-- The pages that were shown are coherent, and the present one is logged in.
abbrev LoggedIn : List PageEvent → Type 0
LoggedIn log = AllShown log × IsLoggedIn (page_of log)

keep_accounts-LoggedIn :
    {Q : String → List PageEvent → Type 0} (rows : Option (List ListedAccount))
    (log : List PageEvent)
    → LoggedIn log
    → Ends (λ a l. LoggedIn l) Q (keep_accounts rows log)
unfolding page_of
keep_accounts-LoggedIn none log h = done-Ends tt log h
keep_accounts-LoggedIn (some rows) log (h, i) =
    let c = shown-IsCoherent log h in
    done-Ends tt _ (
      shows _ log
          (record {
            setup = c.setup;
            passkey = c.passkey;
            tx = c.tx;
            own_wallet = c.own_wallet;
            own_session = c.own_session;
          })
          h,
      record { mode = i.mode; session = i.session; address = i.address },
    )

keep_listed-LoggedIn :
    {Q : String → List PageEvent → Type 0} (reply : Reply (Option (List ListedAccount)))
    (log : List PageEvent)
    → LoggedIn log
    → Ends (λ a l. LoggedIn l) Q (keep_listed reply log)
keep_listed-LoggedIn (good rows) log h = keep_accounts-LoggedIn rows log h
keep_listed-LoggedIn (refused m) log h = done-Ends tt log h

show_ready-Ends :
    {Q : String → List PageEvent → Type 0} (log : List PageEvent)
    → LoggedIn log
    → Ends (λ a l. AllShown l) Q (update (λ p. record p { passkey_state = PasskeyState.ready }) log)
show_ready-Ends log (h, i) =
    let c = shown-IsCoherent log h in
    done-Ends tt _ (
      shows _ log
        (record {
          setup = c.setup;
          passkey = (i.mode, i.session, i.address);
          tx = c.tx;
          own_wallet = c.own_wallet;
          own_session = c.own_session;
        })
        h)

logged_in_page-LoggedIn :
    (f : Finished) (log : List PageEvent)
    → ShownIn passkey_mode log
    → LoggedIn (updated (logged_in_page f) ∷ log)
unfolding page_of
logged_in_page-LoggedIn f log (h, m) =
    let c = shown-IsCoherent log h in
    (
      shows (logged_in_page f) log
          (record {
            setup = address-SetupFits _ _ _ _ _ f.smart_account_address c.setup;
            passkey = login-PasskeyFits _ _ _ _ _ _ f.smart_account_address c.passkey;
            tx = c.tx;
            own_wallet = c.own_wallet;
            own_session = m;
          })
          h,
      record { mode = m; session = tt; address = tt },
    )

abbrev deploying_page : Page → Page
deploying_page p = record p { passkey_state = PasskeyState.deploying }

deploying_page-AllShown :
    (log : List PageEvent) → ShownIn passkey_mode log → AllShown (updated deploying_page ∷ log)
deploying_page-AllShown log (h, m) =
    let c = shown-IsCoherent log h in
    shows deploying_page log
      (record {
        setup = c.setup;
        passkey = m;
        tx = c.tx;
        own_wallet = c.own_wallet;
        own_session = c.own_session;
      })
      h

module _ (b : Browser) where
  refresh_accounts-LoggedIn :
      {Q : String → List PageEvent → Type 0} (log : List PageEvent)
      → LoggedIn log
      → Ends (λ a l. LoggedIn l) Q (refresh_accounts b log)
  unfolding AllShown page_of ◌>>=◌
  refresh_accounts-LoggedIn log h =
      rescue-Ends tt _ log (ask-Ends _ _ _ log (λ m. h) (λ reply. keep_listed-LoggedIn reply _ h))

  register_passkey-Ends :
      (log : List PageEvent)
      → ShownIn passkey_mode log
      → Ends (λ a l. AllShown l) (λ m l. EndsShown (passkey_failed m) l) (register_passkey b log)
  unfolding AllShown page_of ◌>>=◌
  register_passkey-Ends log h =
      ask-Ends _ _ _ log (λ m. passkey_failed-Ends m _ h)
        (λ begun.
          accept-Ends _ begun _ _ (λ m. passkey_failed-Ends m _ h)
            (λ options.
              ask-Ends _ _ _ _ (λ m. passkey_failed-Ends m _ h)
                (λ response.
                  let d : ShownIn passkey_mode (updated deploying_page ∷ log) =
                    (deploying_page-AllShown log h, h.1) in
                  ask-Ends _ _ _ _ (λ m. passkey_failed-Ends m _ d)
                    (λ reply.
                      accept-Ends _ reply _ _ (λ m. passkey_failed-Ends m _ d)
                        (λ f.
                          let i = logged_in_page-LoggedIn f (updated deploying_page ∷ log) d in
                          ask-Ends _ _ _ _ (λ m. passkey_failed-Ends m _ (i.0, i.1.mode))
                            (λ u. step-Ends (refresh_accounts b) _ _ (
                              weaken-Ends _ (λ v l. show_ready-Ends l)
                                (refresh_accounts-LoggedIn _ i))))))))

  pub handle_passkey_create_account-AllShown :
      (log : List PageEvent) → AllShown log → EndsShown (handle_passkey_create_account b) log
  unfolding handle_passkey_create_account AllShown page_of ◌>>=◌
  handle_passkey_create_account-AllShown log h =
      let c = registering_page-IsCoherent (page_of log) (shown-IsCoherent log h) in
      handle-Ends passkey_failed (register_passkey b) (updated registering_page ∷ log)
        (register_passkey-Ends _ ((c, h), refl))

  authenticate_passkey-Ends :
      (log : List PageEvent)
      → ShownIn passkey_mode log
      → Ends
          (λ a l. AllShown l)
          (λ m l. EndsShown (passkey_failed m) l)
          (authenticate_passkey b log)
  unfolding AllShown page_of ◌>>=◌
  authenticate_passkey-Ends log h =
      ask-Ends _ _ _ log (λ m. passkey_failed-Ends m _ h)
        (λ begun.
          accept-Ends _ begun _ _ (λ m. passkey_failed-Ends m _ h)
            (λ options.
              ask-Ends _ _ _ _ (λ m. passkey_failed-Ends m _ h)
                (λ response.
                  ask-Ends _ _ _ _ (λ m. passkey_failed-Ends m _ h)
                    (λ reply.
                      accept-Ends _ reply _ _ (λ m. passkey_failed-Ends m _ h)
                        (λ f.
                          let i = logged_in_page-LoggedIn f log h in
                          ask-Ends _ _ _ _ (λ m. passkey_failed-Ends m _ (i.0, i.1.mode))
                            (λ u. step-Ends (keep_accounts f.accounts) _ _ (
                              weaken-Ends _ (λ v l. show_ready-Ends l)
                                (keep_accounts-LoggedIn f.accounts _ i))))))))

  pub handle_passkey_login-AllShown :
      (log : List PageEvent) → AllShown log → EndsShown (handle_passkey_login b) log
  unfolding handle_passkey_login AllShown page_of ◌>>=◌
  handle_passkey_login-AllShown log h =
      let c = registering_page-IsCoherent (page_of log) (shown-IsCoherent log h) in
      handle-Ends passkey_failed (authenticate_passkey b) (updated registering_page ∷ log)
        (authenticate_passkey-Ends _ ((c, h), refl))
