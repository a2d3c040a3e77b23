-- ===== src/Page/Settled.antt =====
-- An increment of the counter comes to its end, whatever is answered.
use latch_playground.Common.{◌≡◌, refl, true, Option, none, some, List, ◌∷◌}
use latch_playground.Text.{Text}
use latch_playground.Effects.{◌>>=◌}
use latch_playground.Effects.Ends.{Ends, done-Ends, handle-Ends, weaken-Ends, weaken-thrown}
use latch_playground.Chain.{Sdk, given_text}
use latch_playground.Page.{TxState, Page, PageEvent, updated, page_of, Browser}
use latch_playground.Page.Setup.{is_ready}
use latch_playground.Page.Increment.{
  tx_failed, building_page, Signer, by_passkey, by_freighter, by_phantom, by_none, signer_in,
  increment_by, increment_from, handle_increment,
}
use latch_playground.Page.Signers.{signer_in-there}
use latch_playground.Page.Shown.{AllShown, shown-IsCoherent, EndsShown}
use latch_playground.Page.Signed.{
  Settles, tx-IsCoherent, tx_failed-Ends, EndsSettled, by_freighter-Ends, by_passkey-Ends,
  by_phantom-Ends,
}

module _ (sdk : Sdk) (hostname : Text) (b : Browser) where
  increment_by-Ends :
      (signer : Signer) (address : Text) (log : List PageEvent)
      → AllShown log
      → (signer ≡ by_none → ⊥)
      → EndsSettled (increment_by sdk hostname b signer address) log
  increment_by-Ends (by_passkey s) address log h n = by_passkey-Ends sdk hostname b s address log h
  increment_by-Ends (by_freighter w) address log h n =
      by_freighter-Ends sdk hostname b w address log h
  increment_by-Ends (by_phantom w) address log h n = by_phantom-Ends sdk hostname b w address log h
  increment_by-Ends by_none address log h n = elim (n refl) [ ]

  increment_by-Shown :
      (signer : Signer) (address : Text) (log : List PageEvent)
      → AllShown log
      → EndsShown (increment_by sdk hostname b signer address) log
  increment_by-Shown (by_passkey s) address log h =
      weaken-Ends _ (λ u l k. k.0) (by_passkey-Ends sdk hostname b s address log h)
  increment_by-Shown (by_freighter w) address log h =
      weaken-Ends _ (λ u l k. k.0) (by_freighter-Ends sdk hostname b w address log h)
  increment_by-Shown (by_phantom w) address log h =
      weaken-Ends _ (λ u l k. k.0) (by_phantom-Ends sdk hostname b w address log h)
  increment_by-Shown by_none address log h = done-Ends tt log h

  increment_from-Shown :
      (p : Page) (address : Option Text) (log : List PageEvent)
      → AllShown log
      → EndsShown (increment_from sdk hostname b p address) log
  unfolding AllShown ◌>>=◌
  increment_from-Shown p none log h = done-Ends tt log h
  increment_from-Shown p (some address) log h =
      let c = shown-IsCoherent log h in
      handle-Ends tx_failed _ (updated building_page ∷ log) (
        weaken-thrown _ (λ e l k. weaken-Ends _ (λ u l' k'. k'.0) (tx_failed-Ends e l k))
          (increment_by-Shown (signer_in p.active_mode p.passkey_session p.wallet) address _
            (tx-IsCoherent (page_of log) TxState.building none none c tt, h)))

  pub handle_increment-AllShown :
      (log : List PageEvent) → AllShown log → EndsShown (handle_increment sdk hostname b) log
  unfolding handle_increment ◌>>=◌
  handle_increment-AllShown log h =
      increment_from-Shown (page_of log) (given_text (page_of log).smart_account_addr) log h

  -- On a page that is ready, with an account, an increment comes to its end, whatever the browser and
  -- the server answer: the transaction is then a success, with its hash, or a failure, with an error,
  -- and every page that was shown on the way is coherent.
  pub handle_increment-IsSettled :
      (log : List PageEvent) {address : Text}
      → AllShown log
      → is_ready (page_of log) ≡ true
      → given_text (page_of log).smart_account_addr ≡ some address
      → Ends (λ u l. Settles l) (λ e l. ⊥) (handle_increment sdk hostname b log)
  unfolding handle_increment AllShown page_of ◌>>=◌
  handle_increment-IsSettled log {address} h r a =
      let c = shown-IsCoherent log h in
      let d = tx-IsCoherent (page_of log) TxState.building none none c tt in
      let p = page_of log in
      let signer = signer_in p.active_mode p.passkey_session p.wallet in
      rw a (
        handle-Ends tx_failed (increment_by sdk hostname b signer address)
          (updated building_page ∷ log)
          (weaken-thrown _ (λ e l k. tx_failed-Ends e l k)
            (increment_by-Ends signer address _ (d, h)
              (signer_in-there p.active_mode p.setup_state p.passkey_state _ _ _ _ _ r c.setup
                c.passkey))))
