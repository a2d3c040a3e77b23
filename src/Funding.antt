-- ===== src/Funding.antt =====
-- The funding of an account on the test network, of which app/api/transaction/submit,
-- app/api/transaction/build, app/api/smart-account/factory and app/api/smart-account/freighter have a
-- copy each.
use latch_playground.Common.{Bool, true, false, String}
use latch_playground.Common.Result.{Result, ok, err}
use latch_playground.Text.{Text}
use latch_playground.Effects.{Route, ◌>>=◌, give, throw, call, caught}
use latch_playground.Server.{Event, Services, checked_horizon, asked_friendbot}

abbrev pub friendbot_ok : {R : Type 0} → String → Bool → Route Event R Unit
friendbot_ok m true = give tt
friendbot_ok m false = throw m

module _ (s : Services) {R : Type 0} where
  abbrev pub ask : String → Text → Route Event R Unit
  ask m address =
      call (λ log. s.ask_friendbot log address) (asked_friendbot address) >>= λ answered.
      friendbot_ok m answered

  abbrev pub unless_known : String → Text → Result String Bool → Route Event R Unit
  unless_known m address (ok true) = give tt
  unless_known m address (ok false) = ask m address
  unless_known m address (err e) = ask m address

  -- The account is looked up, and funded unless it is there; `m` is thrown where that fails.
  unfoldable pub fund_if_missing : String → Text → Route Event R Unit
  fund_if_missing m address =
      caught (λ log. s.check_horizon log address) (checked_horizon address) >>= λ known.
      unless_known m address known
