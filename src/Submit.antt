-- ===== src/Submit.antt =====
-- How a transaction is sent: the part that app/api/transaction/submit-webauthn/route.ts,
-- app/api/transaction/submit-delegated/route.ts and app/api/transaction/submit/route.ts share.
use latch_playground.Common.{
  ℕ, zero, suc, Bool, if◌then◌else◌, Option, none, some, List, [], ◌∷◌, String,
}
use latch_playground.Common.Result.{Result, ok, err}
use latch_playground.Text.{Text}
use latch_playground.Effects.{Exit, done, Route, ◌>>=◌, ◌>>◌, give, fail_with, throw, call}
use latch_playground.Chain.{
  Sdk, Tx, Passed, Simulation, simulation_error, passed, Sent, refused, accepted, TxStatus,
  not_found, failed, success, AuthEntry, ScVal,
}
use latch_playground.Server.{Event, Services, waited, simulated, sent, polled}
pub mod Sending
pub mod Vetted
pub mod Funded
pub mod Answered
pub mod Webauthn
pub mod Delegated
pub mod Phantom

abbrev pub or_refuse : {R : Type 0} → ℕ → Simulation → Route Event R Passed
or_refuse n (simulation_error m) = fail_with n m
or_refuse n (passed p) = give p

abbrev pub or_throw : {R : Type 0} → String → Sent → Route Event R Text
or_throw m refused = throw m
or_throw m (accepted hash) = give hash

abbrev pub wait : {R : Type 0} → ℕ → Route Event R Unit
wait ms log = (done tt, waited ms ∷ log)

-- The answer of the three routes, whose status is always "SUCCESS".
pub record Submitted : Type 0 where
  pub hash : Text

-- After a round of polling: once more, unless the network knows the transaction.
abbrev pub again :
    {R : Type 0} → TxStatus → Route Event R (Option TxStatus) → Route Event R (Option TxStatus)
again not_found rest = rest
again failed rest = give (some failed)
again (success v) rest = give (some (success v))

abbrev pub succeeded : {R : Type 0} → Text → Option TxStatus → Route Event R Submitted
succeeded hash (some (success v)) = give (record { hash = hash })
succeeded hash _ = throw "Transaction failed"

module _ (s : Services) {R : Type 0} where
  -- `n` rounds of a second each; the last status that was seen.
  unfoldable pub poll : ℕ → Text → Option TxStatus → Route Event R (Option TxStatus)
  poll zero hash last = give last
  poll (suc n) hash last = do
    wait 1000
    status ← call (λ log. s.get_transaction log hash) (polled hash)
    again status (poll n hash (some status))

  -- The simulated transaction is signed by the key behind `secret`, sent, and waited for.
  unfoldable pub send : String → Tx → Passed → (secret : Text) → Route Event R Submitted
  send refusal tx p secret = do
    result ← call (λ log. s.send_transaction log tx p secret) (sent tx p secret)
    hash ← or_throw refusal result
    status ← poll 30 hash none
    succeeded hash status

  unfoldable pub simulate : Tx → Route Event R Passed
  simulate tx = do
    sim ← call (λ log. s.simulate_transaction log tx) (simulated tx)
    or_refuse 400 sim
