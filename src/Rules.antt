-- ===== src/Rules.antt =====
-- The search of app/api/transaction/build/route.ts for the context rule that covers the counter.
use latch_playground.Common.{
  ℕ, zero, suc, ◌+◌, Bool, true, false, ◌&&◌, ◌||◌, Option, none, some, if◌then◌else◌,
}
use latch_playground.Text.{Text, lit, text_eq}
use latch_playground.Effects.{Route, ◌>>=◌, ◌>>◌, give, call, rescue, attempt}
use latch_playground.Chain.{
  Sdk, ChainConfig, given_text, scv_u32, no_values, value, contract_call, tx_of, Native, number,
  string, array, object, Members, no_members, member, nothing, Tx, Passed, Simulation,
  simulation_error, passed,
}
use latch_playground.Server.{Event, Services, random_keypair, simulated}
use latch_playground.Factory.{returned}
pub mod Quiet
pub mod Discovered

abbrev or_counter : Option Text → Text
or_counter none = lit "CBRCNPTZ7YPP5BCGF42QSUWPYZQW6OJDPNQ4HDEYO7VI5Z6AVWWNEZ2U"
or_counter (some s) = s

abbrev pub counter_of : ChainConfig → Text
counter_of config = or_counter (given_text config.counter_address)

-- `rule?.name`
abbrev pub member_value : Text → Members → Native
member_value name no_members = nothing
member_value name (member n v ms) =
    let rest = member_value name ms in if text_eq n name then v else rest

abbrev pub member_of : Text → Native → Native
member_of name (object ms) = member_value name ms
member_of name _ = nothing

-- `a ?? b`
abbrev pub or_else : Native → Native → Native
or_else nothing b = b
or_else a b = a

abbrev pub is_object : Native → Bool
is_object (object ms) = true
is_object (array vs) = true
is_object _ = false

abbrev pub is_text : Text → Native → Bool
is_text s (string t) = text_eq t s
is_text s _ = false

abbrev pub context_type : Native → Native
context_type rule =
    or_else (member_of (lit "context_type") rule)
      (or_else (member_of (lit "contextType") rule) (member_of (lit "context") rule))

-- `isCallCounter`
unfoldable pub is_call_of : (counter : Text) → (rule : Native) → Bool
is_call_of counter rule =
    is_object (context_type rule)
    && (is_text counter (member_of (lit "CallContract") (context_type rule))
        || is_text counter (member_of (lit "callContract") (context_type rule)))

-- The number of rounds of `for (let id = 0; id < Number(value); id++)`. The contract's count is a
-- number; every other value counts as NaN here, also a text, which `Number` would read.
abbrev pub count_of : Native → ℕ
count_of (number n) = n
count_of _ = 0

-- The dummy account's sequence number grows with each transaction that is built.
abbrev pub count_tx : (source account : Text) → Tx
count_tx source account =
    tx_of source 1 100 30 (contract_call account (lit "get_context_rules_count") no_values)

abbrev pub rule_tx : (source account : Text) → (id : ℕ) → Tx
rule_tx source account id =
    tx_of source (id + 2) 100 30
      (contract_call account (lit "get_context_rule") (value (scv_u32 id) no_values))

module _ (s : Services) {R : Type 0} where
  abbrev pub searched :
      Simulation
      → (Passed → Route Event R (Option ℕ))
      → Route Event R (Option ℕ)
      → Route Event R (Option ℕ)
  searched (simulation_error m) found rest = rest
  searched (passed p) found rest = found p

  -- The loop over the rules, `n` of them from the id `id` on.
  unfoldable pub find_rule : (counter source account : Text) → (n id : ℕ) → Route Event R (Option ℕ)
  find_rule counter source account zero id = give none
  find_rule counter source account (suc n) id = do
    let tx = rule_tx source account id
    let rest = find_rule counter source account n (suc id)
    sim ← call (λ log. s.simulate_transaction log tx) (simulated tx)
    searched sim
        (λ p. returned p.return_value >>= λ rule.
          if is_call_of counter rule then give (some id) else rest)
        rest

  unfoldable pub search_rules : Sdk → (counter account : Text) → Route Event R (Option ℕ)
  search_rules sdk counter account = do
    attempt (sdk.check_contract account)
    source ← call s.random_public_key random_keypair
    let tx = count_tx source account
    sim ← call (λ log. s.simulate_transaction log tx) (simulated tx)
    searched sim
        (λ p. returned p.return_value >>= λ v. find_rule counter source account (count_of v) 0)
        (give none)

  -- The context rule that covers the counter, none where the search finds none or throws.
  unfoldable pub discover_rule : Sdk → (counter account : Text) → Route Event R (Option ℕ)
  discover_rule sdk counter account = rescue none (search_rules sdk counter account)
