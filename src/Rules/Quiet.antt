-- ===== src/Rules/Quiet.antt =====
-- The search for the context rule does not answer by itself.
use latch_playground.Common.{
  ℕ, zero, suc, Bool, true, false, Option, none, some, List, if◌then◌else◌,
}
use latch_playground.Text.{Text}
use latch_playground.Effects.{Route, ◌>>=◌, give, call}
use latch_playground.Effects.Quiet.{IsQuiet, next-IsQuiet, settle-IsQuiet, attempt-IsQuiet}
use latch_playground.Chain.{Sdk, Native, Passed, Simulation, simulation_error, passed}
use latch_playground.Server.{Event, Services}
use latch_playground.Factory.{returned}
use latch_playground.Rules.{is_call_of, count_of, searched, find_rule, search_rules}

returned-IsQuiet :
    (R : Type 0) (o : Option Native) (log : List Event) → IsQuiet (returned {R = R} o log).0
returned-IsQuiet R none log = tt
returned-IsQuiet R (some v) log = tt

module _ (s : Services) (R : Type 0) where
  searched-IsQuiet :
      (sim : Simulation) (k : Passed → Route Event R (Option ℕ)) (rest : Route Event R (Option ℕ))
      (log : List Event)
      → ((p : Passed) (l : List Event) → IsQuiet (k p l).0)
      → IsQuiet (rest log).0
      → IsQuiet (searched s sim k rest log).0
  searched-IsQuiet (simulation_error m) k rest log f q = q
  searched-IsQuiet (passed p) k rest log f q = f p log

  if-IsQuiet :
      (b : Bool) (id : ℕ) (rest : Route Event R (Option ℕ)) (log : List Event)
      → IsQuiet (rest log).0
      → IsQuiet ((if b then give (some id) else rest) log).0
  if-IsQuiet true id rest log q = tt
  if-IsQuiet false id rest log q = q

  find_rule-IsQuiet :
      (counter source account : Text) (n id : ℕ) (log : List Event)
      → IsQuiet (find_rule s {R = R} counter source account n id log).0
  unfolding find_rule ◌>>=◌ call
  find_rule-IsQuiet counter source account zero id log = tt
  find_rule-IsQuiet counter source account (suc n) id log =
      next-IsQuiet _ _ _ (settle-IsQuiet R (s.simulate_transaction log _) _ log) λ sim l.
        searched-IsQuiet sim _ _ l
          (λ p l₂. next-IsQuiet _ _ _ (returned-IsQuiet R p.return_value l₂) λ v l₃.
            if-IsQuiet (is_call_of counter v) id _ l₃
              (find_rule-IsQuiet counter source account n (suc id) l₃))
          (find_rule-IsQuiet counter source account n (suc id) l)

  pub search_rules-IsQuiet :
      (sdk : Sdk) (counter account : Text) (log : List Event)
      → IsQuiet (search_rules s {R = R} sdk counter account log).0
  unfolding search_rules ◌>>=◌ call
  search_rules-IsQuiet sdk counter account log =
      next-IsQuiet _ _ _ (attempt-IsQuiet R (sdk.check_contract account) log) λ u l₁.
        next-IsQuiet _ _ _ (settle-IsQuiet R (s.random_public_key l₁) _ l₁) λ source l₂.
          next-IsQuiet _ _ _ (settle-IsQuiet R (s.simulate_transaction l₂ _) _ l₂) λ sim l₃.
            searched-IsQuiet sim _ _ l₃
              (λ p l₄.
                next-IsQuiet _ _ _ (returned-IsQuiet R p.return_value l₄)
                  λ v l₅. find_rule-IsQuiet counter source account (count_of v) 0 l₅)
              tt
