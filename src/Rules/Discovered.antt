-- ===== src/Rules/Discovered.antt =====
-- Which context rule the search of app/api/transaction/build finds.
use latch_playground.Common.{
  ℕ, zero, suc, ◌+◌, ◌<◌, ◌≡◌, refl, ap, arith, true, false, Option, none, some, List, [], ◌∷◌, ◌⊎◌,
  inl, inr, All, length, Bool-cases, if◌then◌else◌,
}
use latch_playground.Common.Result.{ok}
use latch_playground.Text.{Text}
use latch_playground.Effects.{Exit, done, early, thrown, Route, ◌>>=◌, rescued, rescue, give}
use latch_playground.Effects.Steps.{called, attempted}
use latch_playground.Chain.{Sdk, Native, Passed, Simulation, simulation_error, passed}
use latch_playground.Server.{Event, Services, random_keypair, simulated}
use latch_playground.Factory.{returned}
use latch_playground.Rules.{
  is_call_of, count_of, count_tx, rule_tx, searched, find_rule, search_rules, discover_rule,
}
use latch_playground.Effects.Quiet.{IsQuiet}
use latch_playground.Rules.Quiet.{search_rules-IsQuiet}

-- The answer is a rule for the calls of the counter, or it is not.
abbrev pub IsRuleFor : (counter : Text) → Passed → Type 0
IsRuleFor counter p = (v : Native) × (p.return_value ≡ some v) × (is_call_of counter v ≡ true)

abbrev pub IsOther : (counter : Text) → Simulation → Type 0
IsOther counter (simulation_error m) = Unit
IsOther counter (passed p) =
    (v : Native) × (p.return_value ≡ some v) × (is_call_of counter v ≡ false)

-- The log of a search that asked for the rules from `id` on, and got these answers.
abbrev pub asked : (source account : Text) → (id : ℕ) → List Simulation → List Event → List Event
asked source account id [] log = log
asked source account id (sim ∷ sims) log =
    asked source account (suc id) sims (simulated (rule_tx source account id) (ok sim) ∷ log)

-- The search over `n` rules from `id` on ended with the first that is for the counter, or with none.
pub record IsSearched (counter source account : Text) (n id : ℕ) (log : List Event)
    (found : Option ℕ) (log' : List Event) : Type 0 where
  pub others : List Simulation
  pub all_others : All (IsOther counter) others
  pub end :
      ((found ≡ none) × (length others ≡ n) × (log' ≡ asked source account id others log))
      ⊎ ((p : Passed) × (k : ℕ) × (k ≡ id + length others)
          × (found ≡ some k)
          × (length others < n)
          × IsRuleFor counter p
          × (log'
              ≡ simulated (rule_tx source account k) (ok (passed p))
                ∷ asked source account id others log))

asked_one :
    (counter source account : Text) (n id : ℕ) (log : List Event) (sim : Simulation)
    {found : Option ℕ} {log' : List Event}
    → IsOther counter sim
    → IsSearched counter source account n
        (suc id)
        (simulated (rule_tx source account id) (ok sim) ∷ log)
        found
        log'
    → IsSearched counter source account (suc n) id log found log'
asked_one counter source account n id log sim other searched = record {
  others = sim ∷ searched.others;
  all_others = (other, searched.all_others);
  end = elim searched.end [
    | inl (a, b, c) ↦ inl (a, ap suc b, c)
    | inr (p, k, a, b, c, d, e) ↦ inr (p, k, omega (arith, a), b, omega (arith, c), d, e)
  ];
}

returned_done :
    {R B C : Type 0} (o : Option Native) (k : Native → Route Event R B) (log : List Event) {b : B}
    {log' : List Event}
    → (returned o >>= k) log ≡ (done b, log')
    → ((v : Native) → o ≡ some v → k v log ≡ (done b, log') → C)
    → C
unfolding ◌>>=◌
returned_done none k log h f = cc
returned_done (some v) k log h f = f v refl h

module _ (s : Services) (R : Type 0) where
  searched_done :
      {C : Type 0} (counter : Text) (sim : Simulation) (id : ℕ) (rest : Route Event R (Option ℕ))
      (log : List Event) {b : Option ℕ} {log' : List Event}
      → searched s sim
          (λ p. returned p.return_value >>= λ rule.
            if is_call_of counter rule then give (some id) else rest)
          rest
          log
        ≡ (done b, log')
      → (IsOther counter sim → rest log ≡ (done b, log') → C)
      → ((p : Passed) → sim ≡ passed p → IsRuleFor counter p → b ≡ some id → log' ≡ log → C)
      → C
  searched_done counter (simulation_error m) id rest log h f g = f tt h
  searched_done counter (passed p) id rest log h f g =
      returned_done p.return_value _ log h λ v e h₁. elim (Bool-cases (is_call_of counter v)) [
        | inl q ↦ let l = rw q at h₁ in g p refl (v, e, q) (ground arith) (ground arith)
        | inr q ↦ f (v, e, q) (rw q at h₁)
      ]

  find_rule-IsSearched :
      (counter source account : Text) (n id : ℕ) (log : List Event) {b : Option ℕ}
      {log' : List Event}
      → find_rule s {R = R} counter source account n id log ≡ (done b, log')
      → IsSearched counter source account n id log b log'
  unfolding find_rule
  find_rule-IsSearched counter source account zero id log h = record {
    others = [];
    all_others = tt;
    end = inl (ground arith, refl, ground arith);
  }
  find_rule-IsSearched counter source account (suc n) id log {b} {log'} h =
      called _ _ _ log h λ sim e₁ h₁.
        searched_done counter sim id _ _ h₁
          (λ other h₂.
            let ih = find_rule-IsSearched counter source account n (suc id) _ h₂ in
            asked_one counter source account n id log sim other ih)
          (λ p q rule e₂ e₃. record {
            others = [];
            all_others = tt;
            end = inr (p, id, omega arith, e₂, omega arith, rule, rw q at e₃);
          })

rescued_done :
    {R A : Type 0} (x : Exit R (Option A) × List Event)
    → IsQuiet x.0
    → (a : Option A) × (log : List Event) × (rescued none x ≡ (done a, log))
      × ((b : A) → a ≡ some b → x ≡ (done a, log))
rescued_done (done a, log) q = (a, log, refl, λ b e. refl)
rescued_done (early n m, log) q = absurd q
rescued_done (thrown m, log) q = (none, log, refl, λ b e. cc)

module _ (sdk : Sdk) (s : Services) (R : Type 0) where
  -- The log of a search that found the rule `id`: the network gave the number of rules, and was then
  -- asked for each up to this one.
  abbrev pub IsDiscovered :
      (counter account : Text) → (log : List Event) → (id : ℕ) → List Event → Type 0
  IsDiscovered counter account log id log' =
      (source : Text) × (p : Passed) × (v : Native) × (p.return_value ≡ some v)
      × IsSearched counter source account (count_of v) 0
          (simulated (count_tx source account) (ok (passed p)) ∷ random_keypair (ok source) ∷ log)
          (some id) log'

  start_done :
      {C : Type 0} (sim : Simulation) (k : Passed → Route Event R (Option ℕ)) (log : List Event)
      {id : ℕ} {log' : List Event}
      → searched s sim k (give none) log ≡ (done (some id), log')
      → ((p : Passed) → sim ≡ passed p → k p log ≡ (done (some id), log') → C)
      → C
  start_done (simulation_error m) k log h f = cc
  start_done (passed p) k log h f = f p refl h

  search_rules_done :
      (counter account : Text) (log : List Event) {id : ℕ} {log' : List Event}
      → search_rules s {R = R} sdk counter account log ≡ (done (some id), log')
      → IsDiscovered counter account log id log'
  unfolding search_rules
  search_rules_done counter account log h = attempted (sdk.check_contract account) _ log h λ u e h₁.
      called _ _ _ log h₁ λ source e₁ h₂. called _ _ _ _ h₂ λ sim e₂ h₃.
        start_done sim _ _ h₃ λ p q h₄. returned_done p.return_value _ _ h₄ λ v e₃ h₅.
          let found = find_rule-IsSearched s R counter source account (count_of v) 0 _ h₅ in
          (source, p, v, e₃, rw q at found)

  -- However the network answers, the search for the context rule comes to its end. Where it finds a
  -- rule, this is the first that covers the calls of the counter: every rule before it was asked
  -- for, in order, and either its simulation failed or it is for other calls.
  pub discover_rule-IsDiscovered :
      (counter account : Text) (log : List Event)
      → (found : Option ℕ) × (log' : List Event) × (discover_rule s {R = R} sdk counter account log
          ≡ (done found, log'))
        × ((id : ℕ) → found ≡ some id → IsDiscovered counter account log id log')
  unfolding discover_rule rescue
  discover_rule-IsDiscovered counter account log =
      let r =
        rescued_done (search_rules s {R = R} sdk counter account log)
          (search_rules-IsQuiet s R sdk counter account log) in
      (r.0, r.1, r.2, λ id e. found_done r.0 r.1 id e (r.3 id e))
    where
      found_done :
          (found : Option ℕ) (log' : List Event) (id : ℕ)
          → found ≡ some id
          → search_rules s {R = R} sdk counter account log ≡ (done found, log')
          → IsDiscovered counter account log id log'
      found_done found log' id e h = search_rules_done counter account log (rw e at h)
