-- ===== src/Effects/Steps.antt =====
-- What the steps of a route did, read off a run that came to its end.

use latch_playground.Common.{
  ℕ, ◌≡◌, refl, sym, ap, ◌∙◌, arith, Bool, true, false, List, ◌∷◌, String, Option, none, some,
}
use latch_playground.Common.Result.{Result, ok, err}
use latch_playground.Effects.{
  json, Exit, done, early, thrown, Route, next, ◌>>=◌, settle, call, unless, respond, attempt,
  or_fail, give,
}

-- The end of a step, and the log behind it.
next_done :
    {E R A B : Type 0} (x : Exit R A) (mid : List E) (k : A → Route E R B) (b : B) (log' : List E)
    → next x mid k ≡ (done b, log')
    → (a : A) × (x ≡ done a) × (k a mid ≡ (done b, log'))
next_done (done a) mid k b log' h = (a, refl, h)
next_done (early n m) mid k b log' h = cc
next_done (thrown m) mid k b log' h = cc

-- A run that came to its end went through each of its steps: what holds after the first step's end
-- and the rest of the run holds of the run.
pub step_done :
    {E R A B C : Type 0} (m : Route E R A) (k : A → Route E R B) (log : List E) {b : B}
    {log' : List E}
    → (m >>= k) log ≡ (done b, log')
    → ((a : A) (mid : List E) → m log ≡ (done a, mid) → k a mid ≡ (done b, log') → C)
    → C
unfolding ◌>>=◌
step_done m k log {b} {log'} h f =
    let n = next_done (m log).0 (m log).1 k b log' h in
    f n.0 (m log).1 (λ i. (n.1 i, (m log).1)) n.2

settle_done :
    {E R A : Type 0} (answer : Result String A) (event : Result String A → E) (log : List E) (a : A)
    (log' : List E)
    → settle {R = R} answer (event answer) log ≡ (done a, log')
    → (answer ≡ ok a) × (log' ≡ event (ok a) ∷ log)
settle_done (ok b) event log a log' h =
    let e : b ≡ a = ground arith in
    let l : event (ok b) ∷ log ≡ log' = ground arith in
    (ap ok e, sym l ∙ ap (λ t. event (ok t) ∷ log) e)
settle_done (err m) event log a log' h = cc

after_answer :
    {E R A B C : Type 0} (answer : Result String A) (event : Result String A → E)
    (k : A → Route E R B) (log : List E) (b : B) (log' : List E)
    → (let x = settle {R = R} answer (event answer) log in next x.0 x.1 k ≡ (done b, log'))
    → ((a : A) → answer ≡ ok a → k a (event (ok a) ∷ log) ≡ (done b, log') → C)
    → C
after_answer (ok a) event k log b log' h f = f a refl h
after_answer (err m) event k log b log' h f = cc

pub call_done :
    {E R A : Type 0} (service : List E → Result String A) (event : Result String A → E)
    (log : List E) {a : A} {log' : List E}
    → call {R = R} service event log ≡ (done a, log')
    → (service log ≡ ok a) × (log' ≡ event (ok a) ∷ log)
unfolding call
call_done service event log {a} {log'} h = settle_done (service log) event log a log' h

-- The same for a call: the service answered, and the answer is in the log.
pub called :
    {E R A B C : Type 0} (service : List E → Result String A) (event : Result String A → E)
    (k : A → Route E R B) (log : List E) {b : B} {log' : List E}
    → (call service event >>= k) log ≡ (done b, log')
    → ((a : A) → service log ≡ ok a → k a (event (ok a) ∷ log) ≡ (done b, log') → C)
    → C
unfolding ◌>>=◌ call
called service event k log {b} {log'} h f = after_answer (service log) event k log b log' h f

-- The same for a guard: its test holds, and the log is as it was.
pub passed :
    {E R B C : Type 0} (test : Bool) (n : ℕ) (m : String) (k : Unit → Route E R B) (log : List E)
    {b : B} {log' : List E}
    → (unless test n m >>= k) log ≡ (done b, log')
    → (test ≡ true → k tt log ≡ (done b, log') → C)
    → C
unfolding ◌>>=◌
passed true n m k log h f = f refl h
passed false n m k log h f = cc

pub unless_done :
    {E R : Type 0} (test : Bool) (n : ℕ) (m : String) (log : List E) {u : Unit} {log' : List E}
    → unless {R = R} test n m log ≡ (done u, log')
    → (test ≡ true) × (log' ≡ log)
unless_done true n m log h = (refl, ground arith)
unless_done false n m log h = cc

pub respond_json :
    {E R : Type 0} (x : Exit R R × List E) {r : R} {log : List E}
    → respond x ≡ (json r, log)
    → x ≡ (done r, log)
respond_json (done a, l) h = ground arith
respond_json (early n m, l) h = cc
respond_json (thrown m, l) h = cc

module _ {E R A B C : Type 0} where
  pub attempted :
      (r : Result String A) (k : A → Route E R B) (log : List E) {b : B} {log' : List E}
      → (attempt r >>= k) log ≡ (done b, log')
      → ((a : A) → r ≡ ok a → k a log ≡ (done b, log') → C)
      → C
  unfolding ◌>>=◌
  attempted (ok a) k log h f = f a refl h
  attempted (err m) k log h f = cc

  pub present :
      (n : ℕ) (m : String) (o : Option A) (k : A → Route E R B) (log : List E) {b : B}
      {log' : List E}
      → (or_fail n m o >>= k) log ≡ (done b, log')
      → ((a : A) → o ≡ some a → k a log ≡ (done b, log') → C)
      → C
  unfolding ◌>>=◌
  present n m none k log h f = cc
  present n m (some a) k log h f = f a refl h

pub give_done :
    {E A : Type 0} (R : Type 0) (a : A) (log : List E) {b : A} {log' : List E}
    → give {R = R} a log ≡ (done b, log')
    → (a ≡ b) × (log ≡ log')
give_done R a log h = (ground arith, ap (λ x. x.1) h)
