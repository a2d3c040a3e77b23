-- ===== src/Effects/Forward.antt =====
-- Where a step is known to come to its end, the run goes on behind it.
use latch_playground.Common.{ℕ, ◌≡◌, refl, Bool, true, Option, some, List, ◌∷◌, String}
use latch_playground.Common.Result.{Result, ok}
use latch_playground.Effects.{done, Route, ◌>>=◌, call, attempt, or_fail, unless}

module _ {E R A B : Type 0} where
  pub after_step :
      (m : Route E R A) (k : A → Route E R B) (log : List E) {a : A} {mid : List E}
      → m log ≡ (done a, mid)
      → (m >>= k) log ≡ k a mid
  unfolding ◌>>=◌
  after_step m k log h = rw h refl

  pub after_call :
      (service : List E → Result String A) (event : Result String A → E) (k : A → Route E R B)
      (log : List E) {a : A}
      → service log ≡ ok a
      → (call service event >>= k) log ≡ k a (event (ok a) ∷ log)
  unfolding ◌>>=◌ call
  after_call service event k log h = rw h refl

  pub after_attempt :
      (r : Result String A) (k : A → Route E R B) (log : List E) {a : A}
      → r ≡ ok a
      → (attempt r >>= k) log ≡ k a log
  unfolding ◌>>=◌
  after_attempt r k log h = rw h refl

  pub after_present :
      (n : ℕ) (m : String) (o : Option A) (k : A → Route E R B) (log : List E) {a : A}
      → o ≡ some a
      → (or_fail n m o >>= k) log ≡ k a log
  unfolding ◌>>=◌
  after_present n m o k log h = rw h refl

pub after_guard :
    {E R B : Type 0} (test : Bool) (n : ℕ) (m : String) (k : Unit → Route E R B) (log : List E)
    → test ≡ true
    → (unless test n m >>= k) log ≡ k tt log
unfolding ◌>>=◌
after_guard test n m k log h = rw h refl
