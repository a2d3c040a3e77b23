-- ===== src/Effects/Every.antt =====
-- What holds of the log after every run of a route, whatever way it ends.
use mathlib.Core.Path.{subst}
use latch_playground.Common.{
  ℕ, ◌≡◌, refl, sym, Bool, true, false, Option, none, some, List, ◌∷◌, String,
}
use latch_playground.Common.Result.{Result, ok, err}
use latch_playground.Effects.{
  Exit, done, early, thrown, Route, next, ◌>>=◌, settle, call, unless, respond, attempt, or_fail,
}

-- It holds of the log after the first step, and of the log after the rest if the first step came to
-- its end.
next_every :
    {E R A B : Type 0} (P : List E → Type 0) (x : Exit R A) (mid : List E) (k : A → Route E R B)
    → P mid
    → ((a : A) → x ≡ done a → P (k a mid).1)
    → P (next x mid k).1
next_every P (done a) mid k p f = f a refl
next_every P (early n m) mid k p f = p
next_every P (thrown m) mid k p f = p

pub step_every :
    {E R A B : Type 0} (P : List E → Type 0) (m : Route E R A) (k : A → Route E R B) (log : List E)
    → P (m log).1
    → ((a : A) → (m log).0 ≡ done a → P (k a (m log).1).1)
    → P ((m >>= k) log).1
unfolding ◌>>=◌
step_every P m k log p f = next_every P (m log).0 (m log).1 k p f

answer_every :
    {E R A B : Type 0} (P : List E → Type 0) (answer : Result String A)
    (event : Result String A → E) (k : A → Route E R B) (log : List E)
    → ((r : Result String A) → P (event r ∷ log))
    → ((a : A) → answer ≡ ok a → P (k a (event (ok a) ∷ log)).1)
    → (let x = settle {R = R} answer (event answer) log in P (next x.0 x.1 k).1)
answer_every P (ok a) event k log p f = f a refl
answer_every P (err m) event k log p f = p (err m)

pub call_every :
    {E R A B : Type 0} (P : List E → Type 0) (service : List E → Result String A)
    (event : Result String A → E) (k : A → Route E R B) (log : List E)
    → ((r : Result String A) → P (event r ∷ log))
    → ((a : A) → service log ≡ ok a → P (k a (event (ok a) ∷ log)).1)
    → P ((call service event >>= k) log).1
unfolding ◌>>=◌ call
call_every P service event k log p f = answer_every P (service log) event k log p f

pub unless_every :
    {E R B : Type 0} (P : List E → Type 0) (test : Bool) (n : ℕ) (m : String)
    (k : Unit → Route E R B) (log : List E)
    → P log
    → (test ≡ true → P (k tt log).1)
    → P ((unless test n m >>= k) log).1
unfolding ◌>>=◌
unless_every P true n m k log p f = f refl
unless_every P false n m k log p f = p

pub respond_every :
    {E R : Type 0} (P : List E → Type 0) (x : Exit R R × List E) → P x.1 → P (respond x).1
respond_every P (done a, l) p = p
respond_every P (early n m, l) p = p
respond_every P (thrown m, l) p = p

-- A step that makes no call leaves the log as it was.
pub quiet_every :
    {E R A B : Type 0} (P : List E → Type 0) (m : Route E R A) (k : A → Route E R B) (log : List E)
    → (m log).1 ≡ log
    → P log
    → ((a : A) → P (k a log).1)
    → P ((m >>= k) log).1
quiet_every P m k log q p f =
    step_every P m k log (subst P (sym q) p) (λ a _. subst (λ l. P (k a l).1) (sym q) (f a))

settled_every :
    {E A : Type 0} (R : Type 0) (P : List E → Type 0) (answer : Result String A)
    (event : Result String A → E) (log : List E)
    → ((r : Result String A) → P (event r ∷ log))
    → P (settle {R = R} answer (event answer) log).1
settled_every R P (ok a) event log p = p (ok a)
settled_every R P (err m) event log p = p (err m)

pub last_every :
    {E A : Type 0} (R : Type 0) (P : List E → Type 0) (service : List E → Result String A)
    (event : Result String A → E) (log : List E)
    → ((r : Result String A) → P (event r ∷ log))
    → P (call {R = R} service event log).1
unfolding call
last_every R P service event log p = settled_every R P (service log) event log p

module _ {E R A B : Type 0} (P : List E → Type 0) where
  pub attempt_every :
      (r : Result String A) (k : A → Route E R B) (log : List E)
      → P log
      → ((a : A) → r ≡ ok a → P (k a log).1)
      → P ((attempt r >>= k) log).1
  unfolding ◌>>=◌
  attempt_every (ok a) k log p f = f a refl
  attempt_every (err m) k log p f = p

  pub or_fail_every :
      (n : ℕ) (m : String) (o : Option A) (k : A → Route E R B) (log : List E)
      → P log
      → ((a : A) → o ≡ some a → P (k a log).1)
      → P ((or_fail n m o >>= k) log).1
  unfolding ◌>>=◌
  or_fail_every n m none k log p f = p
  or_fail_every n m (some a) k log p f = f a refl
