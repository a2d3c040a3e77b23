-- ===== src/Effects/Ends.antt =====
-- How a run ends: what holds of its value and log if it comes to its end, and of its error and log if
-- it throws. A run that answers early has no such end.
use latch_playground.Common.{List, ◌∷◌, String}
use latch_playground.Common.Result.{Result, ok, err}
use latch_playground.Effects.{
  Exit, done, early, thrown, Route, next, ◌>>=◌, settle, call, attempt, handled, handle, rescued,
  rescue,
}

abbrev EndsAs :
    {E R A : Type 0}
    → (A → List E → Type 0)
    → (String → List E → Type 0)
    → Exit R A × List E
    → Type 0
EndsAs P Q (done a, log) = P a log
EndsAs P Q (early n m, log) = ⊥
EndsAs P Q (thrown m, log) = Q m log

pub record Ends {E R A : Type 0} (P : A → List E → Type 0) (Q : String → List E → Type 0)
    (x : Exit R A × List E) : Type 0 where
  pub ends : EndsAs P Q x

module _ {E R A : Type 0} {P : A → List E → Type 0} {Q : String → List E → Type 0} where
  pub done-Ends : (a : A) (log : List E) → P a log → Ends {R = R} P Q (done a, log)
  done-Ends a log h = record { ends = h }

  pub thrown-Ends : (m : String) (log : List E) → Q m log → Ends {R = R} P Q (thrown m, log)
  thrown-Ends m log h = record { ends = h }

  handled-Ends :
      (f : String → Route E R A) (x : Exit R A × List E)
      → Ends P (λ m l. Ends P Q (f m l)) x
      → Ends P Q (handled f x)
  handled-Ends f (done a, log) h = done-Ends a log h.ends
  handled-Ends f (early n m, log) h = elim h.ends [ ]
  handled-Ends f (thrown m, log) h = h.ends

  pub handle-Ends :
      (f : String → Route E R A) (m : Route E R A) (log : List E)
      → Ends P (λ e l. Ends P Q (f e l)) (m log)
      → Ends P Q (handle f m log)
  unfolding handle
  handle-Ends f m log h = handled-Ends f (m log) h

  settle-Ends :
      (answer : Result String A) (event : Result String A → E) (log : List E)
      → ((m : String) → Q m (event (err m) ∷ log))
      → ((a : A) → P a (event (ok a) ∷ log))
      → Ends {R = R} P Q (settle answer (event answer) log)
  settle-Ends (ok a) event log q p = done-Ends a _ (p a)
  settle-Ends (err m) event log q p = thrown-Ends m _ (q m)

  pub call-Ends :
      (service : List E → Result String A) (event : Result String A → E) (log : List E)
      → ((m : String) → Q m (event (err m) ∷ log))
      → ((a : A) → P a (event (ok a) ∷ log))
      → Ends {R = R} P Q (call service event log)
  unfolding call
  call-Ends service event log q p = settle-Ends (service log) event log q p

  pub attempt-Ends :
      (r : Result String A) (log : List E)
      → ((m : String) → Q m log)
      → ((a : A) → P a log)
      → Ends {R = R} P Q (attempt r log)
  attempt-Ends (ok a) log q p = done-Ends a log (p a)
  attempt-Ends (err m) log q p = thrown-Ends m log (q m)

  rescued-Ends : (a : A) (x : Exit R A × List E) → Ends P (λ m l. P a l) x → Ends P Q (rescued a x)
  rescued-Ends a (done b, log) h = done-Ends b log h.ends
  rescued-Ends a (early n m, log) h = elim h.ends [ ]
  rescued-Ends a (thrown m, log) h = done-Ends a log h.ends

  pub rescue-Ends :
      (a : A) (m : Route E R A) (log : List E)
      → Ends P (λ e l. P a l) (m log)
      → Ends P Q (rescue a m log)
  unfolding rescue
  rescue-Ends a m log h = rescued-Ends a (m log) h

next-Ends :
    {E R A B : Type 0} {P : B → List E → Type 0} {Q : String → List E → Type 0} (x : Exit R A)
    (log : List E) (k : A → Route E R B)
    → Ends (λ a l. Ends P Q (k a l)) Q (x, log)
    → Ends P Q (next x log k)
next-Ends (done a) log k h = h.ends
next-Ends (early n m) log k h = elim h.ends [ ]
next-Ends (thrown m) log k h = thrown-Ends m log h.ends

pub step-Ends :
    {E R A B : Type 0} {P : B → List E → Type 0} {Q : String → List E → Type 0} (m : Route E R A)
    (k : A → Route E R B) (log : List E)
    → Ends (λ a l. Ends P Q (k a l)) Q (m log)
    → Ends P Q ((m >>= k) log)
unfolding ◌>>=◌
step-Ends m k log h = next-Ends (m log).0 (m log).1 k h

pub weaken-Ends :
    {E R A : Type 0} {P P' : A → List E → Type 0} {Q : String → List E → Type 0}
    (x : Exit R A × List E)
    → ((a : A) (log : List E) → P a log → P' a log)
    → Ends P Q x
    → Ends P' Q x
weaken-Ends (done a, log) f h = done-Ends a log (f a log h.ends)
weaken-Ends (early n m, log) f h = elim h.ends [ ]
weaken-Ends (thrown m, log) f h = thrown-Ends m log h.ends

pub weaken-thrown :
    {E R A : Type 0} {P : A → List E → Type 0} {Q Q' : String → List E → Type 0}
    (x : Exit R A × List E)
    → ((m : String) (log : List E) → Q m log → Q' m log)
    → Ends P Q x
    → Ends P Q' x
weaken-thrown (done a, log) f h = done-Ends a log h.ends
weaken-thrown (early n m, log) f h = elim h.ends [ ]
weaken-thrown (thrown m, log) f h = thrown-Ends m log (f m log h.ends)

pub log-Ends :
    {E R A : Type 0} {P : List E → Type 0} (x : Exit R A × List E)
    → Ends (λ a l. P l) (λ m l. P l) x
    → P x.1
log-Ends (done a, log) h = h.ends
log-Ends (early n m, log) h = elim h.ends [ ]
log-Ends (thrown m, log) h = h.ends
