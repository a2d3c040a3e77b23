-- ===== src/Effects.antt =====
-- How a route runs: it calls its environment, may answer early, and may throw. Every call is logged
-- with its answer, the newest first, and the environment answers by the whole log, so that a
-- statement about every environment is one about every sequence of answers.
use latch_playground.Common.{ℕ, Bool, true, false, List, ◌∷◌, String, Option, none, some}
use latch_playground.Common.Result.{Result, ok, err}
pub mod Steps
pub mod Every
pub mod Quiet
pub mod Forward
pub mod Ends

-- A JSON answer with status 200, or `{ error }` with another status.
pub data Response (R : Type 0) : Type 0 where
  json : R → Response R
  error : ℕ → String → Response R

pub data Exit (R A : Type 0) : Type 0 where
  done : A → Exit R A
  early : ℕ → String → Exit R A
  thrown : String → Exit R A

abbrev pub Route : Type 0 → Type 0 → Type 0 → Type 0
Route E R A = List E → Exit R A × List E

abbrev pub next : {E R A B : Type 0} → Exit R A → List E → (A → Route E R B) → Exit R B × List E
next (done a) log k = k a log
next (early n m) log k = (early n m, log)
next (thrown m) log k = (thrown m, log)

infixl 5 ◌>>=◌ ◌>>◌
unfoldable pub ◌>>=◌ : {E R A B : Type 0} → Route E R A → (A → Route E R B) → Route E R B
◌>>=◌ m k log = next (m log).0 (m log).1 k

abbrev pub ◌>>◌ : {E R B : Type 0} → Route E R Unit → Route E R B → Route E R B
m >> k = m >>= λ _. k

abbrev pub give : {E R A : Type 0} → A → Route E R A
give a log = (done a, log)

-- `return NextResponse.json({ error }, { status })`
abbrev pub fail_with : {E R A : Type 0} → ℕ → String → Route E R A
fail_with n m log = (early n m, log)

abbrev pub throw : {E R A : Type 0} → String → Route E R A
throw m log = (thrown m, log)

-- `if (!value) return` with an error.
abbrev pub or_fail : {E R A : Type 0} → ℕ → String → Option A → Route E R A
or_fail n m none = fail_with n m
or_fail n m (some a) = give a

-- A value of code that may throw.
abbrev pub attempt : {E R A : Type 0} → Result String A → Route E R A
attempt (ok a) = give a
attempt (err m) = throw m

-- `if (!test) return` with an error.
abbrev pub unless : {E R : Type 0} → Bool → ℕ → String → Route E R Unit
unless true n m = give tt
unless false n m = fail_with n m

abbrev pub settle : {E R A : Type 0} → Result String A → E → List E → Exit R A × List E
settle (ok a) e log = (done a, e ∷ log)
settle (err m) e log = (thrown m, e ∷ log)

-- A call of the environment: its answer, or the error that it throws.
unfoldable pub call :
    {E R A : Type 0} → (List E → Result String A) → (Result String A → E) → Route E R A
call service event log = settle (service log) (event (service log)) log

-- The same where the error is caught.
abbrev pub caught :
    {E R A : Type 0}
    → (List E → Result String A)
    → (Result String A → E)
    → Route E R (Result String A)
caught service event log = (done (service log), event (service log) ∷ log)

-- `try { … } catch { value = a }`
abbrev pub rescued : {E R A : Type 0} → A → Exit R A × List E → Exit R A × List E
rescued a (done b, log) = (done b, log)
rescued a (early n m, log) = (early n m, log)
rescued a (thrown m, log) = (done a, log)

unfoldable pub rescue : {E R A : Type 0} → A → Route E R A → Route E R A
rescue a m log = rescued a (m log)

-- `try { … } catch (error) { … }`
abbrev pub handled :
    {E R A : Type 0} → (String → Route E R A) → Exit R A × List E → Exit R A × List E
handled f (done a, log) = (done a, log)
handled f (early n m, log) = (early n m, log)
handled f (thrown m, log) = f m log

unfoldable pub handle : {E R A : Type 0} → (String → Route E R A) → Route E R A → Route E R A
handle f m log = handled f (m log)

-- `try { … } catch (error) { return { error: error.message }, 500 }`
abbrev pub respond : {E R : Type 0} → Exit R R × List E → Response R × List E
respond (done r, log) = (json r, log)
respond (early n m, log) = (error n m, log)
respond (thrown m, log) = (error 500 m, log)

abbrev pub catch_500 : {E R : Type 0} → Route E R R → List E → Response R × List E
catch_500 m log = respond (m log)
