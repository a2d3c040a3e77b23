-- ===== src/Effects/Quiet.antt =====
-- The steps of a route that do not answer by themselves.
use latch_playground.Common.{List, String}
use latch_playground.Common.Result.{Result, ok, err}
use latch_playground.Effects.{Exit, done, early, thrown, Route, next, settle, attempt}

-- A step that does not answer by itself: it comes to its end or throws.
abbrev pub IsQuiet : {R A : Type 0} → Exit R A → Type 0
IsQuiet (done a) = Unit
IsQuiet (early n m) = ⊥
IsQuiet (thrown m) = Unit

pub next-IsQuiet :
    {E R A B : Type 0} (x : Exit R A) (log : List E) (k : A → Route E R B)
    → IsQuiet x
    → ((a : A) (l : List E) → IsQuiet (k a l).0)
    → IsQuiet (next x log k).0
next-IsQuiet (done a) log k q f = f a log
next-IsQuiet (early n m) log k q f = q
next-IsQuiet (thrown m) log k q f = q

pub settle-IsQuiet :
    (R : Type 0) {E A : Type 0} (r : Result String A) (e : E) (log : List E)
    → IsQuiet (settle {R = R} r e log).0
settle-IsQuiet R (ok a) e log = tt
settle-IsQuiet R (err m) e log = tt

pub attempt-IsQuiet :
    (R : Type 0) {E A : Type 0} (r : Result String A) (log : List E)
    → IsQuiet (attempt {R = R} r log).0
attempt-IsQuiet R (ok a) log = tt
attempt-IsQuiet R (err m) log = tt
