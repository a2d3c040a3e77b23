-- ===== src/Requests/Read.antt =====
-- The steps of a route that reads its body.
use latch_playground.Common.{◌≡◌, refl, List}
use latch_playground.Effects.{done, Route, ◌>>=◌}
use latch_playground.Server.{Event}
use latch_playground.Requests.{JsonBody, malformed, null, members, json_body}

module _ {R A B C : Type 0} where
  pub json_read :
      (j : JsonBody A) (k : A → Route Event R B) (log : List Event) {b : B} {log' : List Event}
      → (json_body j >>= k) log ≡ (done b, log')
      → ((a : A) → j ≡ members a → k a log ≡ (done b, log') → C)
      → C
  unfolding ◌>>=◌
  json_read malformed k log h f = cc
  json_read null k log h f = cc
  json_read (members a) k log h f = f a refl h

pub json_body_every :
    {R A B : Type 0} (P : List Event → Type 0) (j : JsonBody A) (k : A → Route Event R B)
    (log : List Event)
    → P log
    → ((a : A) → j ≡ members a → P (k a log).1)
    → P ((json_body j >>= k) log).1
unfolding ◌>>=◌
json_body_every P malformed k log p f = p
json_body_every P null k log p f = p
json_body_every P (members b) k log p f = f b refl
