-- ===== src/Submit/Sending.antt =====
-- The log of a sending: what the three submission routes of app/api/transaction do once a simulation
-- has passed.
use latch_playground.Common.{
  ℕ, zero, suc, ◌+◌, ◌*◌, ◌<◌, ◌≤◌, ◌≡◌, ◌≢◌, refl, ap, ◌∙◌, ◌⊎◌, inl, inr, arith, Option, none,
  some, List, ◌∷◌, String, length,
}
use latch_playground.Common.Result.{ok}
use latch_playground.Text.{Text}
use latch_playground.Effects.{done, Route, ◌>>=◌}
use latch_playground.Effects.Steps.{step_done, called}
use latch_playground.Chain.{
  Tx, Passed, Sent, refused, accepted, TxStatus, not_found, failed, success,
}
use latch_playground.Server.{Event, Services, waited, sent, polled}
use latch_playground.Submit.{or_throw, wait, again, succeeded, poll, send, Submitted}
use latch_playground.Effects.Every.{step_every, call_every}

-- `n` rounds in which the network did not know the transaction.
abbrev pub unseen : ℕ → Text → List Event → List Event
unseen zero hash log = log
unseen (suc n) hash log = unseen n hash (polled hash (ok not_found) ∷ waited 1000 ∷ log)

-- The log of a transaction that was sent, and that the network reported after `k` rounds.
abbrev pub sent_log : Tx → Passed → Text → Text → Option Text → ℕ → List Event → List Event
sent_log tx p secret hash v k log =
    polled hash (ok (success v))
    ∷ waited 1000
    ∷ unseen k hash (sent tx p secret (ok (accepted hash)) ∷ log)

pub or_throw_done :
    {R B C : Type 0} (m : String) (result : Sent) (k : Text → Route Event R B) (log : List Event)
    {b : B} {log' : List Event}
    → (or_throw m result >>= k) log ≡ (done b, log')
    → ((hash : Text) → result ≡ accepted hash → k hash log ≡ (done b, log') → C)
    → C
unfolding ◌>>=◌
or_throw_done m refused k log h f = cc
or_throw_done m (accepted hash) k log h f = f hash refl h

module _ (s : Services) where
  again_done :
      {R : Type 0} (status : TxStatus) (rest : Route Event R (Option TxStatus)) (log : List Event)
      {st : TxStatus} {log' : List Event}
      → again status rest log ≡ (done (some st), log')
      → (status ≡ not_found) × (rest log ≡ (done (some st), log')) ⊎ (status ≡ st) × (log' ≡ log)
  again_done not_found rest log h = inl (refl, h)
  again_done failed rest log h = inr (ground arith, ground arith)
  again_done (success w) rest log h = inr (ground arith, ground arith)

  -- A status that ends the polling was reported in its last call, after rounds in which the network did
  -- not know the transaction.
  pub poll_done :
      {R : Type 0} (n : ℕ) (hash : Text) (last : Option TxStatus) (log : List Event) {st : TxStatus}
      {log' : List Event}
      → last ≢ some st
      → st ≢ not_found
      → poll s {R = R} n hash last log ≡ (done (some st), log')
      → (k : ℕ) × (k < n) × (log' ≡ polled hash (ok st) ∷ waited 1000 ∷ unseen k hash log)
  unfolding poll
  poll_done zero hash last log d f h = absurd (d (ground arith))
  poll_done (suc n) hash last log {st} d f h = step_done (wait 1000) _ log h λ u mid e₁ h₁.
      called _ _ _ _ h₁ λ status e₂ h₂.
        let m : waited 1000 ∷ log ≡ mid = ap (λ x. x.1) e₁ in
        elim (again_done status (poll s n hash (some status)) _ h₂) [
          | inr (e, l) ↦ (zero, omega arith, cc)
          | inl (e, r) ↦
              let ih = poll_done n hash (some status) _ (λ x. f (ground (arith, x, e))) f r in
              let before : polled hash (ok status) ∷ mid
                  ≡ polled hash (ok not_found) ∷ waited 1000 ∷ log =
                cc in
              (
                suc ih.0,
                omega (arith, ih.1),
                ih.2 ∙ ap (λ t. polled hash (ok st) ∷ waited 1000 ∷ unseen ih.0 hash t) before,
              )
        ]

  succeeded_done :
      (hash : Text) (last : Option TxStatus) (log : List Event) {r : Submitted} {log' : List Event}
      → succeeded {R = Submitted} hash last log ≡ (done r, log')
      → (v : Option Text) × (last ≡ some (success v)) × (r.hash ≡ hash) × (log' ≡ log)
  succeeded_done hash none log h = cc
  succeeded_done hash (some not_found) log h = cc
  succeeded_done hash (some failed) log h = cc
  succeeded_done hash (some (success v)) log h = (v, refl, ground arith, ground arith)

  -- A sending that comes to its end sent the transaction once, and the network reported its success
  -- within 30 rounds of polling, under the hash that is answered.
  pub send_done :
      (m : String) (tx : Tx) (p : Passed) (secret : Text) (log : List Event) {r : Submitted}
      {log' : List Event}
      → send s {R = Submitted} m tx p secret log ≡ (done r, log')
      → (v : Option Text) × (k : ℕ) × (k < 30) × (log' ≡ sent_log tx p secret r.hash v k log)
  unfolding send
  send_done m tx p secret log {r} h = called _ _ _ log h λ result e₁ h₁.
      or_throw_done m result _ _ h₁ λ hash e₂ h₂.
        step_done (poll s 30 hash none) _ _ h₂ λ last mid e₃ h₃.
          let f = succeeded_done hash last mid h₃ in
          let st : poll s 30 hash none (sent tx p secret (ok result) ∷ log)
              ≡ (done (some (success f.0)), mid) =
            rw f.1 at e₃ in
          let q = poll_done 30 hash none _ (λ x. cc) (λ x. cc) st in
          (f.0, q.0, q.1, f.3 ∙ q.2 ∙ rw (e₂, f.2))

  again_size :
      (n : ℕ) (status : TxStatus) (rest : Route Event Submitted (Option TxStatus))
      (log : List Event)
      → length (rest log).1 ≤ length log + n
      → length (again status rest log).1 ≤ length log + n
  again_size n not_found rest log h = h
  again_size n failed rest log h = omega arith
  again_size n (success v) rest log h = omega arith

  poll_size :
      (n : ℕ) (hash : Text) (last : Option TxStatus) (log : List Event)
      → length (poll s {R = Submitted} n hash last log).1 ≤ length log + 2 * n
  unfolding poll
  poll_size zero hash last log = omega arith
  poll_size (suc n) hash last log =
      step_every (λ l. length l ≤ length log + 2 * suc n) (wait 1000) _ log (omega arith)
        λ u e.
          call_every (λ l. length l ≤ length log + 2 * suc n) _ _ _ _ (λ r. omega arith)
            λ status e₂.
              let l = polled hash (ok status) ∷ waited 1000 ∷ log in
              let more = poll_size n hash (some status) l in
              omega (arith, again_size (2 * n) status (poll s n hash (some status)) l more)

  succeeded_size :
      (hash : Text) (last : Option TxStatus) (log : List Event)
      → (succeeded {R = Submitted} hash last log).1 ≡ log
  succeeded_size hash none log = refl
  succeeded_size hash (some not_found) log = refl
  succeeded_size hash (some failed) log = refl
  succeeded_size hash (some (success v)) log = refl

  or_throw_every :
      {A B : Type 0} (P : List Event → Type 0) (m : String) (result : Sent)
      (k : Text → Route Event A B) (log : List Event)
      → P log
      → ((hash : Text) → P (k hash log).1)
      → P ((or_throw m result >>= k) log).1
  unfolding ◌>>=◌
  or_throw_every P m refused k log p f = p
  or_throw_every P m (accepted hash) k log p f = f hash

  -- However the network answers, a sending ends, after at most 61 entries of the log: the sending
  -- itself, and 30 rounds of a pause and a lookup.
  pub send_size :
      (m : String) (tx : Tx) (p : Passed) (secret : Text) (log : List Event)
      → length (send s {R = Submitted} m tx p secret log).1 ≤ length log + 61
  unfolding send
  send_size m tx p secret log =
      call_every (λ l. length l ≤ length log + 61) _ _ _ log (λ r. omega arith)
        λ result e.
          or_throw_every (λ l. length l ≤ length log + 61) m result _ _ (omega arith)
            λ hash.
              let start = sent tx p secret (ok result) ∷ log in
              let bound = poll_size 30 hash none start in
              step_every (λ l. length l ≤ length log + 61) (poll s 30 hash none) _ _
                (omega (arith, bound))
                λ last e₂. omega (
                  arith,
                  bound,
                  ap length
                      (succeeded_size hash last (poll s {R = Submitted} 30 hash none start).1),
                )
