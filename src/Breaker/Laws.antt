-- ===== src/Breaker/Laws.antt =====
-- The circuit breaker seen by its callers, over every interleaving of calls.
use cogentrex.Prelude.{
  ℕ, zero, suc, ◌+◌, ◌<◌, ◌≡◌, ◌⊎◌, ◌↔◌, some, List, [], ◌∷◌, arith, leb, if◌then◌else◌,
}
use cogentrex.Breaker.{
  Breaker, rejected, raised, closed, open_state, half_open, new, admit, finish, recovery_time,
}
use cogentrex.Breaker.System.{System, Event, enter, leave, step, run}
use cogentrex.Breaker.Invariant.{Inv, run-Inv, start-Inv}

abbrev pub start : Breaker → System
start b = record { breaker = b; flight = [] }

-- After any events on a new breaker, a closed breaker has counted fewer failures than its threshold.
pub run-below_threshold :
    (threshold timeout : ℕ) {b : Breaker} (es : List Event)
    → new threshold timeout ≡ some b
    → (run (start b) es).breaker.stored ≡ closed
    → (run (start b) es).breaker.failure_count < (run (start b) es).breaker.failure_threshold
run-below_threshold threshold timeout {b} es e =
    (run-Inv (start b) es (start-Inv threshold timeout e)).valid.below_threshold

-- In every state of the invariant a call is refused exactly when the breaker is open and its timeout has
-- not passed, or when it is half open; and a refusal changes nothing.
pub admit_refuses :
    (now : ℕ) (s : System)
    → Inv s
    → ((r : ℕ) × (admit now s.breaker ≡ (rejected r, s.breaker))) ↔ (
        ((s.breaker.stored ≡ open_state)
          × (now < s.breaker.last_failure_time + s.breaker.recovery_timeout))
        ⊎ (s.breaker.stored ≡ half_open))
unfolding admit
admit_refuses now s h =
    (λ p. ground (arith, h.valid, p.1), λ q. (recovery_time now s.breaker, ground (arith, h.valid)))

-- `n` calls, one after another, that all raise.
abbrev pub failing : ℕ → ℕ → List Event
failing now zero = []
failing now (suc n) = enter now ∷ leave now raised zero ∷ failing now n

failing_step :
    (now : ℕ) (s : System)
    → s.breaker.stored ≡ closed
    → let t = step (step s (enter now)) (leave now raised 0) in
      (t.flight ≡ s.flight)
      × (t.breaker.failure_threshold ≡ s.breaker.failure_threshold)
      × (t.breaker.failure_count ≡ s.breaker.failure_count + 1)
      × (t.breaker.stored ≡ (
          if leb s.breaker.failure_threshold (s.breaker.failure_count + 1)
          then open_state
          else closed))
unfolding step admit finish
failing_step now s c = ground arith

-- From a closed breaker, calls that fail one after another leave it closed while its failures stay
-- below the threshold, and the one that reaches the threshold opens it.
pub failing-opens :
    (now n : ℕ) (s : System)
    → s.breaker.stored ≡ closed
    → s.breaker.failure_count + suc n ≡ s.breaker.failure_threshold
    → ((run s (failing now n)).breaker.stored ≡ closed)
      × ((run s (failing now (suc n))).breaker.stored ≡ open_state)
unfolding run
failing-opens now zero s c e = ground (arith, failing_step now s c)
failing-opens now (suc n) s c e = ground (
  arith,
  failing_step now s c,
  failing-opens now n (step (step s (enter now)) (leave now raised 0)),
)
