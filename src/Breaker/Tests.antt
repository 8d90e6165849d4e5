-- ===== src/Breaker/Tests.antt =====
-- Runs of the breaker, and the theorems at concrete inputs.
use cogentrex.Prelude.{
  ◌≡◌, refl, ◌+◌, ◌<◌, ◌⊎◌, ◌↔◌, ℕ, none, some, false, List, [], ◌∷◌, matched, bit,
}
use cogentrex.Breaker.{
  Breaker, rejected, raised, closed, open_state, half_open, is_half_open, new, admit, finish,
}
use cogentrex.Breaker.System.{Event, enter, leave, run, step}
use cogentrex.Breaker.Invariant.{holds, run-Inv, start-Inv}
use cogentrex.Breaker.Laws.{start, run-below_threshold, admit_refuses, failing, failing-opens}
use cogentrex.Breaker.Probes.{probes, trials_over, run-one_probe}

abbrev fresh : Breaker
fresh = record {
  failure_threshold = 2;
  recovery_timeout = 30;
  stored = closed;
  failure_count = 0;
  last_failure_time = 0;
  success_count = 0;
  total_calls = 0;
  probe_in_flight = false;
  epoch = 0;
  generation = 0;
  probe_token = none;
  next_object = 0;
}

fresh_lem : new 2 30 ≡ some fresh
unfolding new
fresh_lem = refl

-- Two failures open the breaker; at 40 a probe enters, a second caller is refused.
abbrev outage : List Event
outage =
    enter 1 ∷ enter 2 ∷ leave 3 raised 0 ∷ leave 4 raised 0 ∷ enter 5 ∷ enter 40 ∷ enter 41 ∷ []

outage_probes :
    ((run (start fresh) outage).breaker.stored ≡ half_open)
    × ((run (start fresh) outage).breaker.failure_count ≡ 2)
unfolding run step admit finish
outage_probes = (refl, refl)

run-one_probe_example :
    let s = run (start fresh) outage in
    (probes (start fresh) outage
      ≡ trials_over (start fresh) outage + bit (is_half_open s.breaker.stored))
    × (matched (holds s.breaker.probe_token) s.flight ≡ bit (is_half_open s.breaker.stored))
run-one_probe_example = run-one_probe 2 30 outage fresh_lem

abbrev recovery : List Event
recovery = enter 1 ∷ leave 3 raised 0 ∷ []

run-below_threshold_example :
    (run (start fresh) recovery).breaker.failure_count
    < (run (start fresh) recovery).breaker.failure_threshold
unfolding run step admit finish
run-below_threshold_example = run-below_threshold 2 30 recovery fresh_lem refl

admit_refuses_example :
    let s = run (start fresh) outage in
    ((r : ℕ) × (admit 42 s.breaker ≡ (rejected r, s.breaker))) ↔ (
      ((s.breaker.stored ≡ open_state)
        × (42 < s.breaker.last_failure_time + s.breaker.recovery_timeout))
      ⊎ (s.breaker.stored ≡ half_open))
admit_refuses_example =
    admit_refuses 42 (run (start fresh) outage)
      (run-Inv (start fresh) outage (start-Inv 2 30 fresh_lem))

failing-opens_example :
    ((run (start fresh) (failing 7 1)).breaker.stored ≡ closed)
    × ((run (start fresh) (failing 7 2)).breaker.stored ≡ open_state)
failing-opens_example = failing-opens 7 1 (start fresh) refl refl
