-- ===== src/Breaker/System.antt =====
-- A breaker with the calls that are in flight: `CircuitBreaker.call` of many tasks, interleaved at
-- its locked blocks in any order.
use cogentrex.Prelude.{ℕ, Option, none, some, List, [], ◌∷◌, get_elem?, remove}
use cogentrex.Breaker.{
  Breaker, Ticket, Admission, rejected, admitted, Outcome, admit, finish, reset,
}

pub record System : Type 0 where
  pub breaker : Breaker
  pub flight : List Ticket

-- A call enters at a time, the call at a position of `flight` ends, or an operator resets.
pub data Event : Type 0 where
  enter : ℕ → Event
  leave : ℕ → Outcome → ℕ → Event
  reset_event : Event

abbrev pub join : Admission × Breaker → List Ticket → System
join (rejected _, b) flight = record { breaker = b; flight = flight }
join (admitted t, b) flight = record { breaker = b; flight = t ∷ flight }

abbrev pub conclude : ℕ → Outcome → ℕ → Option Ticket → System → System
conclude now o i none s = s
conclude now o i (some t) s = record {
  breaker = finish now o t s.breaker;
  flight = remove s.flight i;
}

unfoldable pub step : System → Event → System
step s (enter now) = join (admit now s.breaker) s.flight
step s (leave now o i) = conclude now o i (get_elem? s.flight i) s
step s reset_event = record s { breaker = reset s.breaker }

unfoldable pub run : System → List Event → System
run s [] = s
run s (e ∷ es) = run (step s e) es
