-- ===== src/Breaker.antt =====
-- The circuit breaker of backend/app/security/circuit_breaker.py. Times are natural numbers of
-- clock ticks; `object()` tokens are numbers drawn from a counter, which makes each one fresh.
pub mod System
pub mod Invariant
pub mod Laws
pub mod Probes
mod Tests
use cogentrex.Prelude.{
  ℕ, ◌+◌, ◌-◌, Bool, true, false, ◌&&◌, ◌||◌, not, Option, none, some, ltb, leb, ◌==◌,
  if◌then◌else◌,
}

pub data CircuitState : Type 0 where
  closed open_state half_open : CircuitState

pub record Breaker : Type 0 where
  pub failure_threshold : ℕ
  pub recovery_timeout : ℕ
  pub stored : CircuitState
  pub failure_count : ℕ
  pub last_failure_time : ℕ
  pub success_count : ℕ
  pub total_calls : ℕ
  pub probe_in_flight : Bool
  pub epoch : ℕ
  pub generation : ℕ
  pub probe_token : Option ℕ
  pub next_object : ℕ

abbrev pub is_closed : CircuitState → Bool
is_closed closed = true
is_closed _ = false

abbrev pub is_open : CircuitState → Bool
is_open open_state = true
is_open _ = false

abbrev pub is_half_open : CircuitState → Bool
is_half_open half_open = true
is_half_open _ = false

-- `__init__`; a threshold or a timeout that is not positive is refused.
pub new : ℕ → ℕ → Option Breaker
new threshold timeout =
    if ltb threshold 1 || leb timeout 0
    then none
    else some (record {
      failure_threshold = threshold;
      recovery_timeout = timeout;
      stored = closed;
      failure_count = 0;
      last_failure_time = 0;
      success_count = 0;
      total_calls = 0;
      probe_in_flight = false;
      epoch = 0;
      generation = 0;
      probe_token = none;
      next_object = 0;
    })

-- The property `state`: an open breaker reads as half open once the timeout has passed.
pub state : ℕ → Breaker → CircuitState
state now b =
    if is_open b.stored && leb (b.last_failure_time + b.recovery_timeout) now
    then half_open
    else b.stored

-- What an admitted call remembers until it ends.
pub record Ticket : Type 0 where
  pub is_probe : Bool
  pub token : Option ℕ
  pub admission_epoch : ℕ
  pub admission_generation : ℕ

pub data Admission : Type 0 where
  rejected : ℕ → Admission
  admitted : Ticket → Admission

-- `CircuitBreakerOpenError.recovery_time`: what remains of the timeout, at least 0.
pub recovery_time : ℕ → Breaker → ℕ
recovery_time now b = b.recovery_timeout + b.last_failure_time - now

pub begin_probe : Breaker → Breaker
begin_probe b = record b {
  stored = half_open;
  probe_in_flight = true;
  epoch = b.epoch + 1;
  probe_token = some b.next_object;
  next_object = b.next_object + 1;
  total_calls = b.total_calls + 1;
}

abbrev pub ticket_of : Bool → Breaker → Ticket
ticket_of is_probe b = record {
  is_probe = is_probe;
  token = if is_probe then b.probe_token else none;
  admission_epoch = b.epoch;
  admission_generation = b.generation;
}

-- The first locked block of `call`.
pub admit : ℕ → Breaker → Admission × Breaker
unfolding state recovery_time begin_probe
admit now b =
    let current = state now b in
    if is_open current || (is_half_open current && b.probe_in_flight)
    then (rejected (recovery_time now b), b)
    else if is_half_open current
    then (admitted (ticket_of true (begin_probe b)), begin_probe b)
    else (admitted (ticket_of false b), record b { total_calls = b.total_calls + 1 })

-- `self._probe_token is token`, on object identities.
abbrev pub same_token : Option ℕ → Option ℕ → Bool
same_token none none = true
same_token (some a) (some b) = a == b
same_token _ _ = false

pub abandon_probe : ℕ → Ticket → Breaker → Breaker
abandon_probe now t b =
    if same_token b.probe_token t.token
    then record b {
      probe_in_flight = false;
      probe_token = none;
      stored = open_state;
      last_failure_time = now;
      epoch = b.epoch + 1;
      generation = b.generation + 1;
    }
    else b

open_if_exhausted : Breaker → Breaker
open_if_exhausted b =
    if leb b.failure_threshold b.failure_count
    then record b { stored = open_state; epoch = b.epoch + 1 }
    else b

-- The `except Exception` block.
pub on_failure : ℕ → Ticket → Breaker → Breaker
unfolding open_if_exhausted
on_failure now t b =
    if t.is_probe && same_token b.probe_token t.token
    then record b {
      failure_count = b.failure_count + 1;
      last_failure_time = now;
      probe_in_flight = false;
      probe_token = none;
      stored = open_state;
      epoch = b.epoch + 1;
      generation = b.generation + 1;
    }
    else if not t.is_probe && b.epoch == t.admission_epoch
    then open_if_exhausted (record b {
      failure_count = b.failure_count + 1;
      last_failure_time = now;
      generation = b.generation + 1;
    })
    else b

-- The last locked block of `call`.
pub on_success : Ticket → Breaker → Breaker
on_success t b =
    if t.is_probe && same_token b.probe_token t.token
    then record b {
      stored = closed;
      probe_in_flight = false;
      probe_token = none;
      failure_count = 0;
      success_count = b.success_count + 1;
      epoch = b.epoch + 1;
      generation = b.generation + 1;
    }
    else if not t.is_probe
        && is_closed b.stored
        && b.epoch == t.admission_epoch
        && b.generation == t.admission_generation
    then record b { failure_count = 0; success_count = b.success_count + 1 }
    else b

-- How the protected function ends.
pub data Outcome : Type 0 where
  returned raised cancelled unsupported aborted : Outcome

-- What `call` does after the protected function has ended.
pub finish : ℕ → Outcome → Ticket → Breaker → Breaker
unfolding abandon_probe on_failure on_success
finish now returned t b = on_success t b
finish now raised t b = on_failure now t b
finish now _ t b = if t.is_probe then abandon_probe now t b else b

pub reset : Breaker → Breaker
reset b = record b {
  stored = closed;
  failure_count = 0;
  success_count = 0;
  probe_in_flight = false;
  probe_token = none;
  epoch = b.epoch + 1;
  generation = b.generation + 1;
}
