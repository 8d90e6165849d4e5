-- ===== src/Breaker/Invariant.antt =====
-- What holds of a breaker and its calls in flight, whatever the interleaving.
use cogentrex.Prelude.{
  ℕ, ◌+◌, ◌≤◌, ◌<◌, ◌≡◌, refl, sym, ◌∙◌, ◌⊎◌, Bool, true, false, ◌&&◌, Option, none, some, List, [],
  ◌∷◌, arith, All, All-imp, All-get_elem?, All-remove, matched, matched-remove, matched_none,
  get_elem?, remove, bit, Bool-cases, leb, Option-cases, inl, inr,
}
use cogentrex.Breaker.{
  Breaker, Ticket, rejected, admitted, Outcome, returned, raised, CircuitState, closed, open_state,
  half_open, is_closed, is_half_open, same_token, new, ticket_of, begin_probe, recovery_time, admit,
  finish, reset,
}
use cogentrex.Breaker.System.{System, Event, enter, leave, reset_event, join, conclude, step, run}

abbrev pub TokenBelow : Option ℕ → ℕ → Type 0
TokenBelow none n = ⊥
TokenBelow (some k) n = k < n

-- A probe holds a token that was drawn; an ordinary call was admitted by a closed breaker, which
-- has moved on to a later epoch if it is not closed now.
pub record IsTicket (b : Breaker) (t : Ticket) : Type 0 where
  pub probe_token : t.is_probe ≡ true → TokenBelow t.token b.next_object
  pub call_epoch : t.is_probe ≡ false → t.admission_epoch ≤ b.epoch
  pub call_stale : t.is_probe ≡ false → is_closed b.stored ≡ false → t.admission_epoch < b.epoch

pub record IsValid (b : Breaker) : Type 0 where
  pub threshold_pos : 0 < b.failure_threshold
  pub timeout_pos : 0 < b.recovery_timeout
  pub probe_half : b.probe_in_flight ≡ is_half_open b.stored
  pub below_threshold : b.stored ≡ closed → b.failure_count < b.failure_threshold
  pub token_drawn : b.stored ≡ half_open → TokenBelow b.probe_token b.next_object
  pub token_none : is_half_open b.stored ≡ false → b.probe_token ≡ none

-- Whether a call in flight holds the breaker's current probe.
abbrev pub holds : Option ℕ → Ticket → Bool
holds probe t = t.is_probe && same_token probe t.token

pub record Inv (s : System) : Type 0 where
  pub valid : IsValid s.breaker
  pub tickets : All (IsTicket s.breaker) s.flight
  pub one_probe :
      matched (holds s.breaker.probe_token) s.flight ≡ bit (is_half_open s.breaker.stored)

new-IsValid : (threshold timeout : ℕ) {b : Breaker} → new threshold timeout ≡ some b → IsValid b
unfolding new
new-IsValid threshold timeout e = ground arith

reset-IsValid : (b : Breaker) → IsValid b → IsValid (reset b)
unfolding reset
reset-IsValid b v = ground arith

finish-IsValid :
    (now : ℕ) (o : Outcome) (b : Breaker) (t : Ticket)
    → IsValid b
    → IsTicket b t
    → IsValid (finish now o t b)
unfolding finish
finish-IsValid now returned b t v h = ground arith
finish-IsValid now raised b t v h = ground arith
finish-IsValid now _ b t v h = ground arith

finish-IsTicket :
    (now : ℕ) (o : Outcome) (b : Breaker) (t u : Ticket)
    → IsValid b
    → IsTicket b t
    → IsTicket b u
    → IsTicket (finish now o t b) u
unfolding finish
finish-IsTicket now returned b t u v h k = ground arith
finish-IsTicket now raised b t u v h k = ground arith
finish-IsTicket now _ b t u v h k = ground arith

reset-IsTicket : (b : Breaker) (u : Ticket) → IsTicket b u → IsTicket (reset b) u
unfolding reset
reset-IsTicket b u k = ground arith

-- With no current probe, no call holds one.
matched-holds-none :
    (b : Breaker) (rest : List Ticket) → All (IsTicket b) rest → matched (holds none) rest ≡ 0
matched-holds-none b rest ks =
    matched_none (holds none) rest (All-imp (IsTicket b) (λ u. holds none u ≡ false) rest go ks)
  where
    go : (u : Ticket) → IsTicket b u → holds none u ≡ false
    go u k = ground (arith, k.probe_token)

-- The three answers of `admit`, with what they need of a valid breaker.
pub data Answer (now : ℕ) (b : Breaker) : Type 0 where
  refused : (r : ℕ) → admit now b ≡ (rejected r, b) → Answer now b
  probed :
      b.stored ≡ open_state
      → admit now b ≡ (admitted (ticket_of true (begin_probe b)), begin_probe b)
      → Answer now b
  passed :
      b.stored ≡ closed
      → admit now b ≡ (admitted (ticket_of false b), record b { total_calls = b.total_calls + 1 })
      → Answer now b

pub admit-Answer : (now : ℕ) (b : Breaker) → IsValid b → Answer now b
unfolding admit
admit-Answer now b v = go b.stored refl
  where
    go : (c : CircuitState) → b.stored ≡ c → Answer now b
    go closed e = passed e (ground arith)
    go half_open e = refused (recovery_time now b) (ground arith)
    go open_state e = elim (Bool-cases (leb (b.last_failure_time + b.recovery_timeout) now)) [
      | inl late ↦ probed e (ground arith)
      | inr early ↦ refused (recovery_time now b) (ground arith)
    ]

holds_fresh : (b : Breaker) (u : Ticket) → IsTicket b u → holds (some b.next_object) u ≡ false
holds_fresh b u k = ground (arith, k.probe_token)

begin_probe-Inv :
    (b : Breaker) (flight : List Ticket)
    → b.stored ≡ open_state
    → Inv (record { breaker = b; flight = flight })
    → Inv (record { breaker = begin_probe b; flight = ticket_of true (begin_probe b) ∷ flight })
unfolding begin_probe
begin_probe-Inv b flight e h = record {
  valid = ground (arith, h.valid);
  tickets = (
    ground arith,
    All-imp (IsTicket b) (IsTicket (begin_probe b)) flight (λ u k. ground arith) h.tickets,
  );
  one_probe =
      rw
        (matched_none (holds (some b.next_object)) flight (
          All-imp (IsTicket b) (λ u. holds (some b.next_object) u ≡ false) flight (holds_fresh b)
            h.tickets))
        (ground arith);
}

call-Inv :
    (b : Breaker) (flight : List Ticket)
    → b.stored ≡ closed
    → Inv (record { breaker = b; flight = flight })
    → Inv (record {
      breaker = record b { total_calls = b.total_calls + 1 };
      flight = ticket_of false b ∷ flight;
    })
call-Inv b flight e h = record {
  valid = ground (arith, h.valid);
  tickets = (
    ground arith,
    All-imp (IsTicket b) (IsTicket (record b { total_calls = b.total_calls + 1 })) flight
        (λ u k. ground arith) h.tickets,
  );
  one_probe = h.one_probe;
}

admit-Inv :
    (now : ℕ) (b : Breaker) (flight : List Ticket)
    → Inv (record { breaker = b; flight = flight })
    → Inv (join (admit now b) flight)
admit-Inv now b flight h = elim (admit-Answer now b h.valid) [
  | refused r e ↦ rw e h
  | probed o e ↦ rw e (begin_probe-Inv b flight o h)
  | passed c e ↦ rw e (call-Inv b flight c h)
]

-- Ending a call gives the probe up, or leaves it with the call that holds it.
pub finish-probe_token :
    (now : ℕ) (o : Outcome) (b : Breaker) (t : Ticket)
    → IsValid b
    → IsTicket b t
    → (((finish now o t b).probe_token ≡ none) × (is_half_open (finish now o t b).stored ≡ false))
      ⊎ (((finish now o t b).probe_token ≡ b.probe_token)
          × (holds b.probe_token t ≡ false)
          × (is_half_open (finish now o t b).stored ≡ is_half_open b.stored))
unfolding finish
finish-probe_token now returned b t v k = ground arith
finish-probe_token now raised b t v k = ground arith
finish-probe_token now _ b t v k = ground arith

finish-one_probe :
    (now : ℕ) (o : Outcome) (b : Breaker) (t : Ticket) (rest : List Ticket)
    → IsValid b
    → IsTicket b t
    → All (IsTicket b) rest
    → matched (holds b.probe_token) rest + bit (holds b.probe_token t) ≡ bit (is_half_open b.stored)
    → matched (holds (finish now o t b).probe_token) rest
      ≡ bit (is_half_open (finish now o t b).stored)
finish-one_probe now o b t rest v k ks e = elim (finish-probe_token now o b t v k) [
  | inl (gone, cold) ↦ rw (gone, cold) (matched-holds-none b rest ks)
  | inr (kept, other, same) ↦ rw (kept, same, ← e, other) (omega arith)
]

-- The ticket of a call in flight.
pub flight-IsTicket :
    (i : ℕ) (t : Ticket) (s : System) → get_elem? s.flight i ≡ some t → Inv s → IsTicket s.breaker t
flight-IsTicket i t s at h = All-get_elem? (IsTicket s.breaker) s.flight i at h.tickets

conclude-Inv :
    (now : ℕ) (o : Outcome) (i : ℕ) (t : Ticket) (s : System)
    → get_elem? s.flight i ≡ some t
    → Inv s
    → Inv (conclude now o i (some t) s)
conclude-Inv now o i t s at h = record {
  valid = finish-IsValid now o s.breaker t h.valid k;
  tickets =
      All-imp (IsTicket s.breaker) (IsTicket (finish now o t s.breaker)) (remove s.flight i)
        (λ u ku. finish-IsTicket now o s.breaker t u h.valid k ku) rest;
  one_probe =
      finish-one_probe now o s.breaker t (remove s.flight i) h.valid k rest
        (sym (matched-remove (holds s.breaker.probe_token) s.flight i at) ∙ h.one_probe);
}
  where
    k : IsTicket s.breaker t
    k = flight-IsTicket i t s at h

    rest : All (IsTicket s.breaker) (remove s.flight i)
    rest = All-remove (IsTicket s.breaker) s.flight i h.tickets

reset-Inv : (s : System) → Inv s → Inv (record s { breaker = reset s.breaker })
reset-Inv s h = record {
  valid = reset-IsValid s.breaker h.valid;
  tickets =
      All-imp (IsTicket s.breaker) (IsTicket (reset s.breaker)) s.flight (reset-IsTicket s.breaker)
        h.tickets;
  one_probe = unfold reset in matched-holds-none s.breaker s.flight h.tickets;
}

pub step-Inv : (s : System) (e : Event) → Inv s → Inv (step s e)
unfolding step
step-Inv s (enter now) h = admit-Inv now s.breaker s.flight h
step-Inv s (leave now o i) h = elim (Option-cases (get_elem? s.flight i)) [
  | inl gone ↦ rw gone h
  | inr (t, at) ↦ rw at (conclude-Inv now o i t s at h)
]
step-Inv s reset_event h = reset-Inv s h

pub run-Inv : (s : System) (es : List Event) → Inv s → Inv (run s es)
unfolding run
run-Inv s [] h = h
run-Inv s (e ∷ es) h = run-Inv (step s e) es (step-Inv s e h)

pub start-Inv :
    (threshold timeout : ℕ) {b : Breaker}
    → new threshold timeout ≡ some b
    → Inv (record { breaker = b; flight = [] })
start-Inv threshold timeout {b} e = record {
  valid = new-IsValid threshold timeout e;
  tickets = tt;
  one_probe = unfold new in ground (arith, e);
}
