-- ===== src/Breaker/Probes.antt =====
-- The probes of the half-open breaker, over every interleaving of calls.
use cogentrex.Prelude.{
  ℕ, ◌+◌, ◌≡◌, inl, inr, not, ◌&&◌, some, List, [], ◌∷◌, get_elem?, Option-cases, arith, matched,
  bit,
}
use cogentrex.Breaker.{
  Breaker, Admission, rejected, admitted, is_half_open, begin_probe, new, admit, reset,
}
use cogentrex.Breaker.System.{System, Event, enter, leave, reset_event, step, run}
use cogentrex.Breaker.Invariant.{
  Inv, refused, probed, passed, holds, admit-Answer, finish-probe_token, run-Inv, step-Inv,
  start-Inv, flight-IsTicket,
}
use cogentrex.Breaker.Laws.{start}

abbrev is_probing : Admission → ℕ
is_probing (rejected r) = 0
is_probing (admitted t) = bit t.is_probe

-- Whether an event admits a probe.
abbrev pub begun : Event → System → ℕ
begun (enter now) s = is_probing (admit now s.breaker).0
begun (leave now o i) s = 0
begun reset_event s = 0

-- Whether the breaker is half open before a step and is not after it.
abbrev pub over : System → System → ℕ
over s s' = bit (is_half_open s.breaker.stored && not (is_half_open s'.breaker.stored))

-- The probes that are admitted in a run, and the trials that are over.
abbrev pub probes : System → List Event → ℕ
probes s [] = 0
probes s (e ∷ es) = begun e s + probes (step s e) es

abbrev pub trials_over : System → List Event → ℕ
trials_over s [] = 0
trials_over s (e ∷ es) = over s (step s e) + trials_over (step s e) es

step-begun :
    (s : System) (e : Event)
    → Inv s
    → bit (is_half_open s.breaker.stored) + begun e s
      ≡ over s (step s e) + bit (is_half_open (step s e).breaker.stored)
unfolding step begin_probe reset
step-begun s (enter now) h = elim (admit-Answer now s.breaker h.valid) [
  | refused r e ↦ rw e (ground arith)
  | probed o e ↦ rw e (ground (arith, o))
  | passed c e ↦ rw e (ground (arith, c))
]
step-begun s (leave now o i) h = elim (Option-cases (get_elem? s.flight i)) [
  | inl gone ↦ rw gone (ground arith)
  | inr (t, at) ↦
      rw at (elim (finish-probe_token now o s.breaker t h.valid (flight-IsTicket i t s at h)) [
        | inl (gone, cold) ↦ rw cold (ground arith)
        | inr (kept, other, same) ↦ rw same (ground arith)
      ])
]
step-begun s reset_event h = ground arith

run-probes :
    (s : System) (es : List Event)
    → Inv s
    → bit (is_half_open s.breaker.stored) + probes s es
      ≡ trials_over s es + bit (is_half_open (run s es).breaker.stored)
unfolding run
run-probes s [] h = omega arith
run-probes s (e ∷ es) h = omega (arith, step-begun s e h, run-probes (step s e) es (step-Inv s e h))

-- After any events on a new breaker, the probes that it has admitted are as many as its trials that
-- are over, and one more if it is half open; and exactly one call in flight holds the probe if it is
-- half open, and none does otherwise.
pub run-one_probe :
    (threshold timeout : ℕ) {b : Breaker} (es : List Event)
    → new threshold timeout ≡ some b
    → let s = run (start b) es in
      (probes (start b) es ≡ trials_over (start b) es + bit (is_half_open s.breaker.stored))
      × (matched (holds s.breaker.probe_token) s.flight ≡ bit (is_half_open s.breaker.stored))
run-one_probe threshold timeout {b} es e =
    let h : Inv (start b) = start-Inv threshold timeout e in
    let cold : bit (is_half_open b.stored) ≡ 0 = unfold new in ground (arith, e) in
    (omega (arith, run-probes (start b) es h, cold), (run-Inv (start b) es h).one_probe)
