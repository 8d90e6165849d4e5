-- ===== src/Effects/Ranks.antt =====
-- How many repository calls an execution still waits for.
use cogentrex.Prelude.{
  ℕ, ◌+◌, ◌<◌, ◌≤◌, ◌≡◌, ◌||◌, [], ◌∷◌, length, Bool, true, false, Option, none, some, List, arith,
  refl, String, Result, ok, err, inl, inr, Bool-cases,
}
use cogentrex.Effects.Rows.{EffectError, EffectRow, EffectBinding, is_reserved}
use cogentrex.Effects.Repository.{commit, fail, mark_indeterminate, get, Outcome}
use cogentrex.Effects.Executor.{
  Weather, under, Exit, After, interrupted, finally, Phase, running, committing, failing,
  inspecting, marking, done, resume, with_rows, committed_phase, failed_phase, inspected, marked,
  cleaned, read_under, is_running,
}

-- At most this many repository calls until the end.
abbrev pub calls_left : Phase → ℕ
calls_left (done exit) = 0
calls_left running = 5
calls_left (committing hash size) = 5
calls_left (failing code exit) = 1
calls_left (inspecting code interrupted) = 4
calls_left (marking code c interrupted) = 3
calls_left (inspecting code (finally exit)) = 2
calls_left (marking code c (finally exit)) = 1

abbrev pub awaits_repository : Phase → Bool
awaits_repository (done exit) = false
awaits_repository running = false
awaits_repository _ = true

abbrev pub after_calls : After → ℕ
after_calls interrupted = 2
after_calls (finally exit) = 0

cleaned-le : (f c : Bool) (next : After) → calls_left (cleaned f c next) ≤ after_calls next
cleaned-le f c interrupted = omega arith
cleaned-le true c (finally exit) = omega arith
cleaned-le false true (finally exit) = omega arith
cleaned-le false false (finally exit) = omega arith

committed_phase-lt :
    (hash : String) (size : ℕ) (c : Bool) (r : Result EffectError (Unit {0}))
    → calls_left (committed_phase hash size c r) < 5
committed_phase-lt hash size c (err e) = omega arith
committed_phase-lt hash size true (ok _) = omega arith
committed_phase-lt hash size false (ok _) = omega arith

with_rows-phase :
    {A : Type 0} (next : Result EffectError A → Phase) (outcome : Outcome A)
    → (with_rows next outcome).0 ≡ next outcome.0
with_rows-phase next (result, rows) = refl

failed_phase-lt :
    (exit : Exit) (r : Result EffectError (Unit {0})) → calls_left (failed_phase exit r) < 1
failed_phase-lt exit (err e) = omega arith
failed_phase-lt exit (ok _) = omega arith

marking-le :
    (code : String) (c : Bool) (next : After)
    → calls_left (marking code c next) ≤ after_calls next + 1
marking-le code c interrupted = omega arith
marking-le code c (finally exit) = omega arith

inspecting-ge :
    (code : String) (next : After) → after_calls next + 2 ≤ calls_left (inspecting code next)
inspecting-ge code interrupted = omega arith
inspecting-ge code (finally exit) = omega arith

marking-ge :
    (code : String) (c : Bool) (next : After)
    → after_calls next + 1 ≤ calls_left (marking code c next)
marking-ge code c interrupted = omega arith
marking-ge code c (finally exit) = omega arith

inspected-le :
    (code : String) (c : Bool) (next : After) (r : Result EffectError (Option EffectRow))
    → calls_left (inspected code c next r) ≤ after_calls next + 1
inspected-le code c next (err e) = omega (arith, cleaned-le true c next)
inspected-le code c next (ok none) = omega (arith, cleaned-le false c next)
inspected-le code c next (ok (some row)) = elim (Bool-cases (is_reserved row.state)) [
  | inl open_row ↦ rw open_row (marking-le code c next)
  | inr closed ↦ rw closed (omega (arith, cleaned-le false c next))
]

marked-le :
    (c : Bool) (next : After) (r : Result EffectError (Unit {0}))
    → calls_left (marked c next r) ≤ after_calls next
marked-le c next (err e) = cleaned-le true c next
marked-le c next (ok _) = cleaned-le false c next

-- Every repository call of an execution, however it ends and whatever the table holds, brings the
-- execution closer to its end.
resume-lt :
    (now : ℕ) (w : Weather) (c : Bool) (b : EffectBinding) (phase : Phase) (rows : List EffectRow)
    → awaits_repository phase ≡ true
    → calls_left (resume now w c b phase rows).0 < calls_left phase
unfolding resume
resume-lt now w c b (done exit) rows a = absurd (cc)
resume-lt now w c b running rows a = absurd (cc)
resume-lt now w c b (committing hash size) rows a =
    rw
      (with_rows-phase (committed_phase hash size c)
        (under w rows (commit now b.effect_id hash size rows)))
      (committed_phase-lt hash size c (under w rows (commit now b.effect_id hash size rows)).0)
resume-lt now w c b (failing code exit) rows a =
    rw (with_rows-phase (failed_phase exit) (under w rows (fail now b.effect_id code rows)))
      (failed_phase-lt exit (under w rows (fail now b.effect_id code rows)).0)
resume-lt now w c b (inspecting code next) rows a = omega (
  arith,
  inspecting-ge code next,
  inspected-le code c next (read_under w (get b.effect_id b.owner_id b.project_id b.run_id rows)),
)
resume-lt now w c b (marking code c' next) rows a =
    rw
      (with_rows-phase (marked (c || c') next)
        (under w rows (mark_indeterminate now b.effect_id code rows)))
      (omega (
        arith,
        marking-ge code c' next,
        marked-le (c || c') next (under w rows (mark_indeterminate now b.effect_id code rows)).0,
      ))

-- What a repository call of an execution meets: the time, how it ends, whether the task is
-- cancelled meanwhile, and the table that all others have left.
abbrev pub Call : Type 0
Call = ℕ × Weather × Bool × List EffectRow

-- An execution through its repository calls.
unfoldable pub carry : EffectBinding → Phase → List Call → Phase
carry b phase [] = phase
carry b phase ((now, w, c, rows) ∷ calls) = carry b (resume now w c b phase rows).0 calls

ended : (phase : Phase) → calls_left phase ≡ 0 → (exit : Exit) × (phase ≡ done exit)
ended (done exit) z = (exit, refl)
ended running z = absurd (omega (arith, z))
ended (committing hash size) z = absurd (omega (arith, z))
ended (failing code exit) z = absurd (omega (arith, z))
ended (inspecting code next) z = absurd (omega (arith, z, inspecting-ge code next))
ended (marking code c next) z = absurd (omega (arith, z, marking-ge code c next))

cleaned-idle : (f c : Bool) (next : After) → is_running (cleaned f c next) ≡ false
cleaned-idle f c interrupted = refl
cleaned-idle true c (finally exit) = refl
cleaned-idle false true (finally exit) = refl
cleaned-idle false false (finally exit) = refl

inspected-idle :
    (code : String) (c : Bool) (next : After) (r : Result EffectError (Option EffectRow))
    → is_running (inspected code c next r) ≡ false
inspected-idle code c next (err e) = cleaned-idle true c next
inspected-idle code c next (ok none) = cleaned-idle false c next
inspected-idle code c next (ok (some row)) = elim (Bool-cases (is_reserved row.state)) [
  | inl open_row ↦ rw open_row refl
  | inr closed ↦ rw closed (cleaned-idle false c next)
]

with_rows-idle :
    {A : Type 0} (next : Result EffectError A → Phase) (outcome : Outcome A)
    → ((r : Result EffectError A) → is_running (next r) ≡ false)
    → is_running (with_rows next outcome).0 ≡ false
with_rows-idle next (result, rows) h = h result

committed_phase-idle :
    (hash : String) (size : ℕ) (c : Bool) (r : Result EffectError (Unit {0}))
    → is_running (committed_phase hash size c r) ≡ false
committed_phase-idle hash size c (err e) = refl
committed_phase-idle hash size true (ok _) = refl
committed_phase-idle hash size false (ok _) = refl

failed_phase-idle :
    (exit : Exit) (r : Result EffectError (Unit {0})) → is_running (failed_phase exit r) ≡ false
failed_phase-idle exit (err e) = refl
failed_phase-idle exit (ok _) = refl

marked-idle :
    (c : Bool) (next : After) (r : Result EffectError (Unit {0}))
    → is_running (marked c next r) ≡ false
marked-idle c next (err e) = cleaned-idle true c next
marked-idle c next (ok _) = cleaned-idle false c next

resume-idle :
    (now : ℕ) (w : Weather) (c : Bool) (b : EffectBinding) (phase : Phase) (rows : List EffectRow)
    → is_running phase ≡ false
    → is_running (resume now w c b phase rows).0 ≡ false
unfolding resume
resume-idle now w c b (done exit) rows h = refl
resume-idle now w c b running rows h = h
resume-idle now w c b (committing hash size) rows h =
    with_rows-idle (committed_phase hash size c)
      (under w rows (commit now b.effect_id hash size rows)) (committed_phase-idle hash size c)
resume-idle now w c b (failing code exit) rows h =
    with_rows-idle (failed_phase exit) (under w rows (fail now b.effect_id code rows))
      (failed_phase-idle exit)
resume-idle now w c b (inspecting code next) rows h =
    inspected-idle code c next
      (read_under w (get b.effect_id b.owner_id b.project_id b.run_id rows))
resume-idle now w c b (marking code c' next) rows h =
    with_rows-idle (marked (c || c') next)
      (under w rows (mark_indeterminate now b.effect_id code rows)) (marked-idle (c || c') next)

-- A phase that neither runs nor waits has ended, and stays.
stopped-le :
    (now : ℕ) (w : Weather) (c : Bool) (b : EffectBinding) (phase : Phase) (rows : List EffectRow)
    (n : ℕ)
    → is_running phase ≡ false
    → awaits_repository phase ≡ false
    → calls_left (resume now w c b phase rows).0 ≤ n
unfolding resume
stopped-le now w c b (done exit) rows n i s = omega arith
stopped-le now w c b running rows n i s = absurd (cc)
stopped-le now w c b (committing hash size) rows n i s = absurd (cc)
stopped-le now w c b (failing code exit) rows n i s = absurd (cc)
stopped-le now w c b (inspecting code next) rows n i s = absurd (cc)
stopped-le now w c b (marking code c' next) rows n i s = absurd (cc)

resume-le :
    (now : ℕ) (w : Weather) (c : Bool) (b : EffectBinding) (phase : Phase) (rows : List EffectRow)
    (n : ℕ)
    → is_running phase ≡ false
    → calls_left phase ≤ n + 1
    → calls_left (resume now w c b phase rows).0 ≤ n
resume-le now w c b phase rows n idle h = elim (Bool-cases (awaits_repository phase)) [
  | inl waits ↦ omega (arith, h, resume-lt now w c b phase rows waits)
  | inr stops ↦ stopped-le now w c b phase rows n idle stops
]

-- After its tool has ended, an execution ends within as many repository calls as its phase has left,
-- however they end, whenever it is cancelled and whatever the others do to the table.
pub carry_ends :
    (b : EffectBinding) (phase : Phase) (calls : List Call)
    → is_running phase ≡ false
    → calls_left phase ≤ length calls
    → (exit : Exit) × (carry b phase calls ≡ done exit)
unfolding carry
carry_ends b phase [] idle h = ended phase (omega (arith, h))
carry_ends b phase ((now, w, c, rows) ∷ calls) idle h =
    carry_ends b (resume now w c b phase rows).0 calls (resume-idle now w c b phase rows idle)
      (resume-le now w c b phase rows (length calls) idle (omega (arith, h)))
