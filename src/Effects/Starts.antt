-- ===== src/Effects/Starts.antt =====
-- How often the tool of an effect is started.
use cogentrex.Prelude.{
  ℕ, ◌+◌, ◌≤◌, ◌≡◌, refl, inl, inr, Bool, true, false, Option, none, some, List, [], ◌∷◌, String,
  Bool-cases, arith, get_elem?, remove, ok, err,
}
use cogentrex.Effects.Rows.{EffectRow, EffectBinding}
use cogentrex.Effects.Repository.{EffectReservation, reserve, Outcome}
use cogentrex.Effects.Executor.{
  Weather, under, Phase, done, Task, System, Event, ToolOutcome, tool_ended, is_running, start,
  tool_ends, call_ends, other, resume, continue_task, started, end_tool, end_call, step, run, fresh,
  reserved_phase,
}
use cogentrex.Effects.Counts.{
  rows_of, starts_of, Keeps, Reserved, apply-Keeps, resume-Keeps, under-Reserved, reserve-Reserved,
}

pub continue_task-rows :
    (b : EffectBinding) (phase : Phase) (s : System) → (continue_task b phase s).rows ≡ s.rows
continue_task-rows b (done exit) s = refl
continue_task-rows b _ s = refl

continue_task-dispatched :
    (b : EffectBinding) (phase : Phase) (s : System)
    → (continue_task b phase s).dispatched ≡ s.dispatched
continue_task-dispatched b (done exit) s = refl
continue_task-dispatched b _ s = refl

-- At most one row, and one start for each row beyond `n`.
abbrev Counted : String → ℕ → List String → List EffectRow → Type 0
Counted x n dispatched rows = (starts_of x dispatched + n ≤ rows_of x rows) × (rows_of x rows ≤ 1)

abbrev SystemCounted : String → ℕ → System → Type 0
SystemCounted x n s = Counted x n s.dispatched s.rows

Keeps-Counted :
    (x : String) (n : ℕ) (dispatched : List String) {rows rows' : List EffectRow}
    → Keeps x rows rows'
    → Counted x n dispatched rows
    → Counted x n dispatched rows'
Keeps-Counted x n dispatched k h = (omega (arith, k.kept, h.0), k.single h.1)

continue_task-Counted :
    (x : String) (n : ℕ) (b : EffectBinding) (phase : Phase) (s : System)
    → SystemCounted x n s
    → SystemCounted x n (continue_task b phase s)
continue_task-Counted x n b phase s h =
    rw (continue_task-rows b phase s, continue_task-dispatched b phase s) h

started-Counted :
    (x : String) (n : ℕ) (b : EffectBinding) (c : Bool) (s : System)
    (outcome : Outcome EffectReservation)
    → Reserved x b s.rows outcome
    → SystemCounted x n s
    → SystemCounted x n (started b c outcome s)
started-Counted x n b true s (err e, rows) r h = Keeps-Counted x n s.dispatched r.keeps h
started-Counted x n b false s (err e, rows) r h = Keeps-Counted x n s.dispatched r.keeps h
started-Counted x n b true s (ok granted, rows) r h =
    continue_task-Counted x n b (reserved_phase true (ok granted)).0 (record s { rows = rows })
      (Keeps-Counted x n s.dispatched r.keeps h)
started-Counted x n b false s (ok granted, rows) r h = elim (Bool-cases granted.should_execute) [
  | inl granting ↦
      let (more, none_yet) = r.grants granted refl granting in
      rw granting (ground (arith, more, none_yet, r.keeps.single))
  | inr refused ↦ rw refused (Keeps-Counted x n s.dispatched r.keeps h)
]

end_tool-Counted :
    (x : String) (n : ℕ) (o : ToolOutcome) (i : ℕ) (found : Option Task) (s : System)
    → SystemCounted x n s
    → SystemCounted x n (end_tool o i found s)
end_tool-Counted x n o i none s h = h
end_tool-Counted x n o i (some task) s h = elim (Bool-cases (is_running task.phase)) [
  | inl runs ↦ rw runs (
      continue_task-Counted x n task.binding (tool_ended o) (record s { tasks = remove s.tasks i })
        h)
  | inr waits ↦ rw waits h
]

end_call-Counted :
    (x : String) (n now : ℕ) (w : Weather) (c : Bool) (i : ℕ) (found : Option Task) (s : System)
    → SystemCounted x n s
    → SystemCounted x n (end_call now w c i found s)
end_call-Counted x n now w c i none s h = h
end_call-Counted x n now w c i (some task) s h =
    let next = resume now w c task.binding task.phase s.rows in
    continue_task-Counted x n task.binding next.0
      (record s { rows = next.1; tasks = remove s.tasks i })
      (Keeps-Counted x n s.dispatched (resume-Keeps x now w c task.binding task.phase s.rows) h)

step-Counted :
    (x : String) (n : ℕ) (s : System) (e : Event)
    → SystemCounted x n s
    → SystemCounted x n (step s e)
unfolding step
step-Counted x n s (start now w c b) h =
    started-Counted x n b c s (under w s.rows (reserve now b s.rows))
      (under-Reserved x w b s.rows (reserve now b s.rows) (reserve-Reserved x now b s.rows)) h
step-Counted x n s (tool_ends o i) h = end_tool-Counted x n o i (get_elem? s.tasks i) s h
step-Counted x n s (call_ends now w c i) h =
    end_call-Counted x n now w c i (get_elem? s.tasks i) s h
step-Counted x n s (other now op) h = Keeps-Counted x n s.dispatched (apply-Keeps x now op s.rows) h

run-Counted :
    (x : String) (n : ℕ) (s : System) (es : List Event)
    → SystemCounted x n s
    → SystemCounted x n (run s es)
unfolding run
run-Counted x n s [] h = h
run-Counted x n s (e ∷ es) h = run-Counted x n (step s e) es (step-Counted x n s e h)

-- From a table with at most one row of an effect, over any interleaving of executors and other
-- repository calls, the tool of the effect is started at most once, and not at all if the table
-- had a row of the effect.
pub run_starts_once :
    (es : List Event) (rows : List EffectRow) (x : String)
    → rows_of x rows ≤ 1
    → starts_of x (run (fresh rows) es).dispatched + rows_of x rows ≤ 1
run_starts_once es rows x single =
    let (counted, one) = run-Counted x (rows_of x rows) (fresh rows) es (omega arith, single) in
    omega (arith, counted, one)
