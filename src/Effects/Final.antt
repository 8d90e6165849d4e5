-- ===== src/Effects/Final.antt =====
-- What becomes of the rows of effects over every interleaving.
use cogentrex.Prelude.{
  ℕ, ◌≡◌, refl, inl, inr, Bool, Option, none, some, List, [], ◌∷◌, Bool-cases, get_elem?, remove,
}
use cogentrex.Effects.Rows.{EffectRow, EffectBinding}
use cogentrex.Effects.Repository.{
  EffectReservation, reserve, commit, fail, mark_indeterminate, Outcome,
}
use cogentrex.Effects.Executor.{
  Weather, fine, lost, unacknowledged, under, Phase, committing, failing, marking, Task, System,
  Event, start, tool_ends, call_ends, other, resume, started, end_tool, end_call, step, run,
  reserved_phase, ToolOutcome, tool_ended, is_running,
}
use cogentrex.Effects.Starts.{continue_task-rows}
use cogentrex.Effects.Later.{
  Later, Later-refl, Later-trans, Becomes, Becomes-refl, commit-Becomes, fail-Becomes, mark-Becomes,
  reserve-Becomes, apply-Becomes,
}

abbrev Rows : Type 0
Rows = List EffectRow

pub under-Becomes :
    {A : Type 0} (w : Weather) (rows : Rows) (outcome : Outcome A)
    → Becomes rows outcome.1
    → Becomes rows (under w rows outcome).1
under-Becomes fine rows outcome k = k
under-Becomes lost rows outcome k = Becomes-refl rows
under-Becomes unacknowledged rows (_, rows') k = k

pub resume-Becomes :
    (now : ℕ) (w : Weather) (c : Bool) (b : EffectBinding) (phase : Phase) (rows : Rows)
    → Becomes rows (resume now w c b phase rows).1
unfolding resume
resume-Becomes now w c b (committing hash size) rows =
    under-Becomes w rows (commit now b.effect_id hash size rows)
      (commit-Becomes now b.effect_id hash size rows)
resume-Becomes now w c b (failing code exit) rows =
    under-Becomes w rows (fail now b.effect_id code rows) (fail-Becomes now b.effect_id code rows)
resume-Becomes now w c b (marking code c' next) rows =
    under-Becomes w rows (mark_indeterminate now b.effect_id code rows)
      (mark-Becomes now b.effect_id code rows)
resume-Becomes now w c b _ rows = Becomes-refl rows

started-rows :
    (b : EffectBinding) (c : Bool) (outcome : Outcome EffectReservation) (s : System)
    → (started b c outcome s).rows ≡ outcome.1
started-rows b c (result, rows) s = continue_task-rows b (reserved_phase c result).0 _

end_tool-rows :
    (o : ToolOutcome) (i : ℕ) (found : Option Task) (s : System)
    → (end_tool o i found s).rows ≡ s.rows
end_tool-rows o i none s = refl
end_tool-rows o i (some task) s = elim (Bool-cases (is_running task.phase)) [
  | inl runs ↦
      rw runs
        (continue_task-rows task.binding (tool_ended o) (record s { tasks = remove s.tasks i }))
  | inr waits ↦ rw waits refl
]

end_call-Becomes :
    (now : ℕ) (w : Weather) (c : Bool) (i : ℕ) (found : Option Task) (s : System)
    → Becomes s.rows (end_call now w c i found s).rows
end_call-Becomes now w c i none s = Becomes-refl s.rows
end_call-Becomes now w c i (some task) s =
    let next = resume now w c task.binding task.phase s.rows in
    rw
      (continue_task-rows task.binding next.0
        (record s { rows = next.1; tasks = remove s.tasks i }))
      (resume-Becomes now w c task.binding task.phase s.rows)

pub step-Becomes : (s : System) (e : Event) → Becomes s.rows (step s e).rows
unfolding step
step-Becomes s (start now w c b) =
    rw (started-rows b c (under w s.rows (reserve now b s.rows)) s)
      (under-Becomes w s.rows (reserve now b s.rows) (reserve-Becomes now b s.rows))
step-Becomes s (tool_ends o i) =
    rw (end_tool-rows o i (get_elem? s.tasks i) s) (Becomes-refl s.rows)
step-Becomes s (call_ends now w c i) = end_call-Becomes now w c i (get_elem? s.tasks i) s
step-Becomes s (other now op) = apply-Becomes now op s.rows

-- Over any interleaving of executors and other repository calls, a row stays at its place with its
-- identity, and once it is not reserved it keeps its state, its output and its failure code.
pub run_final :
    (es : List Event) (s : System) (i : ℕ) {row : EffectRow}
    → get_elem? s.rows i ≡ some row
    → (row' : EffectRow) × (get_elem? (run s es).rows i ≡ some row') × Later row row'
unfolding run
run_final [] s i {row} at = (row, at, Later-refl row)
run_final (e ∷ es) s i {row} at =
    let (middle, there, first) = step-Becomes s e i row at in
    let (row', found, second) = run_final es (step s e) i there in
    (row', found, Later-trans row middle row' first second)
