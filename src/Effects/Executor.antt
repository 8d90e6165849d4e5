-- ===== src/Effects/Executor.antt =====
-- `DurableEffectToolExecutor.execute` of many tasks, interleaved at their repository calls and tool
-- runs in any order, among any other repository calls. Each repository call of an executor is
-- `_cancellation_resistant`: it ends, and whether the task was cancelled meanwhile is kept.
use cogentrex.Prelude.{
  ℕ, Bool, true, false, ◌||◌, Option, none, some, List, [], ◌∷◌, String, get_elem?, remove,
  if◌then◌else◌, Result, ok, err,
}
use cogentrex.Effects.Rows.{
  EffectState, EffectError, database_error, EffectRow, EffectBinding, is_reserved,
}
use cogentrex.Effects.Repository.{
  EffectReservation, reserve, commit, fail, mark_indeterminate, get, Op, apply, Outcome,
}

-- How a repository call ends: as it should, with an error of the database before it has committed,
-- or with one after it has committed.
pub data Weather : Type 0 where
  fine lost unacknowledged : Weather

abbrev pub under : {A : Type 0} → Weather → List EffectRow → Outcome A → Outcome A
under fine rows outcome = outcome
under lost rows outcome = (err database_error, rows)
under unacknowledged rows (_, rows') = (err database_error, rows')

-- How `execute` ends.
pub data Exit : Type 0 where
  returned : String → ℕ → Exit
  duplicate_blocked : EffectState → Exit
  dispatch_rejected indeterminate_effect cancelled aborted : Exit
  repository_error : EffectError → Exit

-- How the tool ends: with an output whose evidence is its hash and size, or that has none, denied,
-- with another exception, cancelled, or with a base exception.
pub data ToolOutcome : Type 0 where
  output : Option (String × ℕ) → ToolOutcome
  permission_error raised tool_cancelled tool_aborted : ToolOutcome

-- What follows a cleanup: the handler of the outermost `try`, or the end.
pub data After : Type 0 where
  interrupted : After
  finally : Exit → After

-- Where a task waits: for its tool, or for the repository. A cleanup reads the row, then marks it.
pub data Phase : Type 0 where
  running : Phase
  committing : String → ℕ → Phase
  failing : String → Exit → Phase
  inspecting : String → After → Phase
  marking : String → Bool → After → Phase
  done : Exit → Phase

pub record Task : Type 0 where
  pub binding : EffectBinding
  pub phase : Phase

pub record System : Type 0 where
  pub rows : List EffectRow
  pub tasks : List Task
  -- The effect ids of the tools that were started, and the bindings of the tasks that ended.
  pub dispatched : List String
  pub finished : List (EffectBinding × Exit)

-- The phase after the reserve call, and whether the tool is started.
abbrev pub reserved_phase : Bool → Result EffectError EffectReservation → Phase × Bool
reserved_phase true (err e) = (done cancelled, false)
reserved_phase false (err e) = (done (repository_error e), false)
reserved_phase true (ok r) =
    (if r.should_execute then failing "dispatch_cancelled" cancelled else done cancelled, false)
reserved_phase false (ok r) =
    (if r.should_execute then running else done (duplicate_blocked r.state), r.should_execute)

abbrev pub tool_ended : ToolOutcome → Phase
tool_ended (output (some (hash, size))) = committing hash size
tool_ended (output none) = inspecting "dispatch_interrupted" (finally indeterminate_effect)
tool_ended permission_error = failing "permission_denied" dispatch_rejected
tool_ended raised = inspecting "dispatch_interrupted" (finally indeterminate_effect)
tool_ended tool_cancelled = inspecting "dispatch_interrupted" (finally cancelled)
tool_ended tool_aborted = inspecting "dispatch_interrupted" (finally aborted)

abbrev pub committed_phase : String → ℕ → Bool → Result EffectError (Unit {0}) → Phase
committed_phase hash size c (err e) = inspecting "commit_failed" interrupted
committed_phase hash size true (ok _) = inspecting "dispatch_interrupted" (finally cancelled)
committed_phase hash size false (ok _) = done (returned hash size)

abbrev pub failed_phase : Exit → Result EffectError (Unit {0}) → Phase
failed_phase exit (err e) = done indeterminate_effect
failed_phase exit (ok _) = done exit

-- A cleanup that ended, cancelled meanwhile or not.
abbrev pub cleaned : Bool → Bool → After → Phase
cleaned failed c interrupted = inspecting "dispatch_interrupted" (finally indeterminate_effect)
cleaned true c (finally exit) = done indeterminate_effect
cleaned false true (finally exit) = done cancelled
cleaned false false (finally exit) = done exit

abbrev pub inspected : String → Bool → After → Result EffectError (Option EffectRow) → Phase
inspected code c next (err e) = cleaned true c next
inspected code c next (ok none) = cleaned false c next
inspected code c next (ok (some row)) =
    if is_reserved row.state then marking code c next else cleaned false c next

abbrev pub marked : Bool → After → Result EffectError (Unit {0}) → Phase
marked c next (err e) = cleaned true c next
marked c next (ok _) = cleaned false c next

abbrev pub read_under : {A : Type 0} → Weather → Result EffectError A → Result EffectError A
read_under fine result = result
read_under _ result = err database_error

-- The end of the repository call that a phase waits for: the next phase, and the table.
abbrev pub with_rows :
    {A : Type 0} → (Result EffectError A → Phase) → Outcome A → Phase × List EffectRow
with_rows next (result, rows) = (next result, rows)

unfoldable pub resume :
    ℕ → Weather → Bool → EffectBinding → Phase → List EffectRow → Phase × List EffectRow
resume now w c b (committing hash size) rows =
    with_rows (committed_phase hash size c) (under w rows (commit now b.effect_id hash size rows))
resume now w c b (failing code exit) rows =
    with_rows (failed_phase exit) (under w rows (fail now b.effect_id code rows))
resume now w c b (inspecting code next) rows = (
  inspected code c next (read_under w (get b.effect_id b.owner_id b.project_id b.run_id rows)),
  rows,
)
resume now w c b (marking code c' next) rows =
    with_rows (marked (c || c') next) (under w rows (mark_indeterminate now b.effect_id code rows))
resume now w c b phase rows = (phase, rows)

-- A task of the binding goes on in a phase, or has ended.
abbrev pub continue_task : EffectBinding → Phase → System → System
continue_task b (done exit) s = record s { finished = (b, exit) ∷ s.finished }
continue_task b phase s = record s { tasks = record { binding = b; phase = phase } ∷ s.tasks }

pub data Event : Type 0 where
  start : ℕ → Weather → Bool → EffectBinding → Event
  tool_ends : ToolOutcome → ℕ → Event
  call_ends : ℕ → Weather → Bool → ℕ → Event
  other : ℕ → Op → Event

abbrev pub begin : EffectBinding → Phase × Bool → List EffectRow → System → System
begin b (phase, starts) rows s = continue_task b phase (record s {
  rows = rows;
  dispatched = if starts then b.effect_id ∷ s.dispatched else s.dispatched;
})

abbrev pub started : EffectBinding → Bool → Outcome EffectReservation → System → System
started b c (result, rows) s = begin b (reserved_phase c result) rows s

abbrev pub is_running : Phase → Bool
is_running running = true
is_running _ = false

abbrev pub end_tool : ToolOutcome → ℕ → Option Task → System → System
end_tool o i none s = s
end_tool o i (some task) s =
    if is_running task.phase
    then continue_task task.binding (tool_ended o) (record s { tasks = remove s.tasks i })
    else s

abbrev pub move_on : EffectBinding → ℕ → Phase × List EffectRow → System → System
move_on b i (phase, rows) s =
    continue_task b phase (record s { rows = rows; tasks = remove s.tasks i })

abbrev pub end_call : ℕ → Weather → Bool → ℕ → Option Task → System → System
end_call now w c i none s = s
end_call now w c i (some task) s =
    move_on task.binding i (resume now w c task.binding task.phase s.rows) s

unfoldable pub step : System → Event → System
step s (start now w c b) = started b c (under w s.rows (reserve now b s.rows)) s
step s (tool_ends o i) = end_tool o i (get_elem? s.tasks i) s
step s (call_ends now w c i) = end_call now w c i (get_elem? s.tasks i) s
step s (other now op) = record s { rows = apply now op s.rows }

unfoldable pub run : System → List Event → System
run s [] = s
run s (e ∷ es) = run (step s e) es

-- A process that starts on a table.
abbrev pub fresh : List EffectRow → System
fresh rows = record { rows = rows; tasks = []; dispatched = []; finished = [] }
