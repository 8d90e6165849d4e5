-- ===== src/Batch/Laws.antt =====
-- What runs at once, and what raises, in the batches of backend/app/tools/concurrency.py.
use cogentrex.Prelude.{
  ℕ, zero, suc, ◌≤◌, ◌≡◌, ◌⊎◌, refl, sym, ◌∙◌, ap, inl, inr, true, none, some, List, [], ◌∷◌, ◌++◌,
  String, All, filter-holds, map, length, Bool-cases, arith,
}
use mathlib.Core.Path.{subst}
use cogentrex.Prelude.{false, &&-elim}
use cogentrex.Batch.{
  Rules, ToolCall, is_safe, parallel_calls, serial_calls, Outcome, value, failure, Progress,
  waiting, running, ended, Task, BatchState, gathering, serial, returned, raised, BatchEvent,
  begins, ends, goes_on, answers, begin_task, end_task, update_task, all_ended, is_ended, step,
  new_task, run_batch, begin_batch, execute_tool_batch, is_running, running_calls, running_of,
  opt_list,
}

abbrev pub calls_of : List Task → List ToolCall
calls_of tasks = map (λ t. t.call) tasks

-- The tasks are those of the safe calls, and have all ended when the others begin; of these no more
-- are left than there are, and one of them has raised.
abbrev Planned : Rules → List ToolCall → BatchState → Type 0
Planned rules calls (gathering tasks left) =
    (calls_of tasks ≡ parallel_calls rules calls) × (left ≡ serial_calls rules calls)
Planned rules calls (serial tasks results call left) =
    (all_ended tasks ≡ true) × (length (opt_list call ++ left) ≤ length (serial_calls rules calls))
Planned rules calls (returned results) = Unit
Planned rules calls (raised e) = 1 ≤ length (serial_calls rules calls)

pub calls_of-update_task :
    (n : ℕ) (f : Progress → Progress) (tasks : List Task)
    → calls_of (update_task n f tasks) ≡ calls_of tasks
calls_of-update_task n f [] = refl
calls_of-update_task zero f (t ∷ tasks) = refl
calls_of-update_task (suc n) f (t ∷ tasks) = ap (λ cs. t.call ∷ cs) (calls_of-update_task n f tasks)

pub calls_of-new_task : (calls : List ToolCall) → calls_of (map new_task calls) ≡ calls
calls_of-new_task [] = refl
calls_of-new_task (c ∷ calls) = ap (λ cs. c ∷ cs) (calls_of-new_task calls)

-- Tasks that have ended stay so.
all_ended-update_task :
    (n : ℕ) (f : Progress → Progress) (tasks : List Task)
    → ((p : Progress) → is_ended p ≡ true → is_ended (f p) ≡ true)
    → all_ended tasks ≡ true
    → all_ended (update_task n f tasks) ≡ true
all_ended-update_task n f [] keeps all = refl
all_ended-update_task zero f (t ∷ tasks) keeps all = ground (arith, all, keeps t.progress)
all_ended-update_task (suc n) f (t ∷ tasks) keeps all =
    ground (arith, all, all_ended-update_task n f tasks keeps)

begin_task-ended : (p : Progress) → is_ended p ≡ true → is_ended (begin_task p) ≡ true
begin_task-ended waiting over = over
begin_task-ended running over = over
begin_task-ended (ended a) over = refl

end_task-ended : (a : Outcome) (p : Progress) → is_ended p ≡ true → is_ended (end_task a p) ≡ true
end_task-ended a waiting over = over
end_task-ended a running over = refl
end_task-ended a (ended b) over = refl

step-Planned :
    (rules : Rules) (calls : List ToolCall) (event : BatchEvent) (s : BatchState)
    → Planned rules calls s
    → Planned rules calls (step event s)
step-Planned rules calls (begins n) (gathering tasks left) h =
    (calls_of-update_task n begin_task tasks ∙ h.0, h.1)
step-Planned rules calls (ends n a) (gathering tasks left) h =
    (calls_of-update_task n (end_task a) tasks ∙ h.0, h.1)
step-Planned rules calls goes_on (gathering tasks left) h = elim (Bool-cases (all_ended tasks)) [
  | inl all ↦ rw all (all, omega (arith, ap length h.1))
  | inr some_left ↦ rw some_left h
]
step-Planned rules calls (answers a) (gathering tasks left) h = h
step-Planned rules calls (begins n) (serial tasks results call left) h =
    (all_ended-update_task n begin_task tasks begin_task-ended h.0, h.1)
step-Planned rules calls (ends n a) (serial tasks results call left) h =
    (all_ended-update_task n (end_task a) tasks (end_task-ended a) h.0, h.1)
step-Planned rules calls goes_on (serial tasks results none []) h = tt
step-Planned rules calls goes_on (serial tasks results none (call ∷ left)) h = h
step-Planned rules calls goes_on (serial tasks results (some call) left) h = h
step-Planned rules calls (answers a) (serial tasks results none left) h = h
step-Planned rules calls (answers (value v)) (serial tasks results (some call) left) h =
    (h.0, omega (arith, h.1))
step-Planned rules calls (answers (failure e)) (serial tasks results (some call) left) h =
    omega (arith, h.1)
step-Planned rules calls event (returned results) h = tt
step-Planned rules calls event (raised e) h = h

run_batch-Planned :
    (rules : Rules) (calls : List ToolCall) (events : List BatchEvent) (s : BatchState)
    → Planned rules calls s
    → Planned rules calls (run_batch events s)
run_batch-Planned rules calls [] s h = h
run_batch-Planned rules calls (event ∷ events) s h =
    run_batch-Planned rules calls events (step event s) (step-Planned rules calls event s h)

execute_tool_batch-Planned :
    (events : List BatchEvent) (rules : Rules) (calls : List ToolCall)
    → Planned rules calls (execute_tool_batch events rules calls)
execute_tool_batch-Planned events rules calls =
    run_batch-Planned rules calls events (begin_batch rules calls)
      (calls_of-new_task (parallel_calls rules calls), refl)

-- A batch of concurrent-safe calls raises nothing, whatever its calls raise: their exceptions are
-- results.
pub execute_tool_batch-raises :
    (events : List BatchEvent) (rules : Rules) (calls : List ToolCall) (e : String)
    → serial_calls rules calls ≡ []
    → ¬ (execute_tool_batch events rules calls ≡ raised e)
execute_tool_batch-raises events rules calls e none_serial end =
    let some_serial : 1 ≤ length (serial_calls rules calls) =
      subst (Planned rules calls) end (execute_tool_batch-Planned events rules calls) in
    omega (arith, some_serial, ap length none_serial)

All-running_of :
    (rules : Rules) (tasks : List Task)
    → All (λ c. is_safe rules c ≡ true) (calls_of tasks)
    → All (λ c. is_safe rules c ≡ true) (running_of tasks)
All-running_of rules [] h = tt
All-running_of rules (t ∷ tasks) h = elim (Bool-cases (is_running t.progress)) [
  | inl runs ↦ rw runs (h.0, All-running_of rules tasks h.1)
  | inr rests ↦ rw rests (All-running_of rules tasks h.1)
]

is_running-ended : (p : Progress) → is_ended p ≡ true → is_running p ≡ false
is_running-ended waiting over = refl
is_running-ended running over = absurd (cc)
is_running-ended (ended a) over = refl

running_of-ended : (tasks : List Task) → all_ended tasks ≡ true → running_of tasks ≡ []
running_of-ended [] all = refl
running_of-ended (t ∷ tasks) all =
    let both = &&-elim (is_ended t.progress) (all_ended tasks) all in
    rw (is_running-ended t.progress both.0) (running_of-ended tasks both.1)

-- Only safe calls run, or one call at most.
abbrev pub Separate : Rules → List ToolCall → Type 0
Separate rules calls = All (λ c. is_safe rules c ≡ true) calls ⊎ (length calls ≤ 1)

Planned-Separate :
    (rules : Rules) (calls : List ToolCall) (s : BatchState)
    → Planned rules calls s
    → Separate rules (running_calls s)
Planned-Separate rules calls (gathering tasks left) h = inl (
    All-running_of rules tasks
      (subst (All (λ c. is_safe rules c ≡ true)) (sym h.0) (filter-holds (is_safe rules) calls)))
Planned-Separate rules calls (serial tasks results none left) h =
    rw (running_of-ended tasks h.0) (inl tt)
Planned-Separate rules calls (serial tasks results (some call) left) h =
    rw (running_of-ended tasks h.0) (inr (omega arith))
Planned-Separate rules calls (returned results) h = inl tt
Planned-Separate rules calls (raised e) h = inl tt

-- At every moment of a batch, in whatever order its calls begin and end, all calls that run are
-- concurrent-safe, or one call at most runs.
pub execute_tool_batch-Separate :
    (events : List BatchEvent) (rules : Rules) (calls : List ToolCall)
    → Separate rules (running_calls (execute_tool_batch events rules calls))
execute_tool_batch-Separate events rules calls =
    Planned-Separate rules calls (execute_tool_batch events rules calls)
      (execute_tool_batch-Planned events rules calls)
