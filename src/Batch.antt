-- ===== src/Batch.antt =====
-- The batches of tool calls of backend/app/tools/concurrency.py. The coroutines of a batch begin and
-- end in any order, as a list of events tells; what the executor answers is in the events.
pub mod Laws
pub mod Results
pub mod Completion
mod Tests
use cogentrex.Prelude.{
  ℕ, zero, suc, Bool, true, false, not, ◌&&◌, Option, none, some, List, [], ◌∷◌, ◌++◌, String, map,
  filter, str_eq, if◌then◌else◌,
}

pub data ToolRisk : Type 0 where
  safe_risk low_risk medium_risk high_risk : ToolRisk

pub record ToolClassification : Type 0 where
  pub tool_name : String
  pub is_read_only : Bool
  pub is_concurrent_safe : Bool
  pub risk_level : ToolRisk

-- A dictionary of rules, whose keys differ.
abbrev pub Rules : Type 0
Rules = List (String × ToolClassification)

abbrev pub rule : String → Bool → Bool → ToolRisk → String × ToolClassification
rule name read_only safe risk = (
  name,
  record {
    tool_name = name;
    is_read_only = read_only;
    is_concurrent_safe = safe;
    risk_level = risk;
  },
)

abbrev pub default_classifications : Rules
default_classifications =
    rule "read_file" true true safe_risk
    ∷ rule "list_directory" true true safe_risk
    ∷ rule "calculator" true true safe_risk
    ∷ rule "datetime" true true safe_risk
    ∷ rule "web_search" true true low_risk
    ∷ rule "write_file" false false medium_risk
    ∷ rule "shell_exec" false false high_risk
    ∷ rule "sandbox_exec" false true medium_risk
    ∷ []

abbrev pub rule_of : String → Rules → Option ToolClassification
rule_of name [] = none
rule_of name (r ∷ rules) = if str_eq r.0 name then some r.1 else rule_of name rules

abbrev pub unknown_tool : String → ToolClassification
unknown_tool name = (rule name false false medium_risk).1

-- `{**_DEFAULT_CLASSIFICATIONS, **custom_rules}[name]`, or the classification of an unknown tool.
abbrev pub classify_tool : String → Rules → ToolClassification
classify_tool name custom_rules = elim (rule_of name custom_rules) [
  | some classification ↦ classification
  | none ↦ elim (rule_of name default_classifications) [
    | some classification ↦ classification
    | none ↦ unknown_tool name
  ]
]

pub record ToolCall : Type 0 where
  pub name : String
  pub arguments : List (String × String)

abbrev pub is_safe : Rules → ToolCall → Bool
is_safe custom_rules call = (classify_tool call.name custom_rules).is_concurrent_safe

abbrev pub parallel_calls : Rules → List ToolCall → List ToolCall
parallel_calls custom_rules calls = filter (is_safe custom_rules) calls

abbrev pub serial_calls : Rules → List ToolCall → List ToolCall
serial_calls custom_rules calls = filter (λ c. not (is_safe custom_rules c)) calls

-- What the executor gives: a value, or an exception.
pub data Outcome : Type 0 where
  value failure : String → Outcome

pub data Progress : Type 0 where
  waiting running : Progress
  ended : Outcome → Progress

pub record Task : Type 0 where
  pub call : ToolCall
  pub progress : Progress

pub data BatchState : Type 0 where
  -- `asyncio.gather` awaits the tasks; the serial calls are left.
  gathering : List Task → List ToolCall → BatchState
  -- The tasks, the results so far, the serial call that runs, and those that are left.
  serial : List Task → List (String × Outcome) → Option ToolCall → List ToolCall → BatchState
  returned : List (String × Outcome) → BatchState
  raised : String → BatchState

-- The task at a position begins or ends, the batch goes on, or the serial call ends.
pub data BatchEvent : Type 0 where
  begins : ℕ → BatchEvent
  ends : ℕ → Outcome → BatchEvent
  goes_on : BatchEvent
  answers : Outcome → BatchEvent

abbrev pub begin_task : Progress → Progress
begin_task waiting = running
begin_task running = running
begin_task (ended a) = ended a

abbrev pub end_task : Outcome → Progress → Progress
end_task a waiting = waiting
end_task a running = ended a
end_task a (ended b) = ended b

abbrev pub update_task : ℕ → (Progress → Progress) → List Task → List Task
update_task n f [] = []
update_task zero f (t ∷ tasks) = record t { progress = f t.progress } ∷ tasks
update_task (suc n) f (t ∷ tasks) = t ∷ update_task n f tasks

abbrev pub is_ended : Progress → Bool
is_ended waiting = false
is_ended running = false
is_ended (ended a) = true

abbrev pub all_ended : List Task → Bool
all_ended [] = true
all_ended (t ∷ tasks) = is_ended t.progress && all_ended tasks

abbrev pub result_after : ToolCall → Progress → List (String × Outcome) → List (String × Outcome)
result_after call waiting results = results
result_after call running results = results
result_after call (ended a) results = (call.name, a) ∷ results

-- The results of the tasks in the order of the calls; exceptions are results too.
abbrev pub gathered : List Task → List (String × Outcome)
gathered [] = []
gathered (t ∷ tasks) = result_after t.call t.progress (gathered tasks)

abbrev pub serial_answer :
    List Task → List (String × Outcome) → ToolCall → List ToolCall → Outcome → BatchState
serial_answer tasks results call left (value v) =
    serial tasks (results ++ ((call.name, value v) ∷ [])) none left
serial_answer tasks results call left (failure e) = raised e

abbrev pub next_call : List Task → List (String × Outcome) → List ToolCall → BatchState
next_call tasks results [] = returned results
next_call tasks results (call ∷ left) = serial tasks results (some call) left

abbrev pub step_gathering : BatchEvent → List Task → List ToolCall → BatchState
step_gathering (begins n) tasks left = gathering (update_task n begin_task tasks) left
step_gathering (ends n a) tasks left = gathering (update_task n (end_task a) tasks) left
step_gathering goes_on tasks left =
    if all_ended tasks then serial tasks (gathered tasks) none left else gathering tasks left
step_gathering (answers a) tasks left = gathering tasks left

abbrev pub step_serial :
    BatchEvent → List Task → List (String × Outcome) → Option ToolCall → List ToolCall → BatchState
step_serial (begins n) tasks results call left =
    serial (update_task n begin_task tasks) results call left
step_serial (ends n a) tasks results call left =
    serial (update_task n (end_task a) tasks) results call left
step_serial goes_on tasks results none left = next_call tasks results left
step_serial goes_on tasks results (some call) left = serial tasks results (some call) left
step_serial (answers a) tasks results none left = serial tasks results none left
step_serial (answers a) tasks results (some call) left = serial_answer tasks results call left a

-- An event that cannot happen leaves the batch as it is.
abbrev pub step : BatchEvent → BatchState → BatchState
step event (gathering tasks left) = step_gathering event tasks left
step event (serial tasks results call left) = step_serial event tasks results call left
step event (returned results) = returned results
step event (raised e) = raised e

abbrev pub new_task : ToolCall → Task
new_task call = record { call = call; progress = waiting }

abbrev pub begin_batch : Rules → List ToolCall → BatchState
begin_batch custom_rules calls =
    gathering (map new_task (parallel_calls custom_rules calls)) (serial_calls custom_rules calls)

abbrev pub run_batch : List BatchEvent → BatchState → BatchState
run_batch [] state = state
run_batch (event ∷ events) state = run_batch events (step event state)

abbrev pub execute_tool_batch : List BatchEvent → Rules → List ToolCall → BatchState
execute_tool_batch events custom_rules calls = run_batch events (begin_batch custom_rules calls)

abbrev pub is_running : Progress → Bool
is_running waiting = false
is_running running = true
is_running (ended a) = false

abbrev pub running_of : List Task → List ToolCall
running_of tasks = map (λ t. t.call) (filter (λ t. is_running t.progress) tasks)

abbrev pub opt_list : Option ToolCall → List ToolCall
opt_list none = []
opt_list (some call) = call ∷ []

-- The calls that run at the moment, of the tasks too if they still run in the serial phase.
abbrev pub running_calls : BatchState → List ToolCall
running_calls (gathering tasks left) = running_of tasks
running_calls (serial tasks results call left) = running_of tasks ++ opt_list call
running_calls (returned results) = []
running_calls (raised e) = []
