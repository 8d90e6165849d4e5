-- ===== src/Batch/Tests.antt =====
-- A batch of four calls, and the theorems at it.
use cogentrex.Prelude.{◌≡◌, refl, true, List, [], ◌∷◌, ◌++◌, String, ℕ, zero, suc}
use cogentrex.Batch.{
  low_risk, Rules, rule, ToolCall, Outcome, value, failure, returned, raised, BatchEvent, begins,
  ends, goes_on, answers, execute_tool_batch, running_calls,
}
use cogentrex.Batch.Completion.{execute_tool_batch-returns}
use cogentrex.Batch.Results.{planned_results, execute_tool_batch-results}
use cogentrex.Batch.Laws.{Separate, execute_tool_batch-Separate, execute_tool_batch-raises}

abbrev call_of : String → ToolCall
call_of name = record { name = name; arguments = [] }

abbrev custom_rules : Rules
custom_rules = rule "lookup" true true low_risk ∷ []

abbrev four : List ToolCall
four = call_of "write_file" ∷ call_of "lookup" ∷ call_of "unknown" ∷ call_of "calculator" ∷ []

-- The second safe call begins and ends within the first.
abbrev gathers : List BatchEvent
gathers = begins 0 ∷ begins 1 ∷ ends 1 (value "4") ∷ ends 0 (failure "offline") ∷ goes_on ∷ []

abbrev events : List BatchEvent
events = gathers ++ (goes_on ∷ answers (value "w") ∷ goes_on ∷ answers (value "u") ∷ goes_on ∷ [])

abbrev four_results : List (String × Outcome)
four_results =
    ("lookup", failure "offline")
    ∷ ("calculator", value "4")
    ∷ ("write_file", value "w")
    ∷ ("unknown", value "u")
    ∷ []

four_returned : execute_tool_batch events custom_rules four ≡ returned four_results
four_returned = refl

-- The exception of a serial call ends the batch, without the results that are there.
serial_raises :
    execute_tool_batch
      (gathers ++ (goes_on ∷ answers (failure "disk full") ∷ goes_on ∷ []))
      custom_rules
      four
    ≡ raised "disk full"
serial_raises = refl

-- The outcome of each call of the plan.
abbrev plan : ℕ → Outcome
plan zero = failure "offline"
plan (suc zero) = value "4"
plan (suc (suc zero)) = value "w"
plan (suc (suc (suc n))) = value "u"

execute_tool_batch-results_example : four_results ≡ planned_results plan custom_rules four
execute_tool_batch-results_example =
    execute_tool_batch-results plan custom_rules four events four_results
      (tt, (tt, (refl, (refl, (tt, (tt, (refl, (tt, (refl, (tt, tt)))))))))) refl

-- While both safe calls run.
execute_tool_batch-Separate_example :
    Separate custom_rules
      (running_calls (execute_tool_batch (begins 0 ∷ begins 1 ∷ []) custom_rules four))
execute_tool_batch-Separate_example =
    execute_tool_batch-Separate (begins 0 ∷ begins 1 ∷ []) custom_rules four

abbrev lookups : List ToolCall
lookups = call_of "lookup" ∷ call_of "calculator" ∷ []

execute_tool_batch-raises_example :
    ¬ (execute_tool_batch gathers custom_rules lookups ≡ raised "offline")
execute_tool_batch-raises_example =
    execute_tool_batch-raises gathers custom_rules lookups "offline" refl

execute_tool_batch-returns_example :
    (events : List BatchEvent) × (execute_tool_batch events custom_rules four
      ≡ returned (
          ("lookup", failure "offline")
          ∷ ("calculator", failure "offline")
          ∷ ("write_file", value "done")
          ∷ ("unknown", value "done")
          ∷ []))
execute_tool_batch-returns_example =
    execute_tool_batch-returns (λ c. failure "offline") (λ c. "done") custom_rules four
