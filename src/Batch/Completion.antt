-- ===== src/Batch/Completion.antt =====
-- The end of the batches of backend/app/tools/concurrency.py: no call waits for ever.
use cogentrex.Prelude.{
  ◌≡◌, refl, sym, ◌∙◌, ap, ℕ, zero, suc, true, none, List, [], ◌∷◌, ◌++◌, map, length,
  length-append, String, append_assoc, append_nil, if◌then◌else◌, arith,
}
use cogentrex.Batch.{
  Rules, ToolCall, Outcome, value, Progress, Task, gathering, serial, returned, BatchEvent, begins,
  ends, goes_on, answers, begin_task, end_task, update_task, all_ended, gathered, ended, new_task,
  run_batch, execute_tool_batch, parallel_calls, serial_calls,
}

module _ (f : ToolCall → Outcome) where
  -- Each task begins and ends, one after the other.
  abbrev at_once : ℕ → List ToolCall → List BatchEvent
  at_once n [] = []
  at_once n (c ∷ calls) = begins n ∷ ends n (f c) ∷ at_once (suc n) calls

  abbrev over : ToolCall → Task
  over c = record { call = c; progress = ended (f c) }

  all_ended-over : (calls : List ToolCall) → all_ended (map over calls) ≡ true
  all_ended-over [] = refl
  all_ended-over (c ∷ calls) = all_ended-over calls

  gathered-over :
      (calls : List ToolCall) → gathered (map over calls) ≡ map (λ c. (c.name, f c)) calls
  gathered-over [] = refl
  gathered-over (c ∷ calls) = ap (λ rs. (c.name, f c) ∷ rs) (gathered-over calls)

update_task-append :
    (n : ℕ) (h : Progress → Progress) (done : List Task) (t : Task) (tasks : List Task)
    → length done ≡ n
    → update_task n h (done ++ (t ∷ tasks)) ≡ done ++ (record t { progress = h t.progress } ∷ tasks)
update_task-append zero h [] t tasks e = refl
update_task-append (suc n) h [] t tasks e = absurd (omega (arith, e))
update_task-append zero h (d ∷ done) t tasks e = absurd (omega (arith, e))
update_task-append (suc n) h (d ∷ done) t tasks e =
    ap (λ ts. d ∷ ts) (update_task-append n h done t tasks (omega (arith, e)))

module _ (f : ToolCall → Outcome) where
  run_batch-at_once :
      (calls : List ToolCall) (n : ℕ) (done : List Task) (left : List ToolCall)
      (events : List BatchEvent)
      → length done ≡ n
      → run_batch (at_once f n calls ++ events) (gathering (done ++ map new_task calls) left)
        ≡ run_batch events (gathering (done ++ map (over f) calls) left)
  run_batch-at_once [] n done left events e = refl
  run_batch-at_once (c ∷ calls) n done left events e =
      let rest = at_once f (suc n) calls ++ events in
      let tasks = map new_task calls in
      let begun : Task = record { call = c; progress = begin_task (new_task c).progress } in
      ap (λ ts. run_batch rest (gathering (update_task n (end_task (f c)) ts) left))
        (update_task-append n begin_task done (new_task c) tasks e)
      ∙ ap (λ ts. run_batch rest (gathering ts left))
          (update_task-append n (end_task (f c)) done begun tasks e
            ∙ sym (append_assoc done (over f c ∷ []) tasks))
      ∙ run_batch-at_once calls (suc n) (done ++ (over f c ∷ [])) left events
          (omega (arith, e, length-append done (over f c ∷ [])))
      ∙ ap (λ ts. run_batch events (gathering ts left))
          (append_assoc done (over f c ∷ []) (map (over f) calls))

module _ (g : ToolCall → String) where
  abbrev one_by_one : List ToolCall → List BatchEvent
  one_by_one [] = goes_on ∷ []
  one_by_one (c ∷ calls) = goes_on ∷ answers (value (g c)) ∷ one_by_one calls

  run_batch-one_by_one :
      (calls : List ToolCall) (tasks : List Task) (results : List (String × Outcome))
      → run_batch (one_by_one calls) (serial (tasks) results none calls)
        ≡ returned (results ++ map (λ c. (c.name, value (g c))) calls)
  run_batch-one_by_one [] tasks results = ap returned (sym (append_nil results))
  run_batch-one_by_one (c ∷ calls) tasks results =
      run_batch-one_by_one calls tasks (results ++ ((c.name, value (g c)) ∷ []))
      ∙ ap returned (
          append_assoc results ((c.name, value (g c)) ∷ [])
            (map (λ c. (c.name, value (g c))) calls))

-- However the concurrent-safe calls of a batch end, and with any values for the others, there is an
-- order of its steps in which it returns, and its results are these.
pub execute_tool_batch-returns :
    (f : ToolCall → Outcome) (g : ToolCall → String) (rules : Rules) (calls : List ToolCall)
    → (events : List BatchEvent) × (execute_tool_batch events rules calls
        ≡ returned (
            map (λ c. (c.name, f c)) (parallel_calls rules calls)
            ++ map (λ c. (c.name, value (g c))) (serial_calls rules calls)))
execute_tool_batch-returns f g rules calls =
    let safe = parallel_calls rules calls in
    let others = serial_calls rules calls in
    let last_events = goes_on ∷ one_by_one g others in
    (
      at_once f 0 safe ++ last_events,
      run_batch-at_once f safe 0 [] others last_events refl
          ∙ ap
              (λ b. run_batch (one_by_one g others) (
                if b
                then serial (map (over f) safe) (gathered (map (over f) safe)) none others
                else gathering (map (over f) safe) others))
              (all_ended-over f safe)
          ∙ ap (λ rs. run_batch (one_by_one g others) (serial (map (over f) safe) rs none others))
              (gathered-over f safe)
          ∙ run_batch-one_by_one g others (map (over f) safe) (map (λ c. (c.name, f c)) safe),
    )
