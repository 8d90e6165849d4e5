-- ===== src/Batch/Results.antt =====
-- What the batches of backend/app/tools/concurrency.py return.
use mathlib.Core.Path.{subst}
use cogentrex.Prelude.{
  ℕ, zero, suc, ◌+◌, ◌≡◌, refl, sym, ◌∙◌, ap, inl, inr, true, &&-elim, none, some, List, [], ◌∷◌,
  ◌++◌, String, append_assoc, append_nil, map, length, length-append, Bool-cases, arith,
}
use cogentrex.Batch.{
  Rules, ToolCall, parallel_calls, serial_calls, Outcome, value, failure, Progress, waiting,
  running, ended, Task, BatchState, gathering, serial, returned, raised, BatchEvent, begins, ends,
  goes_on, answers, begin_task, end_task, update_task, all_ended, is_ended, gathered, result_after,
  step, new_task, run_batch, begin_batch, execute_tool_batch, opt_list,
}
use cogentrex.Batch.Laws.{calls_of, calls_of-update_task, calls_of-new_task}

-- The planned calls with their outcomes, from a position on.
abbrev pub labelled : (ℕ → Outcome) → ℕ → List ToolCall → List (String × Outcome)
labelled f n [] = []
labelled f n (c ∷ calls) = (c.name, f n) ∷ labelled f (suc n) calls

-- A running task ends with the given outcome; no other task ends.
abbrev pub EndsWith : Outcome → Outcome → Progress → Type 0
EndsWith b a waiting = Unit
EndsWith b a running = a ≡ b
EndsWith b a (ended c) = Unit

abbrev pub EndsAt : (ℕ → Outcome) → ℕ → ℕ → Outcome → List Task → Type 0
EndsAt f i n a [] = Unit
EndsAt f i zero a (t ∷ tasks) = EndsWith (f i) a t.progress
EndsAt f i (suc n) a (t ∷ tasks) = EndsAt f (suc i) n a tasks

-- The call that an event ends is the planned call at some position, and has its outcome there.
abbrev pub Gives : (ℕ → Outcome) → BatchEvent → BatchState → Type 0
Gives f (begins n) s = Unit
Gives f goes_on s = Unit
Gives f (ends n a) (gathering tasks left) = EndsAt f 0 n a tasks
Gives f (ends n a) (serial tasks results call left) = Unit
Gives f (ends n a) (returned results) = Unit
Gives f (ends n a) (raised e) = Unit
Gives f (answers a) (gathering tasks left) = Unit
Gives f (answers a) (serial tasks results none left) = Unit
Gives f (answers a) (serial tasks results (some call) left) = a ≡ f (length results)
Gives f (answers a) (returned results) = Unit
Gives f (answers a) (raised e) = Unit

-- The calls that end in a run have the given outcomes.
abbrev pub GivesAll : (ℕ → Outcome) → List BatchEvent → BatchState → Type 0
GivesAll f [] s = Unit
GivesAll f (event ∷ events) s = Gives f event s × GivesAll f events (step event s)

abbrev Agrees : Outcome → Progress → Type 0
Agrees b waiting = Unit
Agrees b running = Unit
Agrees b (ended a) = a ≡ b

abbrev AllAgree : (ℕ → Outcome) → ℕ → List Task → Type 0
AllAgree f n [] = Unit
AllAgree f n (t ∷ tasks) = Agrees (f n) t.progress × AllAgree f (suc n) tasks

begin_task-Agrees : (b : Outcome) (p : Progress) → Agrees b p → Agrees b (begin_task p)
begin_task-Agrees b waiting h = tt
begin_task-Agrees b running h = tt
begin_task-Agrees b (ended a) h = h

end_task-Agrees :
    (b a : Outcome) (p : Progress) → EndsWith b a p → Agrees b p → Agrees b (end_task a p)
end_task-Agrees b a waiting e h = tt
end_task-Agrees b a running e h = e
end_task-Agrees b a (ended c) e h = h

result_after-Agrees :
    (call : ToolCall) (b : Outcome) (p : Progress) (results : List (String × Outcome))
    → is_ended p ≡ true
    → Agrees b p
    → result_after call p results ≡ (call.name, b) ∷ results
result_after-Agrees call b waiting results over h = absurd (cc)
result_after-Agrees call b running results over h = absurd (cc)
result_after-Agrees call b (ended a) results over h = ap (λ o. (call.name, o) ∷ results) h

module _ (f : ℕ → Outcome) where
  update_task-begins :
      (i n : ℕ) (tasks : List Task)
      → AllAgree f i tasks
      → AllAgree f i (update_task n begin_task tasks)
  update_task-begins i n [] h = tt
  update_task-begins i zero (t ∷ tasks) h = (begin_task-Agrees (f i) t.progress h.0, h.1)
  update_task-begins i (suc n) (t ∷ tasks) h = (h.0, update_task-begins (suc i) n tasks h.1)

  update_task-ends :
      (i n : ℕ) (a : Outcome) (tasks : List Task)
      → EndsAt f i n a tasks
      → AllAgree f i tasks
      → AllAgree f i (update_task n (end_task a) tasks)
  update_task-ends i n a [] e h = tt
  update_task-ends i zero a (t ∷ tasks) e h = (end_task-Agrees (f i) a t.progress e h.0, h.1)
  update_task-ends i (suc n) a (t ∷ tasks) e h = (h.0, update_task-ends (suc i) n a tasks e h.1)

  map-new_task-AllAgree : (n : ℕ) (calls : List ToolCall) → AllAgree f n (map new_task calls)
  map-new_task-AllAgree n [] = tt
  map-new_task-AllAgree n (c ∷ calls) = (tt, map-new_task-AllAgree (suc n) calls)

  gathered-labelled :
      (n : ℕ) (tasks : List Task)
      → all_ended tasks ≡ true
      → AllAgree f n tasks
      → gathered tasks ≡ labelled f n (calls_of tasks)
  gathered-labelled n [] all h = refl
  gathered-labelled n (t ∷ tasks) all h =
      let both = &&-elim (is_ended t.progress) (all_ended tasks) all in
      result_after-Agrees t.call (f n) t.progress (gathered tasks) both.0 h.0
      ∙ ap (λ rs. (t.call.name, f n) ∷ rs) (gathered-labelled (suc n) tasks both.1 h.1)

  length-labelled : (n : ℕ) (calls : List ToolCall) → length (labelled f n calls) ≡ length calls
  length-labelled n [] = refl
  length-labelled n (c ∷ calls) = omega (arith, length-labelled (suc n) calls)

  labelled-append :
      (n : ℕ) (xs ys : List ToolCall)
      → labelled f n (xs ++ ys) ≡ labelled f n xs ++ labelled f (n + length xs) ys
  labelled-append n [] ys = ap (λ k. labelled f k ys) (omega arith)
  labelled-append n (x ∷ xs) ys =
      ap (λ rs. (x.name, f n) ∷ rs)
        (labelled-append (suc n) xs ys
          ∙ ap (λ k. labelled f (suc n) xs ++ labelled f k ys) (omega arith))

module _ (f : ℕ → Outcome) (rules : Rules) (calls : List ToolCall) where
  -- The results of all planned calls.
  abbrev pub planned_results : List (String × Outcome)
  planned_results = labelled f 0 (parallel_calls rules calls ++ serial_calls rules calls)

  -- The results so far, with those of the calls that are left, are those of all.
  abbrev OnPlan : BatchState → Type 0
  OnPlan (gathering tasks left) =
      (calls_of tasks ≡ parallel_calls rules calls)
      × (left ≡ serial_calls rules calls)
      × AllAgree f 0 tasks
  OnPlan (serial tasks results call left) =
      results ++ labelled f (length results) (opt_list call ++ left) ≡ planned_results
  OnPlan (returned results) = results ≡ planned_results
  OnPlan (raised e) = Unit

  gathered-OnPlan :
      (tasks : List Task) (left : List ToolCall)
      → all_ended tasks ≡ true
      → OnPlan (gathering tasks left)
      → OnPlan (serial tasks (gathered tasks) none left)
  gathered-OnPlan tasks left all h =
      let safe = parallel_calls rules calls in
      let there : gathered tasks ≡ labelled f 0 safe =
        gathered-labelled f 0 tasks all h.2 ∙ ap (labelled f 0) h.0 in
      ap (λ rs. rs ++ labelled f (length rs) left) there
      ∙ ap (λ l. labelled f 0 safe ++ labelled f (length (labelled f 0 safe)) l) h.1
      ∙ ap (λ k. labelled f 0 safe ++ labelled f k (serial_calls rules calls))
          (omega (arith, length-labelled f 0 safe))
      ∙ sym (labelled-append f 0 safe (serial_calls rules calls))

  answer-OnPlan :
      (tasks : List Task) (results : List (String × Outcome)) (call : ToolCall)
      (left : List ToolCall) (v : String)
      → value v ≡ f (length results)
      → OnPlan (serial tasks results (some call) left)
      → OnPlan (serial tasks (results ++ ((call.name, value v) ∷ [])) none left)
  answer-OnPlan tasks results call left v e h =
      let last = (call.name, value v) ∷ [] in
      ap (λ k. (results ++ last) ++ labelled f k left) (length-append results last ∙ omega arith)
      ∙ append_assoc results last (labelled f (suc (length results)) left)
      ∙ ap (λ b. results ++ ((call.name, b) ∷ labelled f (suc (length results)) left)) e
      ∙ h

  step-OnPlan :
      (event : BatchEvent) (s : BatchState) → Gives f event s → OnPlan s → OnPlan (step event s)
  step-OnPlan (begins n) (gathering tasks left) g h =
      (calls_of-update_task n begin_task tasks ∙ h.0, h.1, update_task-begins f 0 n tasks h.2)
  step-OnPlan (ends n a) (gathering tasks left) g h =
      (calls_of-update_task n (end_task a) tasks ∙ h.0, h.1, update_task-ends f 0 n a tasks g h.2)
  step-OnPlan goes_on (gathering tasks left) g h = elim (Bool-cases (all_ended tasks)) [
    | inl all ↦ rw all (gathered-OnPlan tasks left all h)
    | inr some_left ↦ rw some_left h
  ]
  step-OnPlan (answers a) (gathering tasks left) g h = h
  step-OnPlan (begins n) (serial tasks results call left) g h = h
  step-OnPlan (ends n a) (serial tasks results call left) g h = h
  step-OnPlan goes_on (serial tasks results none []) g h = sym (append_nil results) ∙ h
  step-OnPlan goes_on (serial tasks results none (call ∷ left)) g h = h
  step-OnPlan goes_on (serial tasks results (some call) left) g h = h
  step-OnPlan (answers a) (serial tasks results none left) g h = h
  step-OnPlan (answers (value v)) (serial tasks results (some call) left) g h =
      answer-OnPlan tasks results call left v g h
  step-OnPlan (answers (failure e)) (serial tasks results (some call) left) g h = tt
  step-OnPlan event (returned results) g h = h
  step-OnPlan event (raised e) g h = h

  run_batch-OnPlan :
      (events : List BatchEvent) (s : BatchState)
      → GivesAll f events s
      → OnPlan s
      → OnPlan (run_batch events s)
  run_batch-OnPlan [] s g h = h
  run_batch-OnPlan (event ∷ events) s g h =
      run_batch-OnPlan events (step event s) g.1 (step-OnPlan event s g.0 h)

  -- Whatever the order in which the calls begin and end, if the calls that end have the outcomes of
  -- a plan, the concurrent-safe calls in their order and then the others in theirs, a batch that
  -- returns has for each call of the plan its name and its outcome, in this order.
  pub execute_tool_batch-results :
      (events : List BatchEvent) (results : List (String × Outcome))
      → GivesAll f events (begin_batch rules calls)
      → execute_tool_batch events rules calls ≡ returned results
      → results ≡ planned_results
  execute_tool_batch-results events results gives end = subst OnPlan end (
      run_batch-OnPlan events (begin_batch rules calls) gives (
        calls_of-new_task (parallel_calls rules calls),
        refl,
        map-new_task-AllAgree f 0 (parallel_calls rules calls),
      ))
