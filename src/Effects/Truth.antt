-- ===== src/Effects/Truth.antt =====
-- The end of every execution, over every interleaving, against the table.
use cogentrex.Prelude.{
  ℕ, ◌≡◌, refl, inl, inr, Bool, true, false, Option, none, some, List, [], ◌∷◌, String, Bool-cases,
  Option-cases, get_elem?, remove, Result, ok, err, All, All-imp, All-get_elem?, All-remove,
}
use cogentrex.Effects.Rows.{committed, failed, is_reserved, EffectError, EffectRow, EffectBinding}
use cogentrex.Effects.Repository.{
  commit, fail, mark_indeterminate, get, reserve, Outcome, EffectReservation, apply,
}
use cogentrex.Effects.Executor.{
  Weather, fine, lost, unacknowledged, under, Exit, After, Phase, running, committing, failing,
  inspecting, marking, done, Task, System, Event, start, tool_ends, call_ends, other, resume,
  continue_task, started, end_tool, end_call, step, run, fresh, reserved_phase, ToolOutcome,
  tool_ended, is_running, with_rows, committed_phase, failed_phase, inspected, marked, read_under,
}
use cogentrex.Effects.Later.{Becomes, apply-Becomes, reserve-Becomes}
use cogentrex.Effects.Final.{resume-Becomes, under-Becomes}
use cogentrex.Effects.Ends.{
  Settled, Explained, Explained-Becomes, commit-Settled, fail-Settled, QuietAfter, Sound,
  cleaned-Sound, tool_ended-Sound, reserved_phase-Sound,
}

-- A database error is no success, so what holds after a success still does.
under-ok :
    (P : List EffectRow → Type 0) (w : Weather) (rows : List EffectRow)
    (outcome : Outcome (Unit {0}))
    → (outcome.0 ≡ ok tt → P outcome.1)
    → (under w rows outcome).0 ≡ ok tt
    → P (under w rows outcome).1
under-ok P fine rows outcome h e = h e
under-ok P lost rows outcome h e = absurd (cc)
under-ok P unacknowledged rows (_, rows') h e = absurd (cc)

abbrev SoundAt : EffectBinding → Phase × List EffectRow → Type 0
SoundAt b (phase, rows) = Sound rows b phase

committed-Sound :
    (b : EffectBinding) (hash : String) (size : ℕ) (c : Bool) (outcome : Outcome (Unit {0}))
    → (outcome.0 ≡ ok tt → Settled b.effect_id committed (some hash) (some size) none outcome.1)
    → SoundAt b (with_rows (committed_phase hash size c) outcome)
committed-Sound b hash size c (err e, rows) h = tt
committed-Sound b hash size true (ok _, rows) h = tt
committed-Sound b hash size false (ok _, rows) h = h refl

failed-Sound :
    (b : EffectBinding) (code : String) (exit : Exit) (outcome : Outcome (Unit {0}))
    (before : List EffectRow)
    → Sound before b (failing code exit)
    → (outcome.0 ≡ ok tt → Settled b.effect_id failed none none (some code) outcome.1)
    → SoundAt b (with_rows (failed_phase exit) outcome)
failed-Sound b code exit (err e, rows) before s h = tt
failed-Sound b code exit (ok _, rows) before (inl quiet) h = rw quiet tt
failed-Sound b code exit (ok _, rows) before (inr (rejected, denied)) h =
    rw rejected (rw denied at (h refl))

inspected-Sound :
    (rows : List EffectRow) (b : EffectBinding) (code : String) (c : Bool) (next : After)
    (result : Result EffectError (Option EffectRow))
    → QuietAfter next
    → Sound rows b (inspected code c next result)
inspected-Sound rows b code c next (err e) q = cleaned-Sound rows b true c next q
inspected-Sound rows b code c next (ok none) q = cleaned-Sound rows b false c next q
inspected-Sound rows b code c next (ok (some row)) q = elim (Bool-cases (is_reserved row.state)) [
  | inl open_row ↦ rw open_row q
  | inr closed ↦ rw closed (cleaned-Sound rows b false c next q)
]

marked-Sound :
    (b : EffectBinding) (c : Bool) (next : After) (outcome : Outcome (Unit {0}))
    → QuietAfter next
    → SoundAt b (with_rows (marked c next) outcome)
marked-Sound b c next (err e, rows) q = cleaned-Sound rows b true c next q
marked-Sound b c next (ok _, rows) q = cleaned-Sound rows b false c next q

resume-Sound :
    (now : ℕ) (w : Weather) (c : Bool) (b : EffectBinding) (phase : Phase) (rows : List EffectRow)
    → Sound rows b phase
    → SoundAt b (resume now w c b phase rows)
unfolding resume
resume-Sound now w c b running rows s = tt
resume-Sound now w c b (done exit) rows s = s
resume-Sound now w c b (committing hash size) rows s =
    committed-Sound b hash size c (under w rows (commit now b.effect_id hash size rows)) (
      under-ok (Settled b.effect_id committed (some hash) (some size) none) w rows
        (commit now b.effect_id hash size rows) (commit-Settled now b.effect_id hash size rows))
resume-Sound now w c b (failing code exit) rows s =
    failed-Sound b code exit (under w rows (fail now b.effect_id code rows)) rows s (
      under-ok (Settled b.effect_id failed none none (some code)) w rows
        (fail now b.effect_id code rows) (fail-Settled now b.effect_id code rows))
resume-Sound now w c b (inspecting code next) rows s =
    inspected-Sound rows b code c next
      (read_under w (get b.effect_id b.owner_id b.project_id b.run_id rows)) s
resume-Sound now w c b (marking code c' next) rows s =
    marked-Sound b _ next (under w rows (mark_indeterminate now b.effect_id code rows)) s

Sound-Becomes :
    (rows rows' : List EffectRow) (b : EffectBinding) (phase : Phase)
    → Becomes rows rows'
    → Sound rows b phase
    → Sound rows' b phase
Sound-Becomes rows rows' b (done exit) later s = Explained-Becomes rows rows' b exit later s
Sound-Becomes rows rows' b running later s = s
Sound-Becomes rows rows' b (committing hash size) later s = s
Sound-Becomes rows rows' b (failing code exit) later s = s
Sound-Becomes rows rows' b (inspecting code next) later s = s
Sound-Becomes rows rows' b (marking code c next) later s = s

abbrev TaskSound : List EffectRow → Task → Type 0
TaskSound rows task = Sound rows task.binding task.phase

abbrev EndExplained : List EffectRow → EffectBinding × Exit → Type 0
EndExplained rows (b, exit) = Explained rows b exit

record AllSound (s : System) : Type 0 where
  tasks_sound : All (TaskSound s.rows) s.tasks
  ends_explained : All (EndExplained s.rows) s.finished

-- The tasks and ends of a system on a later table.
later_tasks :
    (s : System) (rows : List EffectRow)
    → Becomes s.rows rows
    → AllSound s
    → All (TaskSound rows) s.tasks
later_tasks s rows later h =
    All-imp (TaskSound s.rows) (TaskSound rows) s.tasks
      (λ t. Sound-Becomes s.rows rows t.binding t.phase later) h.tasks_sound

later_ends :
    (s : System) (rows : List EffectRow)
    → Becomes s.rows rows
    → AllSound s
    → All (EndExplained rows) s.finished
later_ends s rows later h =
    All-imp (EndExplained s.rows) (EndExplained rows) s.finished
      (λ (b, exit). Explained-Becomes s.rows rows b exit later) h.ends_explained

continue_task-AllSound :
    (b : EffectBinding) (phase : Phase) (s : System)
    → Sound s.rows b phase
    → AllSound s
    → AllSound (continue_task b phase s)
continue_task-AllSound b (done exit) s p h = record {
  tasks_sound = h.tasks_sound;
  ends_explained = (p, h.ends_explained);
}
continue_task-AllSound b running s p h = record {
  tasks_sound = (p, h.tasks_sound);
  ends_explained = h.ends_explained;
}
continue_task-AllSound b (committing hash size) s p h = record {
  tasks_sound = (p, h.tasks_sound);
  ends_explained = h.ends_explained;
}
continue_task-AllSound b (failing code exit) s p h = record {
  tasks_sound = (p, h.tasks_sound);
  ends_explained = h.ends_explained;
}
continue_task-AllSound b (inspecting code next) s p h = record {
  tasks_sound = (p, h.tasks_sound);
  ends_explained = h.ends_explained;
}
continue_task-AllSound b (marking code c next) s p h = record {
  tasks_sound = (p, h.tasks_sound);
  ends_explained = h.ends_explained;
}

started-AllSound :
    (b : EffectBinding) (c : Bool) (outcome : Outcome EffectReservation) (s : System)
    → Becomes s.rows outcome.1
    → AllSound s
    → AllSound (started b c outcome s)
started-AllSound b c (result, rows) s later h =
    continue_task-AllSound b (reserved_phase c result).0 _ (reserved_phase-Sound rows b c result)
      (record {
        tasks_sound = later_tasks s rows later h;
        ends_explained = later_ends s rows later h;
      })

end_tool-AllSound :
    (o : ToolOutcome) (i : ℕ) (found : Option Task) (s : System)
    → AllSound s
    → AllSound (end_tool o i found s)
end_tool-AllSound o i none s h = h
end_tool-AllSound o i (some task) s h = elim (Bool-cases (is_running task.phase)) [
  | inl runs ↦ rw runs (
      continue_task-AllSound task.binding (tool_ended o) (record s { tasks = remove s.tasks i })
        (tool_ended-Sound s.rows task.binding o)
        (record {
          tasks_sound = All-remove (TaskSound s.rows) s.tasks i h.tasks_sound;
          ends_explained = h.ends_explained;
        }))
  | inr waits ↦ rw waits h
]

end_call-AllSound :
    (now : ℕ) (w : Weather) (c : Bool) (i : ℕ) (s : System)
    → AllSound s
    → AllSound (end_call now w c i (get_elem? s.tasks i) s)
end_call-AllSound now w c i s h = elim (Option-cases (get_elem? s.tasks i)) [
  | inl missing ↦ rw missing h
  | inr (task, there) ↦
      let next = resume now w c task.binding task.phase s.rows in
      let later : Becomes s.rows next.1 = resume-Becomes now w c task.binding task.phase s.rows in
      rw there (
        continue_task-AllSound task.binding next.0
          (record s { rows = next.1; tasks = remove s.tasks i })
          (resume-Sound now w c task.binding task.phase s.rows
            (All-get_elem? (TaskSound s.rows) s.tasks i there h.tasks_sound))
          (record {
            tasks_sound = All-remove (TaskSound next.1) s.tasks i (later_tasks s next.1 later h);
            ends_explained = later_ends s next.1 later h;
          }))
]

step-AllSound : (s : System) (e : Event) → AllSound s → AllSound (step s e)
unfolding step
step-AllSound s (start now w c b) h =
    started-AllSound b c (under w s.rows (reserve now b s.rows)) s
      (under-Becomes w s.rows (reserve now b s.rows) (reserve-Becomes now b s.rows)) h
step-AllSound s (tool_ends o i) h = end_tool-AllSound o i (get_elem? s.tasks i) s h
step-AllSound s (call_ends now w c i) h = end_call-AllSound now w c i s h
step-AllSound s (other now op) h =
    let later = apply-Becomes now op s.rows in
    record {
      tasks_sound = later_tasks s (apply now op s.rows) later h;
      ends_explained = later_ends s (apply now op s.rows) later h;
    }

run-AllSound : (es : List Event) (s : System) → AllSound s → AllSound (run s es)
unfolding run
run-AllSound [] s h = h
run-AllSound (e ∷ es) s h = run-AllSound es (step s e) (step-AllSound s e h)

-- Over any interleaving of executors and other repository calls, when an execution has returned an
-- output, the table has a committed row of its effect with the hash and the size of that output;
-- when it was rejected, a failed row with the code "permission_denied".
pub run_explains :
    (es : List Event) (rows : List EffectRow) (i : ℕ) {b : EffectBinding} {exit : Exit}
    → get_elem? (run (fresh rows) es).finished i ≡ some (b, exit)
    → Explained (run (fresh rows) es).rows b exit
run_explains es rows i {b} {exit} at =
    let sound = run-AllSound es (fresh rows) (record { tasks_sound = tt; ends_explained = tt }) in
    All-get_elem? (EndExplained (run (fresh rows) es).rows) (run (fresh rows) es).finished i at
      sound.ends_explained
