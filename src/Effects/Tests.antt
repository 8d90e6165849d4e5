-- ===== src/Effects/Tests.antt =====
-- Executions of one effect, and the theorems at concrete inputs.
use cogentrex.Prelude.{
  ◌+◌, ◌≤◌, ◌≡◌, refl, true, false, none, some, List, [], ◌∷◌, String, get_elem?, arith,
}
use cogentrex.Effects.Rows.{
  EffectState, EffectRow, EffectBinding, committed, effect_id_ok, digest_ok, safe_code_ok, size_ok,
}
use cogentrex.Effects.Repository.{
  reserve, transition, commit, mark_indeterminate, get, recover_stale_reservations, recover_op,
  apply,
}
use cogentrex.Effects.Executor.{
  fine, lost, unacknowledged, Exit, returned, duplicate_blocked, indeterminate_effect, output,
  committing, done, Event, start, tool_ends, call_ends, other, resume, step, run, fresh, System,
}
use cogentrex.Effects.Counts.{starts_of}
use cogentrex.Effects.Starts.{run_starts_once}
use cogentrex.Effects.Later.{Later}
use cogentrex.Effects.Final.{run_final}
use cogentrex.Effects.Ends.{Explained}
use cogentrex.Effects.Truth.{run_explains}
use cogentrex.Effects.Ranks.{Call, carry, carry_ends}

abbrev digest : String
digest = "00112233445566778899aabbccddeeff00112233445566778899aabbccddeeff"

abbrev effect : String
effect = "eff_v1_00112233445566778899aabbccddeeff00112233445566778899aabbccddeeff"

abbrev binding : EffectBinding
binding = record {
  effect_id = effect;
  identity_version = 1;
  owner_id = "ana";
  project_id = "p1";
  run_id = "r1";
  tool_name = "send_mail";
  schema_hash = digest;
}

-- Two tasks want the effect; the first one's tool returns and its output is committed.
abbrev race : List Event
race =
    start 1 fine false binding
    ∷ start 2 fine false binding
    ∷ other 3 (recover_op 1)
    ∷ tool_ends (output (some (digest, 12))) 0
    ∷ call_ends 4 fine false 0
    ∷ start 5 fine false binding
    ∷ []

-- The commit is lost: the reservation is marked, and the caller learns that nothing is known.
abbrev outage : List Event
outage =
    start 1 fine false binding
    ∷ tool_ends (output (some (digest, 12))) 0
    ∷ call_ends 2 lost false 0
    ∷ call_ends 3 fine false 0
    ∷ call_ends 4 fine false 0
    ∷ call_ends 5 fine false 0
    ∷ []

abbrev exits : System → List Exit
exits s = go s.finished
  where
    go : List (EffectBinding × Exit) → List Exit
    go [] = []
    go ((b, exit) ∷ rest) = exit ∷ go rest

race_ends_once :
    exits (run (fresh []) race)
    ≡ duplicate_blocked committed ∷ returned digest 12 ∷ duplicate_blocked EffectState.reserved ∷ []
unfolding run step reserve transition commit effect_id_ok digest_ok size_ok apply
    recover_stale_reservations resume
race_ends_once = refl

outage_ends_unknown : exits (run (fresh []) outage) ≡ indeterminate_effect ∷ []
unfolding run step reserve transition commit mark_indeterminate get effect_id_ok digest_ok size_ok
    safe_code_ok resume
outage_ends_unknown = refl

run_starts_once_example : starts_of effect (run (fresh []) race).dispatched + 0 ≤ 1
run_starts_once_example = run_starts_once race [] effect (omega arith)

race_end : get_elem? (run (fresh []) race).finished 1 ≡ some (binding, returned digest 12)
unfolding run step reserve transition commit effect_id_ok digest_ok size_ok apply
    recover_stale_reservations resume
race_end = refl

run_explains_example : Explained (run (fresh []) race).rows binding (returned digest 12)
run_explains_example = run_explains race [] 1 race_end

abbrev committed_row : EffectRow
committed_row = record {
  effect_id = effect;
  identity_version = 1;
  owner_id = "ana";
  project_id = "p1";
  run_id = "r1";
  tool_name = "send_mail";
  schema_hash = digest;
  state = committed;
  output_hash = some digest;
  output_size = some 12;
  failure_code = none;
  reserved_at = 1;
  completed_at = some 4;
  review_disposition = none;
  reviewed_by = none;
  reviewed_at = none;
}

run_final_example :
    (row' : EffectRow) × (get_elem? (run (fresh (committed_row ∷ [])) outage).rows 0 ≡ some row')
    × Later committed_row row'
run_final_example = run_final outage (fresh (committed_row ∷ [])) 0 refl

abbrev five_calls : List Call
five_calls =
    (2, lost, false, [])
    ∷ (3, fine, false, committed_row ∷ [])
    ∷ (4, fine, true, committed_row ∷ [])
    ∷ (5, lost, false, [])
    ∷ (6, unacknowledged, false, [])
    ∷ []

carry_ends_example : (exit : Exit) × (carry binding (committing digest 12) five_calls ≡ done exit)
carry_ends_example = carry_ends binding (committing digest 12) five_calls refl (omega arith)
