-- ===== src/Budget/Tests.antt =====
-- A run's budget from opening to recovery, and the theorems at concrete inputs.
use cogentrex.Prelude.{
  ℕ, ◌+◌, ◌≤◌, ◌≡◌, refl, inl, inr, Bool-cases, Option, none, some, List, [], ◌∷◌, String, str_eq,
  if◌then◌else◌, get_elem?, matched,
}
use cogentrex.Pricing.{
  validated_pricing_pair, priceable, family_of, allows, price_model_usage_nusd, price_pair,
  pricing_of, amount, supports_cache_pricing,
}
use cogentrex.Budget.Ids.{id_ok, scope_ok, run_scope_ok, amount_ok, optional_amount_ok}
use cogentrex.Budget.Rows.{ProjectRow, RunRow, ChargeRow, ChargeState, reconciled, Db, settle}
use cogentrex.Budget.Transitions.{simple_transition, mark_dispatched}
use cogentrex.Budget.Opening.{insert_project, open_run}
use cogentrex.Budget.Reserving.{
  Call, duplicate, reserve_new, reserve_checked, reserve_call, new_charge,
}
use cogentrex.Budget.Reconciling.{Usage, usage_ok, price_usage, settle_reconciled, reconcile}
use cogentrex.Budget.Invariant.{Inv, of_project, total, held, spent}
use cogentrex.Budget.Log.{
  run-Inv, Op, open_op, reserve_op, dispatch_op, reconcile_op, apply, run, IsFresh, IsFresh-Inv,
  run_within_limit,
}
use mathlib.Core.List.{Memᴰ}
use cogentrex.Pricing.{
  openai, quote_model_call_nusd, quote_all, quote_candidate, quote_pair, maximum,
}
use cogentrex.Budget.Rows.{dispatched, quote_exceeded}
use cogentrex.Budget.Stale.{is_stale, RecoveredAll}
use cogentrex.Budget.Sweep.{recover_stale-recovers}
use cogentrex.Budget.Quotes.{reconcile_within_quote}
use cogentrex.Budget.Recovery.{
  candidates as stale_candidates, in_scope, settle_stale, recover_one, recover_all, recover_stale,
}
use cogentrex.Prelude.{◌≢◌, ok, err, arith}
use cogentrex.Budget.History.{run_settled, run_keeps}
use cogentrex.Budget.Duplicates.{NotDispatched, run_dispatches_once}

abbrev unopened_run : RunRow
unopened_run = record {
  user_id = "ana";
  project_id = "p1";
  limit_nusd = 0;
  spent_nusd = 0;
  reserved_nusd = 0;
  opened_at = none;
}

abbrev fresh : Db
fresh = record {
  projects = λ o p. none;
  runs = λ r. if str_eq r "r1" then some unopened_run else none;
  charges = [];
}

abbrev call : Call
call = record {
  charge_id = "c1";
  owner_id = "ana";
  project_id = "p1";
  run_id = "r1";
  ordinal = 0;
  quote = 7500000;
  provider = "anthropic";
  model = "claude-haiku-3";
}

abbrev usage : Usage
usage = record {
  actual_nusd = none;
  input_tokens = 10;
  output_tokens = 2;
  cache_read_tokens = none;
  cache_write_tokens = some 7;
  provider = none;
  model = none;
}

abbrev lifetime : List (ℕ × Op)
lifetime =
    (1, open_op "ana" "p1" "r1" 8000000 9000000)
    ∷ (2, reserve_op call)
    ∷ (3, dispatch_op "c1" "ana" "p1" "r1")
    ∷ (4, reconcile_op "c1" "ana" "p1" "r1" usage)
    ∷ []

abbrev final_state : Option ChargeRow → Option (ChargeState × ℕ × Option ℕ)
final_state none = none
final_state (some row) = some (row.state, row.reserved_nusd, row.actual_nusd)

lifetime_reconciles :
    final_state (get_elem? (run lifetime fresh).charges 0) ≡ some (reconciled, 7500000, some 5438)
unfolding run apply open_run insert_project reserve_call reserve_checked duplicate reserve_new
    mark_dispatched simple_transition settle reconcile settle_reconciled price_usage usage_ok
    scope_ok run_scope_ok amount_ok optional_amount_ok id_ok validated_pricing_pair priceable
    family_of allows price_model_usage_nusd price_pair pricing_of amount supports_cache_pricing
lifetime_reconciles = refl

fresh-IsFresh : IsFresh fresh
fresh-IsFresh = record {
  no_project = λ o p. refl;
  no_charge = refl;
  unopened = λ r row e. only r row e;
}
  where
    only :
        (r : String) (row : RunRow)
        → (if str_eq r "r1" then some unopened_run else none) ≡ some row
        → (row.opened_at ≡ none) × (row.spent_nusd ≡ 0) × (row.reserved_nusd ≡ 0)
    only r row e = elim (Bool-cases (str_eq r "r1")) [
      | inl one ↦
          let h : some unopened_run ≡ some row = rw one at e in
          let same : unopened_run ≡ row = cc in rw (← same) (refl, refl, refl)
      | inr other ↦ let gone : none ≡ some row = rw other at e in cc
    ]

run-Inv_example : Inv (run lifetime fresh)
run-Inv_example = run-Inv lifetime fresh (IsFresh-Inv fresh fresh-IsFresh)

abbrev limit_project : ProjectRow
limit_project = record {
  limit_nusd = 9000000;
  spent_nusd = 5438;
  reserved_nusd = 0;
  updated_at = 4;
}

run_within_limit_example :
    total (of_project "ana" "p1") spent (run lifetime fresh).charges
      + total (of_project "ana" "p1") held (run lifetime fresh).charges
    ≤ 9000000
unfolding run apply open_run insert_project reserve_call reserve_checked duplicate reserve_new
    mark_dispatched simple_transition settle reconcile settle_reconciled price_usage usage_ok
    scope_ok run_scope_ok amount_ok optional_amount_ok id_ok validated_pricing_pair priceable
    family_of allows price_model_usage_nusd price_pair pricing_of amount supports_cache_pricing
run_within_limit_example =
    run_within_limit lifetime fresh "ana" "p1" {row = limit_project} fresh-IsFresh refl

-- A table with one reconciled charge of another owner's project.
abbrev old_charge : ChargeRow
old_charge = record (new_charge 0 call) { state = reconciled; actual_nusd = some 5438 }

abbrev archive : Db
archive = record fresh { charges = old_charge ∷ [] }

run_settled_example : get_elem? (run lifetime archive).charges 0 ≡ some old_charge
run_settled_example = run_settled lifetime archive 0 refl refl

run_keeps_example :
    (row' : ChargeRow) × (get_elem? (run lifetime archive).charges 0 ≡ some row')
    × (row'.charge_id ≡ "c1")
    × (row'.owner_id ≡ "ana")
    × (row'.project_id ≡ "p1")
    × (row'.run_id ≡ "r1")
    × (row'.ordinal ≡ 0)
    × (row'.reserved_nusd ≡ 7500000)
run_keeps_example = run_keeps lifetime archive 0 {row = old_charge} refl

run_dispatches_once_example :
    NotDispatched (run lifetime archive) (reserve_call 9 call (run lifetime archive))
run_dispatches_once_example =
    run_dispatches_once lifetime 9 call archive 0 {row = old_charge} refl
      (record { owner = refl; project = refl; run = refl; key = inl refl })

-- A dispatched charge that holds the quote of two candidates.
abbrev candidates : List (String × String)
candidates = ("openai", "gpt-4o") ∷ ("anthropic", "claude-haiku-3") ∷ []

abbrev gpt_listed : Memᴰ {A = String × String} ("openai", "gpt-4o") candidates
gpt_listed = Memᴰ.head refl

abbrev live_charge : ChargeRow
live_charge = record (new_charge 0 call) { state = dispatched }

abbrev live : Db
live = record fresh { charges = live_charge ∷ [] }

candidates_quoted : quote_model_call_nusd candidates 1000 500 ≡ ok 7500000
unfolding quote_model_call_nusd quote_all quote_candidate quote_pair maximum price_model_usage_nusd
    price_pair validated_pricing_pair priceable family_of allows pricing_of amount
    supports_cache_pricing
candidates_quoted = refl

gpt_valid : validated_pricing_pair "gpt-4o" "openai" ≡ ok (openai, "gpt-4o")
unfolding validated_pricing_pair priceable family_of allows
gpt_valid = refl

-- The provider names the pair that it used, another candidate than that of the charge.
abbrev named_usage : Usage
named_usage = record usage {
  cache_write_tokens = none;
  provider = some "openai";
  model = some "gpt-4o";
}

reconcile_within_quote_example :
    (reconcile 5 "c1" "ana" "p1" "r1" named_usage live).0 ≢ err quote_exceeded
reconcile_within_quote_example =
    reconcile_within_quote candidates 1000 500 "openai" "gpt-4o" "openai" "gpt-4o" 5 "c1" "ana" "p1"
      "r1" named_usage live candidates_quoted gpt_listed gpt_valid refl refl refl refl gpt_valid
      (omega arith) (omega arith)

-- A reservation of 2 that is still there at 9.
abbrev waiting : Db
waiting = run ((1, open_op "ana" "p1" "r1" 8000000 9000000) ∷ (2, reserve_op call) ∷ []) fresh

recover_stale-recovers_example :
    let (result, db') = recover_stale (λ ks. ks) (λ k. 9) 8 waiting in
    RecoveredAll 8 waiting.charges db'.charges
    × ((n : ℕ)
        → result ≡ ok n
        → (n ≡ matched (is_stale 8) waiting.charges) × (matched (is_stale 8) db'.charges ≡ 0))
recover_stale-recovers_example = recover_stale-recovers (λ ks. ks) (λ k. 9) 8 waiting (λ P ks h. h)

one_recovered : (recover_stale (λ ks. ks) (λ k. 9) 8 waiting).0 ≡ ok 1
unfolding recover_stale recover_all recover_one settle_stale stale_candidates in_scope run apply
    open_run insert_project reserve_call reserve_checked reserve_new settle scope_ok amount_ok
    validated_pricing_pair priceable family_of allows duplicate run_scope_ok
one_recovered = refl
