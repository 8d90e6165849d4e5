-- ===== src/Budget/Reconciling.antt =====
-- `reconcile`: a dispatched charge is priced, its quote is given back and the price is spent.
use cogentrex.Prelude.{
  ℕ, ◌+◌, ◌-◌, Bool, true, ◌&&◌, Option, none, some, String, select, leb, ltb, ◌==◌, if◌then◌else◌,
  Result, ok, err, ◌>>=◌, ◌>>◌, raise_unless,
}
use cogentrex.Pricing.{
  Family, PricingError, family_name, validated_pricing_pair, price_model_usage_nusd, or_else,
}
use cogentrex.Budget.Rows.{
  reconciled, indeterminate, BudgetError, bad_value, state_conflict, quote_exceeded, pricing,
  ChargeRow, Db, Outcome, is_dispatched, charge_filters, settle,
}
use cogentrex.Budget.Ids.{id_ok, scope_ok, amount_ok, optional_amount_ok}
use cogentrex.Budget.Transitions.{finished}

-- The usage that `reconcile` is given, beside the scope of the charge.
pub record Usage : Type 0 where
  pub actual_nusd : Option ℕ
  pub input_tokens : ℕ
  pub output_tokens : ℕ
  pub cache_read_tokens : Option ℕ
  pub cache_write_tokens : Option ℕ
  pub provider : Option String
  pub model : Option String

abbrev optional_id_ok : Option String → ℕ → Bool
optional_id_ok none maximum = true
optional_id_ok (some value) maximum = id_ok value maximum

unfoldable pub usage_ok : Usage → Bool
usage_ok u =
    optional_amount_ok u.actual_nusd
    && amount_ok u.input_tokens
    && amount_ok u.output_tokens
    && optional_amount_ok u.cache_read_tokens
    && optional_amount_ok u.cache_write_tokens
    && leb (or_else u.cache_read_tokens 0 + or_else u.cache_write_tokens 0) u.input_tokens
    && optional_id_ok u.provider 100
    && optional_id_ok u.model 255

abbrev pub from_pricing : {A : Type 0} → Result PricingError A → Result BudgetError A
from_pricing (ok a) = ok a
from_pricing (err e) = err (pricing e)

-- `provider if provider is not None else charge.provider`, which must not be null.
abbrev pub given_or : Option String → Option String → Result BudgetError String
given_or (some value) _ = ok value
given_or none (some value) = ok value
given_or none none = err bad_value

abbrev pub matches : Option ℕ → ℕ → Bool
matches none actual = true
matches (some supplied) actual = supplied == actual

-- The canonical pair and the price of the usage.
unfoldable pub price_usage : Usage → ChargeRow → Result BudgetError (Family × String × ℕ)
price_usage u charge = do
  provider ← given_or u.provider charge.provider
  model ← given_or u.model charge.model
  pair ← from_pricing (validated_pricing_pair model provider)
  actual ← from_pricing (
      price_model_usage_nusd pair.1 (family_name pair.0) u.input_tokens u.output_tokens
        u.cache_read_tokens u.cache_write_tokens)
  raise_unless (matches u.actual_nusd actual) bad_value
  ok (pair.0, pair.1, actual)

-- The updates where the price exceeds the quote: the accounts are locked, and the hold stays.
unfoldable pub settle_exceeded : ℕ → String → String → String → String → Db → Option Db
settle_exceeded now c o p r =
    settle o p r (λ _. true) (λ row. row) (λ _. true) (λ row. row)
      (λ row. charge_filters c o p r row && is_dispatched row.state)
      (λ row. record row {
        state = indeterminate;
        reason_code = some "quote_exceeded";
        updated_at = now;
      })

unfoldable pub settle_reconciled :
    ℕ → String → String → String → String → Usage → ℕ → Family × String × ℕ → Db → Option Db
settle_reconciled now c o p r u quote (family, model, actual) =
    settle o p r (λ row. leb quote row.reserved_nusd)
      (λ row. record row {
        reserved_nusd = row.reserved_nusd - quote;
        spent_nusd = row.spent_nusd + actual;
        updated_at = now;
      })
      (λ row. leb quote row.reserved_nusd)
      (λ row. record row {
        reserved_nusd = row.reserved_nusd - quote;
        spent_nusd = row.spent_nusd + actual;
      })
      (λ row. charge_filters c o p r row && is_dispatched row.state && row.reserved_nusd == quote)
      (λ row. record row {
        state = reconciled;
        actual_nusd = some actual;
        provider = some (family_name family);
        model = some model;
        input_tokens = some u.input_tokens;
        output_tokens = some u.output_tokens;
        cache_read_tokens = u.cache_read_tokens;
        cache_write_tokens = u.cache_write_tokens;
        updated_at = now;
        reconciled_at = some now;
      })

abbrev pub exceeded : Db → Option Db → Outcome ChargeRow
exceeded db none = (err state_conflict, db)
exceeded db (some db') = (err quote_exceeded, db')

abbrev pub reconcile_priced :
    ℕ
    → String
    → String
    → String
    → String
    → Usage
    → ℕ
    → Result BudgetError (Family × String × ℕ)
    → Db
    → Outcome ChargeRow
reconcile_priced now c o p r u quote (err e) db = (err e, db)
reconcile_priced now c o p r u quote (ok (family, model, actual)) db =
    if ltb quote actual
    then exceeded db (settle_exceeded now c o p r db)
    else finished c db (settle_reconciled now c o p r u quote (family, model, actual) db)

abbrev pub reconcile_found :
    ℕ → String → String → String → String → Usage → Option ChargeRow → Db → Outcome ChargeRow
reconcile_found now c o p r u none db = (err state_conflict, db)
reconcile_found now c o p r u (some charge) db =
    if is_dispatched charge.state
    then reconcile_priced now c o p r u charge.reserved_nusd (price_usage u charge) db
    else (err state_conflict, db)

unfoldable pub reconcile : ℕ → String → String → String → String → Usage → Db → Outcome ChargeRow
reconcile now c o p r u db =
    if scope_ok c o p r && usage_ok u
    then reconcile_found now c o p r u (select (charge_filters c o p r) db.charges) db
    else (err bad_value, db)
