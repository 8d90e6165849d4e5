-- ===== src/Budget/Quotes.antt =====
-- Reconciling a charge that was quoted for its candidates.
use cogentrex.Prelude.{
  ℕ, ◌+◌, ◌≤◌, ◌≡◌, ◌≢◌, refl, inl, inr, true, false, ◌&&◌, Option, none, some, List, String,
  select, ltb, Bool-cases, arith, if◌then◌else◌, ok, err, &&-elim,
}
use mathlib.Core.Bool.{true≢false}
use mathlib.Core.List.{Memᴰ}
use cogentrex.Pricing.{
  Family, family_name, validated_pricing_pair, price_model_usage_nusd, quote_model_call_nusd,
  or_else,
}
use cogentrex.Pricing.Pairs.{validated_pricing_pair_idem}
use cogentrex.Pricing.Dominance.{price-le-quote}
use cogentrex.Budget.Rows.{
  quote_exceeded, bad_value, state_conflict, ChargeRow, Db, Outcome, is_dispatched, charge_filters,
}
use cogentrex.Budget.Ids.{scope_ok}
use cogentrex.Budget.Transitions.{finished}
use cogentrex.Budget.Reconciling.{
  Usage, usage_ok, given_or, matches, price_usage, settle_reconciled, reconcile_priced,
  reconcile_found, reconcile,
}

abbrev Exceeded : Outcome ChargeRow → Type 0
Exceeded outcome = outcome.0 ≡ err quote_exceeded

finished-not-Exceeded :
    (c : String) (db : Db) (result : Option Db) → Exceeded (finished c db result) → true ≡ false
finished-not-Exceeded c db none e = absurd (cc)
finished-not-Exceeded c db (some db') e = absurd (ground (arith, e))

usage_ok-subsets :
    (u : Usage)
    → usage_ok u ≡ true
    → or_else u.cache_read_tokens 0 + or_else u.cache_write_tokens 0 ≤ u.input_tokens
unfolding usage_ok
usage_ok-subsets u h = ground (arith, h)

-- A price within the quote.
priced-not-Exceeded :
    (now : ℕ) (c o p r : String) (u : Usage) (quote : ℕ) (f : Family) (name : String) (a : ℕ)
    (db : Db)
    → a ≤ quote
    → Exceeded (reconcile_priced now c o p r u quote (ok (f, name, a)) db)
    → true ≡ false
priced-not-Exceeded now c o p r u quote f name a db fits e =
    let within : ltb quote a ≡ false = ground (arith, fits) in
    finished-not-Exceeded c db (settle_reconciled now c o p r u quote (f, name, a) db)
      (rw within at e)

-- The price of a usage, for the provider and the model that it names or that the charge has.
price_usage-priced :
    (u : Usage) (charge : ChargeRow) (provider model : String) (f : Family) (name : String) (a : ℕ)
    → given_or u.provider charge.provider ≡ ok provider
    → given_or u.model charge.model ≡ ok model
    → validated_pricing_pair model provider ≡ ok (f, name)
    → price_model_usage_nusd name
        (family_name f)
        u.input_tokens
        u.output_tokens
        u.cache_read_tokens
        u.cache_write_tokens
      ≡ ok a
    → price_usage u charge ≡ (if matches u.actual_nusd a then ok (f, name, a) else err bad_value)
unfolding price_usage
price_usage-priced u charge provider model f name a of_provider of_model valid price =
    rw (of_provider, of_model, valid, price)
      (elim (Bool-cases (matches u.actual_nusd a)) [
        | inl same ↦ rw same refl
        | inr differs ↦ rw differs refl
      ])

found-not-Exceeded :
    (now : ℕ) (c o p r : String) (u : Usage) (charge : ChargeRow) (f : Family) (name : String)
    (a : ℕ) (db : Db)
    → price_usage u charge ≡ (if matches u.actual_nusd a then ok (f, name, a) else err bad_value)
    → a ≤ charge.reserved_nusd
    → Exceeded (reconcile_found now c o p r u (some charge) db)
    → true ≡ false
found-not-Exceeded now c o p r u charge f name a db priced fits e =
    elim (Bool-cases (is_dispatched charge.state)) [
      | inl live ↦ elim (Bool-cases (matches u.actual_nusd a)) [
        | inl same ↦
            priced-not-Exceeded now c o p r u charge.reserved_nusd f name a db fits
              (rw (live, priced, same) at e)
        | inr differs ↦
            let wrong : Exceeded (err bad_value, db) = rw (live, priced, differs) at e in
            absurd (cc)
      ]
      | inr settled ↦ let wrong : Exceeded (err state_conflict, db) = rw settled at e in absurd (cc)
    ]

-- A charge that holds the quote of a list of candidates is never reconciled as exceeding it by a
-- usage within the quoted token limits, if the provider and the model that the usage names, or where
-- it names none those of the charge, have the canonical pair of one of the candidates.
pub reconcile_within_quote :
    (candidates : List (String × String)) (n m : ℕ)
    (provider model used_provider used_model : String) {f : Family} {name : String} {q : ℕ}
    (now : ℕ) (c o p r : String) (u : Usage) (db : Db) {charge : ChargeRow}
    → quote_model_call_nusd candidates n m ≡ ok q
    → Memᴰ (provider, model) candidates
    → validated_pricing_pair model provider ≡ ok (f, name)
    → select (charge_filters c o p r) db.charges ≡ some charge
    → charge.reserved_nusd ≡ q
    → given_or u.provider charge.provider ≡ ok used_provider
    → given_or u.model charge.model ≡ ok used_model
    → validated_pricing_pair used_model used_provider ≡ ok (f, name)
    → u.input_tokens ≤ n
    → u.output_tokens ≤ m
    → (reconcile now c o p r u db).0 ≢ err quote_exceeded
unfolding reconcile
reconcile_within_quote candidates n m provider model used_provider used_model {f} {name} {q} now c o
      p r u db {charge} quoted at valid found holds of_provider of_model same_pair input output e =
    elim (Bool-cases (scope_ok c o p r && usage_ok u)) [
      | inl good ↦
          let canonical = validated_pricing_pair_idem model provider valid in
          let (a, price, fits) =
            price-le-quote candidates n m provider model (family_name f) name u.input_tokens
              u.output_tokens u.cache_read_tokens u.cache_write_tokens quoted at valid canonical
              input output (usage_ok-subsets u (&&-elim (scope_ok c o p r) (usage_ok u) good).1) in
          let priced =
            price_usage-priced u charge used_provider used_model f name a of_provider of_model
              same_pair price in
          absurd (
            true≢false (
              found-not-Exceeded now c o p r u charge f name a db priced (rw holds fits)
                (rw (good, found) at e)))
      | inr bad ↦ absurd (ground (arith, e, bad))
    ]
