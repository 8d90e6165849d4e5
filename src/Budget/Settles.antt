-- ===== src/Budget/Settles.antt =====
-- One transaction of `recover_stale`.
use mathlib.Core.Path.{subst}
use cogentrex.Prelude.{
  ℕ, ◌+◌, ◌≡◌, refl, sym, ◌∙◌, ap, inl, inr, Bool, true, false, ◌&&◌, ltb, some, String, All-imp,
  matched, update, ◌==◌, Bool-cases, arith,
}
use cogentrex.Budget.Rows.{
  released, indeterminate, ChargeRow, RunRow, ProjectRow, Db, is_reserved, is_dispatched, settle,
}
use cogentrex.Budget.Settle.{settle-Settled}
use cogentrex.Budget.Recovery.{Candidate, stale_condition, in_scope, settle_stale}
use cogentrex.Budget.Stale.{
  is_stale, Recovered, RecoveredAll, update-RecoveredAll, update-stale, update-cleared, Cleared,
}

-- What a committed transaction for a candidate does to the charges.
abbrev pub Settles : ℕ → Candidate → Db → Db → Type 0
Settles cutoff k db db' =
    RecoveredAll cutoff db.charges db'.charges
    × (matched (is_stale cutoff) db.charges ≡ 1 + matched (is_stale cutoff) db'.charges)
    × Cleared cutoff db'.charges k

settle-Settles :
    (cutoff : ℕ) (k : Candidate) (o p r : String) (p_cond : ProjectRow → Bool)
    (p_change : ProjectRow → ProjectRow) (r_cond : RunRow → Bool) (r_change : RunRow → RunRow)
    (cond : ChargeRow → Bool) (c_change : ChargeRow → ChargeRow) (db : Db) {db' : Db}
    → ((x : ChargeRow) → stale_condition cutoff k x ≡ cond x)
    → ((x : ChargeRow) → cond x ≡ true → Recovered cutoff x (c_change x))
    → settle o p r p_cond p_change r_cond r_change cond c_change db ≡ some db'
    → Settles cutoff k db db'
settle-Settles cutoff k o p r p_cond p_change r_cond r_change cond c_change db {db'} same each e =
    let s = settle-Settled o p r p_cond p_change r_cond r_change cond c_change db e in
    let left = update cond c_change db.charges in
    subst (Settles cutoff k db) (sym s.result) (
      update-RecoveredAll cutoff cond c_change each db.charges,
      update-stale cutoff cond c_change each db.charges
          ∙ ap (λ n. n + matched (is_stale cutoff) left) s.one_charge,
      All-imp (λ x. cond x ≡ false) (λ x. stale_condition cutoff k x ≡ false) left
          (λ x miss. same x ∙ miss) (update-cleared cutoff cond c_change each db.charges),
    )

reserved-stale :
    (cutoff : ℕ) (k : Candidate) (now : ℕ) (x : ChargeRow)
    → (in_scope k x && is_reserved x.state && x.reserved_nusd == k.quote && ltb x.updated_at cutoff)
      ≡ true
    → Recovered cutoff x
        (record x { state = released; reason_code = some "stale_reserved"; updated_at = now })
reserved-stale cutoff k now x hit = record {
  stale = ground (arith, hit);
  new_state = ground (arith, hit);
  charge_id = refl;
  owner_id = refl;
  project_id = refl;
  run_id = refl;
  ordinal = refl;
  reserved_nusd = refl;
  actual_nusd = refl;
}

dispatched-stale :
    (cutoff : ℕ) (k : Candidate) (now : ℕ) (x : ChargeRow)
    → (in_scope k x && is_dispatched x.state && ltb x.updated_at cutoff) ≡ true
    → Recovered cutoff x (record x {
      state = indeterminate;
      reason_code = some "stale_dispatched";
      updated_at = now;
    })
dispatched-stale cutoff k now x hit = record {
  stale = ground (arith, hit);
  new_state = ground (arith, hit);
  charge_id = refl;
  owner_id = refl;
  project_id = refl;
  run_id = refl;
  ordinal = refl;
  reserved_nusd = refl;
  actual_nusd = refl;
}

pub settle_stale-Settles :
    (now cutoff : ℕ) (k : Candidate) (db : Db) {db' : Db}
    → settle_stale now cutoff k db ≡ some db'
    → Settles cutoff k db db'
unfolding settle_stale in_scope
settle_stale-Settles now cutoff k db {db'} e = elim (Bool-cases k.was_reserved) [
  | inl was ↦
      settle-Settles cutoff k k.owner_id k.project_id k.run_id _ _ _ _ _ _ db {db' = db'}
        (λ x. rw was refl) (reserved-stale cutoff k now) (rw was at e)
  | inr other ↦
      settle-Settles cutoff k k.owner_id k.project_id k.run_id _ _ _ _ _ _ db {db' = db'}
        (λ x. rw other refl) (dispatched-stale cutoff k now) (rw other at e)
]
