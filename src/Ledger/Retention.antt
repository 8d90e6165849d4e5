-- ===== src/Ledger/Retention.antt =====
-- What the retention of backend/app/services/run_ledger.py leaves.
use cogentrex.Prelude.{
  ℕ, ◌≤◌, ◌≡◌, ◌⊎◌, refl, sym, ◌∙◌, ap, inl, inr, Bool, true, false, not, none, List, [], ◌∷◌,
  String, filter, length, matched, All-imp, leb, leb→le, Bool-cases, arith, eq_iff, ok, err,
}
use mathlib.Core.Path.{subst}
use cogentrex.Ledger.Rows.{RunRow, Db, integrity_error, has_id}
use cogentrex.Ledger.Prune.{
  listed, stale_of, run_ids_of, is_terminal, eligible_ids, restricted, without,
  delete_terminal_runs, prune_terminal_to_event_budget,
}
use cogentrex.Ledger.Selects.{matched-filter_le}
use cogentrex.Ledger.Invariant.{Numbered}
use cogentrex.Ledger.Counting.{
  total_of, times-listed, listed-total, stale_of-enough, stale_of-times,
}
use cogentrex.Ledger.Stale.{
  matched-filter_none, matched-ext, length-filter-not, counted_itself, Permutes, candidates,
  times-candidates, listed-eligible,
}

-- Without the stale runs there is room, or no terminal run is left.
without-room :
    (ordered : List RunRow → List RunRow) (most : ℕ) (db : Db)
    → Permutes ordered
    → Numbered db
    → let stale = stale_of (length db.events) most 0 db.events (candidates ordered db) in
      let left = without (eligible_ids stale none db) db in
      (length left.events ≤ most) ⊎ (matched is_terminal left.runs ≡ 0)
without-room ordered most db permutes h =
    let total = length db.events in
    let stale = stale_of total most 0 db.events (candidates ordered db) in
    let ids = eligible_ids stale none db in
    let few = stale_of-times total most 0 db.events (candidates ordered db) in
    let same = listed-eligible ordered db stale permutes few in
    elim (stale_of-enough total most 0 db.events (candidates ordered db)) [
      | inl whole ↦ inr (
          matched-filter_none is_terminal (λ row. not (listed ids row.run_id)) db.runs
            (All-imp
              (λ row.
                is_terminal row ≡ true
                → 1 ≤ matched (has_id row.run_id) (filter is_terminal db.runs))
              (λ row. is_terminal row ≡ true → not (listed ids row.run_id) ≡ false) db.runs
              (λ row counted hit. ap not (
                same row.run_id
                ∙ ap (λ xs. listed xs row.run_id) whole
                ∙ times-listed (candidates ordered db) row.run_id
                    (omega (arith, counted hit, times-candidates ordered db permutes row.run_id))))
              (counted_itself (λ row. has_id row.run_id) is_terminal db.runs
                (λ row. (eq_iff row.run_id row.run_id).1 refl))))
      | inr enough ↦ inl (
          let once = listed-total stale db.events (λ x. omega (
            arith,
            few x,
            times-candidates ordered db permutes x,
            matched-filter_le (has_id x) is_terminal db.runs,
            h.unique x,
          )) in
          let gone =
            matched-ext (λ row. listed ids row.run_id) (λ row. listed stale row.run_id) db.events
              (λ row. same row.run_id) in
          omega
            (arith, once, gone, enough, length-filter-not (λ row. listed ids row.run_id) db.events))
    ]

matched-filter_self :
    (rows : List RunRow) → matched is_terminal (filter is_terminal rows) ≡ matched is_terminal rows
matched-filter_self [] = refl
matched-filter_self (row ∷ rows) = ground (arith, matched-filter_self rows)

no_run : (rows : List RunRow) → run_ids_of rows ≡ [] → matched is_terminal rows ≡ 0
no_run [] e = refl
no_run (row ∷ rows) e = absurd (cc)

-- No stale run: there is room already, or no run is terminal.
untouched-room :
    (ordered : List RunRow → List RunRow) (most : ℕ) (db : Db)
    → Permutes ordered
    → stale_of (length db.events) most 0 db.events (candidates ordered db) ≡ []
    → (length db.events ≤ most) ⊎ (matched is_terminal db.runs ≡ 0)
untouched-room ordered most db permutes e =
    elim (stale_of-enough (length db.events) most 0 db.events (candidates ordered db)) [
      | inl whole ↦ inr (
          sym (matched-filter_self db.runs)
          ∙ sym (permutes is_terminal (filter is_terminal db.runs))
          ∙ no_run (ordered (filter is_terminal db.runs)) (sym whole ∙ e))
      | inr enough ↦ inl (omega (arith, enough, ap (total_of db.events) e))
    ]

deletion-room :
    (immediate : Bool) (ordered : List RunRow → List RunRow) (most : ℕ) (db : Db)
    (stale : List String) {n : ℕ} {left : Db}
    → Permutes ordered
    → Numbered db
    → stale_of (length db.events) most 0 db.events (candidates ordered db) ≡ stale
    → delete_terminal_runs immediate stale none db ≡ (ok n, left)
    → (length left.events ≤ most) ⊎ (matched is_terminal left.runs ≡ 0)
deletion-room immediate ordered most db [] {n} {left} permutes h same e =
    let here : db ≡ left = ap (λ p. p.1) e in
    subst (λ d. (length d.events ≤ most) ⊎ (matched is_terminal d.runs ≡ 0)) here
      (untouched-room ordered most db permutes same)
deletion-room immediate ordered most db (first ∷ rest) {n} {left} permutes h same e =
    let ids = eligible_ids (first ∷ rest) none db in
    elim (Bool-cases (restricted immediate ids db.runs)) [
      | inl refused ↦
          let failed : err integrity_error ≡ ok n = ap (λ p. p.0) (rw refused at e) in absurd (cc)
      | inr deleted ↦
          let here : without ids db ≡ left = ap (λ p. p.1) (rw deleted at e) in
          let room = without-room ordered most db permutes h in
          subst (λ d. (length d.events ≤ most) ⊎ (matched is_terminal d.runs ≡ 0)) here
            (rw same at room)
    ]

-- From numbered tables, when the retention succeeds and the ORDER BY returns the rows it is given,
-- the events that are left are at most the budget, or no terminal run is left.
pub prune_terminal_to_event_budget-room :
    (immediate : Bool) (ordered : List RunRow → List RunRow) (most : ℕ) (db : Db) {n : ℕ}
    {left : Db}
    → Permutes ordered
    → Numbered db
    → prune_terminal_to_event_budget immediate ordered most db ≡ (ok n, left)
    → (length left.events ≤ most) ⊎ (matched is_terminal left.runs ≡ 0)
prune_terminal_to_event_budget-room immediate ordered most db {n} {left} permutes h e =
    elim (Bool-cases (leb (length db.events) most)) [
      | inl fits ↦
          let here : db ≡ left = ap (λ p. p.1) (rw fits at e) in
          inl (subst (λ d. length d.events ≤ most) here (leb→le (length db.events) most fits))
      | inr over ↦
          deletion-room immediate ordered most db
            (stale_of (length db.events) most 0 db.events (candidates ordered db)) permutes h refl
            (rw over at e)
    ]
