-- ===== src/Budget/Sweep.antt =====
-- The loop of `recover_stale` recovers all stale charges.
use cogentrex.Prelude.{
  ℕ, ◌≡◌, refl, sym, ◌∙◌, inl, inr, true, false, none, some, Option, List, [], ◌∷◌, All, All-imp,
  matched, ◌==◌, Bool-cases, str_eq, eq_iff, arith, ok, err,
}
use cogentrex.Budget.Rows.{ChargeRow, Db, Outcome}
use cogentrex.Budget.Recovery.{
  Candidate, candidate_of, stale_condition, candidates, in_scope, settle_stale, recovered,
  then_recover, add_count, recover_one, recover_all, recover_stale,
}
use cogentrex.Budget.Stale.{
  is_stale, Recovered-stale, RecoveredAll, RecoveredAll-refl, RecoveredAll-trans,
  RecoveredAll-Cleared, Cleared, Recovers, matched_zero,
}
use cogentrex.Budget.Settles.{settle_stale-Settles}

recover_one-Recovers :
    (now cutoff : ℕ) (k : Candidate) (db : Db)
    → Recovers cutoff (k ∷ []) db (recover_one now cutoff k db)
unfolding recover_one
recover_one-Recovers now cutoff k db = go (settle_stale now cutoff k db) refl
  where
    go :
        (found : Option Db)
        → settle_stale now cutoff k db ≡ found
        → Recovers cutoff (k ∷ []) db (recovered cutoff k db found)
    go (some db') e =
        let s = settle_stale-Settles now cutoff k db e in
        record {
          moved = s.0;
          counted = λ n same. ground (arith, s.1, same);
          cleared = λ n same. (s.2, tt);
        }
    go none e = elim (Bool-cases (matched (stale_condition cutoff k) db.charges == 0)) [
      | inl nothing ↦ rw nothing (record {
        moved = RecoveredAll-refl cutoff db.charges;
        counted = λ n same. ground (arith, same);
        cleared = λ n same.
            (matched_zero (stale_condition cutoff k) db.charges (ground (arith, nothing)), tt);
      })
      | inr some_row ↦ rw some_row (record {
        moved = RecoveredAll-refl cutoff db.charges;
        counted = λ n same. absurd (cc);
        cleared = λ n same. absurd (cc);
      })
    ]

-- One candidate, and then the others.
then_recover-Recovers :
    (cutoff : ℕ) (k : Candidate) (ks : List Candidate) (db : Db) (first : Outcome ℕ)
    (rest : Db → Outcome ℕ)
    → Recovers cutoff (k ∷ []) db first
    → ((db' : Db) → Recovers cutoff ks db' (rest db'))
    → Recovers cutoff (k ∷ ks) db (then_recover first rest)
then_recover-Recovers cutoff k ks db (err e, db') rest one others = record {
  moved = one.moved;
  counted = λ n same. absurd (cc);
  cleared = λ n same. absurd (cc);
}
then_recover-Recovers cutoff k ks db (ok n, db') rest one others = go (rest db') (others db')
  where
    go :
        (outcome : Outcome ℕ)
        → Recovers cutoff ks db' outcome
        → Recovers cutoff (k ∷ ks) db (add_count n outcome)
    go (err e, db'') h = record {
      moved = RecoveredAll-trans cutoff db.charges db'.charges db''.charges one.moved h.moved;
      counted = λ n same. absurd (cc);
      cleared = λ n same. absurd (cc);
    }
    go (ok m, db'') h = record {
      moved = RecoveredAll-trans cutoff db.charges db'.charges db''.charges one.moved h.moved;
      counted = λ i same. ground (arith, one.counted n refl, h.counted m refl, same);
      cleared = λ i same. (
        RecoveredAll-Cleared cutoff k db'.charges db''.charges h.moved (one.cleared n refl).0,
        h.cleared m refl,
      );
    }

recover_all-Recovers :
    (clock : Candidate → ℕ) (cutoff : ℕ) (ks : List Candidate) (db : Db)
    → Recovers cutoff ks db (recover_all clock cutoff ks db)
unfolding recover_all
recover_all-Recovers clock cutoff [] db = record {
  moved = RecoveredAll-refl cutoff db.charges;
  counted = λ n same. ground (arith, same);
  cleared = λ n same. tt;
}
recover_all-Recovers clock cutoff (k ∷ ks) db =
    then_recover-Recovers cutoff k ks db (recover_one (clock k) cutoff k db)
      (recover_all clock cutoff ks) (recover_one-Recovers (clock k) cutoff k db)
      (recover_all-Recovers clock cutoff ks)

-- A stale charge satisfies the condition of the candidate that it is.
candidate_of-condition :
    (cutoff : ℕ) (x : ChargeRow)
    → is_stale cutoff x ≡ true
    → stale_condition cutoff (candidate_of x) x ≡ true
unfolding in_scope
candidate_of-condition cutoff x h =
    let c : str_eq x.charge_id x.charge_id ≡ true = (eq_iff x.charge_id x.charge_id).1 refl in
    let o : str_eq x.owner_id x.owner_id ≡ true = (eq_iff x.owner_id x.owner_id).1 refl in
    let p : str_eq x.project_id x.project_id ≡ true = (eq_iff x.project_id x.project_id).1 refl in
    let r : str_eq x.run_id x.run_id ≡ true = (eq_iff x.run_id x.run_id).1 refl in
    ground (arith, h, c, o, p, r)

-- What holds of rows holds of all but the first.
Cleared-later :
    (cutoff : ℕ) (y : ChargeRow) (ys : List ChargeRow) (ks : List Candidate)
    → All (Cleared cutoff (y ∷ ys)) ks
    → All (Cleared cutoff ys) ks
Cleared-later cutoff y ys ks h =
    All-imp (Cleared cutoff (y ∷ ys)) (Cleared cutoff ys) ks (λ k c. c.1) h

-- Where no candidate's condition holds any more, no charge is stale.
candidates-Cleared :
    (cutoff : ℕ) (xs ys : List ChargeRow)
    → RecoveredAll cutoff xs ys
    → All (Cleared cutoff ys) (candidates cutoff xs)
    → matched (is_stale cutoff) ys ≡ 0
unfolding candidates
candidates-Cleared cutoff [] [] r h = refl
candidates-Cleared cutoff [] (y ∷ ys) r h = absurd r
candidates-Cleared cutoff (x ∷ xs) [] r h = absurd r
candidates-Cleared cutoff (x ∷ xs) (y ∷ ys) (inr done, r) h =
    elim (Bool-cases (is_stale cutoff x)) [
      | inl there ↦
          rw (Recovered-stale cutoff x y done)
            (candidates-Cleared cutoff xs ys r (Cleared-later cutoff y ys _ (rw there at h).1))
      | inr cold ↦ let clash = sym cold ∙ done.stale in absurd (cc)
    ]
candidates-Cleared cutoff (x ∷ xs) (y ∷ ys) (inl same, r) h =
    elim (Bool-cases (is_stale cutoff x)) [
      | inl there ↦
          let all = rw there at h in
          let mine : stale_condition cutoff (candidate_of x) x ≡ false = rw same at all.0.0 in
          let clash = sym mine ∙ candidate_of-condition cutoff x there in absurd (cc)
      | inr cold ↦
          rw (same, cold)
            (candidates-Cleared cutoff xs ys r (Cleared-later cutoff y ys _ (rw cold at h)))
    ]

-- If the ORDER BY loses no candidate, recover_stale moves stale charges only, reservations to
-- released and dispatches to indeterminate, with their identity, quote and price; and when it does not
-- fail, it returns the number of all stale charges, and leaves none.
pub recover_stale-recovers :
    (order_by : List Candidate → List Candidate) (clock : Candidate → ℕ) (cutoff : ℕ) (db : Db)
    → ((P : Candidate → Type 0) (ks : List Candidate) → All P (order_by ks) → All P ks)
    → let (result, db') = recover_stale order_by clock cutoff db in
      RecoveredAll cutoff db.charges db'.charges
      × ((n : ℕ)
          → result ≡ ok n
          → (n ≡ matched (is_stale cutoff) db.charges)
            × (matched (is_stale cutoff) db'.charges ≡ 0))
unfolding recover_stale
recover_stale-recovers order_by clock cutoff db keeps =
    let ks = candidates cutoff db.charges in
    let h = recover_all-Recovers clock cutoff (order_by ks) db in
    (
      h.moved,
      λ n same.
          let done = (recover_all clock cutoff (order_by ks) db).1 in
          let gone =
            candidates-Cleared cutoff db.charges done.charges h.moved
              (keeps (Cleared cutoff done.charges) ks (h.cleared n same)) in
          let count = h.counted n same in (omega (arith, count, gone), gone),
    )
