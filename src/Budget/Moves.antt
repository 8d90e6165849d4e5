-- ===== src/Budget/Moves.antt =====
-- How the sums over charges move when one charge of a scope changes.
use cogentrex.Prelude.{
  ℕ, ◌+◌, ◌≡◌, Bool, true, false, ◌&&◌, List, String, str_eq, eq_iff, sum-update, update, matched,
  arith,
}
use cogentrex.Budget.Rows.{ChargeRow}
use cogentrex.Budget.Invariant.{held, spent, of_project, of_run, when, total}

-- How an update changes one charge of a scope: `q` less is held, and `a` more is spent.
pub record Moves (o p r : String) (q a : ℕ) (row row' : ChargeRow) : Type 0 where
  pub owner : str_eq row.owner_id o ≡ true
  pub project : str_eq row.project_id p ≡ true
  pub run : str_eq row.run_id r ≡ true
  pub same_owner : row'.owner_id ≡ row.owner_id
  pub same_project : row'.project_id ≡ row.project_id
  pub same_run : row'.run_id ≡ row.run_id
  pub held_falls : held row' + q ≡ held row
  pub spent_rises : spent row' ≡ spent row + a

module _ (o p r : String) (q a : ℕ) (cond : ChargeRow → Bool) (change : ChargeRow → ChargeRow)
    (moves : (row : ChargeRow) → cond row ≡ true → Moves o p r q a row (change row)) where
  -- Both sums over a set of charges, to which the scope's charges all belong or all do not.
  pub total-update-held :
      (member : ChargeRow → Bool) (b : Bool) (charges : List ChargeRow)
      → ((row row' : ChargeRow) → Moves o p r q a row row' → (member row ≡ b) × (member row' ≡ b))
      → matched cond charges ≡ 1
      → total member held (update cond change charges) + when b q ≡ total member held charges
  total-update-held member b charges same one =
      let moved =
        sum-update (λ row. when (member row) (held row)) cond change (when b q) 0 charges
          (λ row hit.
            when_held b row (change row) (moves row hit) (same row (change row) (moves row hit))) in
      let counted = rw one at moved in omega (arith, counted)
    where
      when_held :
          (c : Bool) (row row' : ChargeRow)
          → Moves o p r q a row row'
          → (member row ≡ c) × (member row' ≡ c)
          → when (member row') (held row') + when c q ≡ when (member row) (held row) + 0
      when_held true row row' m e = rw (e.0, e.1) (omega (arith, m.held_falls))
      when_held false row row' m e = rw (e.0, e.1)

  pub total-update-spent :
      (member : ChargeRow → Bool) (b : Bool) (charges : List ChargeRow)
      → ((row row' : ChargeRow) → Moves o p r q a row row' → (member row ≡ b) × (member row' ≡ b))
      → matched cond charges ≡ 1
      → total member spent (update cond change charges) ≡ total member spent charges + when b a
  total-update-spent member b charges same one =
      let moved =
        sum-update (λ row. when (member row) (spent row)) cond change 0 (when b a) charges
          (λ row hit.
            when_spent b row (change row) (moves row hit)
              (same row (change row) (moves row hit))) in
      let counted = rw one at moved in omega (arith, counted)
    where
      when_spent :
          (c : Bool) (row row' : ChargeRow)
          → Moves o p r q a row row'
          → (member row ≡ c) × (member row' ≡ c)
          → when (member row') (spent row') + 0 ≡ when (member row) (spent row) + when c a
      when_spent true row row' m e = rw (e.0, e.1) (omega (arith, m.spent_rises))
      when_spent false row row' m e = rw (e.0, e.1)

-- Whether the charges of a scope belong to an account.
pub of_project-Moves :
    (o p r : String) (q a : ℕ) (o' p' : String) (row row' : ChargeRow)
    → Moves o p r q a row row'
    → (of_project o' p' row ≡ (str_eq o o' && str_eq p p'))
      × (of_project o' p' row' ≡ (str_eq o o' && str_eq p p'))
of_project-Moves o p r q a o' p' row row' m =
    let at_o = (eq_iff row.owner_id o).0 m.owner in
    let at_p = (eq_iff row.project_id p).0 m.project in
    (rw (at_o, at_p), rw (m.same_owner, m.same_project, at_o, at_p))

pub of_run-Moves :
    (o p r : String) (q a : ℕ) (o' p' r' : String) (row row' : ChargeRow)
    → Moves o p r q a row row'
    → (of_run o' p' r' row ≡ ((str_eq o o' && str_eq p p') && str_eq r r'))
      × (of_run o' p' r' row' ≡ ((str_eq o o' && str_eq p p') && str_eq r r'))
of_run-Moves o p r q a o' p' r' row row' m =
    let at_r = (eq_iff row.run_id r).0 m.run in
    let (x, y) = of_project-Moves o p r q a o' p' row row' m in
    (rw (x, at_r), rw (y, m.same_run, at_r))
