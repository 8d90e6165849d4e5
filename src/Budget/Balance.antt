-- ===== src/Budget/Balance.antt =====
-- The accounts over a committed `settle` whose updates move the same amounts.
use cogentrex.Prelude.{
  ℕ, ◌+◌, ◌≤◌, ◌≡◌, refl, sym, ◌∙◌, Bool, true, false, ◌&&◌, Option, none, some, List, String,
  str_eq, eq_iff, update, matched, if◌then◌else◌, arith, Bool-cases, inl, inr, &&-elim,
}
use mathlib.Core.Path.{subst, subst₂}
use cogentrex.Budget.Rows.{ProjectRow, RunRow, ChargeRow, Db, settle, run_in}
use cogentrex.Budget.Invariant.{
  Inv, Balanced, ProjectBalanced, RunBalanced, UnopenedClean, held, spent, of_project, of_run,
  total,
}
use cogentrex.Budget.Moves.{
  Moves, total-update-held, total-update-spent, of_project-Moves, of_run-Moves,
}
use cogentrex.Budget.Settle.{Settled, settle-Settled}

-- The counters of an account give `q` back and spend `a`.
pub record Pays (q a reserved_nusd spent_nusd reserved' spent' : ℕ) : Type 0 where
  pub gives_back : reserved' + q ≡ reserved_nusd
  pub spends : spent' ≡ spent_nusd + a
  pub affordable : a ≤ q

Balanced-Pays :
    (member : ChargeRow → Bool) (charges charges' : List ChargeRow) (q a limit limit' s r s' r' : ℕ)
    → Balanced member charges limit s r
    → limit' ≡ limit
    → total member held charges' + q ≡ total member held charges
    → total member spent charges' ≡ total member spent charges + a
    → Pays q a r s r' s'
    → Balanced member charges' limit' s' r'
Balanced-Pays member charges charges' q a limit limit' s r s' r' b same held' spent' pays = record {
  within_limit = omega (arith, same, b.within_limit, pays.gives_back, pays.spends, pays.affordable);
  reserved_exact = omega (arith, b.reserved_exact, pays.gives_back);
  spent_exact = omega (arith, b.spent_exact, pays.spends);
}

pub record ProjectPays (q a : ℕ) (row row' : ProjectRow) : Type 0 where
  pub same_limit : row'.limit_nusd ≡ row.limit_nusd
  pub pays : Pays q a row.reserved_nusd row.spent_nusd row'.reserved_nusd row'.spent_nusd

pub record RunPays (q a : ℕ) (row row' : RunRow) : Type 0 where
  pub same_user : row'.user_id ≡ row.user_id
  pub same_project : row'.project_id ≡ row.project_id
  pub same_opened : row'.opened_at ≡ row.opened_at
  pub same_limit : row'.limit_nusd ≡ row.limit_nusd
  pub pays : Pays q a row.reserved_nusd row.spent_nusd row'.reserved_nusd row'.spent_nusd

unopened-Pays :
    (opened : Option ℕ) (q a r s r' s' : ℕ)
    → Pays q a r s r' s'
    → UnopenedClean opened s r
    → UnopenedClean opened s' r'
unopened-Pays none q a r s r' s' p c = omega (arith, p.gives_back, p.spends, p.affordable)
unopened-Pays (some t) q a r s r' s' p c = tt

module _ (o p r : String) (q a : ℕ) (c_cond : ChargeRow → Bool) (c_change : ChargeRow → ChargeRow)
    (moves : (row : ChargeRow) → c_cond row ≡ true → Moves o p r q a row (c_change row))
    (charges : List ChargeRow) (one : matched c_cond charges ≡ 1) where
  project_moved :
      (project : ProjectRow) (row' : ProjectRow)
      → ProjectPays q a project row'
      → ProjectBalanced o p charges (some project)
      → ProjectBalanced o p (update c_cond c_change charges) (some row')
  project_moved project row' pays b =
      Balanced-Pays (of_project o p) charges _ q a _ _ _ _ _ _ b pays.same_limit
        (total-update-held o p r q a c_cond c_change moves (of_project o p) true charges here one)
        (total-update-spent o p r q a c_cond c_change moves (of_project o p) true charges here one)
        pays.pays
    where
      here :
          (row row' : ChargeRow)
          → Moves o p r q a row row'
          → (of_project o p row ≡ true) × (of_project o p row' ≡ true)
      here row row' m =
          (rw (m.owner, m.project), rw (m.same_owner, m.same_project, m.owner, m.project))

  -- An account that none of the scope's charges belongs to stays as it is.
  Balanced-elsewhere :
      (member : ChargeRow → Bool) (limit s rv : ℕ)
      → ((row row' : ChargeRow)
          → Moves o p r q a row row'
          → (member row ≡ false) × (member row' ≡ false))
      → Balanced member charges limit s rv
      → Balanced member (update c_cond c_change charges) limit s rv
  Balanced-elsewhere member limit s rv out b =
      Balanced-Pays member charges _ 0 0 limit limit s rv s rv b refl
        (total-update-held o p r q a c_cond c_change moves member false charges out one)
        (total-update-spent o p r q a c_cond c_change moves member false charges out one)
        (omega arith)

  project_elsewhere :
      (o' p' : String) (row : Option ProjectRow)
      → (str_eq o o' && str_eq p p') ≡ false
      → ProjectBalanced o' p' charges row
      → ProjectBalanced o' p' (update c_cond c_change charges) row
  project_elsewhere o' p' row off b = go row b
    where
      out :
          (row row' : ChargeRow)
          → Moves o p r q a row row'
          → (of_project o' p' row ≡ false) × (of_project o' p' row' ≡ false)
      out row row' m =
          let (x, y) = of_project-Moves o p r q a o' p' row row' m in (x ∙ off, y ∙ off)

      go :
          (row : Option ProjectRow)
          → ProjectBalanced o' p' charges row
          → ProjectBalanced o' p' (update c_cond c_change charges) row
      go none b = omega (
        arith,
        b,
        total-update-held o p r q a c_cond c_change moves (of_project o' p') false charges out one,
        total-update-spent o p r q a c_cond c_change moves (of_project o' p') false charges out one,
      )
      go (some row) b = Balanced-elsewhere (of_project o' p') _ _ _ out b

  run_moved :
      (run : RunRow) (row' : RunRow)
      → RunPays q a run row'
      → run_in o p run ≡ true
      → RunBalanced r charges (some run)
      → RunBalanced r (update c_cond c_change charges) (some row')
  run_moved run row' pays owned (b, clean) = (
    rw (pays.same_user, pays.same_project)
        (Balanced-Pays member charges _ q a _ _ _ _ _ _ b pays.same_limit
          (total-update-held o p r q a c_cond c_change moves member true charges here one)
          (total-update-spent o p r q a c_cond c_change moves member true charges here one)
          pays.pays),
    rw pays.same_opened (unopened-Pays run.opened_at q a _ _ _ _ pays.pays clean),
  )
    where
      member : ChargeRow → Bool
      member = of_run run.user_id run.project_id r

      at_o : run.user_id ≡ o
      at_o =
          (eq_iff run.user_id o).0
            (&&-elim (str_eq run.user_id o) (str_eq run.project_id p) owned).0

      at_p : run.project_id ≡ p
      at_p =
          (eq_iff run.project_id p).0
            (&&-elim (str_eq run.user_id o) (str_eq run.project_id p) owned).1

      here :
          (row row' : ChargeRow)
          → Moves o p r q a row row'
          → (member row ≡ true) × (member row' ≡ true)
      here row row' m = (
        rw (at_o, at_p, m.owner, m.project, m.run),
        rw (at_o, at_p, m.same_owner, m.same_project, m.same_run, m.owner, m.project, m.run),
      )

  run_elsewhere :
      (r' : String) (row : Option RunRow)
      → str_eq r r' ≡ false
      → RunBalanced r' charges row
      → RunBalanced r' (update c_cond c_change charges) row
  run_elsewhere r' none off b = tt
  run_elsewhere r' (some run) off (b, clean) =
      (Balanced-elsewhere (of_run run.user_id run.project_id r') _ _ _ out b, clean)
    where
      and_false : (b : Bool) → (b && false) ≡ false
      and_false true = refl
      and_false false = refl

      out :
          (row row' : ChargeRow)
          → Moves o p r q a row row'
          → (of_run run.user_id run.project_id r' row ≡ false)
            × (of_run run.user_id run.project_id r' row' ≡ false)
      out row row' m =
          let (x, y) = of_run-Moves o p r q a run.user_id run.project_id r' row row' m in
          (rw (x, off) (and_false _), rw (y, off) (and_false _))

-- The three updates of a transaction keep the invariant, if each moves the same amounts.
pub settle-Inv :
    (o p r : String) (q a : ℕ) (p_cond : ProjectRow → Bool) (p_change : ProjectRow → ProjectRow)
    (r_cond : RunRow → Bool) (r_change : RunRow → RunRow) (c_cond : ChargeRow → Bool)
    (c_change : ChargeRow → ChargeRow) (db : Db) {db' : Db}
    → ((row : ProjectRow) → p_cond row ≡ true → ProjectPays q a row (p_change row))
    → ((row : RunRow) → r_cond row ≡ true → RunPays q a row (r_change row))
    → ((row : ChargeRow) → c_cond row ≡ true → Moves o p r q a row (c_change row))
    → settle o p r p_cond p_change r_cond r_change c_cond c_change db ≡ some db'
    → Inv db
    → Inv db'
settle-Inv o p r q a p_cond p_change r_cond r_change c_cond c_change db {db'} pp rp moves e h =
    subst Inv (sym s.result) (record { projects_balanced = projects; runs_balanced = runs })
  where
    s : Settled o p r p_cond p_change r_cond r_change c_cond c_change db db'
    s = settle-Settled o p r p_cond p_change r_cond r_change c_cond c_change db e

    here : ProjectBalanced o p (update c_cond c_change db.charges) (some (p_change s.project))
    here =
        project_moved o p r q a c_cond c_change moves db.charges s.one_charge s.project
          (p_change s.project) (pp s.project s.project_met)
          (subst (ProjectBalanced o p db.charges) s.project_found (h.projects_balanced o p))

    there : RunBalanced r (update c_cond c_change db.charges) (some (r_change s.run))
    there =
        run_moved o p r q a c_cond c_change moves db.charges s.one_charge s.run (r_change s.run)
          (rp s.run s.run_met) s.run_owned
          (subst (RunBalanced r db.charges) s.run_found (h.runs_balanced r))

    projects :
        (o' p' : String)
        → ProjectBalanced o' p'
            (update c_cond c_change db.charges)
            (if str_eq o o' && str_eq p p' then some (p_change s.project) else db.projects o' p')
    projects o' p' = elim (Bool-cases (str_eq o o' && str_eq p p')) [
      | inl same ↦ rw same (
          subst₂
            (λ x y.
              ProjectBalanced x y (update c_cond c_change db.charges) (some (p_change s.project)))
            ((eq_iff o o').0 (&&-elim (str_eq o o') (str_eq p p') same).0)
            ((eq_iff p p').0 (&&-elim (str_eq o o') (str_eq p p') same).1) here)
      | inr other ↦ rw other (
          project_elsewhere o p r q a c_cond c_change moves db.charges s.one_charge o' p'
            (db.projects o' p') other (h.projects_balanced o' p'))
    ]

    runs :
        (r' : String)
        → RunBalanced r'
            (update c_cond c_change db.charges)
            (if str_eq r r' then some (r_change s.run) else db.runs r')
    runs r' = elim (Bool-cases (str_eq r r')) [
      | inl same ↦ rw same (
          subst (λ x. RunBalanced x (update c_cond c_change db.charges) (some (r_change s.run)))
            ((eq_iff r r').0 same) there)
      | inr other ↦ rw other (
          run_elsewhere o p r q a c_cond c_change moves db.charges s.one_charge r' (db.runs r')
            other (h.runs_balanced r'))
    ]
