-- ===== src/Ledger/Stale.antt =====
-- The stale runs that the retention of backend/app/services/run_ledger.py selects.
use cogentrex.Prelude.{
  ◌+◌, ◌≤◌, ◌≡◌, refl, sym, ◌∙◌, ap, inl, inr, Bool, true, false, not, none, List, [], ◌∷◌, String,
  filter, length, matched, All, All-imp, Bool-cases, arith, eq_iff,
}
use cogentrex.Ledger.Rows.{RunRow, Db, has_id}
use cogentrex.Ledger.Prune.{listed, run_ids_of, is_terminal, is_eligible, eligible_ids}
use cogentrex.Ledger.Counting.{times, listed-times, times-listed}

module _ {A : Type 0} where
  matched-filter_same :
      (m p q : A → Bool) (xs : List A)
      → ((x : A) → m x ≡ true → p x ≡ q x)
      → matched m (filter p xs) ≡ matched m (filter q xs)
  matched-filter_same m p q [] h = refl
  matched-filter_same m p q (x ∷ xs) h = ground (arith, matched-filter_same m p q xs h, h x)

  pub matched-filter_none :
      (m p : A → Bool) (xs : List A)
      → All (λ x. m x ≡ true → p x ≡ false) xs
      → matched m (filter p xs) ≡ 0
  matched-filter_none m p [] h = refl
  matched-filter_none m p (x ∷ xs) h = ground (arith, matched-filter_none m p xs h.1, h.0)

  pub matched-ext :
      (m n : A → Bool) (xs : List A) → ((x : A) → m x ≡ n x) → matched m xs ≡ matched n xs
  matched-ext m n [] h = refl
  matched-ext m n (x ∷ xs) h = ground (arith, matched-ext m n xs h, h x)

  pub length-filter-not :
      (p : A → Bool) (xs : List A) → length (filter (λ x. not (p x)) xs) + matched p xs ≡ length xs
  length-filter-not p [] = omega arith
  length-filter-not p (x ∷ xs) = ground (arith, length-filter-not p xs)

  -- A kept element is counted by a test that holds of itself.
  pub counted_itself :
      (m : A → A → Bool) (p : A → Bool) (xs : List A)
      → ((x : A) → m x x ≡ true)
      → All (λ x. p x ≡ true → 1 ≤ matched (m x) (filter p xs)) xs
  counted_itself m p [] h = tt
  counted_itself m p (x ∷ xs) h = (
    λ hit. rw (hit, h x) (omega arith),
    All-imp (λ y. p y ≡ true → 1 ≤ matched (m y) (filter p xs))
        (λ y. p y ≡ true → 1 ≤ matched (m y) (filter p (x ∷ xs))) xs
        (λ y few hit. ground (arith, few hit)) (counted_itself m p xs h),
  )

times-run_ids_of :
    (x : String) (rows : List RunRow) → times x (run_ids_of rows) ≡ matched (has_id x) rows
times-run_ids_of x [] = refl
times-run_ids_of x (row ∷ rows) = ground (arith, times-run_ids_of x rows)

-- The ORDER BY of the candidates returns the rows that it is given.
abbrev pub Permutes : (List RunRow → List RunRow) → Type 0
Permutes ordered =
    (m : RunRow → Bool) (rows : List RunRow) → matched m (ordered rows) ≡ matched m rows

abbrev pub candidates : (List RunRow → List RunRow) → Db → List String
candidates ordered db = run_ids_of (ordered (filter is_terminal db.runs))

pub times-candidates :
    (ordered : List RunRow → List RunRow) (db : Db)
    → Permutes ordered
    → (x : String)
    → times x (candidates ordered db) ≡ matched (has_id x) (filter is_terminal db.runs)
times-candidates ordered db permutes x =
    times-run_ids_of x (ordered (filter is_terminal db.runs))
    ∙ permutes (has_id x) (filter is_terminal db.runs)

All-refl :
    (rows : List RunRow) → (x : String) → All (λ row. has_id x row ≡ true → false ≡ false) rows
All-refl [] x = tt
All-refl (row ∷ rows) x = (λ hit. refl, All-refl rows x)

-- The subquery selects again the stale runs, which are terminal.
pub listed-eligible :
    (ordered : List RunRow → List RunRow) (db : Db) (stale : List String)
    → Permutes ordered
    → ((x : String) → times x stale ≤ times x (candidates ordered db))
    → (x : String) → listed (eligible_ids stale none db) x ≡ listed stale x
listed-eligible ordered db stale permutes few x =
    let count = times-run_ids_of x (filter (is_eligible stale none) db.runs) in
    elim (Bool-cases (listed stale x)) [
      | inl stays ↦
          let same =
            matched-filter_same (has_id x) (is_eligible stale none) is_terminal db.runs (λ row hit.
              let same_id : row.run_id ≡ x = (eq_iff row.run_id x).0 hit in
              let there : listed stale row.run_id ≡ true = ap (listed stale) same_id ∙ stays in
              ground (arith, there)) in
          times-listed (eligible_ids stale none db) x (
            omega (
              arith,
              count,
              same,
              few x,
              listed-times stale x stays,
              times-candidates ordered db permutes x,
            ))
          ∙ sym stays
      | inr away ↦
          let no_row =
            matched-filter_same (has_id x) (is_eligible stale none) (λ row. false) db.runs
              (λ row hit.
                let same_id : row.run_id ≡ x = (eq_iff row.run_id x).0 hit in
                let gone : listed stale row.run_id ≡ false = ap (listed stale) same_id ∙ away in
                ground (arith, gone)) in
          let nothing : matched (has_id x) (filter (λ row. false) db.runs) ≡ 0 =
            matched-filter_none (has_id x) (λ row. false) db.runs (All-refl db.runs x) in
          elim (Bool-cases (listed (eligible_ids stale none db) x)) [
            | inl found ↦ absurd (
                omega (
                  arith,
                  listed-times (eligible_ids stale none db) x found,
                  count,
                  no_row,
                  nothing,
                ))
            | inr missing ↦ missing ∙ sym away
          ]
    ]
