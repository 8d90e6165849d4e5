-- ===== src/Ledger/Paging.antt =====
-- A page of events in the order of their sequences, for backend/app/services/run_ledger.py.
use cogentrex.Prelude.{
  drop, All-filter, ℕ, zero, suc, ◌<◌, ◌≡◌, refl, sym, ap, inl, inr, Bool, true, false, ◌&&◌, List,
  [], ◌∷◌, ◌++◌, String, filter, map, All, All-imp, str_eq, ltb, leb, Bool-cases, arith, &&-elim,
}
use cogentrex.Ledger.Rows.{RuntimeEventRow, event_of}
use cogentrex.Ledger.Events.{insert_event, by_sequence, is_after}
use cogentrex.Ledger.Selects.{filter-filter_kept}
use cogentrex.Ledger.Invariant.{one_to, sequences}

-- Later rows have greater sequences.
abbrev pub Ascending : List RuntimeEventRow → Type 0
Ascending [] = Unit
Ascending (x ∷ xs) = All (λ y. x.sequence < y.sequence) xs × Ascending xs

abbrev Increasing : List ℕ → Type 0
Increasing [] = Unit
Increasing (n ∷ ns) = All (λ k. n < k) ns × Increasing ns

All-append : (P : ℕ → Type 0) (ns : List ℕ) (n : ℕ) → All P ns → P n → All P (ns ++ (n ∷ []))
All-append P [] n h last = (last, tt)
All-append P (k ∷ ns) n h last = (h.0, All-append P ns n h.1 last)

Increasing-append :
    (ns : List ℕ) (n : ℕ) → Increasing ns → All (λ k. k < n) ns → Increasing (ns ++ (n ∷ []))
Increasing-append [] n h below = (tt, tt)
Increasing-append (k ∷ ns) n h below =
    (All-append (λ j. k < j) ns n h.0 below.0, Increasing-append ns n h.1 below.1)

one_to-bounded : (n : ℕ) → All (λ k. k < suc n) (one_to n)
one_to-bounded zero = tt
one_to-bounded (suc n) =
    All-append (λ k. k < suc (suc n)) (one_to n) (suc n)
      (All-imp (λ k. k < suc n) (λ k. k < suc (suc n)) (one_to n) (λ k h. omega (arith, h))
        (one_to-bounded n))
      (omega arith)

one_to-Increasing : (n : ℕ) → Increasing (one_to n)
one_to-Increasing zero = tt
one_to-Increasing (suc n) =
    Increasing-append (one_to n) (suc n) (one_to-Increasing n) (one_to-bounded n)

All-map :
    (P : ℕ → Type 0) (rows : List RuntimeEventRow)
    → All P (map (λ row. row.sequence) rows)
    → All (λ row. P row.sequence) rows
All-map P [] h = tt
All-map P (x ∷ rows) h = (h.0, All-map P rows h.1)

Increasing→Ascending :
    (rows : List RuntimeEventRow) → Increasing (map (λ row. row.sequence) rows) → Ascending rows
Increasing→Ascending [] h = tt
Increasing→Ascending (x ∷ rows) h =
    (All-map (λ k. x.sequence < k) rows h.0, Increasing→Ascending rows h.1)

filter-Ascending :
    (p : RuntimeEventRow → Bool) (rows : List RuntimeEventRow)
    → Ascending rows
    → Ascending (filter p rows)
filter-Ascending p [] h = tt
filter-Ascending p (x ∷ rows) h = elim (Bool-cases (p x)) [
  | inl hit ↦
      rw hit (All-filter (λ y. x.sequence < y.sequence) p rows h.0, filter-Ascending p rows h.1)
  | inr miss ↦ rw miss (filter-Ascending p rows h.1)
]

-- Numbered events are read in their order, from any position.
pub after-Ascending :
    (user_id run_id : String) (a n : ℕ) (events : List RuntimeEventRow)
    → sequences run_id events ≡ one_to n
    → Ascending (filter (is_after user_id run_id a) events)
after-Ascending user_id run_id a n events e =
    rw
      (sym (
        filter-filter_kept (is_after user_id run_id a) (event_of run_id) events (λ row h.
          (&&-elim (str_eq row.run_id run_id) (str_eq row.user_id user_id && ltb a row.sequence)
            h).0)))
      (filter-Ascending (is_after user_id run_id a) (filter (event_of run_id) events)
        (Increasing→Ascending (filter (event_of run_id) events) (rw e (one_to-Increasing n))))

insert-first :
    (x : RuntimeEventRow) (rows : List RuntimeEventRow)
    → All (λ y. x.sequence < y.sequence) rows
    → insert_event x rows ≡ x ∷ rows
insert-first x [] h = refl
insert-first x (y ∷ rows) h =
    let le : leb x.sequence y.sequence ≡ true = ground (arith, h.0) in rw le refl

-- Sorting leaves rows that are in order.
pub by_sequence-Ascending : (rows : List RuntimeEventRow) → Ascending rows → by_sequence rows ≡ rows
by_sequence-Ascending [] h = refl
by_sequence-Ascending (x ∷ rows) h = rw (by_sequence-Ascending rows h.1) (insert-first x rows h.0)

-- The sequence of the last of the first rows.
abbrev pub last_of : RuntimeEventRow → ℕ → List RuntimeEventRow → ℕ
last_of x zero rows = x.sequence
last_of x (suc n) [] = x.sequence
last_of x (suc n) (y ∷ rows) = last_of y n rows

pub last_of-above :
    (b : ℕ) (x : RuntimeEventRow) (n : ℕ) (rows : List RuntimeEventRow)
    → b < x.sequence
    → All (λ y. b < y.sequence) rows
    → b < last_of x n rows
last_of-above b x zero rows h all = h
last_of-above b x (suc n) [] h all = h
last_of-above b x (suc n) (y ∷ rows) h all = last_of-above b y n rows all.0 all.1

filter-All :
    (p : RuntimeEventRow → Bool) (rows : List RuntimeEventRow)
    → All (λ y. p y ≡ true) rows
    → filter p rows ≡ rows
filter-All p [] h = refl
filter-All p (x ∷ rows) h = rw h.0 (ap (λ ys. x ∷ ys) (filter-All p rows h.1))

-- What comes after the last row of a page is the rest.
pub after-page :
    (x : RuntimeEventRow) (n : ℕ) (rows : List RuntimeEventRow)
    → Ascending (x ∷ rows)
    → filter (λ row. ltb (last_of x n rows) row.sequence) (x ∷ rows) ≡ drop n rows
after-page x zero rows h =
    let first : ltb x.sequence x.sequence ≡ false = ground arith in
    rw first (
      filter-All (λ row. ltb x.sequence row.sequence) rows
        (All-imp (λ y. x.sequence < y.sequence) (λ y. ltb x.sequence y.sequence ≡ true) rows
          (λ y less. ground (arith, less)) h.0))
after-page x (suc n) [] h =
    let first : ltb x.sequence x.sequence ≡ false = ground arith in rw first refl
after-page x (suc n) (y ∷ rows) h =
    let before : ltb (last_of y n rows) x.sequence ≡ false =
      ground (arith, last_of-above x.sequence y n rows h.0.0 h.0.1) in
    rw before (after-page y n rows h.1)
