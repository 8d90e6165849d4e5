-- ===== src/Ledger/Counting.antt =====
-- Counting the events of several runs, for the retention of backend/app/services/run_ledger.py.
use cogentrex.Prelude.{
  All, matched_none, ℕ, ◌+◌, ◌-◌, ◌≤◌, ◌≡◌, ◌⊎◌, refl, sym, ◌∙◌, ap, inl, inr, Bool, true, false,
  ◌||◌, List, [], ◌∷◌, String, matched, str_eq, leb, leb→le, Bool-cases, arith, eq_iff,
}
use cogentrex.Ledger.Rows.{RuntimeEventRow, event_of}
use cogentrex.Ledger.Prune.{listed, stale_of}

-- How often a text is in a list.
abbrev pub times : String → List String → ℕ
times x xs = matched (λ y. str_eq y x) xs

abbrev pub total_of : List RuntimeEventRow → List String → ℕ
total_of events [] = 0
total_of events (x ∷ xs) = matched (event_of x) events + total_of events xs

pub listed-times : (xs : List String) (x : String) → listed xs x ≡ true → 1 ≤ times x xs
listed-times [] x h = absurd (ground (arith, h))
listed-times (y ∷ xs) x h = ground (arith, listed-times xs x)

pub times-listed : (xs : List String) (x : String) → 1 ≤ times x xs → listed xs x ≡ true
times-listed [] x h = absurd (omega (arith, h))
times-listed (y ∷ xs) x h = ground (arith, times-listed xs x)

matched-or :
    (p q r : RuntimeEventRow → Bool) (events : List RuntimeEventRow)
    → ((e : RuntimeEventRow) → r e ≡ (p e || q e))
    → ((e : RuntimeEventRow) → p e ≡ true → q e ≡ false)
    → matched r events ≡ matched p events + matched q events
matched-or p q r [] same apart = omega arith
matched-or p q r (e ∷ events) same apart =
    ground (arith, matched-or p q r events same apart, same e, apart e)

str_eq_comm : (x y : String) → str_eq x y ≡ str_eq y x
str_eq_comm x y = ground (arith, eq_iff x y, eq_iff y x)

once_tail : (x : String) (xs : List String) (y : String) → times y xs ≤ times y (x ∷ xs)
once_tail x xs y = ground arith

-- A text that is there once is not in the rest.
apart_from :
    (x : String) (xs : List String)
    → times x (x ∷ xs) ≤ 1
    → (y : String) → str_eq y x ≡ true
    → listed xs y ≡ false
apart_from x xs once y hit = elim (Bool-cases (listed xs y)) [
  | inl there ↦
      let same : y ≡ x = (eq_iff y x).0 hit in
      let again : listed xs x ≡ true = ap (listed xs) (sym same) ∙ there in
      absurd (ground (arith, once, listed-times xs x again, eq_iff x x))
  | inr away ↦ away
]

All-false : (events : List RuntimeEventRow) → All (λ e. false ≡ false) events
All-false [] = tt
All-false (e ∷ events) = (refl, All-false events)

-- Distinct runs have their events apart.
pub listed-total :
    (xs : List String) (events : List RuntimeEventRow)
    → ((x : String) → times x xs ≤ 1)
    → matched (λ e. listed xs e.run_id) events ≡ total_of events xs
listed-total [] events once = matched_none (λ e. false) events (All-false events)
listed-total (x ∷ xs) events once =
    matched-or (event_of x) (λ e. listed xs e.run_id) (λ e. listed (x ∷ xs) e.run_id) events
      (λ e. (ap (λ b. b || listed xs e.run_id) (str_eq_comm x e.run_id)))
      (λ e hit. apart_from x xs (once x) e.run_id hit)
    ∙ ap (λ n. matched (event_of x) events + n)
        (listed-total xs events (λ y. omega (arith, once_tail x xs y, once y)))

-- The loop ends with all candidates, or when enough events are counted.
pub stale_of-enough :
    (total most removed : ℕ) (events : List RuntimeEventRow) (xs : List String)
    → (stale_of total most removed events xs ≡ xs)
      ⊎ (total - (removed + total_of events (stale_of total most removed events xs)) ≤ most)
stale_of-enough total most removed events [] = inl refl
stale_of-enough total most removed events (x ∷ xs) =
    let gone = removed + matched (event_of x) events in
    elim (Bool-cases (leb (total - gone) most)) [
      | inl enough ↦ inr (rw enough (omega (arith, leb→le (total - gone) most enough)))
      | inr few ↦ elim (stale_of-enough total most gone events xs) [
        | inl whole ↦ inl (rw (few, whole) refl)
        | inr met ↦ inr (rw few (omega (arith, met)))
      ]
    ]

pub stale_of-times :
    (total most removed : ℕ) (events : List RuntimeEventRow) (xs : List String) (x : String)
    → times x (stale_of total most removed events xs) ≤ times x xs
stale_of-times total most removed events [] x = omega arith
stale_of-times total most removed events (y ∷ xs) x =
    ground (arith, stale_of-times total most (removed + matched (event_of y) events) events xs x)
