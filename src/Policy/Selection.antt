-- ===== src/Policy/Selection.antt =====
-- Filters, best specificities, and the rule that is chosen.
use cogentrex.Prelude.{
  filter, ◌≡◌, ◌⊎◌, refl, inl, inr, Bool, true, false, List, [], ◌∷◌, Bool-cases, arith,
}
use mathlib.Core.List.{Memᴰ}
use cogentrex.Policy.{
  PolicyRule, Specificity, is_deny, specificity, above, same_specificity, best_of, last_of,
  winner_of, tied_with, denies_of, winner,
}

module _ {A : Type 0} where
  cons-Memᴰ :
      (p : A → Bool) (y : A) (xs : List A) {x : A}
      → (Memᴰ x (filter p xs) → Memᴰ x xs × (p x ≡ true))
      → p y ≡ true
      → Memᴰ x (y ∷ filter p xs)
      → Memᴰ x (y ∷ xs) × (p x ≡ true)
  cons-Memᴰ p y xs rest hit (Memᴰ.head same) = (Memᴰ.head same, rw same hit)
  cons-Memᴰ p y xs rest hit (Memᴰ.tail at) =
      let (there, holds) = rest at in (Memᴰ.tail there, holds)

  pub filter-Memᴰ :
      (p : A → Bool) (xs : List A) {x : A} → Memᴰ x (filter p xs) → Memᴰ x xs × (p x ≡ true)
  filter-Memᴰ p [] m = elim m [ ]
  filter-Memᴰ p (y ∷ xs) {x} m = elim (Bool-cases (p y)) [
    | inl hit ↦ cons-Memᴰ p y xs (filter-Memᴰ p xs) hit (rw hit at m)
    | inr miss ↦ let (at, holds) = filter-Memᴰ p xs (rw miss at m) in (Memᴰ.tail at, holds)
  ]

  pub Memᴰ-filter :
      (p : A → Bool) (xs : List A) {x : A} → Memᴰ x xs → p x ≡ true → Memᴰ x (filter p xs)
  Memᴰ-filter p [] m holds = elim m [ ]
  Memᴰ-filter p (y ∷ xs) {x} (Memᴰ.head same) holds =
      let hit : p y ≡ true = rw (← same) holds in rw hit (Memᴰ.head same)
  Memᴰ-filter p (y ∷ xs) {x} (Memᴰ.tail at) holds = elim (Bool-cases (p y)) [
    | inl hit ↦ rw hit (Memᴰ.tail (Memᴰ-filter p xs at holds))
    | inr miss ↦ rw miss (Memᴰ-filter p xs at holds)
  ]

last_of-Memᴰ : (x : PolicyRule) (xs : List PolicyRule) → Memᴰ (last_of x xs) (x ∷ xs)
last_of-Memᴰ x [] = Memᴰ.head refl
last_of-Memᴰ x (y ∷ xs) = Memᴰ.tail (last_of-Memᴰ y xs)

above_trans : (x y z : Specificity) → above x y ≡ false → above y z ≡ false → above x z ≡ false
unfolding above
above_trans (a, b, c) (d, e, f) (g, h, i) p q = ground (arith, p, q)

above_irrefl : (x : Specificity) → above x x ≡ false
unfolding above
above_irrefl (a, b, c) = ground arith

above_asym : (x y : Specificity) → above x y ≡ true → above y x ≡ false
unfolding above
above_asym (a, b, c) (d, e, f) p = ground (arith, p)

same_specificity_refl : (x : Specificity) → same_specificity x x ≡ true
unfolding same_specificity
same_specificity_refl (a, b, c) = ground arith

pub same_specificity-eq : (x y : Specificity) → same_specificity x y ≡ true → x ≡ y
unfolding same_specificity
same_specificity-eq (a, b, c) (d, e, f) p = ground (arith, p)

-- The best specificity is above none, and is attained.
record Best (from : Specificity) (rules : List PolicyRule) (best : Specificity) : Type 0 where
  over_from : above from best ≡ false
  over_rules : (r : PolicyRule) → Memᴰ r rules → above (specificity r) best ≡ false
  attained : (best ≡ from) ⊎ ((r : PolicyRule) × Memᴰ r rules × (best ≡ specificity r))

best_of-Best : (from : Specificity) (rules : List PolicyRule) → Best from rules (best_of from rules)
best_of-Best from [] = record {
  over_from = above_irrefl from;
  over_rules = λ r m. none_there r m;
  attained = inl refl;
}
  where
    none_there : (r : PolicyRule) → Memᴰ r [] → above (specificity r) from ≡ false
    none_there r m = elim m [ ]
best_of-Best from (rule ∷ rules) = elim (Bool-cases (above (specificity rule) from)) [
  | inl higher ↦
      let b = best_of-Best (specificity rule) rules in
      rw higher (record {
        over_from =
            above_trans from (specificity rule) _ (above_asym (specificity rule) from higher)
              b.over_from;
        over_rules = λ r m. over (specificity rule) b.over_from b.over_rules r m;
        attained = inr (from_rule (specificity rule) refl b.attained);
      })
  | inr lower ↦
      let b = best_of-Best from rules in
      rw lower (record {
        over_from = b.over_from;
        over_rules = λ r m.
            over from (above_trans (specificity rule) from _ lower b.over_from) b.over_rules r m;
        attained = later b.attained;
      })
]
  where
    over :
        (f : Specificity)
        → above (specificity rule) (best_of f rules) ≡ false
        → ((r : PolicyRule) → Memᴰ r rules → above (specificity r) (best_of f rules) ≡ false)
        → (r : PolicyRule) → Memᴰ r (rule ∷ rules)
        → above (specificity r) (best_of f rules) ≡ false
    over f first rest r (Memᴰ.head same) = rw same first
    over f first rest r (Memᴰ.tail at) = rest r at

    later :
        {best : Specificity}
        → (best ≡ from) ⊎ ((r : PolicyRule) × Memᴰ r rules × (best ≡ specificity r))
        → (best ≡ from) ⊎ ((r : PolicyRule) × Memᴰ r (rule ∷ rules) × (best ≡ specificity r))
    later (inl same) = inl same
    later (inr (r, at, same)) = inr (r, Memᴰ.tail at, same)

    from_rule :
        {best : Specificity} (f : Specificity)
        → f ≡ specificity rule
        → (best ≡ f) ⊎ ((r : PolicyRule) × Memᴰ r rules × (best ≡ specificity r))
        → (r : PolicyRule) × Memᴰ r (rule ∷ rules) × (best ≡ specificity r)
    from_rule f e (inl same) = (rule, Memᴰ.head refl, cc)
    from_rule f e (inr (r, at, same)) = (r, Memᴰ.tail at, same)

-- The chosen rule: one of the matches, which none of them is above, and a denial if one of those
-- of its specificity is.
pub record Chosen (rules : List PolicyRule) (w : PolicyRule) : Type 0 where
  pub listed : Memᴰ w rules
  pub unsurpassed : (r : PolicyRule) → Memᴰ r rules → above (specificity r) (specificity w) ≡ false
  pub denies_first :
      (r : PolicyRule)
      → Memᴰ r rules
      → same_specificity (specificity r) (specificity w) ≡ true
      → is_deny r.action ≡ true
      → is_deny w.action ≡ true

-- The choice from those of the best specificity.
winner_of-Memᴰ :
    (first : PolicyRule) (tied : List PolicyRule)
    → (t : PolicyRule) × Memᴰ t tied
    → Memᴰ (winner_of first (denies_of tied) tied) tied
winner_of-Memᴰ first [] (t, m) = elim m [ ]
winner_of-Memᴰ first (t ∷ tied) some_tied = go (denies_of (t ∷ tied)) refl
  where
    go :
        (denies : List PolicyRule)
        → denies_of (t ∷ tied) ≡ denies
        → Memᴰ (winner_of first denies (t ∷ tied)) (t ∷ tied)
    go [] e = last_of-Memᴰ t tied
    go (d ∷ denies) e =
        (filter-Memᴰ (λ r. is_deny r.action) (t ∷ tied) (rw e (last_of-Memᴰ d denies))).0

winner_of-denies :
    (first : PolicyRule) (tied : List PolicyRule) {r : PolicyRule}
    → Memᴰ r tied
    → is_deny r.action ≡ true
    → is_deny (winner_of first (denies_of tied) tied).action ≡ true
winner_of-denies first tied {r} at denies = go (denies_of tied) refl
  where
    go :
        (chosen : List PolicyRule)
        → denies_of tied ≡ chosen
        → is_deny (winner_of first chosen tied).action ≡ true
    go [] e = none_left (rw e at kept)
      where
        kept : Memᴰ r (denies_of tied)
        kept = Memᴰ-filter (λ x. is_deny x.action) tied at denies

        none_left : Memᴰ r [] → is_deny (winner_of first [] tied).action ≡ true
        none_left m = elim m [ ]
    go (d ∷ rest) e =
        (filter-Memᴰ (λ x. is_deny x.action) tied {x = last_of d rest}
          (rw e (last_of-Memᴰ d rest))).1

-- The rules are given with a best specificity of theirs.
pub winner-Chosen :
    (first : PolicyRule) (rest : List PolicyRule)
    → Chosen (first ∷ rest) (winner (best_of (specificity first) rest) first rest)
unfolding winner
winner-Chosen first rest = record {
  listed = of_best.0;
  unsurpassed = λ r m. rw exact (over r m);
  denies_first = λ r m same denies.
      winner_of-denies first tied
        (Memᴰ-filter (λ x. same_specificity (specificity x) best) (first ∷ rest) m
          (rw (← exact) same))
        denies;
}
  where
    best : Specificity
    best = best_of (specificity first) rest

    b : Best (specificity first) rest best
    b = best_of-Best (specificity first) rest

    tied : List PolicyRule
    tied = tied_with best (first ∷ rest)

    over : (r : PolicyRule) → Memᴰ r (first ∷ rest) → above (specificity r) best ≡ false
    over r (Memᴰ.head same) = rw same b.over_from
    over r (Memᴰ.tail at) = b.over_rules r at

    tie : (r : PolicyRule) → Memᴰ r (first ∷ rest) → best ≡ specificity r → Memᴰ r tied
    tie r m e =
        Memᴰ-filter (λ x. same_specificity (specificity x) best) (first ∷ rest) m
          (rw (← e) (same_specificity_refl best))

    some_tied :
        (best ≡ specificity first) ⊎ ((r : PolicyRule) × Memᴰ r rest × (best ≡ specificity r))
        → (t : PolicyRule) × Memᴰ t tied
    some_tied (inl same) = (first, tie first (Memᴰ.head refl) same)
    some_tied (inr (r, at, same)) = (r, tie r (Memᴰ.tail at) same)

    of_best :
        Memᴰ (winner_of first (denies_of tied) tied) (first ∷ rest)
        × (same_specificity (specificity (winner_of first (denies_of tied) tied)) best ≡ true)
    of_best =
        filter-Memᴰ (λ x. same_specificity (specificity x) best) (first ∷ rest)
          (winner_of-Memᴰ first tied (some_tied b.attained))

    exact : specificity (winner_of first (denies_of tied) tied) ≡ best
    exact = same_specificity-eq _ best of_best.1
