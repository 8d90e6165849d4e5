-- ===== src/Policy/Laws.antt =====
-- Decisions of the rule engine, against the rules that match a request.
use cogentrex.Prelude.{
  filter, ◌≡◌, ◌⊎◌, refl, inl, inr, true, false, some, List, [], ◌∷◌, Bool-cases, arith,
}
use mathlib.Core.List.{Memᴰ}
use cogentrex.Policy.{
  PolicyAction, allow, PolicyRule, PolicyRequest, PolicyDecision, is_deny, is_empty, specificity,
  above, same_specificity, rule_matches, best_of, winner, decide, side_effecting, evaluate,
  fall_back,
}
use cogentrex.Policy.Selection.{Chosen, winner-Chosen, filter-Memᴰ, Memᴰ-filter}

-- A rule that decides a request: it matches, no matching rule is more specific, and if a matching
-- rule that is as specific denies, it denies.
pub record Decides (rules : List PolicyRule) (request : PolicyRequest) (w : PolicyRule)
    : Type 0 where
  pub listed : Memᴰ w rules
  pub fits : rule_matches request w ≡ true
  pub unsurpassed :
      (r : PolicyRule)
      → Memᴰ r rules
      → rule_matches request r ≡ true
      → above (specificity r) (specificity w) ≡ false
  pub denies_first :
      (r : PolicyRule)
      → Memᴰ r rules
      → rule_matches request r ≡ true
      → same_specificity (specificity r) (specificity w) ≡ true
      → is_deny r.action ≡ true
      → is_deny w.action ≡ true

Chosen-Decides :
    (rules : List PolicyRule) (request : PolicyRequest) (w : PolicyRule)
    → Chosen (filter (rule_matches request) rules) w
    → Decides rules request w
Chosen-Decides rules request w c =
    let (there, holds) = filter-Memᴰ (rule_matches request) rules c.listed in
    record {
      listed = there;
      fits = holds;
      unsurpassed = λ r m hit. c.unsurpassed r (Memᴰ-filter (rule_matches request) rules m hit);
      denies_first = λ r m hit. c.denies_first r (Memᴰ-filter (rule_matches request) rules m hit);
    }

-- No rule of the list matches.
abbrev pub NoneMatches : List PolicyRule → PolicyRequest → Type 0
NoneMatches rules request = (r : PolicyRule) → Memᴰ r rules → rule_matches request r ≡ false

-- What a decision on a classified request rests on: a rule that decides it, or the fallback.
abbrev pub Grounded : List PolicyRule → PolicyAction → PolicyRequest → PolicyDecision → Type 0
Grounded rules default_action request d =
    ((w : PolicyRule) × Decides rules request w
      × (d.action ≡ w.action)
      × (d.matched_rule_id ≡ some w.id))
    ⊎ (NoneMatches rules request × (d ≡ fall_back default_action request))

decide-Grounded :
    (rules : List PolicyRule) (default_action : PolicyAction) (request : PolicyRequest)
    (found : List PolicyRule)
    → filter (rule_matches request) rules ≡ found
    → Grounded rules default_action request (decide default_action request found)
decide-Grounded rules default_action request [] e = inr (nothing, refl)
  where
    nothing : NoneMatches rules request
    nothing r m = elim (Bool-cases (rule_matches request r)) [
      | inl hit ↦ impossible (rw e at kept hit)
      | inr miss ↦ miss
    ]
      where
        kept : rule_matches request r ≡ true → Memᴰ r (filter (rule_matches request) rules)
        kept hit = Memᴰ-filter (rule_matches request) rules m hit

        impossible : Memᴰ r [] → rule_matches request r ≡ false
        impossible there = elim there [ ]
decide-Grounded rules default_action request (first ∷ rest) e =
    let w = winner (best_of (specificity first) rest) first rest in
    inl (w, Chosen-Decides rules request w (rw e (winner-Chosen first rest)), refl, refl)

-- A request with risk classes is decided by a matching rule that no matching rule surpasses in
-- specificity, and that denies if a matching rule of its specificity does; or, when no rule
-- matches, by the fallback.
pub evaluate_decides :
    (rules : List PolicyRule) (default_action : PolicyAction) (request : PolicyRequest)
    → is_empty request.risk_classes ≡ false
    → Grounded rules default_action request (evaluate rules default_action request)
unfolding evaluate
evaluate_decides rules default_action request classified =
    rw classified
      (decide-Grounded rules default_action request (filter (rule_matches request) rules) refl)

-- The fallback allows only what has no legacy approval requirement and no side effect.
fall_back-allow :
    (default_action : PolicyAction) (request : PolicyRequest)
    → (fall_back default_action request).action ≡ allow
    → (request.legacy_requires_approval ≡ false)
      × (side_effecting request ≡ false)
      × (default_action ≡ allow)
fall_back-allow default_action request e = ground (arith, e)

-- A request is allowed only if it has risk classes and either an ALLOW rule decides it, or no rule
-- matches it, it needs no legacy approval, all its risk classes are READ and the default is ALLOW.
pub evaluate-allow :
    (rules : List PolicyRule) (default_action : PolicyAction) (request : PolicyRequest)
    → (evaluate rules default_action request).action ≡ allow
    → (is_empty request.risk_classes ≡ false)
      × (((w : PolicyRule) × Decides rules request w × (w.action ≡ allow))
          ⊎ (NoneMatches rules request
              × (request.legacy_requires_approval ≡ false)
              × (side_effecting request ≡ false)
              × (default_action ≡ allow)))
evaluate-allow rules default_action request allowed =
    elim (Bool-cases (is_empty request.risk_classes)) [
      | inl empty ↦ absurd (unfold evaluate in ground (arith, allowed, empty))
      | inr classified ↦ (classified, go (evaluate_decides rules default_action request classified))
    ]
  where
    go :
        Grounded rules default_action request (evaluate rules default_action request)
        → ((w : PolicyRule) × Decides rules request w × (w.action ≡ allow))
          ⊎ (NoneMatches rules request
              × (request.legacy_requires_approval ≡ false)
              × (side_effecting request ≡ false)
              × (default_action ≡ allow))
    go (inl (w, decides, same, _)) = inl (w, decides, cc)
    go (inr (nothing, same)) =
        let falls : (fall_back default_action request).action ≡ allow = rw (← same) allowed in
        let (no_legacy, reads, allows) = fall_back-allow default_action request falls in
        inr (nothing, no_legacy, reads, allows)
