-- ===== src/Policy.antt =====
-- The rule engine of backend/app/security/policy.py: `RulePolicyEngine.evaluate` over canonical rules
-- and requests. Canonicalisation of texts and hosts (Unicode and IDNA libraries) is done before.
pub mod Selection
pub mod Laws
mod Tests
use cogentrex.Prelude.{
  filter, ℕ, ◌+◌, Bool, true, false, not, ◌&&◌, ◌||◌, Option, none, some, List, [], ◌∷◌, String,
  codes, length, str_eq, ltb, ◌==◌, if◌then◌else◌,
}

pub data PolicyAction : Type 0 where
  allow ask deny : PolicyAction

pub data RiskClass : Type 0 where
  read write execute network secret external_side_effect : RiskClass

pub data ResourceKind : Type 0 where
  tool path host : ResourceKind

pub record ResourcePattern : Type 0 where
  pub kind : ResourceKind
  pub pattern : String

-- A frozenset of risk classes is a list, of which only membership is used.
pub record PolicyRule : Type 0 where
  pub id : String
  pub action : PolicyAction
  pub resources : List ResourcePattern
  pub risk_classes : List RiskClass
  pub description : String
  pub enabled : Bool

pub record PolicyRequest : Type 0 where
  pub tool_name : String
  pub resources : List ResourcePattern
  pub risk_classes : List RiskClass
  pub legacy_requires_approval : Bool

pub data Reason : Type 0 where
  unclassified legacy_approval unmatched_side_effect : Reason
  matched_rule : String → String → Reason
  default_used : PolicyAction → Reason

-- `(exact, literal, has risk classes)`, compared in this order.
abbrev pub Specificity : Type 0
Specificity = ℕ × ℕ × ℕ

pub record PolicyDecision : Type 0 where
  pub action : PolicyAction
  pub matched_rule_id : Option String
  pub reason : Reason
  pub specificity : Specificity

abbrev pub is_deny : PolicyAction → Bool
is_deny deny = true
is_deny _ = false

abbrev pub same_kind : ResourceKind → ResourceKind → Bool
same_kind tool tool = true
same_kind path path = true
same_kind host host = true
same_kind _ _ = false

abbrev pub same_risk : RiskClass → RiskClass → Bool
same_risk read read = true
same_risk write write = true
same_risk execute execute = true
same_risk network network = true
same_risk secret secret = true
same_risk external_side_effect external_side_effect = true
same_risk _ _ = false

abbrev pub is_empty : {A : Type 0} → List A → Bool
is_empty [] = true
is_empty (_ ∷ _) = false

abbrev pub any : {A : Type 0} → (A → Bool) → List A → Bool
any p [] = false
any p (x ∷ xs) = p x || any p xs

abbrev pub all : {A : Type 0} → (A → Bool) → List A → Bool
all p [] = true
all p (x ∷ xs) = p x && all p xs

abbrev pub same_text : List ℕ → List ℕ → Bool
same_text [] [] = true
same_text (a ∷ xs) (b ∷ ys) = a == b && same_text xs ys
same_text _ _ = false

abbrev pub starts_with : List ℕ → List ℕ → Bool
starts_with [] _ = true
starts_with (p ∷ ps) [] = false
starts_with (p ∷ ps) (c ∷ cs) = p == c && starts_with ps cs

-- Whether a text is a tail of another, the whole included.
abbrev pub ends_with : List ℕ → List ℕ → Bool
ends_with suffix [] = same_text suffix []
ends_with suffix (c ∷ cs) = same_text suffix (c ∷ cs) || ends_with suffix cs

-- The text without its last code points: `pattern[:-3]` where `n` is 3.
abbrev pub drop_last : ℕ → List ℕ → List ℕ
drop_last n [] = []
drop_last n (c ∷ cs) = let rest = drop_last n cs in if ltb (length cs) n then [] else c ∷ rest

abbrev pub drop_two : List ℕ → List ℕ
drop_two (_ ∷ _ ∷ cs) = cs
drop_two _ = []

abbrev pub is_wildcard : ResourcePattern → Bool
is_wildcard resource = any (λ c. c == b'*') (codes resource.pattern)

-- A wildcard pattern of a kind against a concrete value.
abbrev pub wildcard_matches : ResourceKind → String → String → Bool
wildcard_matches tool pattern concrete = true
wildcard_matches path pattern concrete =
    str_eq pattern "/**"
    || starts_with (append (drop_last 3 (codes pattern)) (codes "/")) (codes concrete)
  where
    append : List ℕ → List ℕ → List ℕ
    append [] ys = ys
    append (x ∷ xs) ys = x ∷ append xs ys
wildcard_matches host pattern concrete =
    str_eq pattern "*"
    || (ends_with (b'.' ∷ drop_two (codes pattern)) (codes concrete)
        && not (same_text (codes concrete) (drop_two (codes pattern))))

-- `_resource_matches`.
unfoldable pub resource_matches : ResourcePattern → ResourcePattern → Bool
resource_matches rule_resource request_resource =
    same_kind rule_resource.kind request_resource.kind
    && (if is_wildcard rule_resource
        then wildcard_matches rule_resource.kind rule_resource.pattern request_resource.pattern
        else str_eq rule_resource.pattern request_resource.pattern)

abbrev pub count_exact : List ResourcePattern → ℕ
count_exact [] = 0
count_exact (r ∷ rs) = (if is_wildcard r then 0 else 1) + count_exact rs

abbrev pub literal_length : List ResourcePattern → ℕ
literal_length [] = 0
literal_length (r ∷ rs) =
    length (filter (λ c. not (c == b'*')) (codes r.pattern)) + literal_length rs

-- `_specificity`.
unfoldable pub specificity : PolicyRule → Specificity
specificity rule = (
  count_exact rule.resources,
  literal_length rule.resources,
  if is_empty rule.risk_classes then 0 else 1,
)

-- The comparison of tuples.
pub above : Specificity → Specificity → Bool
above (a, b, c) (a', b', c') = ltb a' a || (a == a' && (ltb b' b || (b == b' && ltb c' c)))

pub same_specificity : Specificity → Specificity → Bool
same_specificity (a, b, c) (a', b', c') = a == a' && b == b' && c == c'

abbrev pub has_risk : List RiskClass → RiskClass → Bool
has_risk risks r = any (same_risk r) risks

abbrev pub risks_fit : PolicyRule → PolicyRequest → Bool
risks_fit rule request =
    is_empty rule.risk_classes
    || (if is_deny rule.action
        then any (has_risk request.risk_classes) rule.risk_classes
        else all (has_risk rule.risk_classes) request.risk_classes)

-- The concrete resources of a request, its tool first.
abbrev pub concrete_resources : PolicyRequest → List ResourcePattern
concrete_resources request = record { kind = tool; pattern = request.tool_name } ∷ request.resources

-- Whether a rule survives the body of the loop.
unfoldable pub rule_matches : PolicyRequest → PolicyRule → Bool
rule_matches request rule =
    rule.enabled
    && risks_fit rule request
    && all (λ r. any (resource_matches r) (concrete_resources request)) rule.resources

-- `max` of the specificities, from the first on.
abbrev pub best_of : Specificity → List PolicyRule → Specificity
best_of best [] = best
best_of best (rule ∷ rules) =
    best_of (if above (specificity rule) best then specificity rule else best) rules

abbrev pub last_of : PolicyRule → List PolicyRule → PolicyRule
last_of rule [] = rule
last_of rule (next ∷ rules) = last_of next rules

-- `(deny_matches or tied)[-1]`; the last case does not occur, as the best specificity is attained.
abbrev pub winner_of : PolicyRule → List PolicyRule → List PolicyRule → PolicyRule
winner_of first (d ∷ denies) tied = last_of d denies
winner_of first [] (t ∷ tied) = last_of t tied
winner_of first [] [] = first

abbrev pub tied_with : Specificity → List PolicyRule → List PolicyRule
tied_with best = filter (λ rule. same_specificity (specificity rule) best)

abbrev pub denies_of : List PolicyRule → List PolicyRule
denies_of = filter (λ rule. is_deny rule.action)

abbrev pub decided : Specificity → PolicyRule → PolicyDecision
decided best rule = record {
  action = rule.action;
  matched_rule_id = some rule.id;
  reason = matched_rule rule.id rule.description;
  specificity = best;
}

-- The decision among the matches, given their best specificity.
unfoldable pub winner : Specificity → PolicyRule → List PolicyRule → PolicyRule
winner best first rest =
    let tied = tied_with best (first ∷ rest) in winner_of first (denies_of tied) tied

abbrev pub among : Specificity → PolicyRule → List PolicyRule → PolicyDecision
among best first rest = decided best (winner best first rest)

abbrev pub unmatched : PolicyAction → Reason → PolicyDecision
unmatched action reason = record {
  action = action;
  matched_rule_id = none;
  reason = reason;
  specificity = (0, 0, 0);
}

-- `request.risk_classes.difference({RiskClass.READ})`, as a test.
abbrev pub side_effecting : PolicyRequest → Bool
side_effecting request = any (λ r. not (same_risk r read)) request.risk_classes

abbrev pub fall_back : PolicyAction → PolicyRequest → PolicyDecision
fall_back default_action request =
    if request.legacy_requires_approval
    then unmatched ask legacy_approval
    else if side_effecting request
    then unmatched deny unmatched_side_effect
    else unmatched default_action (default_used default_action)

abbrev pub decide : PolicyAction → PolicyRequest → List PolicyRule → PolicyDecision
decide default_action request [] = fall_back default_action request
decide default_action request (first ∷ rest) = among (best_of (specificity first) rest) first rest

unfoldable pub evaluate : List PolicyRule → PolicyAction → PolicyRequest → PolicyDecision
evaluate rules default_action request =
    if is_empty request.risk_classes
    then unmatched deny unclassified
    else decide default_action request (filter (rule_matches request) rules)
