-- ===== src/Policy/Tests.antt =====
-- A small policy: reads of a workspace are allowed, its secrets are denied, and the theorems at
-- concrete inputs.
use cogentrex.Prelude.{◌≡◌, ◌⊎◌, refl, true, false, Option, none, some, List, [], ◌∷◌, String}
use cogentrex.Policy.{
  PolicyAction, allow, ask, deny, RiskClass, read, network, ResourceKind, path, host,
  ResourcePattern, PolicyRule, PolicyRequest, evaluate, rule_matches, resource_matches, specificity,
  winner, above, same_specificity, is_empty, side_effecting,
}
use cogentrex.Policy.Laws.{Decides, NoneMatches, Grounded, evaluate_decides, evaluate-allow}

abbrev resource : ResourceKind → String → ResourcePattern
resource kind pattern = record { kind = kind; pattern = pattern }

abbrev rule : String → PolicyAction → List ResourcePattern → List RiskClass → PolicyRule
rule id action resources risks = record {
  id = id;
  action = action;
  resources = resources;
  risk_classes = risks;
  description = "";
  enabled = true;
}

abbrev policy : List PolicyRule
policy =
    rule "reads" allow (resource path "/work/**" ∷ []) (read ∷ [])
    ∷ rule "secrets" deny (resource path "/work/keys/**" ∷ []) []
    ∷ rule "hosts" ask (resource host "*.example.org" ∷ []) (network ∷ [])
    ∷ []

abbrev request : ResourceKind → String → List RiskClass → PolicyRequest
request kind value risks = record {
  tool_name = "open";
  resources = resource kind value ∷ [];
  risk_classes = risks;
  legacy_requires_approval = false;
}

decided_ids : List (Option String)
unfolding evaluate rule_matches resource_matches specificity winner above same_specificity
decided_ids =
    (evaluate policy deny (request path "/work/a" (read ∷ []))).matched_rule_id
    ∷ (evaluate policy deny (request path "/work/keys/k" (read ∷ []))).matched_rule_id
    ∷ (evaluate policy deny (request path "/worker" (read ∷ []))).matched_rule_id
    ∷ (evaluate policy deny (request host "api.example.org" (network ∷ []))).matched_rule_id
    ∷ (evaluate policy deny (request host "example.org" (network ∷ []))).matched_rule_id
    ∷ []

policy_decides : decided_ids ≡ some "reads" ∷ some "secrets" ∷ none ∷ some "hosts" ∷ none ∷ []
unfolding decided_ids evaluate rule_matches resource_matches specificity winner above
    same_specificity
policy_decides = refl

abbrev key_request : PolicyRequest
key_request = request path "/work/keys/k" (read ∷ [])

abbrev file_request : PolicyRequest
file_request = request path "/work/a" (read ∷ [])

file_allowed : (evaluate policy deny file_request).action ≡ allow
unfolding evaluate rule_matches resource_matches specificity winner above same_specificity
file_allowed = refl

evaluate_decides_example : Grounded policy deny key_request (evaluate policy deny key_request)
evaluate_decides_example = evaluate_decides policy deny key_request refl

evaluate-allow_example :
    (is_empty (read ∷ []) ≡ false)
    × (((w : PolicyRule) × Decides policy file_request w × (w.action ≡ allow))
        ⊎ (NoneMatches policy file_request
            × (false ≡ false)
            × (side_effecting file_request ≡ false)
            × (deny ≡ allow)))
evaluate-allow_example = evaluate-allow policy deny file_request file_allowed
