-- ===== src/Ledger/Payload.antt =====
-- What an event may persist: `_SAFE_FIELDS` and `safe_event_payload` of
-- backend/app/services/run_ledger.py. The redactor of values is a parameter.
use cogentrex.Prelude.{
  Bool, true, false, Option, none, some, List, [], ◌∷◌, String, str_eq, ◌==◌, not, if◌then◌else◌,
  Result, ok, err,
}
use cogentrex.Ledger.Rows.{
  Json, null, boolean, number, text, array, object, no_element, element, Members, no_member, member,
  LedgerError, unsupported_kind, payload_not_object,
}

abbrev pub safe_fields : List (String × List String)
safe_fields =
    ("run_started", "safe" ∷ [])
    ∷ ("iteration_started", [])
    ∷ (
      "model_response",
      "provider_stop_reason" ∷ "actual_provider" ∷ "actual_model" ∷ "cache_read_input_tokens"
          ∷ "cache_write_input_tokens" ∷ [],
    )
    ∷ ("budget_blocked", "code" ∷ "stop_reason" ∷ [])
    ∷ ("provider_capability_rejected", "code" ∷ "missing_capabilities" ∷ [])
    ∷ ("structured_output_rejected", "code" ∷ [])
    ∷ ("model_progress", [])
    ∷ ("text_delta", [])
    ∷ ("tool_call_requested", "id" ∷ "name" ∷ "arguments_hash" ∷ [])
    ∷ (
      "policy_decided",
      "id" ∷ "name" ∷ "arguments_hash" ∷ "risk_classes" ∷ "matched_rule_id" ∷ "action"
          ∷ "reason_code" ∷ [],
    )
    ∷ (
      "tool_call_completed",
      "id" ∷ "name" ∷ "arguments_hash" ∷ "output_hash" ∷ "output_size" ∷ "status" ∷ [],
    )
    ∷ ("tool_progress", "id" ∷ "name" ∷ "status" ∷ "offset" ∷ "total" ∷ [])
    ∷ (
      "approval_required",
      "id" ∷ "name" ∷ "arguments_hash" ∷ "risk_classes" ∷ "matched_rule_id" ∷ [],
    )
    ∷ ("approval_decided", "id" ∷ "name" ∷ "arguments_hash" ∷ "approved" ∷ "reason_code" ∷ [])
    ∷ ("tool_denied", "id" ∷ "name" ∷ "arguments_hash" ∷ "action" ∷ "reason_code" ∷ "status" ∷ [])
    ∷ (
      "evidence_retrieved",
      "evidence_ids" ∷ "document_ids" ∷ "chunk_ids" ∷ "content_hashes" ∷ "scores" ∷ "evidence_count"
          ∷ "web_evidence_count" ∷ "web_search_source" ∷ "web_filtered_count" ∷ "ranked_evidence"
          ∷ [],
    )
    ∷ (
      "claim_verified",
      "claim_hashes" ∷ "unsupported_hashes" ∷ "cited_evidence_ids" ∷ "supported_count"
          ∷ "unsupported_count" ∷ [],
    )
    ∷ (
      "grounded_answer",
      "answer_hash" ∷ "citation_ids" ∷ "supported_count" ∷ "unsupported_count" ∷ [],
    )
    ∷ (
      "orchestration_routed",
      "requested_mode" ∷ "resolved_mode" ∷ "reason_code" ∷ "router_version" ∷ "degraded" ∷ [],
    )
    ∷ (
      "delegation_requested",
      "child_id" ∷ "parent_run_id" ∷ "user_id" ∷ "project_id" ∷ "policy_id" ∷ "claim_ids"
          ∷ "claim_hashes" ∷ "evidence_ids" ∷ "content_hashes" ∷ "claim_count" ∷ "evidence_count"
          ∷ "status" ∷ "reason_code" ∷ "input_tokens" ∷ "output_tokens" ∷ "profile_id"
          ∷ "specialist_kind" ∷ "tool_count" ∷ [],
    )
    ∷ (
      "delegation_completed",
      "child_id" ∷ "parent_run_id" ∷ "claim_ids" ∷ "claim_hashes" ∷ "evidence_ids"
          ∷ "content_hashes" ∷ "claim_count" ∷ "evidence_count" ∷ "supported_count"
          ∷ "rejected_count" ∷ "escalated_count" ∷ "status" ∷ "reason_code" ∷ "reason_codes"
          ∷ "input_tokens" ∷ "output_tokens" ∷ "total_tokens" ∷ "profile_id" ∷ "specialist_kind"
          ∷ "iterations" ∷ "tool_count" ∷ [],
    )
    ∷ ("reflection_started", "rubric_id" ∷ "rubric_version" ∷ "draft_hash" ∷ "max_revisions" ∷ [])
    ∷ (
      "reflection_verdict",
      "rubric_id" ∷ "rubric_version" ∷ "draft_hash" ∷ "critique_hash" ∷ "verdict" ∷ "issue_codes"
          ∷ "evidence_refs" ∷ "confidence" ∷ [],
    )
    ∷ (
      "reflection_completed",
      "rubric_id" ∷ "rubric_version" ∷ "draft_hash" ∷ "selected_hash" ∷ "outcome" ∷ "calls"
          ∷ "revisions" ∷ "input_tokens" ∷ "output_tokens" ∷ "cost_microusd" ∷ [],
    )
    ∷ (
      "run_stopped",
      "reason" ∷ "error" ∷ "cache_read_input_tokens" ∷ "cache_write_input_tokens"
          ∷ "persistence_duration_ms" ∷ "workflow_duration_ms" ∷ [],
    )
    ∷ []

abbrev pub allowed_in : String → List (String × List String) → Option (List String)
allowed_in kind [] = none
allowed_in kind ((k, fields) ∷ rest) =
    let others = allowed_in kind rest in if str_eq k kind then some fields else others

abbrev pub value_of : String → Members → Option Json
value_of key no_member = none
value_of key (member k value rest) =
    let others = value_of key rest in if str_eq k key then some value else others

-- The allowed keys that the payload has, in the order of the list.
abbrev pub projected : List String → Members → Members
projected [] payload = no_member
projected (key ∷ keys) payload =
    let rest = projected keys payload in
    elim (value_of key payload) [ none ↦ rest | some value ↦ member key value rest ]

-- `bool(value)`
abbrev pub truth : Json → Bool
truth null = false
truth (boolean b) = b
truth (number n) = not (n == 0)
truth (text s) = not (str_eq s "")
truth (array no_element) = false
truth (array (element x xs)) = true
truth (object no_member) = false
truth (object (member k x xs)) = true

-- An error is kept as whether there is one.
abbrev pub hide_error : Members → Members
hide_error no_member = no_member
hide_error (member key value rest) =
    let others = hide_error rest in
    if str_eq key "error"
    then member key (boolean (truth value)) others
    else member key value others

abbrev pub object_of : Json → Result LedgerError Members
object_of (object members) = ok members
object_of _ = err payload_not_object

module _ (redact_value : Json → Json) where
  abbrev pub project : Option (List String) → Members → Result LedgerError Members
  project none payload = err unsupported_kind
  project (some allowed) payload =
      object_of (redact_value (object (hide_error (projected allowed payload))))

  abbrev pub safe_event_payload : String → Members → Result LedgerError Members
  safe_event_payload kind payload = project (allowed_in kind safe_fields) payload
