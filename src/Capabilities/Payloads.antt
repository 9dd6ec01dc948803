-- ===== src/Capabilities/Payloads.antt =====
-- server/capabilities/runtime.ts: what the events say.
use ai_knowledge_system.Common.{String, false, List, [], ◌∷◌, length, integer}
use ai_knowledge_system.Workflows.Json.{
  JsonObject, empty, field, text, number, bool, array, texts, text_or_null,
}
use ai_knowledge_system.Durable.Names.{mode_name}
use ai_knowledge_system.Capabilities.Types.{
  CapabilityDecisionReasonCode, intent_mismatch, negative_boundary_match,
  requested_capability_mismatch, status_not_active, scope_mismatch, scope_denied,
  authority_mismatch, mode_unsupported, health_not_verified, health_verification_expired,
  handler_unavailable, overlap_precedence_lost, schema_fingerprint_mismatch, CapabilityCandidate,
  RejectedCapabilityCandidate, ResolutionState, matched, ambiguous, no_match,
  CapabilityDiscoveryEnvelope, MaterializedCapability,
}

unfoldable pub reason_code_name : CapabilityDecisionReasonCode → String
reason_code_name intent_mismatch = "INTENT_MISMATCH"
reason_code_name negative_boundary_match = "NEGATIVE_BOUNDARY_MATCH"
reason_code_name requested_capability_mismatch = "REQUESTED_CAPABILITY_MISMATCH"
reason_code_name status_not_active = "STATUS_NOT_ACTIVE"
reason_code_name scope_mismatch = "SCOPE_MISMATCH"
reason_code_name scope_denied = "SCOPE_DENIED"
reason_code_name authority_mismatch = "AUTHORITY_MISMATCH"
reason_code_name mode_unsupported = "MODE_UNSUPPORTED"
reason_code_name health_not_verified = "HEALTH_NOT_VERIFIED"
reason_code_name health_verification_expired = "HEALTH_VERIFICATION_EXPIRED"
reason_code_name handler_unavailable = "HANDLER_UNAVAILABLE"
reason_code_name overlap_precedence_lost = "OVERLAP_PRECEDENCE_LOST"
reason_code_name schema_fingerprint_mismatch = "SCHEMA_FINGERPRINT_MISMATCH"

unfoldable pub resolution_name : ResolutionState → String
resolution_name matched = "MATCHED"
resolution_name ambiguous = "AMBIGUOUS"
resolution_name no_match = "NO_MATCH"

abbrev reason_names : List CapabilityDecisionReasonCode → List String
reason_names [] = []
reason_names (code ∷ rest) = reason_code_name code ∷ reason_names rest

unfoldable pub started_data : CapabilityDiscoveryEnvelope → JsonObject
started_data envelope = field "intent_class" (text envelope.intent_class) (
    field "scope_key" (text envelope.scope_key)
      (field "mode" (text (mode_name envelope.mode)) empty))

unfoldable pub candidate_data : CapabilityCandidate → JsonObject
candidate_data candidate = field "capability_id" (text candidate.capability_id) (
    field "capability_version" (text candidate.capability_version) (
      field "match_score" (number candidate.match_score)
        (field "overlap_group" (text_or_null candidate.overlap_group) empty)))

unfoldable pub rejected_data : RejectedCapabilityCandidate → JsonObject
rejected_data refused =
    field "capability_id" (text refused.candidate.capability_id)
      (field "reason_codes" (array (texts (reason_names refused.reason_codes))) empty)

unfoldable pub completed_data : CapabilityDiscoveryEnvelope → JsonObject
completed_data envelope =
    field "resolution_state" (text (resolution_name envelope.resolution_state)) (
      field "recommended_capability_id" (text_or_null envelope.recommended_capability_id) (
        field "eligible_count" (number (integer (length envelope.eligible_candidates)))
          (field "rejected_count" (number (integer (length envelope.rejected_candidates))) empty)))

abbrev pub scope_only : JsonObject
scope_only = field "authorization_scope" (text "MATERIALIZATION_ONLY") empty

unfoldable pub selected_data : CapabilityCandidate → JsonObject
selected_data candidate =
    field "capability_id" (text candidate.capability_id)
      (field "capability_version" (text candidate.capability_version) scope_only)

unfoldable pub loaded_data : MaterializedCapability → JsonObject
loaded_data m = field "capability_id" (text m.capability_id) (
    field "capability_version" (text m.capability_version) (
      field "schema_fingerprint" (text m.schema_fingerprint) (
        field "authorization_scope" (text "MATERIALIZATION_ONLY") (
          field "execution_authorized" (bool false)
            (field "destination_write_authorized" (bool false) empty)))))
