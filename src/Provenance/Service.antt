-- ===== src/Provenance/Service.antt =====
-- server/provenance/service.ts: `ContextProvenanceService`. An `issues` array that a method pushes
-- to is the concatenation of one part for each test, in the order of the tests.
use ai_knowledge_system.Common.{
  String, Bool, true, false, not, ◌||◌, Option, none, some, List, [], ◌∷◌, ◌++◌, Number, is_empty,
  if◌then◌else◌, or_else, is_text, concat, join, lt_zero, gt_one,
}
use ai_knowledge_system.Provenance.Types.{
  retrieval, transformation, governed_write, no_conflict, EpistemicType, claim, observation,
  action_request, action_result, verification, durable_fact, ProvenanceOperation, Envelope,
  Emission, GovernedWriteAuthorization, ExecutionBinding,
}

-- `nonEmpty`: a string with a character that is no white space.
unfoldable pub non_empty : Option String → Bool
non_empty none = false
non_empty (some value) = is_text value

-- `if (test) issues.push(issue)`.
abbrev pub issue_if : Bool → String → List String
issue_if test issue = if test then issue ∷ [] else []

-- `ProvenanceValidationError`: its message is `issues.join(" ")`.
pub record ValidationError : Type 0 where
  pub code : String
  pub issues : List String

unfoldable pub message : ValidationError → String
message error = join " " error.issues

-- The loop over `requiredStrings`.
unfoldable pub required_issues : List (String × String) → List String
unfolding non_empty
required_issues [] = []
required_issues ((field, value) ∷ rest) =
    issue_if (not (non_empty (some value))) (concat (field ∷ " is required." ∷ []))
    ++ required_issues rest

abbrev pub required_strings : Envelope → List (String × String)
required_strings envelope =
    ("envelope_id", envelope.envelope_id)
    ∷ ("object_id", envelope.object_id)
    ∷ ("object_type", envelope.object_type)
    ∷ ("scope_key", envelope.scope_key)
    ∷ ("source_system", envelope.source_system)
    ∷ ("source_id", envelope.source_id)
    ∷ ("source_fingerprint", envelope.source_fingerprint)
    ∷ ("object_fingerprint", envelope.object_fingerprint)
    ∷ ("authority_owner", envelope.authority_owner)
    ∷ ("authority_domain", envelope.authority_domain)
    ∷ ("used_by_execution_id", envelope.used_by_execution_id)
    ∷ ("workflow_id", envelope.workflow_id)
    ∷ ("emitted_at", envelope.emitted_at)
    ∷ ("validated_at", envelope.validated_at)
    ∷ []

-- `epistemicTypes.includes(type)`, over the list of types.ts.
unfoldable pub is_epistemic : EpistemicType → Bool
is_epistemic claim = true
is_epistemic observation = true
is_epistemic action_request = true
is_epistemic action_result = true
is_epistemic verification = true
is_epistemic durable_fact = true

unfoldable pub bad_confidence : Option Number → Bool
unfolding lt_zero gt_one
bad_confidence none = false
bad_confidence (some value) = lt_zero value || gt_one value

unfoldable pub lineage_issues : Envelope → String → List String
lineage_issues envelope operation =
    issue_if (is_empty envelope.parent_evidence_ids)
      (concat (operation ∷ " envelopes require parent_evidence_ids." ∷ []))
    ++ issue_if (is_empty envelope.transform_chain)
        (concat (operation ∷ " envelopes require transform_chain." ∷ []))

-- The tests that depend on the operation.
unfoldable pub operation_issues : ProvenanceOperation → Envelope → List String
unfolding non_empty lineage_issues
operation_issues retrieval envelope =
    issue_if (not (non_empty envelope.retrieved_at))
      "retrieved_at is required for RETRIEVAL envelopes."
operation_issues transformation envelope = lineage_issues envelope "TRANSFORMATION"
operation_issues governed_write envelope =
    lineage_issues envelope "GOVERNED_WRITE"
    ++ issue_if (not envelope.write_authorized) "GOVERNED_WRITE requires write_authorized=true."
    ++ issue_if (is_empty envelope.write_policy_refs) "GOVERNED_WRITE requires write_policy_refs."
    ++ issue_if (not (non_empty envelope.mason_episode_id))
        "GOVERNED_WRITE requires mason_episode_id."
    ++ issue_if (not (non_empty envelope.write_plan_id)) "GOVERNED_WRITE requires write_plan_id."
    ++ issue_if (not (non_empty envelope.authorization_id))
        "GOVERNED_WRITE requires authorization_id."
    ++ issue_if (not (non_empty envelope.execution_receipt_id))
        "GOVERNED_WRITE requires execution_receipt_id."
    ++ issue_if (not (non_empty envelope.destination)) "GOVERNED_WRITE requires destination."

unfoldable pub validate : Envelope → List String
unfolding required_issues is_epistemic bad_confidence operation_issues
validate envelope =
    required_issues (required_strings envelope)
    ++ issue_if (not (is_epistemic envelope.epistemic_type)) (
        concat (
          "epistemic_type must be one of: "
          ∷ join ", " (
              "CLAIM" ∷ "OBSERVATION" ∷ "ACTION_REQUEST" ∷ "ACTION_RESULT" ∷ "VERIFICATION"
              ∷ "DURABLE_FACT" ∷ [])
          ∷ "."
          ∷ []))
    ++ issue_if (bad_confidence envelope.confidence)
        "confidence must be between 0 and 1 when provided."
    ++ issue_if (is_empty envelope.access_policy_refs) "access_policy_refs must not be empty."
    ++ operation_issues envelope.operation envelope

pub data Emitted : Type 0 where
  emitted : Envelope → Emitted
  refused : ValidationError → Emitted

-- The envelope that `emit` builds; `id` is the UUID that it draws, `now` the time that it reads.
unfoldable pub build : (id now : String) → ExecutionBinding → Emission → Envelope
build id now binding input = record {
  envelope_id = id;
  object_id = input.object_id;
  object_type = input.object_type;
  operation = input.operation;
  epistemic_type = input.epistemic_type;
  scope_key = binding.scope_key;
  source_system = input.source_system;
  source_id = input.source_id;
  source_version = input.source_version;
  source_fingerprint = input.source_fingerprint;
  retrieved_at = input.retrieved_at;
  object_fingerprint = input.object_fingerprint;
  parent_evidence_ids = or_else input.parent_evidence_ids [];
  transform_chain = or_else input.transform_chain [];
  authority_owner = input.authority_owner;
  authority_domain = input.authority_domain;
  authority_state = input.authority_state;
  authority_conflict_state = or_else input.authority_conflict_state no_conflict;
  confidence = input.confidence;
  access_policy_refs = input.access_policy_refs;
  write_policy_refs = or_else input.write_policy_refs [];
  used_by_execution_id = binding.execution_id;
  workflow_id = binding.workflow_id;
  trace_id = input.trace_id;
  span_id = input.span_id;
  mason_episode_id = input.mason_episode_id;
  write_plan_id = input.write_plan_id;
  authorization_id = input.authorization_id;
  execution_receipt_id = input.execution_receipt_id;
  destination = input.destination;
  write_authorized = or_else input.write_authorized false;
  emitted_at = now;
  validated_at = now;
}

unfoldable pub emit : (id now : String) → ExecutionBinding → Emission → Emitted
emit id now binding input =
    let envelope = build id now binding input in
    let issues = validate envelope in
    if is_empty issues
    then emitted envelope
    else refused (record { code = "PROVENANCE_VALIDATION_FAILED"; issues = issues })

unfoldable pub authorization_issues : GovernedWriteAuthorization → List String
unfolding non_empty
authorization_issues input =
    issue_if (not input.write_authorized)
      "write_authorized must be true before a governed write may execute."
    ++ issue_if (is_empty input.write_policy_refs)
        "write_policy_refs must identify at least one governing policy."
    ++ issue_if (not (non_empty (some input.mason_episode_id)))
        "mason_episode_id is required before a governed write may execute."
    ++ issue_if (not (non_empty (some input.write_plan_id)))
        "write_plan_id is required before a governed write may execute."
    ++ issue_if (not (non_empty (some input.authorization_id)))
        "authorization_id is required before a governed write may execute."
    ++ issue_if (not (non_empty (some input.destination)))
        "destination is required before a governed write may execute."

-- `assertGovernedWriteAuthorization`: `none` if it returns, the error that it throws otherwise.
unfoldable pub assert_governed_write_authorization :
    GovernedWriteAuthorization → Option ValidationError
assert_governed_write_authorization input =
    let issues = authorization_issues input in
    if is_empty issues
    then none
    else some (record { code = "PROVENANCE_WRITE_NOT_AUTHORIZED"; issues = issues })
