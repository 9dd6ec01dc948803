-- ===== src/Governance/Guards.antt =====
-- server/governance/research-delta-guards.ts: the guards that read no clock. A `contract` field, which
-- has one possible value, is left out.
use ai_knowledge_system.Common.{
  String, Bool, true, false, not, Option, none, some, List, [], ◌∷◌, ◌++◌, is_empty, is_text,
  if◌then◌else◌, str_eq, truthy, trim_text, includes, concat,
}
use ai_knowledge_system.Provenance.Service.{non_empty, issue_if}

pub record Instruction : Type 0 where
  pub present : Bool
  pub digest : Option String

pub record InstructionInput : Type 0 where
  pub primary_instruction : Instruction
  pub portable_instruction : Instruction
  pub provider_supports_portable_instruction : Bool

pub data Source : Type 0 where
  primary portable nowhere : Source

pub record Resolution : Type 0 where
  pub selected_source : Source
  pub selected_digest : Option String
  pub reason_codes : List String
  pub provenance_complete : Bool

-- No source is selected, for one reason.
abbrev pub unselected : String → Bool → Resolution
unselected reason complete = record {
  selected_source = nowhere;
  selected_digest = none;
  reason_codes = reason ∷ [];
  provenance_complete = complete;
}

unfoldable pub resolve_repository_instruction_source : InstructionInput → Resolution
resolve_repository_instruction_source input =
    if input.primary_instruction.present
    then (if not (non_empty input.primary_instruction.digest)
        then unselected "PRIMARY_DIGEST_REQUIRED" false
        else record {
          selected_source = primary;
          selected_digest = input.primary_instruction.digest;
          reason_codes = issue_if input.portable_instruction.present "PORTABLE_SHADOWED_BY_PRIMARY";
          provenance_complete = true;
        })
    else if not input.portable_instruction.present
    then unselected "NO_INSTRUCTION_SOURCE" true
    else if not input.provider_supports_portable_instruction
    then unselected "PORTABLE_SOURCE_UNSUPPORTED_BY_PROVIDER" true
    else if not (non_empty input.portable_instruction.digest)
    then unselected "PORTABLE_DIGEST_REQUIRED" false
    else record {
      selected_source = portable;
      selected_digest = input.portable_instruction.digest;
      reason_codes = [];
      provenance_complete = true;
    }

pub data Acknowledgement : Type 0 where
  ack rejected unknown : Acknowledgement

pub record PublicationInput : Type 0 where
  pub stage_authorized : Bool
  pub publish_authorized : Bool
  pub staged_digest : String
  pub approved_digest : Option String
  pub acknowledgement : Acknowledgement
  pub observed_published_digest : Option String

pub data PublicationState : Type 0 where
  blocked failed verify_required ambiguous_no_retry verified_published : PublicationState

pub record PublicationAssessment : Type 0 where
  pub state : PublicationState
  pub reason_codes : List String
  pub retry_authorized : Bool
  pub publication_authorized : Bool

-- `digest && digest !== staged`: an empty digest counts as none.
unfoldable pub conflicts : Option String → String → Bool
conflicts digest staged = elim (truthy digest) [ none ↦ false | some d ↦ not (str_eq d staged) ]

-- `digest === staged`.
unfoldable pub matches : Option String → String → Bool
matches none staged = false
matches (some digest) staged = str_eq digest staged

unfoldable pub blocked_reasons : PublicationInput → List String
blocked_reasons input =
    issue_if (not input.stage_authorized) "STAGE_AUTHORITY_REQUIRED"
    ++ issue_if (not input.publish_authorized) "PUBLISH_AUTHORITY_REQUIRED"
    ++ issue_if (not (is_text input.staged_digest)) "STAGED_DIGEST_REQUIRED"
    ++ issue_if (not (non_empty input.approved_digest)) "APPROVED_DIGEST_REQUIRED"
    ++ issue_if (conflicts input.approved_digest input.staged_digest) "APPROVAL_DIGEST_MISMATCH"

-- What follows once nothing blocks the publication.
abbrev pub authorized : PublicationState → List String → Bool → PublicationAssessment
authorized state reasons retry = record {
  state = state;
  reason_codes = reasons;
  retry_authorized = retry;
  publication_authorized = true;
}

unfoldable pub by_acknowledgement : Acknowledgement → PublicationAssessment
by_acknowledgement rejected = authorized failed ("PUBLISH_REJECTED" ∷ []) true
by_acknowledgement unknown =
    authorized ambiguous_no_retry ("READBACK_REQUIRED_BEFORE_RETRY" ∷ []) false
by_acknowledgement ack = authorized verify_required ("PUBLISH_READBACK_REQUIRED" ∷ []) false

unfoldable pub assess_staged_artifact_publication : PublicationInput → PublicationAssessment
assess_staged_artifact_publication input =
    if not (is_empty (blocked_reasons input))
    then record {
      state = blocked;
      reason_codes = blocked_reasons input;
      retry_authorized = false;
      publication_authorized = false;
    }
    else if conflicts input.observed_published_digest input.staged_digest
    then authorized blocked ("PUBLISHED_DIGEST_CONFLICT" ∷ []) false
    else if matches input.observed_published_digest input.staged_digest
    then authorized verified_published [] false
    else by_acknowledgement input.acknowledgement

pub data CapabilityClass : Type 0 where
  read_only mutating : CapabilityClass

pub record ToolAuthorityInput : Type 0 where
  pub principal_id : String
  pub principal_scopes : List String
  pub tool_id : String
  pub tool_schema_revision : String
  pub capability_class : CapabilityClass
  pub required_scopes : List String
  pub run_identity : String
  pub mutation_expected : Bool

pub data Verdict : Type 0 where
  allow block : Verdict

pub record ToolAuthorityAssessment : Type 0 where
  pub state : Verdict
  pub reason_codes : List String
  pub effect_receipt_required : Bool

-- `scopes.map((scope) => scope.trim()).filter(Boolean)`.
unfoldable pub normalized_scopes : List String → List String
normalized_scopes [] = []
normalized_scopes (scope ∷ rest) =
    if str_eq (trim_text scope) ""
    then normalized_scopes rest
    else trim_text scope ∷ normalized_scopes rest

-- The loop over the required scopes.
unfoldable pub missing_scopes : (normalized required : List String) → List String
missing_scopes normalized [] = []
missing_scopes normalized (scope ∷ rest) =
    issue_if (not (includes normalized (trim_text scope)))
      (concat ("MISSING_SCOPE:" ∷ trim_text scope ∷ []))
    ++ missing_scopes normalized rest

unfoldable pub mutation_issues : CapabilityClass → Bool → List String
mutation_issues read_only expected = issue_if expected "READ_ONLY_TOOL_CANNOT_DECLARE_MUTATION"
mutation_issues mutating expected = issue_if (not expected) "MUTATION_EXPECTATION_REQUIRED"

unfoldable pub authority_reasons : ToolAuthorityInput → List String
authority_reasons input =
    issue_if (not (is_text input.principal_id)) "PRINCIPAL_ID_REQUIRED"
    ++ issue_if (not (is_text input.tool_id)) "TOOL_ID_REQUIRED"
    ++ issue_if (not (is_text input.tool_schema_revision)) "TOOL_SCHEMA_REVISION_REQUIRED"
    ++ issue_if (not (is_text input.run_identity)) "RUN_IDENTITY_REQUIRED"
    ++ missing_scopes (normalized_scopes input.principal_scopes) input.required_scopes
    ++ mutation_issues input.capability_class input.mutation_expected

unfoldable pub is_mutating : CapabilityClass → Bool
is_mutating read_only = false
is_mutating mutating = true

unfoldable pub evaluate_agent_tool_authority : ToolAuthorityInput → ToolAuthorityAssessment
evaluate_agent_tool_authority input = record {
  state = if is_empty (authority_reasons input) then allow else block;
  reason_codes = authority_reasons input;
  effect_receipt_required = is_mutating input.capability_class;
}
