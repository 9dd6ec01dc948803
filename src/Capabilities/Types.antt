-- ===== src/Capabilities/Types.antt =====
-- server/capabilities/types.ts. Fields with one possible value (schema names and versions,
-- `persistence`, `execution_authority`, `fingerprint_verified`, and the three that say what a selection
-- or a schema authorizes) are left out.
use ai_knowledge_system.Common.{ℕ, String, Bool, Option, List, Number}
use ai_knowledge_system.Workflows.Json.{JsonObject}
use ai_knowledge_system.Workflows.Types.{Mode}

pub data CapabilityAutonomyBand : Type 0 where
  a0 adv a3 a4 a5 : CapabilityAutonomyBand

pub data CapabilityHealthStatus : Type 0 where
  verified degraded stale unreachable auth_required schema_mismatch blocked : CapabilityHealthStatus

pub data CapabilityDecisionReasonCode : Type 0 where
  intent_mismatch negative_boundary_match requested_capability_mismatch status_not_active
        scope_mismatch scope_denied authority_mismatch mode_unsupported health_not_verified
        health_verification_expired handler_unavailable overlap_precedence_lost
        schema_fingerprint_mismatch :
      CapabilityDecisionReasonCode

pub data CapabilityStatus : Type 0 where
  active review deprecated superseded : CapabilityStatus

pub data TrustLevel : Type 0 where
  internal_native vetted_external untrusted : TrustLevel

pub data DataAccess : Type 0 where
  execution_local read_only_external write_external : DataAccess

pub data Reversibility : Type 0 where
  fully_reversible partially_reversible irreversible : Reversibility

pub data BlastRadius : Type 0 where
  process_local scope_local external : BlastRadius

pub data SourceAuthority : Type 0 where
  github_execution_truth notion_authority_snapshot drive_runtime_snapshot : SourceAuthority

pub record CapabilityHealth : Type 0 where
  pub status : CapabilityHealthStatus
  pub checked_at : String
  pub expires_at : Option String
  pub verification_source : String

pub record RuntimeCapabilityDefinition : Type 0 where
  pub capability_id : String
  pub name : String
  pub description : String
  pub workflow_id : String
  pub version : String
  pub status : CapabilityStatus
  pub discoverable : Bool
  pub intent_classes : List String
  pub positive_examples : List String
  pub negative_examples : List String
  pub overlap_group : Option String
  pub precedence_priority : Number
  pub preferred_over : List String
  pub scope_allowlist : List String
  pub scope_denylist : List String
  pub authority_domains : List String
  pub input_schema_ref : String
  pub output_schema_ref : String
  pub input_schema : JsonObject
  pub output_schema : JsonObject
  pub expected_schema_fingerprint : String
  pub handler_ref : String
  pub trust_level : TrustLevel
  pub data_access : DataAccess
  pub reversibility : Reversibility
  pub blast_radius : BlastRadius
  pub autonomy_band : CapabilityAutonomyBand
  pub approval_required : Bool
  pub materialization_requires_approval : Bool
  pub execution_modes : List Mode
  pub health : CapabilityHealth
  pub source_authority : SourceAuthority

pub record CapabilityCandidate : Type 0 where
  pub capability_id : String
  pub capability_version : String
  pub name : String
  pub workflow_id : String
  pub match_score : Number
  pub match_reasons : List String
  pub overlap_group : Option String
  pub precedence_priority : Number
  pub authority_compatible : Bool
  pub scope_compatible : Bool
  pub mode_compatible : Bool
  pub health_compatible : Bool
  pub autonomy_band : CapabilityAutonomyBand
  pub approval_required : Bool
  pub materialization_requires_approval : Bool
  pub reversibility : Reversibility
  pub blast_radius : BlastRadius
  pub input_schema_ref : String
  pub output_schema_ref : String
  pub expected_schema_fingerprint : String

pub record RejectedCapabilityCandidate : Type 0 where
  pub candidate : CapabilityCandidate
  pub reason_codes : List CapabilityDecisionReasonCode
  pub reason_details : List String

pub data ResolutionState : Type 0 where
  matched ambiguous no_match : ResolutionState

pub record CapabilityDiscoveryEnvelope : Type 0 where
  pub discovery_id : String
  pub execution_id : Option String
  pub workflow_id : Option String
  pub scope_key : String
  pub mode : Mode
  pub intent_class : String
  pub intent_text : Option String
  pub requested_capability_id : Option String
  pub authority_domains : List String
  pub registry_version : String
  pub registry_fingerprint : String
  pub candidates_considered : ℕ
  pub eligible_candidates : List CapabilityCandidate
  pub rejected_candidates : List RejectedCapabilityCandidate
  pub recommended_capability_id : Option String
  pub selection_confidence : Option Number
  pub confidence_margin : Option Number
  pub resolution_state : ResolutionState
  pub generated_at : String

pub record MaterializedCapability : Type 0 where
  pub discovery_id : String
  pub execution_id : Option String
  pub capability_id : String
  pub capability_version : String
  pub workflow_id : String
  pub scope_key : String
  pub input_schema_ref : String
  pub output_schema_ref : String
  pub input_schema : JsonObject
  pub output_schema : JsonObject
  pub schema_fingerprint : String
  pub expected_schema_fingerprint : String
  pub materialized_at : String

pub record CapabilityDiscoveryInput : Type 0 where
  pub execution_id : Option String
  pub workflow_id : Option String
  pub scope_key : String
  pub mode : Mode
  pub intent_class : String
  pub intent_text : Option String
  pub requested_capability_id : Option String
  pub authority_domains : Option (List String)

pub data CapabilitySelectionDecision : Type 0 where
  selected pending_approval approved rejected : CapabilitySelectionDecision

pub record CapabilitySelection : Type 0 where
  pub discovery_id : String
  pub capability_id : String
  pub capability_version : String
  pub selected_at : String
  pub decision : CapabilitySelectionDecision
  pub decided_at : Option String

pub record CapabilityDiscoveryEvent : Type 0 where
  pub event_id : String
  pub discovery_id : String
  pub event_type : String
  pub sequence : ℕ
  pub emitted_at : String
  pub payload : JsonObject

pub record CapabilityDiscoverySnapshot : Type 0 where
  pub envelope : CapabilityDiscoveryEnvelope
  pub selection : Option CapabilitySelection
  pub materialized_capability : Option MaterializedCapability
  pub events : List CapabilityDiscoveryEvent
