-- ===== src/Provenance/Types.antt =====
-- server/provenance/types.ts. A union of string literals is a data type, `T | null` and `T?` are
-- `Option T`; the fields with one possible value (schema_name, schema_version) are left out.
use ai_knowledge_system.Common.{String, Bool, Option, List, Number}

pub data ProvenanceOperation : Type 0 where
  retrieval transformation governed_write : ProvenanceOperation

pub data EpistemicType : Type 0 where
  claim observation action_request action_result verification durable_fact : EpistemicType

pub data AuthorityState : Type 0 where
  authoritative non_authoritative shadow derived unknown : AuthorityState

pub data ConflictState : Type 0 where
  no_conflict unresolved resolved : ConflictState

pub record TransformStep : Type 0 where
  pub activity_id : String
  pub activity_type : String
  pub executor : String
  pub input_evidence_ids : List String
  pub started_at : Option String
  pub completed_at : Option String

pub record Envelope : Type 0 where
  pub envelope_id : String
  pub object_id : String
  pub object_type : String
  pub operation : ProvenanceOperation
  pub epistemic_type : EpistemicType
  pub scope_key : String
  pub source_system : String
  pub source_id : String
  pub source_version : Option String
  pub source_fingerprint : String
  pub retrieved_at : Option String
  pub object_fingerprint : String
  pub parent_evidence_ids : List String
  pub transform_chain : List TransformStep
  pub authority_owner : String
  pub authority_domain : String
  pub authority_state : AuthorityState
  pub authority_conflict_state : ConflictState
  pub confidence : Option Number
  pub access_policy_refs : List String
  pub write_policy_refs : List String
  pub used_by_execution_id : String
  pub workflow_id : String
  pub trace_id : Option String
  pub span_id : Option String
  pub mason_episode_id : Option String
  pub write_plan_id : Option String
  pub authorization_id : Option String
  pub execution_receipt_id : Option String
  pub destination : Option String
  pub write_authorized : Bool
  pub emitted_at : String
  pub validated_at : String

-- What a read through the kernel shows of an envelope.
pub record ReadProjection : Type 0 where
  pub envelope_id : String
  pub object_id : String
  pub object_type : String
  pub operation : ProvenanceOperation
  pub scope_key : String
  pub authority_owner : String
  pub authority_domain : String
  pub authority_state : AuthorityState
  pub authority_conflict_state : ConflictState
  pub used_by_execution_id : String
  pub workflow_id : String

pub record Emission : Type 0 where
  pub object_id : String
  pub object_type : String
  pub operation : ProvenanceOperation
  pub epistemic_type : EpistemicType
  pub source_system : String
  pub source_id : String
  pub source_version : Option String
  pub source_fingerprint : String
  pub retrieved_at : Option String
  pub object_fingerprint : String
  pub parent_evidence_ids : Option (List String)
  pub transform_chain : Option (List TransformStep)
  pub authority_owner : String
  pub authority_domain : String
  pub authority_state : AuthorityState
  pub authority_conflict_state : Option ConflictState
  pub confidence : Option Number
  pub access_policy_refs : List String
  pub write_policy_refs : Option (List String)
  pub trace_id : Option String
  pub span_id : Option String
  pub mason_episode_id : Option String
  pub write_plan_id : Option String
  pub authorization_id : Option String
  pub execution_receipt_id : Option String
  pub destination : Option String
  pub write_authorized : Option Bool

pub record GovernedWriteAuthorization : Type 0 where
  pub write_authorized : Bool
  pub write_policy_refs : List String
  pub mason_episode_id : String
  pub write_plan_id : String
  pub authorization_id : String
  pub destination : String

pub record ExecutionBinding : Type 0 where
  pub execution_id : String
  pub workflow_id : String
  pub scope_key : String
