-- ===== src/Durable/Types.antt =====
-- shared/execution-history.ts, the types. `metadata` is the object that a link carries: one of the
-- three that server/workflows/durable-runtime.ts writes, with its typed parts, or any other object.
use ai_knowledge_system.Common.{Number, String, Option, List}
use ai_knowledge_system.NextActions.Types.{ActionEnvelope, Selection}
use ai_knowledge_system.Provenance.Types.{Envelope}
use ai_knowledge_system.Workflows.Json.{JsonObject}
use ai_knowledge_system.Workflows.Types.{Mode, Status, ExecutionError}

pub data LinkType : Type 0 where
  provenance artifact approval receipt touched_resource related_execution : LinkType

pub data SourceSystem : Type 0 where
  github notion google_drive runtime : SourceSystem

pub data HistoryAuthority : Type 0 where
  authoritative shadow execution_truth observational : HistoryAuthority

pub data PersistenceState : Type 0 where
  durable_available durable_unavailable : PersistenceState

-- `reason_code`, where `null` is `none`.
pub data ReasonCode : Type 0 where
  d1_binding_unavailable d1_schema_unavailable d1_write_failed d1_read_failed : ReasonCode

pub record ExecutionHistoryIdentity : Type 0 where
  pub execution_id : String
  pub scope_key : String
  pub capability_id : String

pub record DurableExecutionRecord : Type 0 where
  pub identity : ExecutionHistoryIdentity
  pub schema_name : String
  pub schema_version : String
  pub workflow_id : String
  pub trace_id : Option String
  pub requested_by : Option String
  pub parent_execution_id : Option String
  pub mode : Mode
  pub status : Status
  pub created_at : String
  pub started_at : Option String
  pub completed_at : Option String
  pub current_stage : Option String
  pub input : JsonObject
  pub output : Option JsonObject
  pub error : Option ExecutionError
  pub result_class : Option String
  pub authority_owner : String
  pub authority_domain : String
  pub authority_state : HistoryAuthority

pub record DurableExecutionEvent : Type 0 where
  pub identity : ExecutionHistoryIdentity
  pub event_id : String
  pub workflow_id : String
  pub event_type : String
  pub status : Status
  pub stage : Option String
  pub sequence : Number
  pub emitted_at : String
  pub payload : Option JsonObject

pub data Metadata : Type 0 where
  context_provenance_envelope : Envelope → Metadata
  kernel_state : Option ActionEnvelope → Option Selection → Metadata
  parent_execution : Metadata
  other_object : JsonObject → Metadata

pub record DurableExecutionLink : Type 0 where
  pub identity : ExecutionHistoryIdentity
  pub link_id : String
  pub link_type : LinkType
  pub target_id : String
  pub source_system : SourceSystem
  pub authority_owner : String
  pub authority_domain : String
  pub authority_state : HistoryAuthority
  pub created_at : String
  pub metadata : Metadata

pub record DurableBundle : Type 0 where
  pub execution : DurableExecutionRecord
  pub events : List DurableExecutionEvent
  pub links : List DurableExecutionLink

-- `ExecutionHistoryBackendState`; its backend is always D1.
pub record BackendState : Type 0 where
  pub state : PersistenceState
  pub reason_code : Option ReasonCode

pub data HistoryErrorCode : Type 0 where
  identity_invalid schema_invalid mode_invalid status_invalid binding_mismatch mode_collision
        sequence_invalid duplicate_sequence duplicate_event_id duplicate_link_id link_invalid
        json_unsafe timestamp_invalid durability_unavailable :
      HistoryErrorCode

-- `ExecutionHistoryContractError`.
pub record ContractError : Type 0 where
  pub code : HistoryErrorCode
  pub message : String
