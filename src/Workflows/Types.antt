-- ===== src/Workflows/Types.antt =====
-- server/workflows/types.ts, and the errors of kernel.ts. A handler's run is a tree of what it asks
-- of its context: a `Run` ends in a result or in an exception, and each call of the context is a node.
use ai_knowledge_system.Common.{ℕ, String, Bool, Option, List}
use ai_knowledge_system.NextActions.Types.{ActionEnvelope, Selection}
use ai_knowledge_system.Provenance.Types.{Envelope, Emission, GovernedWriteAuthorization}
use ai_knowledge_system.Workflows.Json.{JsonObject}

pub data Status : Type 0 where
  queued running waiting approval_required paused completed failed cancelled : Status

pub data Mode : Type 0 where
  live simulation : Mode

pub record ExecutionError : Type 0 where
  pub code : String
  pub message : String

pub record WorkflowExecution : Type 0 where
  pub execution_id : String
  pub workflow_id : String
  pub scope_key : String
  pub requested_by : Option String
  pub parent_execution_id : Option String
  pub mode : Mode
  pub status : Status
  pub created_at : String
  pub started_at : Option String
  pub completed_at : Option String
  pub current_stage : Option String
  pub input : JsonObject
  pub output : Option JsonObject
  pub error : Option ExecutionError
  pub result_class : Option String
  pub next_action_envelope : Option ActionEnvelope
  pub selected_next_action : Option Selection

pub record ExecutionEvent : Type 0 where
  pub event_id : String
  pub execution_id : String
  pub workflow_id : String
  pub scope_key : String
  pub event_type : String
  pub status : Status
  pub stage : Option String
  pub sequence : ℕ
  pub emitted_at : String
  pub payload : Option JsonObject

-- The statuses that a handler may report.
pub data HandlerStatus : Type 0 where
  running waiting approval_required completed : HandlerStatus

pub record HandlerResult : Type 0 where
  pub status : HandlerStatus
  pub current_stage : Option String
  pub output : Option JsonObject
  pub result_class : Option String
  pub event_type : String
  pub event_data : Option JsonObject
  pub provenance_emissions : Option (List Emission)

-- `WorkflowKernelError`, `ProvenanceValidationError`, any other `Error`, and a thrown value that is
-- no `Error`.
pub data Failure : Type 0 where
  kernel_error : (code message : String) (http_status : ℕ) → Failure
  provenance_error : (code : String) (issues : List String) → Failure
  plain_error : (message : String) → Failure
  other_value : Failure

pub data Run : Type 0 where
  returns : HandlerResult → Run
  throws : Failure → Run
  read_clock : (String → Run) → Run
  list_provenance : (List Envelope → Run) → Run
  emit_provenance : Emission → (Envelope → Run) → Run
  assert_write : GovernedWriteAuthorization → Run → Run

pub record WorkflowHandler : Type 0 where
  pub workflow_id : String
  pub version : String
  pub allowed_scope_keys : List String
  pub supports_pause : Bool
  pub supports_cancel : Bool
  pub start : WorkflowExecution → Run
  pub advance : WorkflowExecution → Run

pub record CreateExecutionRequest : Type 0 where
  pub workflow_id : String
  pub scope_key : String
  pub requested_by : Option String
  pub parent_execution_id : Option String
  pub mode : Mode
  pub input : Option JsonObject

pub record ExecutionSnapshot : Type 0 where
  pub execution : WorkflowExecution
  pub events : List ExecutionEvent
  pub provenance_envelopes : List Envelope
