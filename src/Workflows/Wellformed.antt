-- ===== src/Workflows/Wellformed.antt =====
-- server/workflows/kernel.ts: what holds of the three maps between two calls. An execution is stored
-- under its own id, which was drawn as a UUID; its event log is bound to it, numbered from 1 without a gap, with no event id
-- twice; and its provenance is bound to it and valid.
pub mod Primitives
pub mod Restore
pub mod RoundTrip
use ai_knowledge_system.Common.{
  ℕ, suc, ◌+◌, ◌<◌, String, ◌≡◌, ◌≢◌, Option, some, List, [], ◌∷◌, All, lookup,
}
use ai_knowledge_system.Provenance.Types.{Envelope, ExecutionBinding}
use ai_knowledge_system.Provenance.Service.{validate}
use ai_knowledge_system.Workflows.Json.{JsonObject}
use ai_knowledge_system.Workflows.Types.{Mode, live, WorkflowExecution, ExecutionEvent}
use ai_knowledge_system.Workflows.Kernel.State.{World, Kernel, log_of, evidence_of}

abbrev pub binding_of : WorkflowExecution → ExecutionBinding
binding_of execution = record {
  execution_id = execution.execution_id;
  workflow_id = execution.workflow_id;
  scope_key = execution.scope_key;
}

abbrev pub event_binding : ExecutionEvent → ExecutionBinding
event_binding event = record {
  execution_id = event.execution_id;
  workflow_id = event.workflow_id;
  scope_key = event.scope_key;
}

abbrev pub envelope_binding : Envelope → ExecutionBinding
envelope_binding envelope = record {
  execution_id = envelope.used_by_execution_id;
  workflow_id = envelope.workflow_id;
  scope_key = envelope.scope_key;
}

-- The events after the first `n`, numbered from `n + 1`.
abbrev pub IsLog : ExecutionBinding → ℕ → List ExecutionEvent → Type 0
IsLog binding n [] = Unit
IsLog binding n (event ∷ rest) =
    (event_binding event ≡ binding) × (event.sequence ≡ n + 1) × IsLog binding (suc n) rest

abbrev pub Distinct : List ExecutionEvent → Type 0
Distinct [] = Unit
Distinct (event ∷ rest) =
    All (λ (later : ExecutionEvent). later.event_id ≢ event.event_id) rest × Distinct rest

abbrev pub IsSoundEnvelope : ExecutionBinding → Envelope → Type 0
IsSoundEnvelope binding envelope = (envelope_binding envelope ≡ binding) × (validate envelope ≡ [])

-- The id is one of the first `n` UUIDs that were drawn.
abbrev pub IsDrawn : World → ℕ → String → Type 0
IsDrawn world n id = (i : ℕ) × (i < n) × (id ≡ world.uuid i)

abbrev pub IsIssued : World → ℕ → ExecutionEvent → Type 0
IsIssued world n event = IsDrawn world n event.event_id

-- What is stored for one execution: its log, its evidence and its ids.
pub record IsEntry (world : World) (drawn : ℕ) (events : List ExecutionEvent)
    (envelopes : List Envelope) (execution : WorkflowExecution) : Type 0 where
  pub mode : execution.mode ≡ live
  pub known : IsDrawn world drawn execution.execution_id
  pub log : IsLog (binding_of execution) 0 events
  pub distinct : Distinct events
  pub issued : All (IsIssued world drawn) events
  pub evidence : All (IsSoundEnvelope (binding_of execution)) envelopes

abbrev pub Wellformed : World → Kernel → Type 0
Wellformed world k =
    (id : String) (execution : WorkflowExecution)
    → lookup id k.executions ≡ some execution
    → (execution.execution_id ≡ id)
      × IsEntry world k.drawn (log_of id k) (evidence_of id k) execution

-- Two UUIDs are different.
abbrev pub HasFreshUuids : World → Type 0
HasFreshUuids world = (i j : ℕ) → world.uuid i ≡ world.uuid j → i ≡ j

-- What no method changes of an execution.
pub record Identity : Type 0 where
  pub binding : ExecutionBinding
  pub mode : Mode
  pub created_at : String
  pub requested_by : Option String
  pub parent_execution_id : Option String
  pub input : JsonObject

abbrev pub identity_of : WorkflowExecution → Identity
identity_of execution = record {
  binding = binding_of execution;
  mode = execution.mode;
  created_at = execution.created_at;
  requested_by = execution.requested_by;
  parent_execution_id = execution.parent_execution_id;
  input = execution.input;
}

-- The execution is the one that the map holds, up to fields that are no part of its identity.
abbrev pub IsStored : WorkflowExecution → Kernel → Type 0
IsStored execution k =
    (stored : WorkflowExecution) × (lookup execution.execution_id k.executions ≡ some stored)
    × (identity_of stored ≡ identity_of execution)
