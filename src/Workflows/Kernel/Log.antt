-- ===== src/Workflows/Kernel/Log.antt =====
-- server/workflows/kernel.ts: `emit`, `transitionToFailure` and the recording of provenance.
use ai_knowledge_system.Common.{
  suc, ◌+◌, String, Option, none, some, [], ◌∷◌, ◌++◌, length, concat, integer, insert,
}
use ai_knowledge_system.Provenance.Types.{
  retrieval, transformation, governed_write, authoritative, non_authoritative, shadow, derived,
  unknown, ProvenanceOperation, AuthorityState, Envelope, Emission, GovernedWriteAuthorization,
}
use ai_knowledge_system.Provenance.Service
use ai_knowledge_system.Provenance.Service.{emitted, refused, assert_governed_write_authorization}
use ai_knowledge_system.Workflows.Json.{JsonObject, empty, field, text, number}
use ai_knowledge_system.Workflows.Types.{
  failed, WorkflowExecution, ExecutionError, ExecutionEvent, provenance_error,
}
use ai_knowledge_system.Workflows.Kernel.State.{
  World, Kernel, returned, thrown, M, bind, log_of, evidence_of, put,
}

unfoldable pub operation_word : ProvenanceOperation → String
operation_word retrieval = "retrieval"
operation_word transformation = "transformation"
operation_word governed_write = "governed_write"

unfoldable pub authority_name : AuthorityState → String
authority_name authoritative = "AUTHORITATIVE"
authority_name non_authoritative = "NON_AUTHORITATIVE"
authority_name shadow = "SHADOW"
authority_name derived = "DERIVED"
authority_name unknown = "UNKNOWN"

module _ (world : World) where
  unfoldable pub next_event :
      WorkflowExecution → String → Option JsonObject → Kernel → ExecutionEvent
  next_event execution event_type payload k = record {
    event_id = world.uuid k.drawn;
    execution_id = execution.execution_id;
    workflow_id = execution.workflow_id;
    scope_key = execution.scope_key;
    event_type = event_type;
    status = execution.status;
    stage = execution.current_stage;
    sequence = length (log_of execution.execution_id k) + 1;
    emitted_at = world.now k.ticks;
    payload = payload;
  }

  unfoldable pub emit : WorkflowExecution → String → Option JsonObject → Kernel → Kernel
  emit execution event_type payload k = record k {
    events =
        insert execution.execution_id
          (log_of execution.execution_id k ++ next_event execution event_type payload k ∷ [])
          k.events;
    ticks = suc k.ticks;
    drawn = suc k.drawn;
  }

  -- The execution that `transitionToFailure` leaves.
  unfoldable pub failing : WorkflowExecution → ExecutionError → Kernel → WorkflowExecution
  failing execution error k = record execution {
    status = failed;
    error = some error;
    completed_at = some (world.now k.ticks);
    next_action_envelope = none;
  }

  unfoldable pub transition_to_failure : WorkflowExecution → ExecutionError → Kernel → Kernel
  transition_to_failure execution error k =
      let execution' = failing execution error k in
      emit execution' "workflow.execution.failed"
        (some (field "error_code" (text error.code) empty))
        (put execution' (record k { ticks = suc k.ticks }))

  -- `prepareProvenance`: the envelope's UUID and time are drawn, also if it is refused.
  unfoldable pub prepare_provenance : WorkflowExecution → Emission → M Envelope
  prepare_provenance execution input k =
      let k' = record k { ticks = suc k.ticks; drawn = suc k.drawn } in
      elim (Service.emit (world.uuid k.drawn) (world.now k.ticks)
        (record {
          execution_id = execution.execution_id;
          workflow_id = execution.workflow_id;
          scope_key = execution.scope_key;
        })
        input) [
          | emitted envelope ↦ returned envelope k'
          | refused error ↦ thrown (provenance_error error.code error.issues) k'
        ]

  unfoldable pub envelope_data : Envelope → JsonObject
  envelope_data envelope = field "envelope_id" (text envelope.envelope_id) (
      field "object_id" (text envelope.object_id) (
        field "source_system" (text envelope.source_system) (
          field "authority_state" (text (authority_name envelope.authority_state)) (
            field "parent_evidence_count" (number (integer (length envelope.parent_evidence_ids)))
              empty))))

  unfoldable pub append_prepared_provenance : WorkflowExecution → Envelope → Kernel → Kernel
  append_prepared_provenance execution envelope k =
      emit execution (concat ("provenance." ∷ operation_word envelope.operation ∷ ".emitted" ∷ []))
        (some (envelope_data envelope))
        (record k {
          provenance =
              insert execution.execution_id (evidence_of execution.execution_id k ++ envelope ∷ [])
                k.provenance;
        })

  -- `recordProvenance`, the `emit` of a handler's context.
  unfoldable pub record_provenance : WorkflowExecution → Emission → M Envelope
  record_provenance execution input k =
      bind (prepare_provenance execution input k)
        λ envelope k'. returned envelope (append_prepared_provenance execution envelope k')

  -- The context's `assertGovernedWriteAuthorization`.
  unfoldable pub authorize_write : WorkflowExecution → GovernedWriteAuthorization → M (Unit {0})
  authorize_write execution input k = elim (assert_governed_write_authorization input) [
    | some error ↦ thrown (provenance_error error.code error.issues) k
    | none ↦ returned tt (
        emit execution "provenance.governed_write.authorization_validated"
          (some (
            field "write_plan_id" (text input.write_plan_id) (
              field "authorization_id" (text input.authorization_id)
                (field "destination" (text input.destination) empty))))
          k)
  ]
