-- ===== src/Workflows/Kernel/Handling.antt =====
-- server/workflows/kernel.ts: `context`, `invoke` and `applyHandlerResult`, which carry a handler's
-- run into the kernel.
use ai_knowledge_system.Common.{ℕ, suc, some, List, [], ◌∷◌, or_else, or_option, join, truthy}
use ai_knowledge_system.NextActions.Resolve.{get_default_result_class}
use ai_knowledge_system.Provenance.Types.{Envelope, Emission}
use ai_knowledge_system.Workflows.Types.{
  Status, HandlerStatus, WorkflowExecution, ExecutionError, ExecutionSnapshot, HandlerResult,
  Failure, kernel_error, provenance_error, plain_error, other_value, Run, returns, throws,
  read_clock, list_provenance, emit_provenance, assert_write,
}
use ai_knowledge_system.Workflows.Kernel.State.{
  World, Kernel, Outcome, returned, thrown, M, bind, evidence_of, put, snapshot,
}
use ai_knowledge_system.Workflows.Kernel.Log.{
  emit, transition_to_failure, prepare_provenance, append_prepared_provenance, record_provenance,
  authorize_write,
}
use ai_knowledge_system.Workflows.Kernel.Control.{generate_next_actions}

abbrev pub handler_status : HandlerStatus → Status
handler_status HandlerStatus.running = Status.running
handler_status HandlerStatus.waiting = Status.waiting
handler_status HandlerStatus.approval_required = Status.approval_required
handler_status HandlerStatus.completed = Status.completed

-- The failure that an exception of a handler leaves, and the HTTP status of the error.
unfoldable pub handler_failure : Failure → ExecutionError
handler_failure (provenance_error code issues) = record { code = code; message = join " " issues }
handler_failure (plain_error message) = record { code = "HANDLER_FAILED"; message = message }
handler_failure (kernel_error code message http_status) = record {
  code = "HANDLER_FAILED";
  message = message;
}
handler_failure other_value = record {
  code = "HANDLER_FAILED";
  message = "Workflow handler failed.";
}

unfoldable pub handler_http_status : Failure → ℕ
handler_http_status (provenance_error code issues) = 409
handler_http_status _ = 500

abbrev pub catch {ℓ} : {A : Type ℓ} → Outcome A → (Failure → M A) → Outcome A
catch (returned a k) f = returned a k
catch (thrown e k) f = f e k

-- The execution with the result's fields, before a completion is stamped.
unfoldable pub with_result : WorkflowExecution → HandlerResult → WorkflowExecution
with_result execution result = record execution {
  status = handler_status result.status;
  current_stage = result.current_stage;
  output = or_option result.output execution.output;
  result_class = or_option (truthy result.result_class) execution.result_class;
}

module _ (world : World) where
  -- The handler's calls of its context, in their order.
  unfoldable pub interpret : WorkflowExecution → Run → M HandlerResult
  interpret execution (returns result) k = returned result k
  interpret execution (throws failure) k = thrown failure k
  interpret execution (read_clock next) k =
      interpret execution (next (world.now k.ticks)) (record k { ticks = suc k.ticks })
  interpret execution (list_provenance next) k =
      interpret execution (next (evidence_of execution.execution_id k)) k
  interpret execution (emit_provenance input next) k =
      bind (record_provenance world execution input k)
        λ envelope. interpret execution (next envelope)
  interpret execution (assert_write input next) k =
      bind (authorize_write world execution input k) λ _. interpret execution next

  -- The `catch` of `invoke`, and that of `applyHandlerResult`.
  unfoldable pub give_up {ℓ} : {A : Type ℓ} → WorkflowExecution → Failure → M A
  give_up execution failure k =
      let error = handler_failure failure in
      thrown (kernel_error error.code error.message (handler_http_status failure))
        (transition_to_failure world execution error k)

  unfoldable pub invoke : WorkflowExecution → Run → M HandlerResult
  invoke execution run k = catch (interpret execution run k) (give_up execution)

  -- `emissions.map((input) => this.prepareProvenance(execution, input))`.
  unfoldable pub prepare_all : WorkflowExecution → List Emission → M (List Envelope)
  prepare_all execution [] k = returned [] k
  prepare_all execution (input ∷ rest) k =
      bind (prepare_provenance world execution input k) λ envelope k'.
        bind (prepare_all execution rest k') λ envelopes. returned (envelope ∷ envelopes)

  unfoldable pub append_all : WorkflowExecution → List Envelope → Kernel → Kernel
  append_all execution [] k = k
  append_all execution (envelope ∷ rest) k =
      append_all execution rest (append_prepared_provenance world execution envelope k)

  unfoldable pub stamp_completion : WorkflowExecution → Kernel → WorkflowExecution
  stamp_completion execution k = record execution {
    completed_at = some (world.now k.ticks);
    result_class =
        or_option execution.result_class (get_default_result_class execution.workflow_id);
  }

  -- What follows once the provenance is prepared: the result's status decides on the completion.
  unfoldable pub apply_prepared :
      HandlerStatus → WorkflowExecution → HandlerResult → List Envelope → Kernel → Kernel
  apply_prepared HandlerStatus.completed execution result prepared k =
      let execution' = stamp_completion (with_result execution result) k in
      generate_next_actions world execution' (
        emit world execution' result.event_type result.event_data
          (append_all execution' prepared (put execution' (record k { ticks = suc k.ticks }))))
  apply_prepared _ execution result prepared k =
      let execution' = with_result execution result in
      emit world execution' result.event_type result.event_data
        (append_all execution' prepared (put execution' k))

  unfoldable pub apply_handler_result : WorkflowExecution → HandlerResult → M ExecutionSnapshot
  apply_handler_result execution result k =
      bind
        (catch (prepare_all execution (or_else result.provenance_emissions []) k)
          (give_up execution))
        λ prepared k'.
          snapshot execution.execution_id
            (apply_prepared result.status execution result prepared k')
