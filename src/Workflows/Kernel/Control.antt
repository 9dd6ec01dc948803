-- ===== src/Workflows/Kernel/Control.antt =====
-- server/workflows/kernel.ts: `pause`, `resume`, `cancel`, `fail`, `complete`, and
-- `generateNextActions`, which a completion ends with.
use ai_knowledge_system.Common.{
  suc, String, true, false, none, some, List, [], ◌∷◌, map, any, if◌then◌else◌, or_option, concat,
  truthy, lookup,
}
use ai_knowledge_system.NextActions.Types.{ActionEnvelope, Availability, ResolveInput}
use ai_knowledge_system.NextActions.Resolve.{get_default_result_class, resolve_next_action_envelope}
use ai_knowledge_system.Workflows.Json.{
  JsonObject, empty, field, text, array, texts, text_or_null, get_field, as_text,
}
use ai_knowledge_system.Workflows.Types.{
  Status, queued, running, waiting, approval_required, paused, completed, failed, cancelled,
  WorkflowExecution, ExecutionError, ExecutionSnapshot, WorkflowHandler, kernel_error,
}
use ai_knowledge_system.Workflows.Kernel.State.{
  World, Kernel, returned, thrown, M, ◌>>=◌, ◌>>◌, modify, is_status, status_name, put,
  require_execution, handler_allows_scope, require_handler, invalid_transition, assert_status,
  snapshot,
}
use ai_knowledge_system.Workflows.Kernel.Log.{emit, transition_to_failure}

abbrev pub terminal_statuses : List Status
terminal_statuses = completed ∷ failed ∷ cancelled ∷ []

abbrev pub controllable_statuses : List Status
controllable_statuses = queued ∷ running ∷ waiting ∷ approval_required ∷ paused ∷ []

-- `targetAvailability`: an entry for each registered handler.
unfoldable pub target_availability :
    String → List (String × WorkflowHandler) → List (String × Availability)
target_availability scope_key handlers =
    map
      (λ entry. (
        entry.0,
        if handler_allows_scope entry.1 scope_key
            then record { available = true; reason = none }
            else record {
              available = false;
              reason = some (
                  concat (
                    "Target workflow '" ∷ entry.0 ∷ "' is not registered for scope '" ∷ scope_key
                    ∷ "'." ∷ []));
            },
      ))
      handlers

unfoldable pub resolve_input : WorkflowExecution → String → Kernel → ResolveInput
resolve_input execution result_class k = record {
  execution_id = execution.execution_id;
  scope_key = execution.scope_key;
  workflow_id = execution.workflow_id;
  current_state = status_name execution.status;
  result_class = result_class;
  authority_context = some (record {
    read_from = "server workflow kernel" ∷ "registered LIVE handler" ∷ [];
    authority = "Server runtime execution state";
    write_authorized = false;
  });
  target_availability = some (target_availability execution.scope_key k.handlers);
}

unfoldable pub generated_data : String → ActionEnvelope → JsonObject
generated_data result_class envelope = field "result_class" (text result_class) (
    field "recommended_action" (text_or_null envelope.recommended_action) (
      field "available_commands" (array (texts (map (λ a. a.command) envelope.available_actions))) (
        field "blocked_commands"
          (array (texts (map (λ b. b.action.command) envelope.blocked_actions))) empty)))

-- `if (!handler.supports_pause) throw`.
unfoldable pub assert_pausable : WorkflowHandler → M (Unit {0})
assert_pausable handler k =
    if handler.supports_pause
    then returned tt k
    else thrown (kernel_error "PAUSE_UNSUPPORTED" "This workflow does not support pause." 409) k

-- `if (handler && !handler.supports_cancel) throw`: an execution without a handler passes.
unfoldable pub assert_cancellable : WorkflowExecution → M (Unit {0})
assert_cancellable execution k = elim (lookup execution.workflow_id k.handlers) [
  | none ↦ returned tt k
  | some handler ↦
      if handler.supports_cancel
      then returned tt k
      else thrown
          (kernel_error "CANCEL_UNSUPPORTED" "This workflow does not support cancellation." 409) k
]

-- `if (terminalStatuses.has(execution.status)) throw`.
unfoldable pub assert_not_terminal : WorkflowExecution → M (Unit {0})
assert_not_terminal execution k =
    if any (λ status. is_status status execution.status) terminal_statuses
    then thrown (invalid_transition "fail" execution.status) k
    else returned tt k

module _ (world : World) where
  -- The envelope is stamped, and the clock read, only when a policy's state answers.
  unfoldable pub generate_for : WorkflowExecution → String → Kernel → Kernel
  generate_for execution result_class k =
      elim (resolve_next_action_envelope (world.now k.ticks)
        (resolve_input execution result_class k)) [
          | none ↦
              put
                (record execution { result_class = some result_class; next_action_envelope = none })
                k
          | some envelope ↦
              let execution' = record execution {
                result_class = some result_class;
                next_action_envelope = some envelope;
              } in
              emit world execution' "next_action.generated"
                (some (generated_data result_class envelope))
                (put execution' (record k { ticks = suc k.ticks }))
        ]

  unfoldable pub generate_next_actions : WorkflowExecution → Kernel → Kernel
  generate_next_actions execution k =
      elim (truthy
        (or_option execution.result_class (get_default_result_class execution.workflow_id))) [
          | none ↦ k
          | some result_class ↦ generate_for execution result_class k
        ]

  unfoldable pub pause : String → M ExecutionSnapshot
  pause id = do
    execution ← require_execution id
    handler ← require_handler execution
    assert_pausable handler
    assert_status execution (running ∷ waiting ∷ []) "pause"
    let execution' = record execution { status = paused }
    modify (λ k. emit world execution' "workflow.execution.paused" none (put execution' k))
    snapshot id

  unfoldable pub resume : String → M ExecutionSnapshot
  resume id = do
    execution ← require_execution id
    assert_status execution (paused ∷ []) "resume"
    let execution' = record execution { status = running }
    modify (λ k. emit world execution' "workflow.execution.resumed" none (put execution' k))
    snapshot id

  unfoldable pub cancelling : WorkflowExecution → Kernel → WorkflowExecution
  cancelling execution k = record execution {
    status = cancelled;
    completed_at = some (world.now k.ticks);
    next_action_envelope = none;
  }

  unfoldable pub cancel : String → M ExecutionSnapshot
  cancel id = do
    execution ← require_execution id
    assert_cancellable execution
    assert_status execution controllable_statuses "cancel"
    modify (λ k.
        let execution' = cancelling execution k in
        emit world execution' "workflow.execution.cancelled" none
          (put execution' (record k { ticks = suc k.ticks })))
    snapshot id

  unfoldable pub fail : String → ExecutionError → M ExecutionSnapshot
  fail id error = do
    execution ← require_execution id
    assert_not_terminal execution
    modify (transition_to_failure world execution error)
    snapshot id

  unfoldable pub completing : WorkflowExecution → JsonObject → Kernel → WorkflowExecution
  completing execution output k = record execution {
    status = completed;
    current_stage = some "completed";
    completed_at = some (world.now k.ticks);
    output = some output;
    result_class =
        or_option (as_text (get_field "result_class" output))
          (get_default_result_class execution.workflow_id);
  }

  unfoldable pub complete : String → JsonObject → M ExecutionSnapshot
  complete id output = do
    execution ← require_execution id
    assert_status execution (running ∷ waiting ∷ approval_required ∷ []) "complete"
    modify (λ k.
        let execution' = completing execution output k in
        generate_next_actions execution' (
          emit world execution' "workflow.execution.completed" none
            (put execution' (record k { ticks = suc k.ticks }))))
    snapshot id
