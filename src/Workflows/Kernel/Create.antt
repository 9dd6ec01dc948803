-- ===== src/Workflows/Kernel/Create.antt =====
-- server/workflows/kernel.ts: the constructor, `listLiveWorkflows`, `createExecution`,
-- `getExecution` and `discardExecution`.
use ai_knowledge_system.Common.{
  suc, String, Bool, none, some, List, [], ◌∷◌, map, if◌then◌else◌, is_some, or_else, concat,
  lookup, insert, remove,
}
use ai_knowledge_system.NextActions.Resolve.{get_default_result_class}
use ai_knowledge_system.Workflows.Json.{JsonObject, empty, field, text, text_or_null}
use ai_knowledge_system.Workflows.Types.{
  live, simulation, queued, WorkflowExecution, ExecutionError, ExecutionSnapshot, WorkflowHandler,
  CreateExecutionRequest, kernel_error,
}
use ai_knowledge_system.Workflows.Kernel.State.{
  World, Kernel, thrown, M, handler_allows_scope, snapshot,
}
use ai_knowledge_system.Workflows.Kernel.Log.{emit, transition_to_failure}

unfoldable pub register :
    List WorkflowHandler → List (String × WorkflowHandler) → List (String × WorkflowHandler)
register [] handlers = handlers
register (handler ∷ rest) handlers = register rest (insert handler.workflow_id handler handlers)

unfoldable pub new_kernel : List WorkflowHandler → Kernel
unfolding register
new_kernel handlers = record {
  executions = [];
  events = [];
  provenance = [];
  handlers = register handlers [];
  ticks = 0;
  drawn = 0;
}

pub record LiveWorkflow : Type 0 where
  pub workflow_id : String
  pub version : String
  pub allowed_scope_keys : List String
  pub supports_pause : Bool
  pub supports_cancel : Bool
  pub next_actions : Bool

unfoldable pub list_live_workflows : Kernel → List LiveWorkflow
list_live_workflows k =
    map
      (λ entry. record {
        workflow_id = entry.1.workflow_id;
        version = entry.1.version;
        allowed_scope_keys = entry.1.allowed_scope_keys;
        supports_pause = entry.1.supports_pause;
        supports_cancel = entry.1.supports_cancel;
        next_actions = is_some (get_default_result_class entry.1.workflow_id);
      })
      k.handlers

abbrev pub no_handler : WorkflowExecution → ExecutionError
no_handler execution = record {
  code = "LIVE_HANDLER_UNAVAILABLE";
  message =
      concat ("No LIVE WorkflowHandler is registered for '" ∷ execution.workflow_id ∷ "'." ∷ []);
}

abbrev pub no_scope : WorkflowExecution → ExecutionError
no_scope execution = record {
  code = "LIVE_SCOPE_UNAVAILABLE";
  message = concat (
      "Workflow '" ∷ execution.workflow_id ∷ "' is not registered for scope '" ∷ execution.scope_key
      ∷ "'." ∷ []);
}

abbrev pub created_data : WorkflowExecution → JsonObject
created_data execution = field "mode" (text "LIVE") (
    field "parent_execution_id" (text_or_null execution.parent_execution_id)
      (field "provenance_contract" (text "ContextProvenanceEnvelope/1.0") empty))

module _ (world : World) where
  unfoldable pub fresh_execution : CreateExecutionRequest → Kernel → WorkflowExecution
  fresh_execution request k = record {
    execution_id = world.uuid k.drawn;
    workflow_id = request.workflow_id;
    scope_key = request.scope_key;
    requested_by = request.requested_by;
    parent_execution_id = request.parent_execution_id;
    mode = live;
    status = queued;
    created_at = world.now k.ticks;
    started_at = none;
    completed_at = none;
    current_stage = none;
    input = or_else request.input empty;
    output = none;
    error = none;
    result_class = none;
    next_action_envelope = none;
    selected_next_action = none;
  }

  -- The three maps' entries for a new execution.
  unfoldable pub enter : WorkflowExecution → Kernel → Kernel
  enter execution k = record k {
    executions = insert execution.execution_id execution k.executions;
    events = insert execution.execution_id [] k.events;
    provenance = insert execution.execution_id [] k.provenance;
  }

  -- What `createExecution` does once the execution is entered.
  unfoldable pub admit : WorkflowExecution → Kernel → Kernel
  admit execution k = elim (lookup execution.workflow_id k.handlers) [
    | none ↦ transition_to_failure world execution (no_handler execution) k
    | some handler ↦
        if handler_allows_scope handler execution.scope_key
        then emit world execution "workflow.execution.created" (some (created_data execution)) k
        else transition_to_failure world execution (no_scope execution) k
  ]

  unfoldable pub create_live : CreateExecutionRequest → M ExecutionSnapshot
  create_live request k =
      let execution = fresh_execution request k in
      snapshot execution.execution_id
        (admit execution (enter execution (record k { ticks = suc k.ticks; drawn = suc k.drawn })))

  unfoldable pub create_execution : CreateExecutionRequest → M ExecutionSnapshot
  create_execution request k = elim request.mode [
    | simulation ↦
        thrown
          (kernel_error "SIMULATION_TRANSPORT_SEPARATE"
            "SIMULATION is owned by SimulationEventTransport and is not executed by the server kernel."
            409)
          k
    | live ↦ create_live request k
  ]

unfoldable pub get_execution : String → M ExecutionSnapshot
get_execution id = snapshot id

unfoldable pub discard_execution : String → Kernel → Kernel
discard_execution id k = record k {
  executions = remove id k.executions;
  events = remove id k.events;
  provenance = remove id k.provenance;
}
