-- ===== src/Workflows/Transitions/Creation.antt =====
-- server/workflows/kernel.ts: what `createExecution` returns.
use ai_knowledge_system.Common.{
  suc, String, ◌≡◌, refl, ◌⊎◌, inl, inr, true, Option, some, [], ◌∷◌, ◌++◌, arith, Bool-cases,
  Option-cases, lookup, lookup-insert_self, or_else,
}
use ai_knowledge_system.Workflows.Types.{
  Status, queued, failed, live, WorkflowExecution, WorkflowHandler, ExecutionSnapshot,
  CreateExecutionRequest, ExecutionEvent, ExecutionError,
}
use ai_knowledge_system.Workflows.Json.{JsonObject, empty, field, text}
use ai_knowledge_system.Workflows.Kernel.State.{
  Outcome, World, Kernel, returned, put, log_of, handler_allows_scope, require_execution, snapshot,
}
use ai_knowledge_system.Workflows.Kernel.Log.{emit, next_event, failing, transition_to_failure}
use ai_knowledge_system.Workflows.Kernel.Create.{
  no_handler, no_scope, created_data, fresh_execution, enter, admit, create_live, create_execution,
}
use ai_knowledge_system.Workflows.Wellformed.{Identity, identity_of}

-- A handler is registered for the workflow and allows the scope.
abbrev pub IsRegistered : (workflow_id scope_key : String) → Kernel → Type 0
IsRegistered workflow_id scope_key k =
    (handler : WorkflowHandler) × (lookup workflow_id k.handlers ≡ some handler)
    × (handler_allows_scope handler scope_key ≡ true)

-- What the new execution is and keeps: the UUID that is drawn next, the time and the request's fields.
abbrev pub requested_identity : World → CreateExecutionRequest → Kernel → Identity
requested_identity world request k = record {
  binding = record {
    execution_id = world.uuid k.drawn;
    workflow_id = request.workflow_id;
    scope_key = request.scope_key;
  };
  mode = live;
  created_at = world.now k.ticks;
  requested_by = request.requested_by;
  parent_execution_id = request.parent_execution_id;
  input = or_else request.input empty;
}

-- The call has returned a new execution, which the map holds, with one event and no provenance.
abbrev pub HasCreated :
    World → CreateExecutionRequest → Status → Kernel → Outcome ExecutionSnapshot → Type 0
HasCreated world request status k outcome =
    (s : ExecutionSnapshot) × (k' : Kernel) × (outcome ≡ returned s k')
    × (lookup s.execution.execution_id k'.executions ≡ some s.execution)
    × (identity_of s.execution ≡ requested_identity world request k)
    × (s.execution.status ≡ status)
    × ((event : ExecutionEvent) × (s.events ≡ event ∷ []))
    × (s.provenance_envelopes ≡ [])

module _ (world : World) (request : CreateExecutionRequest) (k : Kernel) where
  -- The one event of an execution that has none yet.
  first-HasCreated :
      (x : WorkflowExecution) (event_type : String) (payload : Option JsonObject) (k' : Kernel)
      (outcome : Outcome ExecutionSnapshot)
      → lookup x.execution_id k'.executions ≡ some x
      → lookup x.execution_id k'.events ≡ some []
      → lookup x.execution_id k'.provenance ≡ some []
      → identity_of x ≡ requested_identity world request k
      → outcome ≡ snapshot x.execution_id (emit world x event_type payload k')
      → HasCreated world request x.status k outcome
  unfolding snapshot require_execution emit
  first-HasCreated x event_type payload k' outcome found no_events no_evidence same e =
      let event = next_event world x event_type payload k' in
      (
        record { execution = x; events = event ∷ []; provenance_envelopes = [] },
        emit world x event_type payload k',
        ground (
          arith,
          e,
          found,
          no_events,
          no_evidence,
          lookup-insert_self x.execution_id (log_of x.execution_id k' ++ event ∷ []) k'.events,
        ),
        found,
        same,
        refl,
        (event, refl),
        refl,
      )

  abbrev entered : Kernel
  entered =
      enter world (fresh_execution world request k)
        (record k { ticks = suc k.ticks; drawn = suc k.drawn })

  refused-HasCreated :
      (error : ExecutionError) (outcome : Outcome ExecutionSnapshot)
      → outcome
        ≡ snapshot
            (fresh_execution world request k).execution_id
            (transition_to_failure world (fresh_execution world request k) error entered)
      → HasCreated world request failed k outcome
  unfolding transition_to_failure failing put enter fresh_execution
  refused-HasCreated error outcome e =
      let x = failing world (fresh_execution world request k) error entered in
      first-HasCreated x "workflow.execution.failed"
        (some (field "error_code" (text error.code) empty))
        (put x (record entered { ticks = suc entered.ticks })) outcome
        (lookup-insert_self x.execution_id x entered.executions)
        (lookup-insert_self x.execution_id [] k.events)
        (lookup-insert_self x.execution_id [] k.provenance) refl e

  -- A request for a LIVE execution always returns one, with the UUID that is drawn next, the
  -- request's fields, one event and no provenance: QUEUED if a handler is registered for its workflow
  -- and scope, and FAILED otherwise.
  pub create_execution_lem :
      request.mode ≡ live
      → (IsRegistered request.workflow_id request.scope_key k
          × HasCreated world request queued k (create_execution world request k))
        ⊎ ((¬ IsRegistered request.workflow_id request.scope_key k)
            × HasCreated world request failed k (create_execution world request k))
  unfolding create_execution create_live admit enter fresh_execution
  create_execution_lem mode = elim (Option-cases (lookup request.workflow_id k.handlers)) [
    | inl missing ↦ inr (
      λ (h, at, _). ground arith,
      refused-HasCreated (no_handler (fresh_execution world request k))
          (create_execution world request k) (ground arith),
    )
    | inr (handler, at) ↦ elim (Bool-cases (handler_allows_scope handler request.scope_key)) [
      | inl scope ↦ inl (
        (handler, at, scope),
        first-HasCreated (fresh_execution world request k) "workflow.execution.created"
            (some (created_data (fresh_execution world request k))) entered
            (create_execution world request k)
            (lookup-insert_self (world.uuid k.drawn) _ k.executions)
            (lookup-insert_self (world.uuid k.drawn) [] k.events)
            (lookup-insert_self (world.uuid k.drawn) [] k.provenance) refl (ground arith),
      )
      | inr out ↦ inr (
        λ (h, at', s). ground arith,
        refused-HasCreated (no_scope (fresh_execution world request k))
            (create_execution world request k) (ground arith),
      )
    ]
  ]
