-- ===== src/Workflows/Transitions/Control.antt =====
-- server/workflows/kernel.ts: when `pause`, `resume`, `cancel` and `fail` are allowed, and what they do.
use ai_knowledge_system.Common.{
  suc, String, ◌≡◌, refl, sym, inl, inr, true, false, some, none, [], ◌∷◌, arith, Bool-cases,
  Option-cases, lookup, any,
}
use ai_knowledge_system.Workflows.Json.{JsonObject, empty, field, text}
use ai_knowledge_system.Workflows.Types.{
  Status, queued, running, waiting, approval_required, paused, completed, failed, cancelled,
  WorkflowExecution, WorkflowHandler, ExecutionError,
}
use ai_knowledge_system.Workflows.Kernel.State.{
  World, is_status, Kernel, returned, require_execution, require_handler, assert_status,
  handler_allows_scope,
}
use ai_knowledge_system.Workflows.Kernel.Log.{failing, transition_to_failure}
use ai_knowledge_system.Workflows.Kernel.Control.{
  assert_pausable, assert_cancellable, assert_not_terminal, pause, resume, cancel, fail, complete,
  cancelling, controllable_statuses, terminal_statuses,
}
use ai_knowledge_system.Workflows.Kernel.Start.{begin_start, begin_advance, start, advance}
use ai_knowledge_system.Workflows.Transitions.{
  Moves, Refuses, IsOneOf, Answers, IsOneOf-cases, announced_lem, Shows,
}

abbrev pub IsPausable : WorkflowExecution → Kernel → Type 0
IsPausable x k =
    (handler : WorkflowHandler) × (lookup x.workflow_id k.handlers ≡ some handler)
    × (handler_allows_scope handler x.scope_key ≡ true)
    × (handler.supports_pause ≡ true)
    × IsOneOf x.status (running ∷ waiting ∷ [])

-- The handler, if one is registered, supports cancellation.
abbrev pub IsCancellable : WorkflowExecution → Kernel → Type 0
IsCancellable x k =
    ((handler : WorkflowHandler)
      → lookup x.workflow_id k.handlers ≡ some handler
      → handler.supports_cancel ≡ true)
    × IsOneOf x.status controllable_statuses

terminal-is_status :
    (status : Status)
    → IsOneOf status terminal_statuses
    → (is_status queued status ≡ false)
      × (is_status running status ≡ false)
      × (is_status waiting status ≡ false)
      × (is_status approval_required status ≡ false)
      × (is_status paused status ≡ false)
      × (any (λ s. is_status s status) terminal_statuses ≡ true)
terminal-is_status completed one = (refl, refl, refl, refl, refl, refl)
terminal-is_status failed one = (refl, refl, refl, refl, refl, refl)
terminal-is_status cancelled one = (refl, refl, refl, refl, refl, refl)
terminal-is_status queued one = absurd (ground (arith, one))
terminal-is_status running one = absurd (ground (arith, one))
terminal-is_status waiting one = absurd (ground (arith, one))
terminal-is_status approval_required one = absurd (ground (arith, one))
terminal-is_status paused one = absurd (ground (arith, one))

module _ (world : World) (id : String) (x : WorkflowExecution) (k : Kernel) where
  -- `pause` moves an execution, stored under its id, to PAUSED, alters nothing else of it and logs it exactly when a handler is registered for its
  -- workflow and scope and supports pausing, and it is RUNNING or WAITING; otherwise it throws and
  -- changes nothing.
  pub pause-Answers :
      lookup id k.executions ≡ some x
      → x.execution_id ≡ id
      → Answers
          (IsPausable x k)
          id
          k
          (record x { status = paused })
          "workflow.execution.paused"
          (pause world id k)
  unfolding pause require_execution require_handler assert_pausable assert_status
  pause-Answers found keyed = elim (Option-cases (lookup x.workflow_id k.handlers)) [
    | inl missing ↦ inr (λ (h, at, _, _, _). ground arith, (ground arith, ground arith))
    | inr (handler, at) ↦ elim (Bool-cases (handler_allows_scope handler x.scope_key)) [
      | inr out ↦ inr (λ (h, at', s, _, _). ground arith, (ground arith, ground arith))
      | inl scope ↦ elim (Bool-cases handler.supports_pause) [
        | inr lacks ↦ inr (λ (h, at', _, s, _). ground arith, (ground arith, ground arith))
        | inl supports ↦ elim (IsOneOf-cases x.status (running ∷ waiting ∷ [])) [
          | inr (none_of, forbidden) ↦
              inr (λ (h, at', _, _, one). none_of one, (ground arith, ground arith))
          | inl (one, allowed) ↦ inl (
              announced_lem (IsPausable x k) world id k (record x { status = paused })
                "workflow.execution.paused" none _ (pause world id k)
                (handler, at, scope, supports, one) keyed refl (ground arith))
        ]
      ]
    ]
  ]

  -- `resume` moves an execution, stored under its id, to RUNNING, alters nothing else of it and logs it exactly when it is PAUSED; otherwise it throws
  -- and changes nothing.
  pub resume-Answers :
      lookup id k.executions ≡ some x
      → x.execution_id ≡ id
      → Answers
          (x.status ≡ paused)
          id
          k
          (record x { status = running })
          "workflow.execution.resumed"
          (resume world id k)
  unfolding resume require_execution assert_status
  resume-Answers found keyed = elim (IsOneOf-cases x.status (paused ∷ [])) [
    | inr (none_of, forbidden) ↦ inr (λ s. none_of (inl (sym s)), (ground arith, ground arith))
    | inl (inl is_paused, allowed) ↦ inl (
        announced_lem (x.status ≡ paused) world id k (record x { status = running })
          "workflow.execution.resumed" none _ (resume world id k) (sym is_paused) keyed refl
          (ground arith))
    | inl (inr impossible, _) ↦ absurd impossible
  ]

  -- The execution that `cancel` leaves: dated, and without next actions.
  abbrev pub cancelled_form : WorkflowExecution
  cancelled_form = record x {
    status = cancelled;
    completed_at = some (world.now k.ticks);
    next_action_envelope = none;
  }

  -- The execution that `fail` leaves: with the error, dated, and without next actions.
  abbrev pub failed_form : ExecutionError → WorkflowExecution
  failed_form error = record x {
    status = failed;
    error = some error;
    completed_at = some (world.now k.ticks);
    next_action_envelope = none;
  }

  cancelled_lem :
      IsCancellable x k
      → lookup id k.executions ≡ some x
      → x.execution_id ≡ id
      → assert_cancellable x k ≡ returned tt k
      → any (λ a. is_status a x.status) controllable_statuses ≡ true
      → IsCancellable x k
        × Moves id k cancelled "workflow.execution.cancelled" (cancel world id k)
        × Shows (λ y. y ≡ cancelled_form) (cancel world id k)
  unfolding cancel cancelling require_execution assert_status
  cancelled_lem may found keyed passes allowed =
      announced_lem (IsCancellable x k) world id (record k { ticks = suc k.ticks })
        (cancelling world x k) "workflow.execution.cancelled" none _ (cancel world id k) may keyed
        refl (ground (arith, passes))

  -- `cancel` moves an execution, stored under its id, to CANCELLED, with the time and without next actions, and logs it exactly when it is in no terminal status and
  -- its handler, if it has one, supports cancellation; otherwise it throws and changes nothing.
  pub cancel-Answers :
      lookup id k.executions ≡ some x
      → x.execution_id ≡ id
      → Answers
          (IsCancellable x k)
          id
          k
          cancelled_form
          "workflow.execution.cancelled"
          (cancel world id k)
  unfolding cancel require_execution assert_cancellable assert_status
  cancel-Answers found keyed = elim (IsOneOf-cases x.status controllable_statuses) [
    | inr (none_of, forbidden) ↦ inr (λ (_, one). none_of one, (ground arith, ground arith))
    | inl (one, allowed) ↦ elim (Option-cases (lookup x.workflow_id k.handlers)) [
      | inl missing ↦
          inl (cancelled_lem ((λ h at. ground arith), one) found keyed (ground arith) allowed)
      | inr (handler, at) ↦ elim (Bool-cases handler.supports_cancel) [
        | inr lacks ↦ inr (
          λ (supports, _). let s = supports handler at in ground arith,
          (ground arith, ground arith),
        )
        | inl supports ↦
            inl (cancelled_lem ((λ h at'. ground arith), one) found keyed (ground arith) allowed)
      ]
    ]
  ]

  -- `fail` moves an execution, stored under its id, to FAILED, with the error, the time and without next actions, and logs it exactly when it is in no terminal status;
  -- otherwise it throws and changes nothing.
  pub fail-Answers :
      (error : ExecutionError)
      → lookup id k.executions ≡ some x
      → x.execution_id ≡ id
      → Answers
          (¬ IsOneOf x.status terminal_statuses)
          id
          k
          (failed_form error)
          "workflow.execution.failed"
          (fail world id error k)
  unfolding fail require_execution assert_not_terminal transition_to_failure failing
  fail-Answers error found keyed = elim (IsOneOf-cases x.status terminal_statuses) [
    | inl (one, over) ↦ inr (λ live. live one, (ground arith, ground arith))
    | inr (none_of, going) ↦ inl (
        announced_lem (¬ IsOneOf x.status terminal_statuses) world id
          (record k { ticks = suc k.ticks }) (failing world x error k) "workflow.execution.failed"
          (some (field "error_code" (text error.code) empty)) _ (fail world id error k) none_of
          keyed refl (ground arith))
  ]

  -- An execution in a terminal status is refused by `start`, `advance`, `pause`, `resume`, `cancel`,
  -- `fail` and `complete`: each throws and changes nothing.
  pub terminal-Refuses :
      (error : ExecutionError) (output : JsonObject)
      → lookup id k.executions ≡ some x
      → IsOneOf x.status terminal_statuses
      → Refuses k (start world id k)
        × Refuses k (advance world id k)
        × Refuses k (pause world id k)
        × Refuses k (resume world id k)
        × Refuses k (cancel world id k)
        × Refuses k (fail world id error k)
        × Refuses k (complete world id output k)
  unfolding start advance begin_start begin_advance pause resume cancel fail complete
      require_execution require_handler assert_pausable assert_cancellable assert_not_terminal
      assert_status
  terminal-Refuses error output found one =
      let over = terminal-is_status x.status one in
      (
        (ground arith, ground arith),
        (ground arith, ground arith),
        (ground arith, ground arith),
        (ground arith, ground arith),
        (ground arith, ground arith),
        (ground arith, ground arith),
        (ground arith, ground arith),
      )
