-- ===== src/Workflows/Transitions/Progress.antt =====
-- server/workflows/kernel.ts: a handler that makes progress makes the execution smaller, call by call.
use ai_knowledge_system.Common.{
  ℕ, ◌<◌, String, ◌≡◌, refl, ap, ◌∙◌, inl, inr, true, false, some, List, [], arith, or_else, lookup,
}
use ai_knowledge_system.Provenance.Types.{Envelope}
use ai_knowledge_system.Workflows.Types.{
  Status, HandlerStatus, WorkflowExecution, ExecutionSnapshot, HandlerResult, WorkflowHandler, Run,
  returns,
}
use ai_knowledge_system.Workflows.Ensures.{Ensures, Outcome-cases, bind-Ensures}
use ai_knowledge_system.Workflows.Kernel.State.{
  World, Kernel, returned, put, is_status, require_execution, require_handler, assert_status,
  snapshot,
}
use ai_knowledge_system.Workflows.Kernel.Log.{emit}
use ai_knowledge_system.Workflows.Kernel.Handling.{
  handler_status, give_up, prepare_all, append_all, apply_prepared, with_result, interpret, invoke,
  apply_handler_result,
}
use ai_knowledge_system.Workflows.Kernel.Start.{begin_advance, finish, advance}
use ai_knowledge_system.Workflows.Transitions.Recording.{
  Ensures-both, apply_prepared-Stands, recorded-Stands,
}
use ai_knowledge_system.Workflows.Transitions.Results.{catch-Ensures, snapshot-Stands}
use ai_knowledge_system.Workflows.Transitions.Runs.{
  Decreases, SameWork, interpret-Decreases, prepare_all-Keeping, append_all-handlers,
}

-- If the execution is still RUNNING, it is the one that the result made, and the map holds it.
abbrev GoesOn : WorkflowExecution → HandlerResult → Kernel → ExecutionSnapshot → Kernel → Type 0
GoesOn x result k s k' =
    is_status Status.running s.execution.status ≡ true
    → (k'.handlers ≡ k.handlers)
      × (lookup x.execution_id k'.executions ≡ some s.execution)
      × (s.execution ≡ with_result x result)
      × (result.status ≡ HandlerStatus.running)

abbrev pub IsAny : Kernel → Type 0
IsAny k = Unit

status_differs :
    (x : WorkflowExecution) (result : HandlerResult) (k : Kernel) (s : ExecutionSnapshot)
    (k' : Kernel) (status : HandlerStatus)
    → result.status ≡ status
    → s.execution.status ≡ handler_status result.status
    → is_status Status.running (handler_status status) ≡ false
    → GoesOn x result k s k'
status_differs x result k s k' status e same other = λ running. absurd (
    differs (s.execution.status) (handler_status status) (same ∙ ap handler_status e) other running)
  where
    differs :
        (a b : Status)
        → a ≡ b
        → is_status Status.running b ≡ false
        → is_status Status.running a ≡ true
        → ⊥
    differs a b e f g = let h = ap (λ c. is_status Status.running c) e in ground arith

running-GoesOn :
    (world : World) (x : WorkflowExecution) (result : HandlerResult) (prepared : List Envelope)
    (k k1 : Kernel)
    → result.status ≡ HandlerStatus.running
    → k1.handlers ≡ k.handlers
    → Ensures IsAny
        (GoesOn x result k)
        (snapshot x.execution_id (apply_prepared world HandlerStatus.running x result prepared k1))
unfolding apply_prepared with_result
running-GoesOn world x result prepared k k1 e same =
    let y = with_result x result in
    let k' =
      emit world y result.event_type result.event_data (append_all world y prepared (put y k1)) in
    let found = (recorded-Stands world y result.event_type result.event_data prepared k1).0 in
    let (s, shown, held, _) =
      snapshot-Stands x.execution_id (handler_status result.status) k' (y, found, refl) in
    let is_y : s.execution ≡ y = ground arith in
    rw shown (λ _.
      (unfold emit put in (append_all-handlers world y prepared (put y k1) ∙ same), held, is_y, e))

applied-GoesOn :
    (world : World) (x : WorkflowExecution) (result : HandlerResult) (prepared : List Envelope)
    (k k1 : Kernel) (status : HandlerStatus)
    → result.status ≡ status
    → k1.handlers ≡ k.handlers
    → Ensures IsAny
        (GoesOn x result k)
        (snapshot x.execution_id (apply_prepared world status x result prepared k1))
applied-GoesOn world x result prepared k k1 HandlerStatus.running e same =
    running-GoesOn world x result prepared k k1 e same
applied-GoesOn world x result prepared k k1 HandlerStatus.waiting e same =
    let k' = apply_prepared world HandlerStatus.waiting x result prepared k1 in
    let (s, shown, _, status) =
      snapshot-Stands x.execution_id (handler_status result.status) k'
        (apply_prepared-Stands world x result prepared k1 HandlerStatus.waiting).0 in
    rw shown (status_differs x result k s k' HandlerStatus.waiting e status refl)
applied-GoesOn world x result prepared k k1 HandlerStatus.approval_required e same =
    let k' = apply_prepared world HandlerStatus.approval_required x result prepared k1 in
    let (s, shown, _, status) =
      snapshot-Stands x.execution_id (handler_status result.status) k'
        (apply_prepared-Stands world x result prepared k1 HandlerStatus.approval_required).0 in
    rw shown (status_differs x result k s k' HandlerStatus.approval_required e status refl)
applied-GoesOn world x result prepared k k1 HandlerStatus.completed e same =
    let k' = apply_prepared world HandlerStatus.completed x result prepared k1 in
    let (s, shown, _, status) =
      snapshot-Stands x.execution_id (handler_status result.status) k'
        (apply_prepared-Stands world x result prepared k1 HandlerStatus.completed).0 in
    rw shown (status_differs x result k s k' HandlerStatus.completed e status refl)

apply_handler_result-GoesOn :
    (world : World) (x : WorkflowExecution) (result : HandlerResult) (k : Kernel)
    → Ensures IsAny (GoesOn x result k) (apply_handler_result world x result k)
unfolding apply_handler_result
apply_handler_result-GoesOn world x result k =
    bind-Ensures IsAny (λ _. SameWork k) (GoesOn x result k) _ _
      (catch-Ensures IsAny (SameWork k) (λ _. SameWork k)
        (prepare_all world x (or_else result.provenance_emissions []) k) (give_up world x)
        (prepare_all-Keeping world x (or_else result.provenance_emissions []) k k (refl, refl))
        λ e k' _. unfold give_up in tt)
      λ prepared k' same. applied-GoesOn world x result prepared k k' result.status refl same.1

-- The map holds the execution under its id, and its handler is registered.
pub record IsReady (handler : WorkflowHandler) (id : String) (x : WorkflowExecution) (k : Kernel)
    : Type 0 where
  pub found : lookup id k.executions ≡ some x
  pub keyed : x.execution_id ≡ id
  pub handled : lookup x.workflow_id k.handlers ≡ some handler

-- What an advance that returns leaves: the execution has stopped, or it is ready and smaller.
abbrev pub Progresses :
    (WorkflowExecution → ℕ)
    → WorkflowHandler
    → String
    → WorkflowExecution
    → ExecutionSnapshot
    → Kernel
    → Type 0
Progresses size handler id x s k =
    is_status Status.running s.execution.status ≡ true
    → IsReady handler id s.execution k × (size s.execution < size x)

with_result-same :
    (x : WorkflowExecution) (result : HandlerResult)
    → ((with_result x result).execution_id ≡ x.execution_id)
      × ((with_result x result).workflow_id ≡ x.workflow_id)
unfolding with_result
with_result-same x result = (refl, refl)

module _ (world : World) (size : WorkflowExecution → ℕ) (handler : WorkflowHandler)
    (id : String) where
  taken-Progresses :
      (x : WorkflowExecution) (result : HandlerResult) (k k1 k' : Kernel) (s : ExecutionSnapshot)
      → x.execution_id ≡ id
      → lookup x.workflow_id k.handlers ≡ some handler
      → k1.handlers ≡ k.handlers
      → Decreases size x (returns result)
      → GoesOn x result k1 s k'
      → Progresses size handler id x s k'
  taken-Progresses x result k k1 k' s keyed handled same smaller goes running =
      let (handlers, found, made, going) = goes running in
      let (same_id, same_workflow) = with_result-same x result in
      (
        record {
          found = ground (arith, found, keyed);
          keyed = ground (arith, made, same_id, keyed);
          handled = ground (arith, made, same_workflow, handled, handlers, same);
        },
        rw made (smaller going),
      )

  pub finish-Progresses :
      (x : WorkflowExecution) (run : Run) (k : Kernel)
      → x.execution_id ≡ id
      → lookup x.workflow_id k.handlers ≡ some handler
      → Decreases size x run
      → Ensures IsAny (Progresses size handler id x) (finish world (x, run) k)
  unfolding finish invoke
  finish-Progresses x run k keyed handled smaller =
      bind-Ensures IsAny (λ result k'. SameWork k k' × Decreases size x (returns result))
        (Progresses size handler id x) (invoke world x run k) _
        (catch-Ensures IsAny (SameWork k)
          (λ result k'. SameWork k k' × Decreases size x (returns result)) (interpret world x run k)
          (give_up world x) (interpret-Decreases world x size run k k (refl, refl) smaller)
          λ e k' _. unfold give_up in tt)
        λ result k1 (same, less).
          Ensures-both IsAny IsAny (GoesOn x result k1) (Progresses size handler id x)
            (apply_handler_result world x result k1) (λ _ _. tt)
            (λ s k' goes. taken-Progresses x result k k1 k' s keyed handled same.1 less goes)
            (apply_handler_result-GoesOn world x result k1)

  begin_advance-returned :
      (x : WorkflowExecution) (k k' : Kernel) (begun : WorkflowExecution × Run)
      → lookup id k.executions ≡ some x
      → lookup x.workflow_id k.handlers ≡ some handler
      → begin_advance world id k ≡ returned begun k'
      → (begun ≡ (x, handler.advance x)) × (k' ≡ k)
  unfolding begin_advance require_execution require_handler assert_status
  begin_advance-returned x k k' begun found handled e = (ground arith, ground arith)

  pub advance-Progresses :
      (x : WorkflowExecution) (k : Kernel)
      → IsReady handler id x k
      → Decreases size x (handler.advance x)
      → Ensures IsAny (Progresses size handler id x) (advance world id k)
  unfolding advance
  advance-Progresses x k ready smaller = elim (Outcome-cases (begin_advance world id k)) [
    | inr (failure, k', e) ↦ rw (e, Ensures, advance) tt
    | inl (begun, k', e) ↦
        let (is_x, same) = begin_advance-returned x k k' begun ready.found ready.handled e in
        rw (e, is_x, same, Ensures, advance)
          (finish-Progresses x (handler.advance x) k ready.keyed ready.handled smaller)
  ]
