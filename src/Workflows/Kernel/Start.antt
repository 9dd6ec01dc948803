-- ===== src/Workflows/Kernel/Start.antt =====
-- server/workflows/kernel.ts: `start`, `advance` and `runToCompletion`. What `start` and `advance`
-- do before they wait for the handler is a definition of its own, since other methods may be called
-- while they wait; the handler's run and what follows it take the execution as it then is.
use ai_knowledge_system.Common.{ℕ, zero, suc, String, true, false, Option, none, some, [], ◌∷◌}
use ai_knowledge_system.Workflows.Types.{Status, queued, WorkflowExecution, ExecutionSnapshot, Run}
use ai_knowledge_system.Workflows.Kernel.State.{
  World, Kernel, Outcome, returned, thrown, M, ◌>>=◌, ◌>>◌, is_status, put, require_execution,
  require_handler, assert_status,
}
use ai_knowledge_system.Workflows.Kernel.Log.{emit}
use ai_knowledge_system.Workflows.Kernel.Handling.{invoke, apply_handler_result}

module _ (world : World) where
  unfoldable pub starting : WorkflowExecution → Kernel → WorkflowExecution
  starting execution k = record execution {
    status = Status.running;
    started_at = some (world.now k.ticks);
    current_stage = some "start";
  }

  -- `start` up to its `await`.
  unfoldable pub begin_start : String → M (WorkflowExecution × Run)
  begin_start id = do
    execution ← require_execution id
    assert_status execution (queued ∷ []) "start"
    handler ← require_handler execution
    λ k.
        let execution' = starting execution k in
        returned (execution', handler.start execution')
          (emit world execution' "workflow.execution.started" none
            (put execution' (record k { ticks = suc k.ticks })))

  -- `advance` up to its `await`.
  unfoldable pub begin_advance : String → M (WorkflowExecution × Run)
  begin_advance id = do
    execution ← require_execution id
    assert_status execution (Status.running ∷ []) "advance"
    handler ← require_handler execution
    λ k. returned (execution, handler.advance execution) k

  unfoldable pub finish : WorkflowExecution × Run → M ExecutionSnapshot
  finish (execution, run) = do
    result ← invoke world execution run
    apply_handler_result world execution result

  unfoldable pub start : String → M ExecutionSnapshot
  start id = begin_start id >>= finish

  unfoldable pub advance : String → M ExecutionSnapshot
  advance id = begin_advance id >>= finish

  -- The loop of `runToCompletion`, on fuel; `none` means that the fuel ran out.
  unfoldable pub advance_while_running :
      ℕ → String → ExecutionSnapshot → Kernel → Option (Outcome ExecutionSnapshot)
  advance_while_running zero id last k = none
  advance_while_running (suc fuel) id last k =
      elim (is_status Status.running last.execution.status) [
        | false ↦ some (returned last k)
        | true ↦ elim (advance id k) [
          | returned next k' ↦ advance_while_running fuel id next k'
          | thrown e k' ↦ some (thrown e k')
        ]
      ]

  unfoldable pub run_to_completion : ℕ → String → Kernel → Option (Outcome ExecutionSnapshot)
  run_to_completion fuel id k = elim (start id k) [
    | returned first k' ↦ advance_while_running fuel id first k'
    | thrown e k' ↦ some (thrown e k')
  ]
