-- ===== src/Tests/Kernel.antt =====
-- The theorems on the kernel's state, at concrete states.
use ai_knowledge_system.Common.{
  ℕ, str_eq, if◌then◌else◌, or_else, insert, ◌≡◌, refl, none, some, [], ◌∷◌, arith, lookup,
  lookup-insert_self, ◌↔◌,
}
use ai_knowledge_system.Workflows.Types.{
  queued, running, cancelled, WorkflowExecution, HandlerStatus, ExecutionSnapshot,
}
use ai_knowledge_system.Workflows.Kernel.State.{
  Outcome, Kernel, returned, log_of, evidence_of, require_execution, snapshot,
}
use ai_knowledge_system.Workflows.Kernel.Restore.{install, restore_execution}
use ai_knowledge_system.Workflows.Kernel.Handling.{apply_handler_result, handler_status}
use ai_knowledge_system.Workflows.Ensures.{Ensures}
use ai_knowledge_system.Workflows.Calls.{creates, starts, pauses, cancels, perform, settle}
use ai_knowledge_system.Workflows.Wellformed.{Wellformed, identity_of}
use ai_knowledge_system.Workflows.Wellformed.Restore.{IsPersisted, restore_execution_iff}
use ai_knowledge_system.Workflows.Wellformed.RoundTrip.{restore-snapshot}
use ai_knowledge_system.Workflows.Reach.{here, next, perform-Wellformed, Reach-Wellformed}
use ai_knowledge_system.Workflows.History.{Extends, stays, goes_on, Continues-Extends}
use ai_knowledge_system.Workflows.Transitions.Results.{
  HasFailed, HasTaken, apply_handler_result_lem, settle-Stands,
}
use ai_knowledge_system.Workflows.Kernel.Create.{new_kernel, register}
use ai_knowledge_system.Workflows.Kernel.Start.{starting, run_to_completion}
use ai_knowledge_system.Workflows.Kernel.Handling.{with_result}
use ai_knowledge_system.Workflows.Transitions.Runs.{Decreases}
use ai_knowledge_system.Workflows.Transitions.Termination.{IsOver, run_to_completion-IsOver}
use ai_knowledge_system.Tests.Data.{
  world, world-HasFreshUuids, handler, empty_kernel, request, result_of, execution_in, kernel_with,
  kernel_with-Wellformed,
}

abbrev worker : WorkflowExecution
worker = execution_in running none

abbrev at_work : Kernel
at_work = kernel_with worker

worker-stored : lookup "u" at_work.executions ≡ some worker
worker-stored = lookup-insert_self "u" worker empty_kernel.executions

perform-Wellformed_example : Wellformed world (perform world (pauses "u") at_work)
perform-Wellformed_example =
    perform-Wellformed world (pauses "u") at_work world-HasFreshUuids tt
      (kernel_with-Wellformed running none)

Reach-Wellformed_example :
    Wellformed world (perform world (starts "u") (perform world (creates request) empty_kernel))
Reach-Wellformed_example =
    Reach-Wellformed world (handler ∷ [])
      (perform world (starts "u") (perform world (creates request) empty_kernel))
      world-HasFreshUuids (next (next here (creates request) tt) (starts "u") tt)

Continues-Extends_example :
    Extends "u"
      (identity_of worker)
      (log_of "u" at_work)
      (evidence_of "u" at_work)
      (perform world (cancels "u") (perform world (pauses "u") at_work))
Continues-Extends_example =
    Continues-Extends world "u" worker at_work
      (perform world (cancels "u") (perform world (pauses "u") at_work)) world-HasFreshUuids
      (kernel_with-Wellformed running none) worker-stored
      (goes_on (goes_on stays (pauses "u") tt tt) (cancels "u") tt tt)

abbrev saved : ExecutionSnapshot
saved = record { execution = worker; events = []; provenance_envelopes = [] }

restore_execution_iff_example :
    (restore_execution saved empty_kernel ≡ returned saved (install saved empty_kernel))
    ↔ IsPersisted saved
restore_execution_iff_example = restore_execution_iff saved empty_kernel

worker-shown : snapshot "u" at_work ≡ returned saved at_work
unfolding snapshot require_execution
worker-shown = ground (
  arith,
  lookup-insert_self "u" worker empty_kernel.executions,
  lookup-insert_self "u" [] empty_kernel.events,
  lookup-insert_self "u" [] empty_kernel.provenance,
)

restore-snapshot_example :
    (restore_execution saved empty_kernel ≡ returned saved (install saved empty_kernel))
    × (snapshot "u" (install saved empty_kernel) ≡ returned saved (install saved empty_kernel))
restore-snapshot_example =
    restore-snapshot world "u" at_work at_work saved empty_kernel
      (kernel_with-Wellformed running none) worker-shown

apply_handler_result_lem_example :
    Ensures
      (HasFailed worker at_work)
      (HasTaken worker (result_of HandlerStatus.waiting) at_work)
      (apply_handler_result world worker (result_of HandlerStatus.waiting) at_work)
apply_handler_result_lem_example =
    apply_handler_result_lem world worker (result_of HandlerStatus.waiting) at_work

-- The execution was cancelled while its handler ran, and is RUNNING again.
abbrev cancelled_one : Kernel
cancelled_one = kernel_with (execution_in cancelled none)

settle-Stands_example :
    (s : ExecutionSnapshot) × (k' : Kernel) × (settle world "u"
        (result_of HandlerStatus.running)
        cancelled_one
      ≡ returned s k')
    × (lookup "u" k'.executions ≡ some s.execution)
    × (s.execution.status ≡ handler_status HandlerStatus.running)
settle-Stands_example =
    settle-Stands world "u" (execution_in cancelled none) (result_of HandlerStatus.running)
      cancelled_one (lookup-insert_self "u" (execution_in cancelled none) empty_kernel.executions)
      refl refl

-- The handler goes on once, from its start.
abbrev stages_left : WorkflowExecution → ℕ
stages_left x = if str_eq (or_else x.current_stage "") "start" then 1 else 0

abbrev waiting_one : Kernel
waiting_one = kernel_with (execution_in queued none)

registered : lookup "memory-audit" empty_kernel.handlers ≡ some handler
unfolding new_kernel register lookup insert
registered = refl

start-Decreases :
    Decreases stages_left
      (starting world (execution_in queued none) waiting_one)
      (handler.start (starting world (execution_in queued none) waiting_one))
unfolding starting with_result
start-Decreases _ = omega arith

run_to_completion-IsOver_example :
    (outcome : Outcome ExecutionSnapshot) × (run_to_completion world 2 "u" waiting_one
      ≡ some outcome)
    × IsOver outcome
unfolding starting
run_to_completion-IsOver_example =
    run_to_completion-IsOver world stages_left handler "u" (execution_in queued none) waiting_one 2
      (lookup-insert_self "u" (execution_in queued none) empty_kernel.executions) refl registered
      start-Decreases (λ _ impossible. cc) (omega arith)
