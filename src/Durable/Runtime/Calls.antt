-- ===== src/Durable/Runtime/Calls.antt =====
-- server/workflows/durable-runtime.ts: the methods of `DurableWorkflowRuntime` that go through
-- `mutate`, `runToCompletion`, `getProvenanceEnvelope`, and `spawnSelectedNextAction`. The loop of
-- `runToCompletion` is given fuel.
use ai_knowledge_system.Common.{
  ℕ, zero, suc, String, true, false, Option, none, some, [], ◌∷◌, if◌then◌else◌,
}
use ai_knowledge_system.Provenance.Types.{ReadProjection}
use ai_knowledge_system.Workflows.Json.{JsonObject}
use ai_knowledge_system.Workflows.Types.{running, ExecutionError, ExecutionSnapshot}
use ai_knowledge_system.Workflows.Kernel.State.{returned, thrown, is_status}
use ai_knowledge_system.Workflows.Kernel.Create.{get_execution, discard_execution}
use ai_knowledge_system.Workflows.Kernel.Restore.{restore_execution, get_provenance_envelope}
use ai_knowledge_system.Workflows.Kernel.Start
use ai_knowledge_system.Workflows.Kernel.Control.{pause, resume, cancel, fail, complete}
use ai_knowledge_system.Workflows.Kernel.NextSteps.{
  select_next_action, approve_next_action, reject_next_action, spawn_selected_next_action,
}
use ai_knowledge_system.Durable.Store.{Fault, failure, Attempt, done, broken}
use ai_knowledge_system.Durable.Snapshots.{converted, rejected, snapshot_to_durable_history}
use ai_knowledge_system.Durable.Runtime.{
  DurableWorkflowRuntime, Machine, then_do, in_kernel, is_persistence_error, persist_if_available,
  get_durable_execution, take_back, require_capability_id, mutate,
}

module _ (runtime : DurableWorkflowRuntime) where
  open runtime use {is_date, world, store}

  abbrev Act : Type 0 → Type 0
  Act A = Machine store.State → Attempt (Machine store.State) A

  unfoldable pub durable_start : String → Act ExecutionSnapshot
  durable_start id = mutate runtime id (Start.start world id)

  unfoldable pub durable_advance : String → Act ExecutionSnapshot
  durable_advance id = mutate runtime id (Start.advance world id)

  unfoldable pub durable_pause : String → Act ExecutionSnapshot
  durable_pause id = mutate runtime id (pause world id)

  unfoldable pub durable_resume : String → Act ExecutionSnapshot
  durable_resume id = mutate runtime id (resume world id)

  unfoldable pub durable_cancel : String → Act ExecutionSnapshot
  durable_cancel id = mutate runtime id (cancel world id)

  unfoldable pub durable_fail : String → ExecutionError → Act ExecutionSnapshot
  durable_fail id error = mutate runtime id (fail world id error)

  unfoldable pub durable_complete : String → JsonObject → Act ExecutionSnapshot
  durable_complete id output = mutate runtime id (complete world id output)

  unfoldable pub durable_select_next_action : (id command : String) → Act ExecutionSnapshot
  durable_select_next_action id command = mutate runtime id (select_next_action world id command)

  unfoldable pub durable_approve_next_action : String → Act ExecutionSnapshot
  durable_approve_next_action id = mutate runtime id (approve_next_action world id)

  unfoldable pub durable_reject_next_action : String → Act ExecutionSnapshot
  durable_reject_next_action id = mutate runtime id (reject_next_action world id)

  unfoldable pub durable_while_running :
      (fuel : ℕ)
      → String
      → (last : ExecutionSnapshot) → Machine store.State
      → Option (Attempt (Machine store.State) ExecutionSnapshot)
  durable_while_running zero id last t = none
  durable_while_running (suc fuel) id last t = elim (is_status running last.execution.status) [
    | false ↦ some (done last t)
    | true ↦ elim (durable_advance id t) [
      | done next t' ↦ durable_while_running fuel id next t'
      | broken fault t' ↦ some (broken fault t')
    ]
  ]

  unfoldable pub durable_run_to_completion :
      (fuel : ℕ)
      → String
      → Machine store.State
      → Option (Attempt (Machine store.State) ExecutionSnapshot)
  durable_run_to_completion fuel id t = elim (durable_start id t) [
    | done first t' ↦ durable_while_running fuel id first t'
    | broken fault t' ↦ some (broken fault t')
  ]

  unfoldable pub get_durable_provenance :
      (execution_id envelope_id : String) → (expected_scope : Option String) → Act ReadProjection
  get_durable_provenance execution_id envelope_id expected_scope t =
      then_do (get_durable_execution runtime execution_id t)
        λ saved t'. in_kernel (get_provenance_envelope execution_id envelope_id expected_scope) t'

  -- The `catch` of `spawnSelectedNextAction`, once the child is discarded.
  unfoldable pub undo_spawn : String → (before : ExecutionSnapshot) → Fault → Act ExecutionSnapshot
  undo_spawn id before fault t =
      if is_persistence_error fault
      then take_back runtime id before fault t
      else then_do (in_kernel (restore_execution before) t) λ answer t'. broken fault t'

  -- The parent and the child are persisted together.
  unfoldable pub persist_both :
      (parent : ExecutionSnapshot)
      → (capability_id : String) → (child : ExecutionSnapshot) → (child_capability : String)
      → Act (Unit {0})
  persist_both parent capability_id child child_capability t =
      elim (snapshot_to_durable_history is_date parent capability_id) [
        | rejected fault ↦ broken fault t
        | converted first ↦ elim (snapshot_to_durable_history is_date child child_capability) [
          | rejected fault ↦ broken fault t
          | converted second ↦ persist_if_available runtime (first ∷ second ∷ []) t
        ]
      ]

  -- What follows the spawn in the `try` block.
  unfoldable pub persist_spawn :
      String → (capability_id : String) → (child : ExecutionSnapshot) → Act (Unit {0})
  persist_spawn id capability_id child t = then_do (in_kernel (get_execution id) t) λ parent t1.
      then_do (require_capability_id runtime child.execution.workflow_id t1)
        λ child_capability t2. persist_both parent capability_id child child_capability t2

  unfoldable pub durable_spawn : String → JsonObject → Act ExecutionSnapshot
  durable_spawn id input t = then_do (get_durable_execution runtime id t) λ before t1.
      then_do (require_capability_id runtime before.execution.workflow_id t1) λ capability_id t2.
        elim (spawn_selected_next_action world id input t2.kernel) [
          | thrown error k ↦ undo_spawn id before (failure error) (record t2 { kernel = k })
          | returned child k ↦
              elim (persist_spawn id capability_id child (record t2 { kernel = k })) [
                | done u t3 ↦ done child t3
                | broken fault t3 ↦ undo_spawn id before fault (record t3 {
                  kernel = discard_execution child.execution.execution_id t3.kernel;
                })
              ]
        ]
