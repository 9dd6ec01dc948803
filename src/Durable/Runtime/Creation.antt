-- ===== src/Durable/Runtime/Creation.antt =====
-- server/workflows/durable-runtime.ts: what `createExecution` ends in.
use ai_knowledge_system.Common.{
  String, ◌≡◌, ap, ◌⊎◌, inl, inr, none, some, arith, truthy, eq_iff, lookup, lookup-remove,
}
use ai_knowledge_system.Workflows.Types.{live, ExecutionSnapshot, CreateExecutionRequest}
use ai_knowledge_system.Workflows.Kernel.State.{Kernel, returned}
use ai_knowledge_system.Workflows.Kernel.Create.{create_execution, discard_execution}
use ai_knowledge_system.Durable.Store.{Fault, Attempt, done, broken}
use ai_knowledge_system.Durable.Runtime.{
  DurableWorkflowRuntime, Machine, persistence_failure, persist_snapshot,
  require_capability_for_live_handler, create_durable_execution,
}
use ai_knowledge_system.Durable.Runtime.Atomic.{machine_after, persist-kernel}
use ai_knowledge_system.Durable.Runtime.Persisted.{
  Attempt-cases, IsStored, IsNotStored, persist_snapshot-IsStored, persist_snapshot-IsNotStored,
}

module _ (runtime : DurableWorkflowRuntime) (request : CreateExecutionRequest)
    (t : Machine runtime.store.State) where
  abbrev State : Type 0
  State = Machine runtime.store.State

  -- A new execution is stored, or it is gone.
  abbrev pub IsStoredOrGone : ExecutionSnapshot → Kernel → String → Type 0
  IsStoredOrGone saved k capability_id =
      let created : State = record t { kernel = k } in
      let id = saved.execution.execution_id in
      ((t' : State) × IsStored runtime saved capability_id created t'
        × (create_durable_execution runtime request t ≡ done saved t')
        × (t'.kernel ≡ k))
      ⊎ ((fault : Fault) × (refused : State) × (t' : State) × IsNotStored runtime saved
            capability_id created fault refused
          × (create_durable_execution runtime request t ≡ broken (persistence_failure fault) t')
          × (t'.kernel ≡ discard_execution id k)
          × (lookup id t'.kernel.executions ≡ none))

  discarded : (id : String) (k : Kernel) → lookup id (discard_execution id k).executions ≡ none
  unfolding discard_execution
  discarded id k = ground (arith, lookup-remove id id k.executions, eq_iff id id)

  create-done :
      (saved : ExecutionSnapshot) (k : Kernel) (capability_id : String) (t' : State)
      → request.mode ≡ live
      → truthy (runtime.resolve_capability_id request.workflow_id) ≡ some capability_id
      → create_execution runtime.world request t.kernel ≡ returned saved k
      → persist_snapshot runtime saved capability_id (record t { kernel = k }) ≡ done tt t'
      → create_durable_execution runtime request t ≡ done saved t'
  unfolding create_durable_execution require_capability_for_live_handler
  create-done saved k capability_id t' mode capability made e = ground arith

  create-broken :
      (saved : ExecutionSnapshot) (k : Kernel) (capability_id : String) (fault : Fault) (t' : State)
      → request.mode ≡ live
      → truthy (runtime.resolve_capability_id request.workflow_id) ≡ some capability_id
      → create_execution runtime.world request t.kernel ≡ returned saved k
      → persist_snapshot runtime saved capability_id (record t { kernel = k }) ≡ broken fault t'
      → create_durable_execution runtime request t
        ≡ broken
            (persistence_failure fault)
            (record t' { kernel = discard_execution saved.execution.execution_id t'.kernel })
  unfolding create_durable_execution require_capability_for_live_handler
  create-broken saved k capability_id fault t' mode capability made e = ground arith

  kept :
      (saved : ExecutionSnapshot) (k : Kernel) (capability_id : String)
      (outcome : Attempt State (Unit {0}))
      → persist_snapshot runtime saved capability_id (record t { kernel = k }) ≡ outcome
      → (machine_after outcome).kernel ≡ k
  kept saved k capability_id outcome e =
      rw (← e) (persist-kernel runtime saved capability_id (record t { kernel = k }))

  -- A LIVE execution whose workflow has a capability, once the kernel has created it, is returned, the
  -- kernel as creation left it, and the store has taken its bundle, or nothing is stored as the D1
  -- binding is missing. Or the bundle could not be made, or the store is unavailable for another reason,
  -- or the checks or the store have thrown: the persistence failure is thrown, and the kernel does not
  -- hold the execution.
  pub create_durable-Ends :
      (saved : ExecutionSnapshot) (k : Kernel) (capability_id : String)
      → request.mode ≡ live
      → truthy (runtime.resolve_capability_id request.workflow_id) ≡ some capability_id
      → create_execution runtime.world request t.kernel ≡ returned saved k
      → IsStoredOrGone saved k capability_id
  create_durable-Ends saved k capability_id mode capability made =
      elim (Attempt-cases
        (persist_snapshot runtime saved capability_id (record t { kernel = k }))) [
          | inl (u, t', e) ↦ inl (
            t',
            persist_snapshot-IsStored runtime saved capability_id (record t { kernel = k }) t' e,
            create-done saved k capability_id t' mode capability made e,
            kept saved k capability_id (done tt t') e,
          )
          | inr (fault, refused, e) ↦
              let id = saved.execution.execution_id in
              let same = kept saved k capability_id (broken fault refused) e in
              inr (
                fault,
                refused,
                record refused { kernel = discard_execution id refused.kernel },
                persist_snapshot-IsNotStored runtime saved capability_id (record t { kernel = k })
                    refused fault e,
                create-broken saved k capability_id fault refused mode capability made e,
                ap (discard_execution id) same,
                discarded id refused.kernel,
              )
        ]
