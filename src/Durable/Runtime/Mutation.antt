-- ===== src/Durable/Runtime/Mutation.antt =====
-- server/workflows/durable-runtime.ts: what an operation of the kernel ends in when it goes through
-- `mutate`.
use ai_knowledge_system.Common.{String, true, false, ◌≡◌, refl, ◌⊎◌, some, truthy, str_eq}
use ai_knowledge_system.Workflows.Types.{ExecutionSnapshot, Failure}
use ai_knowledge_system.Workflows.Kernel.State.{Kernel, Outcome, returned, thrown, M, after}
use ai_knowledge_system.Workflows.Kernel.Create.{get_execution}
use ai_knowledge_system.Durable.Store.{Fault, failure, Attempt, done, broken}
use ai_knowledge_system.Durable.Runtime.{
  DurableWorkflowRuntime, Machine, persistence_failure, get_durable_execution,
  require_capability_id, settle_outcome, mutate,
}
use ai_knowledge_system.Durable.Runtime.Persisted.{IsStored, IsNotStored}
use ai_knowledge_system.Durable.Runtime.Atomic.{IsGivenBack}

module _ (runtime : DurableWorkflowRuntime) (id : String) (before : ExecutionSnapshot)
    (capability_id : String) where
  abbrev State : Type 0
  State = Machine runtime.store.State

  -- The operation's result and the kernel `k` that it left; the result is stored.
  abbrev IsCommitted :
      State → Outcome ExecutionSnapshot → ExecutionSnapshot → Kernel → State → Type 0
  IsCommitted t outcome answer k t' =
      (outcome ≡ returned answer k)
      × IsStored runtime answer capability_id (record t { kernel = k }) t'

  -- What a failed operation has changed of the execution is stored.
  abbrev IsRecorded : State → State → Type 0
  IsRecorded t t' =
      (current : ExecutionSnapshot) × (k : Kernel) × (get_execution id t.kernel
        ≡ returned current k)
      × (str_eq (runtime.stringify current) (runtime.stringify before) ≡ false)
      × IsStored runtime current capability_id t t'

  -- It has changed nothing of it, or it is not there.
  abbrev HasNothingToRecord : State → Type 0
  HasNothingToRecord t =
      (current : ExecutionSnapshot) (k : Kernel)
      → get_execution id t.kernel ≡ returned current k
      → str_eq (runtime.stringify current) (runtime.stringify before) ≡ true

  -- The operation's own error and the kernel `k` that it left.
  abbrev HasFailed : State → Outcome ExecutionSnapshot → Fault → Kernel → State → Type 0
  HasFailed t outcome fault k t' =
      (error : Failure) × (outcome ≡ thrown error k)
      × (fault ≡ failure error)
      × (((record t { kernel = k } ≡ t') × HasNothingToRecord t')
          ⊎ IsRecorded (record t { kernel = k }) t')

  -- The store refused, and the kernel has got the earlier state back.
  abbrev IsTakenBack : State → Outcome ExecutionSnapshot → Fault → State → Type 0
  IsTakenBack t outcome fault t' =
      (cause : Fault) × (saved : ExecutionSnapshot) × (refused : State) × IsNotStored runtime saved
        capability_id (record t { kernel = after outcome }) cause refused
      × (refused.kernel ≡ after outcome)
      × (fault ≡ persistence_failure cause)
      × IsGivenBack runtime id before refused t'.kernel

  abbrev pub Ends : State → Outcome ExecutionSnapshot → Attempt State ExecutionSnapshot → Type 0
  Ends t outcome (done answer t') = IsCommitted t outcome answer t'.kernel t'
  Ends t outcome (broken fault t') =
      HasFailed t outcome fault t'.kernel t' ⊎ IsTakenBack t outcome fault t'

  pub mutate_found :
      (operation : M ExecutionSnapshot) (t found : State)
      → get_durable_execution runtime id t ≡ done before found
      → truthy (runtime.resolve_capability_id before.execution.workflow_id) ≡ some capability_id
      → mutate runtime id operation t
        ≡ settle_outcome runtime id before capability_id (operation found.kernel) found
  unfolding mutate require_capability_id
  mutate_found operation t found e capability =
      rw (mutate, e, require_capability_id, capability) refl
