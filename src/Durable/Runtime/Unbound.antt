-- ===== src/Durable/Runtime/Unbound.antt =====
-- server/workflows/durable-runtime.ts without a D1 binding: the runtime is the kernel alone.
use ai_knowledge_system.Common.{
  String, Bool, ◌≡◌, refl, inl, inr, some, arith, truthy, str_eq, Bool-cases,
}
use ai_knowledge_system.Workflows.Types.{ExecutionSnapshot, Failure}
use ai_knowledge_system.Workflows.Kernel.State.{Kernel, Outcome, returned, thrown, M}
use ai_knowledge_system.Workflows.Kernel.Create.{get_execution}
use ai_knowledge_system.Workflows.Ensures.{Outcome-cases}
use ai_knowledge_system.Durable.Types.{durable_unavailable, d1_binding_unavailable, BackendState}
use ai_knowledge_system.Durable.Contract.{is_available}
use ai_knowledge_system.Durable.Store.{failure, done, broken}
use ai_knowledge_system.Durable.Snapshots.{bundle_of}
use ai_knowledge_system.Durable.Valid.Bundles.{IsBundle}
use ai_knowledge_system.Durable.RoundTrip.{converted_lem}
use ai_knowledge_system.Durable.Runtime.{
  DurableWorkflowRuntime, Machine, in_kernel, without_backend, persistence_available,
  persist_if_available, persist_snapshot, get_durable_execution, require_capability_id, commit,
  record_failure, settle_outcome, mutate,
}

abbrev pub no_binding : BackendState
no_binding = record { state = durable_unavailable; reason_code = some d1_binding_unavailable }

-- What an operation leaves can be converted: its result, or what a failed one leaves of the execution.
abbrev pub IsStorable :
    (is_date : String → Bool) (capability_id id : String) → Outcome ExecutionSnapshot → Type 0
IsStorable is_date capability_id id (returned after k) =
    IsBundle is_date (bundle_of after capability_id)
IsStorable is_date capability_id id (thrown error k) =
    (current : ExecutionSnapshot) (k' : Kernel)
    → get_execution id k ≡ returned current k'
    → IsBundle is_date (bundle_of current capability_id)

module _ (runtime : DurableWorkflowRuntime) (t : Machine runtime.store.State)
    (unbound : runtime.store.get_backend_state t.stored ≡ no_binding) where
  get-unbound : (id : String) → get_durable_execution runtime id t ≡ in_kernel (get_execution id) t
  unfolding get_durable_execution persistence_available is_available
  get-unbound id = rw unbound refl

  persist-unbound :
      (saved : ExecutionSnapshot) (capability_id : String)
      → IsBundle runtime.is_date (bundle_of saved capability_id)
      → persist_snapshot runtime saved capability_id t ≡ done tt t
  unfolding persist_snapshot persist_if_available persistence_available is_available without_backend
  persist-unbound saved capability_id h =
      rw (persist_snapshot, converted_lem runtime.is_date saved capability_id h, unbound) refl

  commit-unbound :
      (id : String) (before : ExecutionSnapshot) (capability_id : String)
      (after : ExecutionSnapshot)
      → IsBundle runtime.is_date (bundle_of after capability_id)
      → commit runtime id before capability_id after t ≡ done after t
  unfolding commit
  commit-unbound id before capability_id after h =
      rw (commit, persist-unbound after capability_id h) refl

  record_failure-unbound :
      (id : String) (before : ExecutionSnapshot) (capability_id : String) (error : Failure)
      → IsStorable runtime.is_date capability_id id (thrown error t.kernel)
      → record_failure runtime id before capability_id error t ≡ broken (failure error) t
  unfolding record_failure
  record_failure-unbound id before capability_id error h =
      elim (Outcome-cases (get_execution id t.kernel)) [
        | inr (e, k, missing) ↦ rw (record_failure, missing) refl
        | inl (current, k, found) ↦
            elim (Bool-cases (str_eq (runtime.stringify current) (runtime.stringify before))) [
              | inl same ↦ rw (record_failure, found, same) refl
              | inr changed ↦
                  rw
                    (
                      record_failure,
                      found,
                      changed,
                      persist-unbound current capability_id (h current k found),
                    )
                    refl
            ]
      ]

module _ (runtime : DurableWorkflowRuntime) (t : Machine runtime.store.State)
    (unbound : runtime.store.get_backend_state t.stored ≡ no_binding) where
  settle-unbound :
      (id : String) (before : ExecutionSnapshot) (capability_id : String)
      (outcome : Outcome ExecutionSnapshot)
      → IsStorable runtime.is_date capability_id id outcome
      → settle_outcome runtime id before capability_id outcome t ≡ in_kernel (λ k. outcome) t
  unfolding settle_outcome
  settle-unbound id before capability_id (returned after k) h =
      commit-unbound runtime (record t { kernel = k }) unbound id before capability_id after h
  settle-unbound id before capability_id (thrown error k) h =
      record_failure-unbound runtime (record t { kernel = k }) unbound id before capability_id error
        h

  get_found :
      (id : String) (before : ExecutionSnapshot)
      → get_execution id t.kernel ≡ returned before t.kernel
      → get_durable_execution runtime id t ≡ done before t
  get_found id before found = let bare = get-unbound runtime t unbound id in ground arith

  -- Where the store reports that its D1 binding is missing, an execution that the kernel holds and
  -- whose workflow has a capability is changed exactly as the kernel's operation changes it, result,
  -- error and state, and the store stays as it is; the condition is that what the operation leaves can
  -- be converted to a well-formed bundle.
  pub mutate-unbound :
      (id : String) (operation : M ExecutionSnapshot) (before : ExecutionSnapshot)
      (capability_id : String)
      → get_execution id t.kernel ≡ returned before t.kernel
      → truthy (runtime.resolve_capability_id before.execution.workflow_id) ≡ some capability_id
      → IsStorable runtime.is_date capability_id id (operation t.kernel)
      → mutate runtime id operation t ≡ in_kernel operation t
  unfolding mutate require_capability_id
  mutate-unbound id operation before capability_id found capability h =
      rw
        (
          mutate,
          get_found id before found,
          require_capability_id,
          capability,
          settle-unbound id before capability_id (operation t.kernel) h,
        )
        refl
