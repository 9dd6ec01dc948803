-- ===== src/Durable/Runtime.antt =====
-- server/workflows/durable-runtime.ts: `DurableWorkflowRuntime`, the kernel with a store behind it. A
-- method runs from its call to its return without another call in between. The world gives the
-- kernel's clock and UUIDs; `stringify` is `JSON.stringify`, of which only the equality of two results
-- is used.
pub mod Calls
pub mod Unbound
pub mod Atomic
pub mod Persisted
pub mod Mutation
pub mod Restart
pub mod Creation
use ai_knowledge_system.Common.{
  ℕ, String, Bool, true, false, not, ◌||◌, Option, none, some, List, [], ◌∷◌, any, str_eq,
  if◌then◌else◌, or_else, concat, join, truthy, contains_text,
}
use ai_knowledge_system.Provenance.Types.{ReadProjection}
use ai_knowledge_system.Workflows.Json.{JsonObject}
use ai_knowledge_system.Workflows.Types.{
  live, simulation, ExecutionError, ExecutionSnapshot, CreateExecutionRequest, Failure,
  kernel_error, provenance_error, plain_error, other_value,
}
use ai_knowledge_system.Workflows.Kernel.State.{World, Kernel, Outcome, returned, thrown, M}
use ai_knowledge_system.Workflows.Kernel.Create.{
  LiveWorkflow, list_live_workflows, create_execution, get_execution, discard_execution,
}
use ai_knowledge_system.Workflows.Kernel.Restore.{restore_execution}
use ai_knowledge_system.Durable.Types.{
  PersistenceState, durable_available, durable_unavailable, ReasonCode, d1_binding_unavailable,
  DurableBundle, BackendState, ContractError,
}
use ai_knowledge_system.Durable.Names.{reason_name}
use ai_knowledge_system.Durable.Contract.{is_available}
use ai_knowledge_system.Durable.Store.{
  Fault, failure, contract_error, conflict_error, type_error, Attempt, done, broken,
  ExecutionHistoryStore, persist_many_durable_execution_histories,
  read_durable_execution_history_by_id,
}
use ai_knowledge_system.Durable.Snapshots.{
  Converted, converted, rejected, snapshot_to_durable_history, durable_history_to_snapshot,
}

-- The kernel and what the store holds.
pub record Machine (S : Type 0) : Type 0 where
  pub kernel : Kernel
  pub stored : S

abbrev pub then_do :
    {S A B : Type 0}
    → Attempt (Machine S) A
    → (A → Machine S → Attempt (Machine S) B)
    → Attempt (Machine S) B
then_do (done a t) f = f a t
then_do (broken fault t) f = broken fault t

abbrev pub in_kernel : {S A : Type 0} → M A → Machine S → Attempt (Machine S) A
in_kernel m t = elim (m t.kernel) [
  | returned a k ↦ done a (record t { kernel = k })
  | thrown e k ↦ broken (failure e) (record t { kernel = k })
]

-- `error.message`, of an `Error`.
unfoldable pub fault_message : Fault → Option String
fault_message (failure (kernel_error code message http_status)) = some message
fault_message (failure (provenance_error code issues)) = some (join " " issues)
fault_message (failure (plain_error message)) = some message
fault_message (failure other_value) = none
fault_message (contract_error error) = some error.message
fault_message (conflict_error message) = some message
fault_message (type_error message) = some message

unfoldable pub is_persistence_error : Fault → Bool
is_persistence_error (conflict_error message) = true
is_persistence_error fault = elim (fault_message fault) [
  | none ↦ false
  | some message ↦
      contains_text message "D1"
      || contains_text message "Durable execution history"
      || contains_text message "EXECUTION_HISTORY"
]

unfoldable pub persistence_failure : Fault → Fault
persistence_failure (conflict_error message) =
    failure (kernel_error "DURABLE_HISTORY_CONFLICT" message 409)
persistence_failure fault = failure (
    kernel_error "DURABLE_HISTORY_WRITE_FAILED"
      (or_else (fault_message fault) "Durable execution history write failed.") 503)

unfoldable pub persistence_read_failure : Fault → Fault
persistence_read_failure fault = failure (
    kernel_error "DURABLE_HISTORY_READ_FAILED"
      (or_else (fault_message fault) "Durable execution history read failed.") 503)

-- The `catch` of `getExecution`: a `WorkflowKernelError` is thrown on as it is.
unfoldable pub read_fault : Fault → Fault
read_fault (failure (kernel_error code message http_status)) =
    failure (kernel_error code message http_status)
read_fault fault = persistence_read_failure fault

-- What `persistIfAvailable` does without a durable backend: the binding may be missing.
unfoldable pub without_backend : Option ReasonCode → Option Fault
without_backend (some d1_binding_unavailable) = none
without_backend none =
    some (failure (plain_error "Durable execution history unavailable (UNKNOWN)."))
without_backend (some reason) = some (
    failure (
      plain_error
        (concat ("Durable execution history unavailable (" ∷ reason_name reason ∷ ")." ∷ []))))

unfoldable pub unresolved : (workflow_id : String) → Failure
unresolved workflow_id =
    kernel_error "DURABLE_CAPABILITY_UNRESOLVED"
      (concat (
        "Workflow '" ∷ workflow_id
        ∷ "' has no exact active capability_id binding for durable history." ∷ []))
      409

unfoldable pub unresolved_live : (workflow_id : String) → Failure
unresolved_live workflow_id =
    kernel_error "DURABLE_CAPABILITY_UNRESOLVED"
      (concat (
        "LIVE workflow '" ∷ workflow_id
        ∷ "' has no exact active capability_id binding for durable history." ∷ []))
      409

-- The constructor's store and resolver, and what the runtime takes from its surroundings.
pub record DurableWorkflowRuntime : Type 1 where
  pub is_date : String → Bool
  pub stringify : ExecutionSnapshot → String
  pub world : World
  pub store : ExecutionHistoryStore
  pub resolve_capability_id : String → Option String

module _ (runtime : DurableWorkflowRuntime) where
  open runtime use {is_date, stringify, world, store, resolve_capability_id}

  abbrev pub Action : Type 0 → Type 0
  Action A = Machine store.State → Attempt (Machine store.State) A

  unfoldable pub persistence_available : store.State → Bool
  persistence_available s = is_available (store.get_backend_state s).state

  unfoldable pub persist_if_available : List DurableBundle → Action (Unit {0})
  persist_if_available bundles t =
      if persistence_available t.stored
      then elim (persist_many_durable_execution_histories is_date store bundles t.stored) [
        | done u s ↦ done tt (record t { stored = s })
        | broken fault s ↦ broken fault (record t { stored = s })
      ]
      else elim (without_backend (store.get_backend_state t.stored).reason_code) [
        | none ↦ done tt t
        | some fault ↦ broken fault t
      ]

  unfoldable pub persist_snapshot : ExecutionSnapshot → (capability_id : String) → Action (Unit {0})
  persist_snapshot saved capability_id t =
      elim (snapshot_to_durable_history is_date saved capability_id) [
        | rejected fault ↦ broken fault t
        | converted bundle ↦ persist_if_available (bundle ∷ []) t
      ]

  unfoldable pub get_durable_execution : String → Action ExecutionSnapshot
  get_durable_execution id t =
      if persistence_available t.stored
      then elim (read_durable_execution_history_by_id is_date store id t.stored) [
        | broken fault s ↦ broken (read_fault fault) (record t { stored = s })
        | done none s ↦ in_kernel (get_execution id) (record t { stored = s })
        | done (some bundle) s ↦ elim (durable_history_to_snapshot is_date bundle) [
          | rejected fault ↦ broken (read_fault fault) (record t { stored = s })
          | converted saved ↦ in_kernel (restore_execution saved) (record t { stored = s })
        ]
      ]
      else in_kernel (get_execution id) t

  -- The history that was read, restored into the kernel; `false` if it is not there, or cannot be
  -- read, converted or restored.
  unfoldable pub restore_read :
      Attempt store.State (Option DurableBundle) → Kernel → Bool × Machine store.State
  restore_read (broken fault s) k = (false, record { kernel = k; stored = s })
  restore_read (done none s) k = (false, record { kernel = k; stored = s })
  restore_read (done (some bundle) s) k = elim (durable_history_to_snapshot is_date bundle) [
    | rejected fault ↦ (false, record { kernel = k; stored = s })
    | converted saved ↦ elim (restore_execution saved k) [
      | returned answer k' ↦ (true, record { kernel = k'; stored = s })
      | thrown e k' ↦ (false, record { kernel = k'; stored = s })
    ]
  ]

  unfoldable pub restore_latest : String → Machine store.State → Bool × Machine store.State
  restore_latest id t =
      if persistence_available t.stored
      then restore_read (read_durable_execution_history_by_id is_date store id t.stored) t.kernel
      else (false, t)

  unfoldable pub restore_latest_durable_or_fallback :
      String → (fallback : ExecutionSnapshot) → Action (Unit {0})
  restore_latest_durable_or_fallback id fallback t =
      let (restored, t') = restore_latest id t in
      if restored
      then done tt t'
      else then_do (in_kernel (restore_execution fallback) t') (λ answer t''. done tt t'')

  -- The state is taken back, then the error is thrown.
  unfoldable pub take_back :
      String → (before : ExecutionSnapshot) → Fault → Action ExecutionSnapshot
  take_back id before fault t =
      then_do (restore_latest_durable_or_fallback id before t)
        (λ u t'. broken (persistence_failure fault) t')

  unfoldable pub require_capability_id : (workflow_id : String) → Action String
  require_capability_id workflow_id t = elim (truthy (resolve_capability_id workflow_id)) [
    | none ↦ broken (failure (unresolved workflow_id)) t
    | some capability_id ↦ done capability_id t
  ]

  unfoldable pub require_capability_for_live_handler :
      (workflow_id : String) → Action (Option String)
  require_capability_for_live_handler workflow_id t =
      elim (truthy (resolve_capability_id workflow_id)) [
        | some capability_id ↦ done (some capability_id) t
        | none ↦
            if any (λ workflow. str_eq workflow.workflow_id workflow_id)
              (list_live_workflows t.kernel)
            then broken (failure (unresolved_live workflow_id)) t
            else done none t
      ]

  -- The operation returned: what it left is persisted, or taken back.
  unfoldable pub commit :
      String
      → (before : ExecutionSnapshot) → (capability_id : String) → ExecutionSnapshot
      → Action ExecutionSnapshot
  commit id before capability_id after t = elim (persist_snapshot after capability_id t) [
    | done u t' ↦ done after t'
    | broken fault t' ↦ take_back id before fault t'
  ]

  -- The operation threw: what it has changed is persisted, or taken back.
  unfoldable pub record_failure :
      String
      → (before : ExecutionSnapshot) → (capability_id : String) → Failure
      → Action ExecutionSnapshot
  record_failure id before capability_id error t = elim (get_execution id t.kernel) [
    | thrown e k ↦ broken (failure error) t
    | returned current k ↦
        if str_eq (stringify current) (stringify before)
        then broken (failure error) t
        else elim (persist_snapshot current capability_id t) [
          | done u t' ↦ broken (failure error) t'
          | broken fault t' ↦ take_back id before fault t'
        ]
  ]

  unfoldable pub settle_outcome :
      String
      → (before : ExecutionSnapshot) → (capability_id : String) → Outcome ExecutionSnapshot
      → Action ExecutionSnapshot
  settle_outcome id before capability_id (returned after k) t =
      commit id before capability_id after (record t { kernel = k })
  settle_outcome id before capability_id (thrown error k) t =
      record_failure id before capability_id error (record t { kernel = k })

  unfoldable pub mutate : String → M ExecutionSnapshot → Action ExecutionSnapshot
  mutate id operation t = then_do (get_durable_execution id t) λ before t1.
      then_do (require_capability_id before.execution.workflow_id t1)
        λ capability_id t2. settle_outcome id before capability_id (operation t2.kernel) t2

  unfoldable pub create_durable_execution : CreateExecutionRequest → Action ExecutionSnapshot
  create_durable_execution request t = elim request.mode [
    | simulation ↦ in_kernel (create_execution world request) t
    | live ↦ then_do (require_capability_for_live_handler request.workflow_id t) λ capability_id t1.
        then_do (in_kernel (create_execution world request) t1) λ saved t2. elim capability_id [
          | none ↦ done saved t2
          | some id ↦ elim (persist_snapshot saved id t2) [
            | done u t3 ↦ done saved t3
            | broken fault t3 ↦
                broken (persistence_failure fault)
                  (record t3 { kernel = discard_execution saved.execution.execution_id t3.kernel })
          ]
        ]
  ]
