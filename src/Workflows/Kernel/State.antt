-- ===== src/Workflows/Kernel/State.antt =====
-- server/workflows/kernel.ts: the fields of `WorkflowExecutionKernel`, and what its methods share.
-- A method is a function of the kernel's state; one that throws keeps what it has changed so far.
-- The clock and the UUIDs are a `World`: the n-th reading of each, and the state counts the readings.
use ai_knowledge_system.Common.{
  ℕ, String, Bool, ◌||◌, none, some, List, [], ◌∷◌, ◌==◌, any, if◌then◌else◌, or_else, concat,
  includes, lookup, insert,
}
use ai_knowledge_system.Provenance.Types.{Envelope}
use ai_knowledge_system.Workflows.Types.{
  Status, queued, running, waiting, approval_required, paused, completed, failed, cancelled,
  WorkflowExecution, ExecutionEvent, ExecutionSnapshot, WorkflowHandler, Failure, kernel_error,
}

pub record World : Type 0 where
  pub now : ℕ → String
  pub uuid : ℕ → String

pub record Kernel : Type 0 where
  pub executions : List (String × WorkflowExecution)
  pub events : List (String × List ExecutionEvent)
  pub provenance : List (String × List Envelope)
  pub handlers : List (String × WorkflowHandler)
  pub ticks : ℕ
  pub drawn : ℕ

pub data Outcome {ℓ} (A : Type ℓ) : Type ℓ where
  returned : A → Kernel → Outcome A
  thrown : Failure → Kernel → Outcome A

abbrev pub M {ℓ} : Type ℓ → Type ℓ
M A = Kernel → Outcome A

abbrev pub bind {ℓ κ} : {A : Type ℓ} {B : Type κ} → Outcome A → (A → M B) → Outcome B
bind (returned a k) f = f a k
bind (thrown e k) f = thrown e k

infixl 5 ◌>>=◌ ◌>>◌
abbrev pub ◌>>=◌ {ℓ κ} : {A : Type ℓ} {B : Type κ} → M A → (A → M B) → M B
◌>>=◌ m f k = bind (m k) f

abbrev pub ◌>>◌ {ℓ} : {B : Type ℓ} → M (Unit {0}) → M B → M B
m >> n = m >>= λ _. n

abbrev pub modify : (Kernel → Kernel) → M (Unit {0})
modify f k = returned tt (f k)

abbrev pub throw {ℓ} : {A : Type ℓ} → Failure → M A
throw e k = thrown e k

abbrev pub pure {ℓ} : {A : Type ℓ} → A → M A
pure a k = returned a k

-- The kernel after a call, whether it returned or threw.
abbrev pub after {ℓ} : {A : Type ℓ} → Outcome A → Kernel
after (returned a k) = k
after (thrown e k) = k

abbrev pub status_code : Status → ℕ
status_code queued = 0
status_code running = 1
status_code waiting = 2
status_code approval_required = 3
status_code paused = 4
status_code completed = 5
status_code failed = 6
status_code cancelled = 7

abbrev pub is_status : Status → Status → Bool
is_status a b = status_code a == status_code b

unfoldable pub status_name : Status → String
status_name queued = "QUEUED"
status_name running = "RUNNING"
status_name waiting = "WAITING"
status_name approval_required = "APPROVAL_REQUIRED"
status_name paused = "PAUSED"
status_name completed = "COMPLETED"
status_name failed = "FAILED"
status_name cancelled = "CANCELLED"

-- `events.get(id) ?? []` and `provenance.get(id) ?? []`.
abbrev pub log_of : String → Kernel → List ExecutionEvent
log_of id k = or_else (lookup id k.events) []

abbrev pub evidence_of : String → Kernel → List Envelope
evidence_of id k = or_else (lookup id k.provenance) []

-- A change of the execution object that the map holds.
unfoldable pub put : WorkflowExecution → Kernel → Kernel
put execution k = record k { executions = insert execution.execution_id execution k.executions }

unfoldable pub require_execution : String → M WorkflowExecution
require_execution id k = elim (lookup id k.executions) [
  | none ↦ thrown (kernel_error "EXECUTION_NOT_FOUND" "Workflow execution was not found." 404) k
  | some execution ↦ returned execution k
]

unfoldable pub handler_allows_scope : WorkflowHandler → String → Bool
handler_allows_scope handler scope_key =
    includes handler.allowed_scope_keys "*" || includes handler.allowed_scope_keys scope_key

-- `requireHandler`, for the execution's workflow and scope.
unfoldable pub require_handler : WorkflowExecution → M WorkflowHandler
require_handler execution k = elim (lookup execution.workflow_id k.handlers) [
  | none ↦ thrown (kernel_error "LIVE_HANDLER_UNAVAILABLE" "No LIVE handler is registered." 409) k
  | some handler ↦
      if handler_allows_scope handler execution.scope_key
      then returned handler k
      else thrown
          (kernel_error "LIVE_SCOPE_UNAVAILABLE"
            (concat (
              "Workflow '" ∷ execution.workflow_id ∷ "' is not registered for scope '"
              ∷ execution.scope_key ∷ "'." ∷ []))
            409)
          k
]

unfoldable pub invalid_transition : String → Status → Failure
invalid_transition operation status =
    kernel_error "INVALID_TRANSITION"
      (concat ("Cannot " ∷ operation ∷ " an execution in " ∷ status_name status ∷ "." ∷ [])) 409

-- `assertStatus`; `allowed.includes(status)`.
unfoldable pub assert_status : WorkflowExecution → List Status → String → M (Unit {0})
assert_status execution allowed operation k =
    if any (λ status. is_status status execution.status) allowed
    then returned tt k
    else thrown (invalid_transition operation execution.status) k

unfoldable pub snapshot : String → M ExecutionSnapshot
unfolding require_execution
snapshot id k = bind (require_execution id k) λ execution k'.
    returned
      (record {
        execution = execution;
        events = log_of id k';
        provenance_envelopes = evidence_of id k';
      })
      k'
