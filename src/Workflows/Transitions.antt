-- ===== src/Workflows/Transitions.antt =====
-- server/workflows/kernel.ts: from which statuses the synchronous methods lead where.
pub mod Control
pub mod Recording
pub mod Results
pub mod Progress
pub mod Termination
pub mod Generation
pub mod Completion
pub mod Reading
pub mod Creation
pub mod FollowUps
pub mod Spawning
pub mod Runs
use mathlib.Core.Path.{subst}
use ai_knowledge_system.Common.{
  ◌↔◌, zero, ℕ, suc, String, ◌≡◌, refl, sym, ap, ◌∙◌, ◌⊎◌, inl, inr, Bool, true, false, Option,
  some, none, List, [], ◌∷◌, ◌++◌, arith, or_else, str_eq, eq_iff, Bool-cases, Option-cases, lookup,
  insert, lookup-insert, lookup-insert_self, any, if◌then◌else◌, ◌==◌, ==_iff,
}
use ai_knowledge_system.Workflows.Json.{JsonObject}
use ai_knowledge_system.Workflows.Types.{
  Status, queued, running, waiting, approval_required, paused, completed, failed, cancelled,
  WorkflowExecution, ExecutionEvent, ExecutionSnapshot, WorkflowHandler, Failure, ExecutionError,
}
use ai_knowledge_system.Workflows.Kernel.State.{
  World, is_status, status_code, Kernel, Outcome, returned, thrown, after, log_of, evidence_of, put,
  require_execution, require_handler, assert_status, snapshot, handler_allows_scope,
}
use ai_knowledge_system.Workflows.Kernel.Log.{next_event, emit, failing, transition_to_failure}
use ai_knowledge_system.Workflows.Kernel.Control.{
  assert_pausable, assert_cancellable, assert_not_terminal, pause, resume, cancel, fail, complete,
  cancelling,
}
use ai_knowledge_system.Workflows.Wellformed.Primitives.{or_else-insert}

-- The method has moved the execution into the status and logged one event of it.
abbrev pub Moves : String → Kernel → Status → String → Outcome ExecutionSnapshot → Type 0
Moves id k status event_type (returned s k') =
    (lookup id k'.executions ≡ some s.execution)
    × (s.execution.status ≡ status)
    × (event : ExecutionEvent) × (log_of id k' ≡ log_of id k ++ event ∷ [])
    × (event.event_type ≡ event_type)
    × (event.status ≡ status)
    × (evidence_of id k' ≡ evidence_of id k)
Moves id k status event_type (thrown e k') = ⊥

abbrev pub is_returned : Outcome ExecutionSnapshot → Bool
is_returned (returned s k) = true
is_returned (thrown e k) = false

-- The method has thrown, and changed nothing.
abbrev pub Refuses : Kernel → Outcome ExecutionSnapshot → Type 0
Refuses k outcome = (is_returned outcome ≡ false) × (after outcome ≡ k)

snapshot-announced :
    (world : World) (k : Kernel) (x : WorkflowExecution) (event_type : String)
    (payload : Option JsonObject)
    → (k' : Kernel) → k' ≡ emit world x event_type payload (put x k)
    → snapshot x.execution_id k'
      ≡ returned
          (record {
            execution = x;
            events =
                log_of x.execution_id k ++ next_event world x event_type payload (put x k) ∷ [];
            provenance_envelopes = evidence_of x.execution_id k;
          })
          k'
unfolding snapshot require_execution emit put
snapshot-announced world k x event_type payload k' e = ground (
  arith,
  e,
  lookup-insert_self x.execution_id x k.executions,
  lookup-insert_self x.execution_id
      (log_of x.execution_id k ++ next_event world x event_type payload (put x k) ∷ []) k.events,
)

pub announced-Moves :
    (world : World) (id : String) (k : Kernel) (x : WorkflowExecution) (event_type : String)
    (payload : Option JsonObject) (k' : Kernel) (outcome : Outcome ExecutionSnapshot)
    → x.execution_id ≡ id
    → k' ≡ emit world x event_type payload (put x k)
    → outcome ≡ snapshot id k'
    → Moves id k x.status event_type outcome
unfolding emit put next_event
announced-Moves world id k x event_type payload k' outcome keyed e same =
    subst (Moves id k x.status event_type)
      (sym (
        same
        ∙ ap (λ j. snapshot j k') (sym keyed)
        ∙ snapshot-announced world k x event_type payload k' e))
      (
        ground (arith, e, keyed, lookup-insert_self x.execution_id x k.executions),
        refl,
        next_event world x event_type payload (put x k),
        ground (
          arith,
          e,
          keyed,
          lookup-insert_self x.execution_id
              (log_of x.execution_id k ++ next_event world x event_type payload (put x k) ∷ [])
              k.events,
        ),
        refl,
        refl,
        ground (arith, e),
      )

-- The method has returned, and the predicate holds of the execution that it shows.
abbrev pub Shows : (WorkflowExecution → Type 0) → Outcome ExecutionSnapshot → Type 0
Shows P (returned s k') = P s.execution
Shows P (thrown e k') = ⊥

pub announced-Shows :
    (P : WorkflowExecution → Type 0) (world : World) (id : String) (k : Kernel)
    (x : WorkflowExecution) (event_type : String) (payload : Option JsonObject) (k' : Kernel)
    (outcome : Outcome ExecutionSnapshot)
    → x.execution_id ≡ id
    → k' ≡ emit world x event_type payload (put x k)
    → outcome ≡ snapshot id k'
    → P x
    → Shows P outcome
announced-Shows P world id k x event_type payload k' outcome keyed e same h =
    subst (Shows P)
      (sym (
        same
        ∙ ap (λ j. snapshot j k') (sym keyed)
        ∙ snapshot-announced world k x event_type payload k' e))
      h

-- The status is in the list.
abbrev pub IsOneOf : Status → List Status → Type 0
IsOneOf status [] = ⊥
IsOneOf status (first ∷ rest) = (first ≡ status) ⊎ IsOneOf status rest

abbrev of_code : ℕ → Status
of_code zero = queued
of_code (suc zero) = running
of_code (suc (suc zero)) = waiting
of_code (suc (suc (suc zero))) = approval_required
of_code (suc (suc (suc (suc zero)))) = paused
of_code (suc (suc (suc (suc (suc zero))))) = completed
of_code (suc (suc (suc (suc (suc (suc zero)))))) = failed
of_code (suc (suc (suc (suc (suc (suc (suc _))))))) = cancelled

of_code-status_code : (s : Status) → of_code (status_code s) ≡ s
of_code-status_code queued = refl
of_code-status_code running = refl
of_code-status_code waiting = refl
of_code-status_code approval_required = refl
of_code-status_code paused = refl
of_code-status_code completed = refl
of_code-status_code failed = refl
of_code-status_code cancelled = refl

is_status_iff : (a b : Status) → (is_status a b ≡ true) ↔ (a ≡ b)
is_status_iff a b = (
  λ h.
      sym (of_code-status_code a)
      ∙ ap of_code ((==_iff (status_code a) (status_code b)).0 h)
      ∙ of_code-status_code b,
  λ e. (==_iff (status_code a) (status_code b)).1 (ap status_code e),
)

any-IsOneOf_iff :
    (status : Status) (allowed : List Status)
    → (any (λ a. is_status a status) allowed ≡ true) ↔ IsOneOf status allowed
any-IsOneOf_iff status [] = (λ h. ground arith, λ h. absurd h)
any-IsOneOf_iff status (first ∷ rest) =
    let (to, from) = is_status_iff first status in
    let (rest_to, rest_from) = any-IsOneOf_iff status rest in
    (
      λ h. elim (Bool-cases (is_status first status)) [
        | inl here ↦ inl (to here)
        | inr later ↦ inr (rest_to (ground (arith)))
      ],
      λ c. elim c [
        | inl here ↦ let h = from here in ground arith
        | inr later ↦ let h = rest_from later in ground arith
      ],
    )

-- The call makes the execution the given one, logged, exactly when the condition holds, and otherwise
-- it is refused.
abbrev pub Answers :
    Type 0 → String → Kernel → WorkflowExecution → String → Outcome ExecutionSnapshot → Type 0
Answers condition id k x event_type outcome =
    (condition × Moves id k x.status event_type outcome × Shows (λ y. y ≡ x) outcome)
    ⊎ ((¬ condition) × Refuses k outcome)

-- An execution that is stored and logged is moved, and shown.
pub announced_lem :
    (condition : Type 0) (world : World) (id : String) (k : Kernel) (x : WorkflowExecution)
    (event_type : String) (payload : Option JsonObject) (k' : Kernel)
    (outcome : Outcome ExecutionSnapshot)
    → condition
    → x.execution_id ≡ id
    → k' ≡ emit world x event_type payload (put x k)
    → outcome ≡ snapshot id k'
    → condition × Moves id k x.status event_type outcome × Shows (λ y. y ≡ x) outcome
announced_lem condition world id k x event_type payload k' outcome c keyed e same = (
  c,
  announced-Moves world id k x event_type payload k' outcome keyed e same,
  announced-Shows (λ y. y ≡ x) world id k x event_type payload k' outcome keyed e same refl,
)

pub IsOneOf-cases :
    (status : Status) (allowed : List Status)
    → (IsOneOf status allowed × (any (λ a. is_status a status) allowed ≡ true))
      ⊎ ((¬ IsOneOf status allowed) × (any (λ a. is_status a status) allowed ≡ false))
IsOneOf-cases status allowed =
    let (to, from) = any-IsOneOf_iff status allowed in
    elim (Bool-cases (any (λ a. is_status a status) allowed)) [
      | inl e ↦ inl (to e, e)
      | inr e ↦ inr (λ h. let t = from h in ground arith, e)
    ]
