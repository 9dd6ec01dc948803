-- ===== src/Workflows/Invariant/Control.antt =====
-- server/workflows/kernel.ts: `createExecution`, `pause`, `resume`, `cancel`, `fail`, `complete` keep
-- the maps well formed, whether they return or throw.
use ai_knowledge_system.Common.{
  suc, String, ◌≡◌, refl, sym, ◌⊎◌, inl, inr, none, some, arith, Bool-cases, Option-cases, lookup,
  lookup-insert_self,
}
use mathlib.Core.Path.{subst}
use ai_knowledge_system.Workflows.Json.{JsonObject}
use ai_knowledge_system.Workflows.Types.{
  live, simulation, running, paused, WorkflowExecution, ExecutionError, CreateExecutionRequest,
  WorkflowHandler, Mode,
}
use ai_knowledge_system.Workflows.Ensures.{
  Ensures, IsGuard, guard-Ensures, guard-Ensures_last, require_execution-IsGuard,
  require_execution-lookup, require_handler-IsGuard, assert_status-IsGuard, snapshot-IsGuard,
}
use ai_knowledge_system.Workflows.Kernel.State.{
  World, Kernel, M, bind, require_execution, require_handler, assert_status, snapshot,
  handler_allows_scope,
}
use ai_knowledge_system.Workflows.Kernel.Create.{
  fresh_execution, enter, admit, create_live, create_execution,
}
use ai_knowledge_system.Workflows.Kernel.Control.{
  pause, resume, assert_pausable, assert_cancellable, assert_not_terminal, cancelling, cancel, fail,
  completing, complete,
}
use ai_knowledge_system.Workflows.Invariant.{IsInvariant, enter_fresh}
use ai_knowledge_system.Workflows.Invariant.Changes.{
  Holds, emit-Holds, change-Holds, transition_to_failure-Keeps, generate_next_actions-Keeps,
}

assert_pausable-IsGuard : (handler : WorkflowHandler) → IsGuard (assert_pausable handler)
unfolding assert_pausable
assert_pausable-IsGuard handler k = ground arith

assert_cancellable-IsGuard :
    (execution : WorkflowExecution) → IsGuard (assert_cancellable execution)
unfolding assert_cancellable
assert_cancellable-IsGuard execution k = ground arith

assert_not_terminal-IsGuard :
    (execution : WorkflowExecution) → IsGuard (assert_not_terminal execution)
unfolding assert_not_terminal
assert_not_terminal-IsGuard execution k = ground arith

Mode-cases : (mode : Mode) → (mode ≡ live) ⊎ (mode ≡ simulation)
Mode-cases live = inl refl
Mode-cases simulation = inr refl

module _ (world : World) (I : Kernel → Type 0) (inv : IsInvariant world I) where
  -- What a method does with the execution that it requires.
  pub fetch-Ensures {ℓ} :
      {A : Type ℓ} (Q : A → Kernel → Type 0) (id : String) (f : WorkflowExecution → M A)
      (k : Kernel)
      → I k
      → ((execution : WorkflowExecution)
          → execution.execution_id ≡ id
          → Holds I execution k
          → Ensures I Q (f execution k))
      → Ensures I Q (bind (require_execution id k) f)
  fetch-Ensures Q id f k w next =
      guard-Ensures I Q (require_execution id) f k (require_execution-IsGuard id) w λ execution e.
        let found = require_execution-lookup id k execution e in
        let keyed = (inv.wellformed k w id execution found).0 in
        next execution keyed (
          w,
          (execution, subst (λ j. lookup j k.executions ≡ some execution) (sym keyed) found, refl),
        )

  pub pause-Keeps : (id : String) (k : Kernel) → I k → Ensures I (λ _. I) (pause world id k)
  unfolding pause
  pause-Keeps id k w =
      fetch-Ensures (λ _. I) id _ k w
        λ execution _ (w', s).
          guard-Ensures I _ (require_handler execution) _ k (require_handler-IsGuard execution) w
            λ handler _.
              guard-Ensures I _ (assert_pausable handler) _ k (assert_pausable-IsGuard handler) w
                λ _ _.
                  guard-Ensures I _ (assert_status execution _ _) _ k
                    (assert_status-IsGuard execution _ _) w
                    λ _ _.
                      guard-Ensures_last I (snapshot id) _ (snapshot-IsGuard id)
                        (change-Holds world I inv k (record execution { status = paused }) _ none w
                          s).0

  pub resume-Keeps : (id : String) (k : Kernel) → I k → Ensures I (λ _. I) (resume world id k)
  unfolding resume
  resume-Keeps id k w =
      fetch-Ensures (λ _. I) id _ k w
        λ execution _ (w', s).
          guard-Ensures I _ (assert_status execution _ _) _ k (assert_status-IsGuard execution _ _)
            w
            λ _ _.
              guard-Ensures_last I (snapshot id) _ (snapshot-IsGuard id)
                (change-Holds world I inv k (record execution { status = running }) _ none w s).0

  pub cancel-Keeps : (id : String) (k : Kernel) → I k → Ensures I (λ _. I) (cancel world id k)
  unfolding cancel cancelling
  cancel-Keeps id k w =
      fetch-Ensures (λ _. I) id _ k w
        λ execution _ (w', s).
          guard-Ensures I _ (assert_cancellable execution) _ k
            (assert_cancellable-IsGuard execution) w
            λ _ _.
              guard-Ensures I _ (assert_status execution _ _) _ k
                (assert_status-IsGuard execution _ _) w
                λ _ _.
                  guard-Ensures_last I (snapshot id) _ (snapshot-IsGuard id)
                    (change-Holds world I inv (record k { ticks = suc k.ticks })
                      (cancelling world execution k) _ none (inv.tick k w) s).0

  pub fail-Keeps :
      (id : String) (error : ExecutionError) (k : Kernel)
      → I k
      → Ensures I (λ _. I) (fail world id error k)
  unfolding fail
  fail-Keeps id error k w =
      fetch-Ensures (λ _. I) id _ k w
        λ execution _ h.
          guard-Ensures I _ (assert_not_terminal execution) _ k
            (assert_not_terminal-IsGuard execution) w
            λ _ _.
              guard-Ensures_last I (snapshot id) _ (snapshot-IsGuard id)
                (transition_to_failure-Keeps world I inv k execution error h)

  pub complete-Keeps :
      (id : String) (output : JsonObject) (k : Kernel)
      → I k
      → Ensures I (λ _. I) (complete world id output k)
  unfolding complete completing
  complete-Keeps id output k w =
      fetch-Ensures (λ _. I) id _ k w
        λ execution _ (w', s).
          guard-Ensures I _ (assert_status execution _ _) _ k (assert_status-IsGuard execution _ _)
            w
            λ _ _. guard-Ensures_last I (snapshot id) _ (snapshot-IsGuard id) (
              generate_next_actions-Keeps world I inv _ _ (
                change-Holds world I inv (record k { ticks = suc k.ticks })
                  (completing world execution output k) _ none (inv.tick k w) s))

  pub enter-Holds :
      (request : CreateExecutionRequest) (k : Kernel)
      → I k
      → Holds I (fresh_execution world request k) (enter_fresh world request k)
  unfolding enter fresh_execution
  enter-Holds request k w = (
    inv.entered request k w,
    (
      fresh_execution world request k,
      lookup-insert_self (world.uuid k.drawn) (fresh_execution world request k) k.executions,
      refl,
    ),
  )

  pub admit-Keeps :
      (execution : WorkflowExecution) (k : Kernel)
      → Holds I execution k
      → I (admit world execution k)
  unfolding admit
  admit-Keeps execution k h = elim (Option-cases (lookup execution.workflow_id k.handlers)) [
    | inl e ↦ rw (e, admit) (transition_to_failure-Keeps world I inv k execution _ h)
    | inr (handler, e) ↦ elim (Bool-cases (handler_allows_scope handler execution.scope_key)) [
      | inl fine ↦ rw (e, admit, fine) (emit-Holds world I inv k execution _ _ h).0
      | inr other ↦ rw (e, admit, other) (transition_to_failure-Keeps world I inv k execution _ h)
    ]
  ]

  create_live-Keeps :
      (request : CreateExecutionRequest) (k : Kernel)
      → I k
      → Ensures I (λ _. I) (create_live world request k)
  unfolding create_live
  create_live-Keeps request k w =
      guard-Ensures_last I (snapshot (fresh_execution world request k).execution_id) _
        (snapshot-IsGuard _)
        (admit-Keeps (fresh_execution world request k) _ (enter-Holds request k w))

  pub create_execution-Keeps :
      (request : CreateExecutionRequest) (k : Kernel)
      → I k
      → Ensures I (λ _. I) (create_execution world request k)
  unfolding create_execution
  create_execution-Keeps request k w = elim (Mode-cases request.mode) [
    | inl e ↦ rw (e, Ensures, create_execution) (create_live-Keeps request k w)
    | inr e ↦ rw (e, Ensures, create_execution) w
  ]
