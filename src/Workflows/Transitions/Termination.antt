-- ===== src/Workflows/Transitions/Termination.antt =====
-- server/workflows/kernel.ts: `runToCompletion` ends, if the handler makes progress.
use mathlib.Core.Path.{subst}
use ai_knowledge_system.Common.{
  ℕ, zero, suc, ◌+◌, ◌<◌, String, ◌≡◌, refl, inl, inr, true, false, some, arith, Bool-cases, lookup,
}
use ai_knowledge_system.Workflows.Types.{
  Status, WorkflowExecution, ExecutionSnapshot, WorkflowHandler, Run,
}
use ai_knowledge_system.Workflows.Ensures.{Ensures, Outcome-cases}
use ai_knowledge_system.Workflows.Kernel.State.{
  World, Kernel, Outcome, returned, thrown, put, is_status, require_execution, require_handler,
  assert_status,
}
use ai_knowledge_system.Workflows.Kernel.Log.{emit}
use ai_knowledge_system.Workflows.Kernel.Start.{
  starting, begin_start, start, advance, advance_while_running, run_to_completion,
}
use ai_knowledge_system.Workflows.Transitions.Runs.{Decreases}
use ai_knowledge_system.Workflows.Transitions.Progress.{
  IsAny, IsReady, Progresses, finish-Progresses, advance-Progresses,
}

-- The call has thrown, or it has returned an execution that is not RUNNING.
abbrev pub IsOver : Outcome ExecutionSnapshot → Type 0
IsOver (returned s k) = is_status Status.running s.execution.status ≡ false
IsOver (thrown e k) = Unit

-- The loop has fuel enough: it may stop at once, or the execution is ready and small enough.
abbrev HasFuel :
    (WorkflowExecution → ℕ) → WorkflowHandler → String → ℕ → ExecutionSnapshot → Kernel → Type 0
HasFuel size handler id fuel s k =
    (0 < fuel)
    × (is_status Status.running s.execution.status ≡ true
        → IsReady handler id s.execution k × (size s.execution + 1 < fuel))

module _ (world : World) (size : WorkflowExecution → ℕ) (handler : WorkflowHandler)
    (id : String) where
  next-HasFuel :
      (x : WorkflowExecution) (fuel : ℕ) (s : ExecutionSnapshot) (k : Kernel)
      → size x < fuel
      → Progresses size handler id x s k
      → HasFuel size handler id fuel s k
  next-HasFuel x fuel s k bound progress = (
    omega (arith, bound),
    λ running. let (ready, smaller) = progress running in (ready, omega (arith, bound, smaller)),
  )

  advance_while_running-IsOver :
      (fuel : ℕ) (s : ExecutionSnapshot) (k : Kernel)
      → ((y : WorkflowExecution) → Decreases size y (handler.advance y))
      → HasFuel size handler id fuel s k
      → (outcome : Outcome ExecutionSnapshot) × (advance_while_running world fuel id s k
          ≡ some outcome)
        × IsOver outcome
  unfolding advance_while_running
  advance_while_running-IsOver zero s k steps (bound, _) = absurd (omega (arith, bound))
  advance_while_running-IsOver (suc fuel) s k steps (_, fuelled) =
      elim (Bool-cases (is_status Status.running s.execution.status)) [
        | inr stopped ↦ (returned s k, rw (stopped, advance_while_running) refl, stopped)
        | inl running ↦
            let (ready, bound) = fuelled running in
            elim (Outcome-cases (advance world id k)) [
              | inr (failure, k', e) ↦
                  (thrown failure k', rw (running, e, advance_while_running) refl, tt)
              | inl (s', k', e) ↦
                  let progress : Progresses size handler id s.execution s' k' =
                    subst (Ensures IsAny (Progresses size handler id s.execution)) e (
                      advance-Progresses world size handler id s.execution k ready
                        (steps s.execution)) in
                  rw (running, e, advance_while_running)
                    (advance_while_running-IsOver fuel s' k' steps
                      (next-HasFuel s.execution fuel s' k' (omega (arith, bound)) progress))
            ]
      ]

  begin_start-returned :
      (x : WorkflowExecution) (k k' : Kernel) (begun : WorkflowExecution × Run)
      → lookup id k.executions ≡ some x
      → lookup x.workflow_id k.handlers ≡ some handler
      → begin_start world id k ≡ returned begun k'
      → (begun ≡ (starting world x k, handler.start (starting world x k)))
        × (k'.handlers ≡ k.handlers)
  unfolding begin_start require_execution require_handler assert_status emit put
  begin_start-returned x k k' begun found handled e = (ground arith, ground arith)

  start-Progresses :
      (x : WorkflowExecution) (k : Kernel)
      → IsReady handler id x k
      → Decreases size (starting world x k) (handler.start (starting world x k))
      → Ensures IsAny (Progresses size handler id (starting world x k)) (start world id k)
  unfolding start
  start-Progresses x k ready smaller = elim (Outcome-cases (begin_start world id k)) [
    | inr (failure, k', e) ↦ rw (e, Ensures, start) tt
    | inl (begun, k', e) ↦
        let (is_x, same) = begin_start-returned x k k' begun ready.found ready.handled e in
        rw (e, is_x, Ensures, start)
          (finish-Progresses world size handler id (starting world x k)
            (handler.start (starting world x k)) k' (unfold starting in ready.keyed)
            (unfold starting in ground (arith, same, ready.handled)) smaller)
  ]

  -- `runToCompletion` of an execution, stored under its id, whose handler is registered, ends: if the
  -- handler's `start`, and each `advance`, makes the execution smaller in some measure whenever it
  -- asks to go on, then fuel above the measure is enough, and the call throws or returns an execution
  -- that is not RUNNING.
  pub run_to_completion-IsOver :
      (x : WorkflowExecution) (k : Kernel) (fuel : ℕ)
      → lookup id k.executions ≡ some x
      → x.execution_id ≡ id
      → lookup x.workflow_id k.handlers ≡ some handler
      → Decreases size (starting world x k) (handler.start (starting world x k))
      → ((y : WorkflowExecution) → Decreases size y (handler.advance y))
      → size (starting world x k) < fuel
      → (outcome : Outcome ExecutionSnapshot) × (run_to_completion world fuel id k ≡ some outcome)
        × IsOver outcome
  unfolding run_to_completion
  run_to_completion-IsOver x k fuel found keyed handled first steps bound =
      let ready : IsReady handler id x k = record {
        found = found;
        keyed = keyed;
        handled = handled;
      } in
      elim (Outcome-cases (start world id k)) [
        | inr (failure, k', e) ↦ (thrown failure k', rw (e, run_to_completion) refl, tt)
        | inl (s, k', e) ↦
            let progress : Progresses size handler id (starting world x k) s k' =
              subst (Ensures IsAny (Progresses size handler id (starting world x k))) e
                (start-Progresses x k ready first) in
            rw (e, run_to_completion)
              (advance_while_running-IsOver fuel s k' steps
                (next-HasFuel (starting world x k) fuel s k' bound progress))
      ]
