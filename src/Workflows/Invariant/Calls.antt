-- ===== src/Workflows/Invariant/Calls.antt =====
-- server/workflows/kernel.ts: every call keeps an invariant.
use ai_knowledge_system.Common.{String}
use ai_knowledge_system.NextActions.Types.{approved, rejected}
use ai_knowledge_system.Provenance.Types.{Emission, GovernedWriteAuthorization}
use ai_knowledge_system.Workflows.Types.{WorkflowExecution, HandlerResult, Failure, Run}
use ai_knowledge_system.Workflows.Kernel.Log.{record_provenance, authorize_write}
use ai_knowledge_system.Workflows.Ensures.{Ensures, Ensures-after}
use ai_knowledge_system.Workflows.Kernel.State.{World, Kernel, Outcome, returned, thrown, after}
use ai_knowledge_system.Workflows.Kernel.Create.{discard_execution}
use ai_knowledge_system.Workflows.Kernel.Restore.{restore_execution}
use ai_knowledge_system.Workflows.Calls.{
  Call, creates, restores, discards, starts, advances, begins_start, begins_advance, emits,
  authorizes, settles, breaks, pauses, resumes, cancels, fails, completes, selects, approves,
  rejects, spawns, emit_in_context, authorize_in_context, settle, break_off, perform,
}
use ai_knowledge_system.Workflows.Invariant.{IsInvariant}
use ai_knowledge_system.Workflows.Invariant.Changes.{
  Holds, record_provenance-Ensures, authorize_write-Ensures,
}
use ai_knowledge_system.Workflows.Invariant.Control.{
  fetch-Ensures, create_execution-Keeps, pause-Keeps, resume-Keeps, cancel-Keeps, fail-Keeps,
  complete-Keeps,
}
use ai_knowledge_system.Workflows.Invariant.Handling.{
  give_up-Keeps, apply_handler_result-Keeps, begin_start-Ensures, begin_advance-Ensures,
  start-Keeps, advance-Keeps,
}
use ai_knowledge_system.Workflows.Invariant.NextSteps.{
  select_next_action-Keeps, decide_next_action-Keeps, spawn_selected_next_action-Keeps,
}

-- The two calls that replace or remove entries are left to the invariant.
abbrev pub MapsKept : (Kernel → Type 0) → Call → Kernel → Type 0
MapsKept I (restores saved) k = I (after (restore_execution saved k))
MapsKept I (discards id) k = I (discard_execution id k)
MapsKept I _ k = Unit

module _ (world : World) (I : Kernel → Type 0) (inv : IsInvariant world I) where
  kept {ℓ} : {A : Type ℓ} (o : Outcome A) → Ensures I (λ _. I) o → I (after o)
  kept o h = Ensures-after I (λ _. I) o (λ _ _ i. i) h

  held {ℓ} :
      {A : Type ℓ} (execution : WorkflowExecution) (o : Outcome A)
      → Ensures (Holds I execution) (λ _. Holds I execution) o
      → Ensures I (λ _. I) o
  held execution (returned a k) h = h.0
  held execution (thrown e k) h = h.0

  begun-Keeps :
      (o : Outcome (WorkflowExecution × Run)) → Ensures I (λ begun. Holds I begun.0) o → I (after o)
  begun-Keeps o h = Ensures-after I (λ begun. Holds I begun.0) o (λ _ _ i. i.0) h

  emit_in_context-Keeps :
      (id : String) (input : Emission) (k : Kernel)
      → I k
      → Ensures I (λ _. I) (emit_in_context world id input k)
  unfolding emit_in_context
  emit_in_context-Keeps id input k i =
      fetch-Ensures world I inv (λ _. I) id _ k i
        λ execution _ h.
          held execution (record_provenance world execution input k)
            (record_provenance-Ensures world I inv k execution input h)

  authorize_in_context-Keeps :
      (id : String) (input : GovernedWriteAuthorization) (k : Kernel)
      → I k
      → Ensures I (λ _. I) (authorize_in_context world id input k)
  unfolding authorize_in_context
  authorize_in_context-Keeps id input k i =
      fetch-Ensures world I inv (λ _. I) id _ k i
        λ execution _ h.
          held execution (authorize_write world execution input k)
            (authorize_write-Ensures world I inv k execution input h)

  settle-Keeps :
      (id : String) (result : HandlerResult) (k : Kernel)
      → I k
      → Ensures I (λ _. I) (settle world id result k)
  unfolding settle
  settle-Keeps id result k i =
      fetch-Ensures world I inv (λ _. I) id _ k i
        λ execution _ h. apply_handler_result-Keeps world I inv execution result k h

  break_off-Keeps :
      (id : String) (failure : Failure) (k : Kernel)
      → I k
      → Ensures I (λ _. I) (break_off world id failure k)
  unfolding break_off
  break_off-Keeps id failure k i =
      fetch-Ensures world I inv (λ _. I) id _ k i
        λ execution _ h. give_up-Keeps world I inv (λ _. I) execution failure k h

  -- Every call keeps the invariant, if the two that replace or remove entries do.
  pub perform-Keeps :
      (call : Call) (k : Kernel) → I k → MapsKept I call k → I (perform world call k)
  unfolding perform
  perform-Keeps (creates request) k i _ = kept _ (create_execution-Keeps world I inv request k i)
  perform-Keeps (restores saved) k i h = h
  perform-Keeps (discards id) k i h = h
  perform-Keeps (starts id) k i _ = kept _ (start-Keeps world I inv id k i)
  perform-Keeps (advances id) k i _ = kept _ (advance-Keeps world I inv id k i)
  perform-Keeps (begins_start id) k i _ = begun-Keeps _ (begin_start-Ensures world I inv id k i)
  perform-Keeps (begins_advance id) k i _ = begun-Keeps _ (begin_advance-Ensures world I inv id k i)
  perform-Keeps (emits id input) k i _ = kept _ (emit_in_context-Keeps id input k i)
  perform-Keeps (authorizes id input) k i _ = kept _ (authorize_in_context-Keeps id input k i)
  perform-Keeps (settles id result) k i _ = kept _ (settle-Keeps id result k i)
  perform-Keeps (breaks id failure) k i _ = kept _ (break_off-Keeps id failure k i)
  perform-Keeps (pauses id) k i _ = kept _ (pause-Keeps world I inv id k i)
  perform-Keeps (resumes id) k i _ = kept _ (resume-Keeps world I inv id k i)
  perform-Keeps (cancels id) k i _ = kept _ (cancel-Keeps world I inv id k i)
  perform-Keeps (fails id error) k i _ = kept _ (fail-Keeps world I inv id error k i)
  perform-Keeps (completes id output) k i _ = kept _ (complete-Keeps world I inv id output k i)
  perform-Keeps (selects id command) k i _ =
      kept _ (select_next_action-Keeps world I inv id command k i)
  perform-Keeps (approves id) k i _ =
      kept _ (decide_next_action-Keeps world I inv approved "next_action.approved" id k i)
  perform-Keeps (rejects id) k i _ =
      kept _ (decide_next_action-Keeps world I inv rejected "next_action.rejected" id k i)
  perform-Keeps (spawns id input) k i _ =
      kept _ (spawn_selected_next_action-Keeps world I inv id input k i)
