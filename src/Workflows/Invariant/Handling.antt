-- ===== src/Workflows/Invariant/Handling.antt =====
-- server/workflows/kernel.ts: a handler's run, `invoke`, `applyHandlerResult`, `start`, `advance` and
-- `runToCompletion` keep an invariant, whatever the handler does.
use ai_knowledge_system.Common.{suc, String, Option, none, List, [], ◌∷◌, All, or_else}
use ai_knowledge_system.Provenance.Types.{Envelope, Emission}
use ai_knowledge_system.Workflows.Json.{JsonObject}
use ai_knowledge_system.Workflows.Types.{
  HandlerStatus, completed, WorkflowExecution, HandlerResult, Failure, Run, returns, throws,
  read_clock, list_provenance, emit_provenance, assert_write,
}
use ai_knowledge_system.Workflows.Ensures.{
  Ensures, bind-Ensures, guard-Ensures, guard-Ensures_last, require_handler-IsGuard,
  assert_status-IsGuard, snapshot-IsGuard,
}
use ai_knowledge_system.Workflows.Kernel.State.{
  World, Kernel, Outcome, returned, thrown, M, require_handler, assert_status, snapshot,
  evidence_of, put,
}
use ai_knowledge_system.Workflows.Kernel.Log.{
  emit, prepare_provenance, record_provenance, authorize_write,
}
use ai_knowledge_system.Workflows.Kernel.Handling.{
  interpret, give_up, catch, invoke, prepare_all, append_all, with_result, stamp_completion,
  apply_prepared, apply_handler_result, handler_failure,
}
use ai_knowledge_system.Workflows.Kernel.Start.{
  starting, begin_start, begin_advance, finish, start, advance,
}
use ai_knowledge_system.Workflows.Invariant.{IsInvariant}
use ai_knowledge_system.Workflows.Wellformed.{binding_of, IsSoundEnvelope, IsStored}
use ai_knowledge_system.Workflows.Invariant.Changes.{
  Holds, put-Holds, emit-Holds, change-Holds, append-Holds, transition_to_failure-Keeps,
  prepare_provenance-Ensures, record_provenance-Ensures, authorize_write-Ensures,
  generate_next_actions-Keeps,
}
use ai_knowledge_system.Workflows.Invariant.Control.{fetch-Ensures}

catch-Ensures {ℓ} :
    {A : Type ℓ} (P W : Kernel → Type 0) (Q : A → Kernel → Type 0) (o : Outcome A)
    (f : Failure → M A)
    → Ensures P Q o
    → ((e : Failure) (k : Kernel) → P k → Ensures W Q (f e k))
    → Ensures W Q (catch o f)
catch-Ensures P W Q (returned a k) f h rescue = h
catch-Ensures P W Q (thrown e k) f h rescue = rescue e k h

module _ (world : World) (I : Kernel → Type 0) (inv : IsInvariant world I) where
  interpret-Ensures :
      (execution : WorkflowExecution) (run : Run) (k : Kernel)
      → Holds I execution k
      → Ensures (Holds I execution) (λ _. Holds I execution) (interpret world execution run k)
  unfolding interpret
  interpret-Ensures execution (returns result) k h = h
  interpret-Ensures execution (throws failure) k h = h
  interpret-Ensures execution (read_clock next) k h =
      interpret-Ensures execution (next (world.now k.ticks)) (record k { ticks = suc k.ticks })
        (inv.tick k h.0, h.1)
  interpret-Ensures execution (list_provenance next) k h =
      interpret-Ensures execution (next (evidence_of execution.execution_id k)) k h
  interpret-Ensures execution (emit_provenance input next) k h =
      bind-Ensures (Holds I execution) (λ _. Holds I execution) (λ _. Holds I execution)
        (record_provenance world execution input k) _
        (record_provenance-Ensures world I inv k execution input h)
        (λ envelope k' h'. interpret-Ensures execution (next envelope) k' h')
  interpret-Ensures execution (assert_write input next) k h =
      bind-Ensures (Holds I execution) (λ _. Holds I execution) (λ _. Holds I execution)
        (authorize_write world execution input k) _
        (authorize_write-Ensures world I inv k execution input h)
        (λ _ k' h'. interpret-Ensures execution next k' h')

  pub give_up-Keeps {ℓ} :
      {A : Type ℓ} (Q : A → Kernel → Type 0) (execution : WorkflowExecution) (failure : Failure)
      (k : Kernel)
      → Holds I execution k
      → Ensures I Q (give_up world {A = A} execution failure k)
  unfolding give_up
  give_up-Keeps Q execution failure k h =
      transition_to_failure-Keeps world I inv k execution (handler_failure failure) h

  pub invoke-Ensures :
      (execution : WorkflowExecution) (run : Run) (k : Kernel)
      → Holds I execution k
      → Ensures I (λ _. Holds I execution) (invoke world execution run k)
  unfolding invoke
  invoke-Ensures execution run k h =
      catch-Ensures (Holds I execution) I (λ _. Holds I execution) (interpret world execution run k)
        _ (interpret-Ensures execution run k h)
        (λ e k' h'. give_up-Keeps (λ _. Holds I execution) execution e k' h')

  prepare_all-Ensures :
      (execution : WorkflowExecution) (inputs : List Emission) (k : Kernel)
      → Holds I execution k
      → Ensures
          (Holds I execution)
          (λ envelopes k'.
            Holds I execution k' × All (IsSoundEnvelope (binding_of execution)) envelopes)
          (prepare_all world execution inputs k)
  unfolding prepare_all
  prepare_all-Ensures execution [] k h = (h, tt)
  prepare_all-Ensures execution (input ∷ rest) k h =
      bind-Ensures (Holds I execution)
        (λ envelope k'. Holds I execution k' × IsSoundEnvelope (binding_of execution) envelope) _
        (prepare_provenance world execution input k) _
        (prepare_provenance-Ensures world I inv k execution input h)
        λ envelope k' (h', sound).
          bind-Ensures (Holds I execution)
            (λ envelopes k''.
              Holds I execution k'' × All (IsSoundEnvelope (binding_of execution)) envelopes)
            _ (prepare_all world execution rest k') _ (prepare_all-Ensures execution rest k' h')
            λ envelopes k'' (h'', all). (h'', (sound, all))

  append_all-Holds :
      (execution : WorkflowExecution) (envelopes : List Envelope) (k : Kernel)
      → Holds I execution k
      → All (IsSoundEnvelope (binding_of execution)) envelopes
      → Holds I execution (append_all world execution envelopes k)
  unfolding append_all
  append_all-Holds execution [] k h all = h
  append_all-Holds execution (envelope ∷ rest) k h (sound, all) =
      append_all-Holds execution rest _ (append-Holds world I inv k execution envelope h sound) all

  -- The execution that a result makes of one is stored under the same identity.
  reported :
      (execution execution' : WorkflowExecution) (event_type : String) (payload : Option JsonObject)
      (envelopes : List Envelope) (k : Kernel)
      → I k
      → IsStored execution' k
      → All (IsSoundEnvelope (binding_of execution')) envelopes
      → Holds I execution' (
          emit world execution' event_type payload
            (append_all world execution' envelopes (put execution' k)))
  reported execution execution' event_type payload envelopes k w s all =
      emit-Holds world I inv _ execution' _ _
        (append_all-Holds execution' envelopes _ (put-Holds world I inv k execution' w s) all)

  apply_prepared-Keeps :
      (status : HandlerStatus) (execution : WorkflowExecution) (result : HandlerResult)
      (envelopes : List Envelope) (k : Kernel)
      → Holds I execution k
      → All (IsSoundEnvelope (binding_of execution)) envelopes
      → I (apply_prepared world status execution result envelopes k)
  unfolding apply_prepared stamp_completion with_result
  apply_prepared-Keeps completed execution result envelopes k (w, s) all =
      generate_next_actions-Keeps world I inv _ _ (
        reported execution (stamp_completion world (with_result execution result) k) _ _ envelopes
          (record k { ticks = suc k.ticks }) (inv.tick k w) s all)
  apply_prepared-Keeps _ execution result envelopes k (w, s) all =
      (reported execution (with_result execution result) _ _ envelopes k w s all).0

  pub apply_handler_result-Keeps :
      (execution : WorkflowExecution) (result : HandlerResult) (k : Kernel)
      → Holds I execution k
      → Ensures I (λ _. I) (apply_handler_result world execution result k)
  unfolding apply_handler_result
  apply_handler_result-Keeps execution result k h =
      let inputs : List Emission = or_else result.provenance_emissions [] in
      let prepared : List Envelope → Kernel → Type 0 = λ envelopes k'.
        Holds I execution k' × All (IsSoundEnvelope (binding_of execution)) envelopes in
      bind-Ensures I prepared (λ _. I)
        (catch (prepare_all world execution inputs k) (give_up world execution)) _
        (catch-Ensures (Holds I execution) I prepared (prepare_all world execution inputs k) _
          (prepare_all-Ensures execution inputs k h)
          (λ e k' h'. give_up-Keeps prepared execution e k' h'))
        λ envelopes k' (h', all).
          guard-Ensures_last I (snapshot execution.execution_id) _ (snapshot-IsGuard _)
            (apply_prepared-Keeps result.status execution result envelopes k' h' all)

  pub begin_start-Ensures :
      (id : String) (k : Kernel)
      → I k
      → Ensures I (λ begun. Holds I begun.0) (begin_start world id k)
  unfolding begin_start starting
  begin_start-Ensures id k w =
      fetch-Ensures world I inv (λ begun. Holds I begun.0) id _ k w
        λ execution _ (w', s).
          guard-Ensures I _ (assert_status execution _ _) _ k (assert_status-IsGuard execution _ _)
            w
            λ _ _.
              guard-Ensures I _ (require_handler execution) _ k (require_handler-IsGuard execution)
                w
                λ handler _.
                  change-Holds world I inv (record k { ticks = suc k.ticks })
                    (starting world execution k) _ none (inv.tick k w) s

  pub begin_advance-Ensures :
      (id : String) (k : Kernel)
      → I k
      → Ensures I (λ begun. Holds I begun.0) (begin_advance world id k)
  unfolding begin_advance
  begin_advance-Ensures id k w =
      fetch-Ensures world I inv (λ begun. Holds I begun.0) id _ k w
        λ execution _ h.
          guard-Ensures I _ (assert_status execution _ _) _ k (assert_status-IsGuard execution _ _)
            w
            λ _ _.
              guard-Ensures I _ (require_handler execution) _ k (require_handler-IsGuard execution)
                w λ handler _. h

  finish-Ensures :
      (execution : WorkflowExecution) (run : Run) (k : Kernel)
      → Holds I execution k
      → Ensures I (λ _. I) (finish world (execution, run) k)
  unfolding finish
  finish-Ensures execution run k h =
      bind-Ensures I (λ _. Holds I execution) (λ _. I) (invoke world execution run k) _
        (invoke-Ensures execution run k h)
        (λ result k' h'. apply_handler_result-Keeps execution result k' h')

  pub start-Keeps : (id : String) (k : Kernel) → I k → Ensures I (λ _. I) (start world id k)
  unfolding start
  start-Keeps id k w =
      bind-Ensures I (λ begun. Holds I begun.0) (λ _. I) (begin_start world id k) (finish world)
        (begin_start-Ensures id k w) (λ (execution, run) k' h. finish-Ensures execution run k' h)

  pub advance-Keeps : (id : String) (k : Kernel) → I k → Ensures I (λ _. I) (advance world id k)
  unfolding advance
  advance-Keeps id k w =
      bind-Ensures I (λ begun. Holds I begun.0) (λ _. I) (begin_advance world id k) (finish world)
        (begin_advance-Ensures id k w) (λ (execution, run) k' h. finish-Ensures execution run k' h)
