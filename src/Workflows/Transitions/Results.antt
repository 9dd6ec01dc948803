-- ===== src/Workflows/Transitions/Results.antt =====
-- server/workflows/kernel.ts: what `applyHandlerResult` does with a handler's result: the provenance
-- that comes with it is recorded whole or not at all.
use mathlib.Core.Path.{subst}
use ai_knowledge_system.Common.{String, ◌≡◌, ap, ◌∙◌, some, List, [], ◌++◌, arith, or_else, lookup}
use ai_knowledge_system.Provenance.Types.{Envelope}
use ai_knowledge_system.Workflows.Types.{
  Status, failed, WorkflowExecution, ExecutionSnapshot, HandlerResult, Failure,
}
use ai_knowledge_system.Workflows.Ensures.{Ensures, bind-Ensures}
use ai_knowledge_system.Workflows.Kernel.State.{
  World, Kernel, Outcome, returned, thrown, M, log_of, evidence_of, require_execution, snapshot,
}
use ai_knowledge_system.Workflows.Kernel.Handling.{
  handler_status, give_up, prepare_all, apply_prepared, catch, apply_handler_result,
}
use ai_knowledge_system.Workflows.Calls.{settle}
use ai_knowledge_system.Workflows.Transitions.Recording.{
  SameMaps, Answer, Stands, Ensures-both, prepare_all-Answer, apply_prepared-Stands, give_up-Stands,
}

pub catch-Ensures {ℓ} :
    {A : Type ℓ} (P P' : Kernel → Type 0) (Q : A → Kernel → Type 0) (o : Outcome A)
    (f : Failure → M A)
    → Ensures P' Q o
    → ((e : Failure) (k : Kernel) → P' k → Ensures P Q (f e k))
    → Ensures P Q (catch o f)
catch-Ensures P P' Q (returned a k) f h next = h
catch-Ensures P P' Q (thrown e k) f h next = next e k h

-- The execution is FAILED, and its provenance is what it was.
abbrev pub HasFailed : WorkflowExecution → Kernel → Kernel → Type 0
HasFailed x k k' =
    Stands x.execution_id failed k' × (evidence_of x.execution_id k' ≡ evidence_of x.execution_id k)

-- The execution has the result's status, and its provenance has gained an envelope for each emission.
abbrev pub HasTaken :
    WorkflowExecution → HandlerResult → Kernel → ExecutionSnapshot → Kernel → Type 0
HasTaken x result k s k' =
    (lookup x.execution_id k'.executions ≡ some s.execution)
    × (s.execution.status ≡ handler_status result.status)
    × (envelopes : List Envelope) × Answer x (or_else result.provenance_emissions []) envelopes
    × (evidence_of x.execution_id k' ≡ evidence_of x.execution_id k ++ envelopes)

pub snapshot-Stands :
    (id : String) (status : Status) (k : Kernel)
    → Stands id status k
    → (s : ExecutionSnapshot) × (snapshot id k ≡ returned s k)
      × (lookup id k.executions ≡ some s.execution)
      × (s.execution.status ≡ status)
unfolding snapshot require_execution
snapshot-Stands id status k (y, found, stands) = (
  record { execution = y; events = log_of id k; provenance_envelopes = evidence_of id k },
  ground (arith, found),
  found,
  stands,
)

-- A result is applied whole or not at all: the call throws, the execution is FAILED and no envelope
-- is recorded; or it returns, the execution has the status of the result, and its provenance has
-- gained, in their order, the valid envelopes of the result's emissions, each bound to the execution.
pub apply_handler_result_lem :
    (world : World) (x : WorkflowExecution) (result : HandlerResult) (k : Kernel)
    → Ensures (HasFailed x k) (HasTaken x result k) (apply_handler_result world x result k)
unfolding apply_handler_result
apply_handler_result_lem world x result k =
    let inputs = or_else result.provenance_emissions [] in
    bind-Ensures (HasFailed x k) (λ envelopes k'. SameMaps k k' × Answer x inputs envelopes)
      (HasTaken x result k) _ _
      (catch-Ensures (HasFailed x k) (SameMaps k) _ (prepare_all world x inputs k) (give_up world x)
        (prepare_all-Answer world x inputs k)
        λ e k' (_, _, same).
          Ensures-both (HasFailed x k') (HasFailed x k) _ _ (give_up world x e k')
            (λ j (stands, kept).
              (stands, kept ∙ ap (λ m. or_else (lookup x.execution_id m) []) same))
            (λ _ _ h. h)
            (give_up-Stands (List Envelope) world x e k'
              (λ envelopes j. SameMaps k j × Answer x inputs envelopes)))
      λ envelopes k' ((_, _, same), answer).
        let (stands, evidence) = apply_prepared-Stands world x result envelopes k' result.status in
        let (s, shown, found, status) =
          snapshot-Stands x.execution_id (handler_status result.status)
            (apply_prepared world result.status x result envelopes k') stands in
        rw shown (
          found,
          status,
          envelopes,
          answer,
          evidence ∙ ap (λ m. or_else (lookup x.execution_id m) [] ++ envelopes) same,
        )

-- A handler's result without provenance is applied whatever status the execution has by then, also
-- when it was cancelled or has failed while the handler ran: it gets the status of the result.
pub settle-Stands :
    (world : World) (id : String) (x : WorkflowExecution) (result : HandlerResult) (k : Kernel)
    → lookup id k.executions ≡ some x
    → x.execution_id ≡ id
    → or_else result.provenance_emissions [] ≡ []
    → (s : ExecutionSnapshot) × (k' : Kernel) × (settle world id result k ≡ returned s k')
      × (lookup id k'.executions ≡ some s.execution)
      × (s.execution.status ≡ handler_status result.status)
unfolding settle require_execution apply_handler_result prepare_all
settle-Stands world id x result k found keyed plain =
    let (stands, _) = apply_prepared-Stands world x result [] k result.status in
    let (s, shown, held, status) =
      snapshot-Stands x.execution_id (handler_status result.status)
        (apply_prepared world result.status x result [] k) stands in
    (
      s,
      apply_prepared world result.status x result [] k,
      ground (arith, found, plain, shown),
      subst
          (λ j.
            lookup j (apply_prepared world result.status x result [] k).executions
            ≡ some s.execution)
          keyed held,
      status,
    )
