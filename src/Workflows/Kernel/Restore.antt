-- ===== src/Workflows/Kernel/Restore.antt =====
-- server/workflows/kernel.ts: `restoreExecution`, which reads a persisted snapshot back, and
-- `getProvenanceEnvelope`.
use ai_knowledge_system.Common.{
  ℕ, suc, ◌+◌, String, Bool, true, false, not, ◌&&◌, ◌||◌, Option, none, some, List, [], ◌∷◌, ◌==◌,
  str_eq, find, is_empty, if◌then◌else◌, is_text, includes, insert,
}
use ai_knowledge_system.Provenance.Types.{Envelope, ReadProjection}
use ai_knowledge_system.Provenance.Service.{validate}
use ai_knowledge_system.Workflows.Types.{
  live, simulation, WorkflowExecution, ExecutionEvent, ExecutionSnapshot, Failure, kernel_error,
}
use ai_knowledge_system.Workflows.Kernel.State.{
  Kernel, returned, thrown, M, ◌>>=◌, ◌>>◌, throw, pure, evidence_of, require_execution, snapshot,
}

unfoldable pub is_bound_event : WorkflowExecution → ExecutionEvent → Bool
is_bound_event execution event =
    str_eq event.execution_id execution.execution_id
    && str_eq event.workflow_id execution.workflow_id
    && str_eq event.scope_key execution.scope_key

-- The loop over the events; `seen` is the set `eventIds`.
unfoldable pub check_events :
    WorkflowExecution → (index : ℕ) → (seen : List String) → List ExecutionEvent → Option Failure
check_events execution index seen [] = none
check_events execution index seen (event ∷ rest) =
    let later = check_events execution (suc index) (event.event_id ∷ seen) rest in
    if not (is_bound_event execution event)
    then some (
        kernel_error "RESTORE_EVENT_BINDING_MISMATCH"
          "Persisted execution event binding does not match the execution being restored." 409)
    else if not (event.sequence == index + 1) || includes seen event.event_id
    then some (
        kernel_error "RESTORE_EVENT_SEQUENCE_INVALID"
          "Persisted execution events must have unique IDs and contiguous sequence positions." 409)
    else later

unfoldable pub is_sound_envelope : WorkflowExecution → Envelope → Bool
is_sound_envelope execution envelope =
    str_eq envelope.used_by_execution_id execution.execution_id
    && str_eq envelope.workflow_id execution.workflow_id
    && str_eq envelope.scope_key execution.scope_key
    && is_empty (validate envelope)

-- The loop over the provenance.
unfoldable pub check_provenance : WorkflowExecution → List Envelope → Option Failure
check_provenance execution [] = none
check_provenance execution (envelope ∷ rest) =
    if is_sound_envelope execution envelope
    then check_provenance execution rest
    else some (
        kernel_error "RESTORE_PROVENANCE_INVALID"
          "Persisted provenance failed execution binding or current validation during restore." 409)

unfoldable pub install : ExecutionSnapshot → Kernel → Kernel
install restored k =
    let id = restored.execution.execution_id in
    record k {
      executions = insert id restored.execution k.executions;
      events = insert id restored.events k.events;
      provenance = insert id restored.provenance_envelopes k.provenance;
    }

unfoldable pub restore_execution : ExecutionSnapshot → M ExecutionSnapshot
restore_execution restored k = elim restored.execution.mode [
  | simulation ↦
      thrown
        (kernel_error "RESTORE_MODE_INVALID"
          "Only LIVE workflow executions can be restored into the server kernel." 409)
        k
  | live ↦ elim (check_events restored.execution 0 [] restored.events) [
    | some failure ↦ thrown failure k
    | none ↦ elim (check_provenance restored.execution restored.provenance_envelopes) [
      | some failure ↦ thrown failure k
      | none ↦ snapshot restored.execution.execution_id (install restored k)
    ]
  ]
]

unfoldable pub projection : Envelope → ReadProjection
projection envelope = record {
  envelope_id = envelope.envelope_id;
  object_id = envelope.object_id;
  object_type = envelope.object_type;
  operation = envelope.operation;
  scope_key = envelope.scope_key;
  authority_owner = envelope.authority_owner;
  authority_domain = envelope.authority_domain;
  authority_state = envelope.authority_state;
  authority_conflict_state = envelope.authority_conflict_state;
  used_by_execution_id = envelope.used_by_execution_id;
  workflow_id = envelope.workflow_id;
}

unfoldable pub scope_expected : Option String → String → Bool
scope_expected none scope_key = true
scope_expected (some expected) scope_key = str_eq expected scope_key

abbrev pub require : Bool → Failure → M (Unit {0})
require true failure = pure tt
require false failure = throw failure

unfoldable pub find_envelope : String → List Envelope → M Envelope
find_envelope id envelopes k =
    elim (find (λ candidate. str_eq candidate.envelope_id id) envelopes) [
      | none ↦
          thrown
            (kernel_error "PROVENANCE_ENVELOPE_NOT_FOUND"
              "Context provenance envelope was not found in the specified execution." 404)
            k
      | some envelope ↦ returned envelope k
    ]

unfoldable pub get_provenance_envelope :
    (execution_id envelope_id : String) → (expected_scope : Option String) → M ReadProjection
get_provenance_envelope execution_id envelope_id expected_scope = do
  require (is_text execution_id && is_text envelope_id) (
      kernel_error "PROVENANCE_READ_INVALID_REQUEST"
        "execution_id and provenance_envelope_id are required." 400)
  execution ← require_execution execution_id
  require (scope_expected expected_scope execution.scope_key) (
      kernel_error "PROVENANCE_SCOPE_MISMATCH"
        "Requested scope does not match the workflow execution scope." 409)
  envelope ← λ k. find_envelope envelope_id (evidence_of execution_id k) k
  require (str_eq envelope.used_by_execution_id execution_id) (
      kernel_error "PROVENANCE_EXECUTION_BINDING_MISMATCH"
        "Context provenance envelope is not bound to the requested execution." 409)
  require (str_eq envelope.scope_key execution.scope_key) (
      kernel_error "PROVENANCE_SCOPE_MISMATCH"
        "Context provenance envelope scope does not match the workflow execution scope." 409)
  require (is_empty (validate envelope)) (
      kernel_error "PROVENANCE_ENVELOPE_INVALID"
        "Stored context provenance envelope failed current validation." 409)
  pure (projection envelope)
