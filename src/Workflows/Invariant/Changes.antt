-- ===== src/Workflows/Invariant/Changes.antt =====
-- server/workflows/kernel.ts: `emit` after a change of the execution, `transitionToFailure`, the
-- recording of provenance and `generateNextActions` keep an invariant.
use ai_knowledge_system.Common.{
  suc, String, ◌≡◌, refl, ap, ◌⊎◌, inl, inr, Option, arith, eq_iff, Option-cases, truthy, or_option,
  lookup-insert,
}
use ai_knowledge_system.NextActions.Resolve.{get_default_result_class, resolve_next_action_envelope}
use ai_knowledge_system.Provenance.Types.{
  Envelope, Emission, GovernedWriteAuthorization, ExecutionBinding,
}
use ai_knowledge_system.Provenance.Service
use ai_knowledge_system.Provenance.Service.{
  ValidationError, Emitted, emitted, refused, build, validate, assert_governed_write_authorization,
}
use ai_knowledge_system.Provenance.Emission.{IsEnvelopeOf-build, emit-emitted_iff}
use ai_knowledge_system.Provenance.Validity.{validate-nil_iff}
use ai_knowledge_system.Workflows.Json.{JsonObject}
use ai_knowledge_system.Workflows.Types.{WorkflowExecution, ExecutionError}
use ai_knowledge_system.Workflows.Ensures.{Ensures, bind-Ensures}
use ai_knowledge_system.Workflows.Kernel.State.{World, Kernel, put}
use ai_knowledge_system.Workflows.Kernel.Log.{
  emit, failing, transition_to_failure, prepare_provenance, append_prepared_provenance,
  record_provenance, authorize_write,
}
use ai_knowledge_system.Workflows.Kernel.Control.{
  resolve_input, generate_for, generate_next_actions,
}
use ai_knowledge_system.Workflows.Invariant.{IsInvariant}
use ai_knowledge_system.Workflows.Wellformed.{
  binding_of, envelope_binding, IsSoundEnvelope, IsStored,
}

-- The invariant holds, and the map holds the execution.
abbrev pub Holds : (Kernel → Type 0) → WorkflowExecution → Kernel → Type 0
Holds I execution k = I k × IsStored execution k

pub Emitted-cases :
    (answer : Emitted)
    → ((envelope : Envelope) × (answer ≡ emitted envelope))
      ⊎ ((error : ValidationError) × (answer ≡ refused error))
Emitted-cases (emitted envelope) = inl (envelope, refl)
Emitted-cases (refused error) = inr (error, refl)

-- An envelope that the service returns is valid and bound as it was asked to be.
emitted-IsSoundEnvelope :
    (id now : String) (binding : ExecutionBinding) (input : Emission) (envelope : Envelope)
    → Service.emit id now binding input ≡ emitted envelope
    → IsSoundEnvelope binding envelope
unfolding build
emitted-IsSoundEnvelope id now binding input envelope e =
    let (built, valid) = (emit-emitted_iff id now binding input envelope).0 e in
    (
      ap envelope_binding (IsEnvelopeOf-build id now binding input envelope built),
      (validate-nil_iff envelope).1 valid,
    )

put-IsStored : (k : Kernel) (execution : WorkflowExecution) → IsStored execution (put execution k)
unfolding put
put-IsStored k execution = (
  execution,
  ground (
    arith,
    lookup-insert execution.execution_id execution.execution_id execution k.executions,
    eq_iff execution.execution_id execution.execution_id,
  ),
  refl,
)

emit-IsStored :
    (world : World) (k : Kernel) (execution : WorkflowExecution) (event_type : String)
    (payload : Option JsonObject)
    → IsStored execution k
    → IsStored execution (emit world execution event_type payload k)
unfolding emit
emit-IsStored world k execution event_type payload h = h

module _ (world : World) (I : Kernel → Type 0) (inv : IsInvariant world I) where
  pub put-Holds :
      (k : Kernel) (execution : WorkflowExecution)
      → I k
      → IsStored execution k
      → Holds I execution (put execution k)
  put-Holds k execution w s = (inv.changed k execution w s, put-IsStored k execution)

  pub emit-Holds :
      (k : Kernel) (execution : WorkflowExecution) (event_type : String)
      (payload : Option JsonObject)
      → Holds I execution k
      → Holds I execution (emit world execution event_type payload k)
  emit-Holds k execution event_type payload (w, s) = (
    inv.emitted k execution event_type payload w s,
    emit-IsStored world k execution event_type payload s,
  )

  -- The execution is changed in the map, and an event tells of it.
  pub change-Holds :
      (k : Kernel) (execution : WorkflowExecution) (event_type : String)
      (payload : Option JsonObject)
      → I k
      → IsStored execution k
      → Holds I execution (emit world execution event_type payload (put execution k))
  change-Holds k execution event_type payload w s =
      emit-Holds (put execution k) execution event_type payload (put-Holds k execution w s)

  pub transition_to_failure-Keeps :
      (k : Kernel) (execution : WorkflowExecution) (error : ExecutionError)
      → Holds I execution k
      → I (transition_to_failure world execution error k)
  unfolding transition_to_failure failing
  transition_to_failure-Keeps k execution error (w, s) =
      (change-Holds (record k { ticks = suc k.ticks }) (failing world execution error k) _ _
        (inv.tick k w) s).0

  pub prepare_provenance-Ensures :
      (k : Kernel) (execution : WorkflowExecution) (input : Emission)
      → Holds I execution k
      → Ensures
          (Holds I execution)
          (λ envelope k'. Holds I execution k' × IsSoundEnvelope (binding_of execution) envelope)
          (prepare_provenance world execution input k)
  unfolding prepare_provenance
  prepare_provenance-Ensures k execution input (w, s) =
      let drawn : Holds I execution (record k { ticks = suc k.ticks; drawn = suc k.drawn }) =
        (inv.tick (record k { drawn = suc k.drawn }) (inv.draw k w), s) in
      elim (Emitted-cases
        (Service.emit (world.uuid k.drawn) (world.now k.ticks) (binding_of execution) input)) [
          | inl (envelope, e) ↦
              rw (e, Ensures, prepare_provenance)
                (drawn, emitted-IsSoundEnvelope _ _ _ input envelope e)
          | inr (error, e) ↦ rw (e, Ensures, prepare_provenance) drawn
        ]

  pub append-Holds :
      (k : Kernel) (execution : WorkflowExecution) (envelope : Envelope)
      → Holds I execution k
      → IsSoundEnvelope (binding_of execution) envelope
      → Holds I execution (append_prepared_provenance world execution envelope k)
  unfolding append_prepared_provenance
  append-Holds k execution envelope (w, s) sound =
      emit-Holds _ execution _ _ (inv.attached k execution envelope w s sound, s)

  pub record_provenance-Ensures :
      (k : Kernel) (execution : WorkflowExecution) (input : Emission)
      → Holds I execution k
      → Ensures
          (Holds I execution)
          (λ _. Holds I execution)
          (record_provenance world execution input k)
  unfolding record_provenance
  record_provenance-Ensures k execution input h =
      bind-Ensures (Holds I execution)
        (λ envelope k'. Holds I execution k' × IsSoundEnvelope (binding_of execution) envelope)
        (λ _. Holds I execution) (prepare_provenance world execution input k) _
        (prepare_provenance-Ensures k execution input h)
        (λ envelope k' (h', sound). append-Holds k' execution envelope h' sound)

  pub authorize_write-Ensures :
      (k : Kernel) (execution : WorkflowExecution) (input : GovernedWriteAuthorization)
      → Holds I execution k
      → Ensures
          (Holds I execution)
          (λ _. Holds I execution)
          (authorize_write world execution input k)
  unfolding authorize_write
  authorize_write-Ensures k execution input h =
      elim (Option-cases (assert_governed_write_authorization input)) [
        | inl fine ↦ rw (fine, Ensures, authorize_write) (emit-Holds k execution _ _ h)
        | inr (error, e) ↦ rw (e, Ensures, authorize_write) h
      ]

  generate_for-Keeps :
      (k : Kernel) (execution : WorkflowExecution) (result_class : String)
      → Holds I execution k
      → I (generate_for world execution result_class k)
  unfolding generate_for
  generate_for-Keeps k execution result_class (w, s) =
      elim (Option-cases (
        resolve_next_action_envelope (world.now k.ticks)
          (resolve_input execution result_class k))) [
            | inl e ↦ rw (e, generate_for) (inv.changed k _ w s)
            | inr (envelope, e) ↦
                rw (e, generate_for)
                  (change-Holds (record k { ticks = suc k.ticks }) _ _ _ (inv.tick k w) s).0
          ]

  pub generate_next_actions-Keeps :
      (k : Kernel) (execution : WorkflowExecution)
      → Holds I execution k
      → I (generate_next_actions world execution k)
  unfolding generate_next_actions
  generate_next_actions-Keeps k execution h =
      elim (Option-cases (
        truthy
          (or_option execution.result_class (get_default_result_class execution.workflow_id)))) [
            | inl e ↦ rw (e, generate_next_actions) h.0
            | inr (result_class, e) ↦
                rw (e, generate_next_actions) (generate_for-Keeps k execution result_class h)
          ]
