-- ===== src/Workflows/Transitions/Recording.antt =====
-- server/workflows/kernel.ts: the parts of `applyHandlerResult`, the preparation of a result's provenance
-- and what is recorded after it.
use mathlib.Core.List.{append-nil, append_assoc}
use ai_knowledge_system.Common.{
  suc, String, ◌≡◌, refl, sym, ◌∙◌, inl, inr, Option, some, List, [], ◌∷◌, ◌++◌, eq_iff,
  Option-cases, truthy, or_option, lookup, lookup-insert_self,
}
use ai_knowledge_system.NextActions.Resolve.{get_default_result_class, resolve_next_action_envelope}
use ai_knowledge_system.Provenance.Validity.{validate-nil_iff}
use ai_knowledge_system.Provenance.Types.{Envelope, Emission}
use ai_knowledge_system.Provenance.Service
use ai_knowledge_system.Provenance.Service.{ValidationError, emitted, refused, build, validate}
use ai_knowledge_system.Provenance.Emission.{IsEnvelopeOf-build, emit-emitted_iff}
use ai_knowledge_system.Workflows.Json.{JsonObject}
use ai_knowledge_system.Workflows.Types.{
  Status, failed, HandlerStatus, WorkflowExecution, HandlerResult, Failure,
}
use ai_knowledge_system.Workflows.Ensures.{Ensures, bind-Ensures}
use ai_knowledge_system.Workflows.Kernel.State.{
  World, Kernel, Outcome, returned, thrown, evidence_of, put,
}
use ai_knowledge_system.Workflows.Kernel.Log.{
  emit, failing, transition_to_failure, prepare_provenance, append_prepared_provenance,
}
use ai_knowledge_system.Workflows.Kernel.Control.{
  resolve_input, generate_for, generate_next_actions,
}
use ai_knowledge_system.Workflows.Kernel.Handling.{
  handler_status, with_result, stamp_completion, give_up, prepare_all, append_all, apply_prepared,
}
use ai_knowledge_system.Workflows.Wellformed.{binding_of}
use ai_knowledge_system.Workflows.Wellformed.Primitives.{or_else-insert}
use ai_knowledge_system.Workflows.Invariant.Changes.{Emitted-cases}

-- The three maps are the same.
abbrev pub SameMaps : Kernel → Kernel → Type 0
SameMaps k k' =
    (k'.executions ≡ k.executions) × (k'.events ≡ k.events) × (k'.provenance ≡ k.provenance)

-- The envelope is the valid one that the emission asks for, under some id and time.
abbrev pub IsAnswer : WorkflowExecution → Emission → Envelope → Type 0
IsAnswer x input envelope =
    (id : String) × (now : String) × (envelope ≡ build id now (binding_of x) input)
    × (validate envelope ≡ [])

-- One envelope for each emission, in their order.
abbrev pub Answer : WorkflowExecution → List Emission → List Envelope → Type 0
Answer x [] [] = Unit
Answer x (input ∷ inputs) (envelope ∷ envelopes) =
    IsAnswer x input envelope × Answer x inputs envelopes
Answer x _ _ = ⊥

-- The map holds the execution with this status.
abbrev pub Stands : String → Status → Kernel → Type 0
Stands id status k =
    (y : WorkflowExecution) × (lookup id k.executions ≡ some y) × (y.status ≡ status)

pub Ensures-both {ℓ} :
    {A : Type ℓ} (P P' : Kernel → Type 0) (Q Q' : A → Kernel → Type 0) (o : Outcome A)
    → ((k : Kernel) → P k → P' k)
    → ((a : A) (k : Kernel) → Q a k → Q' a k)
    → Ensures P Q o
    → Ensures P' Q' o
Ensures-both P P' Q Q' (returned a k) f g h = g a k h
Ensures-both P P' Q Q' (thrown e k) f g h = f k h

module _ (world : World) (x : WorkflowExecution) where
  prepare_provenance-Answer :
      (input : Emission) (k : Kernel)
      → Ensures
          (SameMaps k)
          (λ envelope k'. SameMaps k k' × IsAnswer x input envelope)
          (prepare_provenance world x input k)
  unfolding prepare_provenance
  prepare_provenance-Answer input k =
      elim (Emitted-cases
        (Service.emit (world.uuid k.drawn) (world.now k.ticks) (binding_of x) input)) [
          | inl (envelope, e) ↦
              let (built, valid) =
                (emit-emitted_iff (world.uuid k.drawn) (world.now k.ticks) (binding_of x) input
                    envelope).0
                  e in
              rw (e, Ensures, prepare_provenance)
                (
                  (refl, refl, refl),
                  (
                    world.uuid k.drawn,
                    world.now k.ticks,
                    IsEnvelopeOf-build (world.uuid k.drawn) (world.now k.ticks) (binding_of x) input
                        envelope built,
                    (validate-nil_iff envelope).1 valid,
                  ),
                )
          | inr (error, e) ↦ rw (e, Ensures, prepare_provenance) (refl, refl, refl)
        ]

  SameMaps-trans : (k k' k'' : Kernel) → SameMaps k k' → SameMaps k' k'' → SameMaps k k''
  SameMaps-trans k k' k'' (a, b, c) (d, e, f) = (d ∙ a, e ∙ b, f ∙ c)

  pub prepare_all-Answer :
      (inputs : List Emission) (k : Kernel)
      → Ensures
          (SameMaps k)
          (λ envelopes k'. SameMaps k k' × Answer x inputs envelopes)
          (prepare_all world x inputs k)
  unfolding prepare_all
  prepare_all-Answer [] k = ((refl, refl, refl), tt)
  prepare_all-Answer (input ∷ rest) k =
      bind-Ensures (SameMaps k) (λ envelope k'. SameMaps k k' × IsAnswer x input envelope) _
        (prepare_provenance world x input k) _ (prepare_provenance-Answer input k)
        λ envelope k' (same, answer).
          bind-Ensures (SameMaps k) (λ envelopes k''. SameMaps k k'' × Answer x rest envelopes) _
            (prepare_all world x rest k') _
            (Ensures-both (SameMaps k') (SameMaps k)
              (λ envelopes j. SameMaps k' j × Answer x rest envelopes)
              (λ envelopes j. SameMaps k j × Answer x rest envelopes) (prepare_all world x rest k')
              (λ j h. SameMaps-trans k k' j same h)
              (λ envelopes j h. (SameMaps-trans k k' j same h.0, h.1)) (prepare_all-Answer rest k'))
            λ envelopes k'' (same', answers). (same', (answer, answers))

  append_all-evidence :
      (envelopes : List Envelope) (k : Kernel)
      → (evidence_of x.execution_id (append_all world x envelopes k)
          ≡ evidence_of x.execution_id k ++ envelopes)
        × ((append_all world x envelopes k).executions ≡ k.executions)
  unfolding append_all append_prepared_provenance emit
  append_all-evidence [] k = (sym (append-nil _), refl)
  append_all-evidence (envelope ∷ rest) k =
      let (evidence, executions) =
        append_all-evidence rest (append_prepared_provenance world x envelope k) in
      (
        evidence
            ∙ rw
                (
                  or_else-insert x.execution_id x.execution_id
                      (evidence_of x.execution_id k ++ envelope ∷ []) k.provenance,
                  (eq_iff x.execution_id x.execution_id).1 refl,
                )
                (append_assoc (evidence_of x.execution_id k) (envelope ∷ []) rest),
        executions,
      )

  generate_for-Stands :
      (result_class : String) (y : WorkflowExecution) (k : Kernel)
      → y.execution_id ≡ x.execution_id
      → lookup x.execution_id k.executions ≡ some y
      → Stands x.execution_id y.status (generate_for world y result_class k)
        × (evidence_of x.execution_id (generate_for world y result_class k)
            ≡ evidence_of x.execution_id k)
  unfolding generate_for emit put
  generate_for-Stands result_class y k keyed found =
      elim (Option-cases
        (resolve_next_action_envelope (world.now k.ticks) (resolve_input y result_class k))) [
          | inl e ↦
              rw (e, generate_for, keyed)
                ((_, lookup-insert_self x.execution_id _ k.executions, refl), refl)
          | inr (envelope, e) ↦
              rw (e, generate_for, keyed)
                ((_, lookup-insert_self x.execution_id _ k.executions, refl), refl)
        ]

  pub generate_next_actions-Stands :
      (y : WorkflowExecution) (k : Kernel)
      → y.execution_id ≡ x.execution_id
      → lookup x.execution_id k.executions ≡ some y
      → Stands x.execution_id y.status (generate_next_actions world y k)
        × (evidence_of x.execution_id (generate_next_actions world y k)
            ≡ evidence_of x.execution_id k)
  unfolding generate_next_actions
  generate_next_actions-Stands y k keyed found =
      elim (Option-cases
        (truthy (or_option y.result_class (get_default_result_class y.workflow_id)))) [
          | inl e ↦ rw (e, generate_next_actions) ((y, found, refl), refl)
          | inr (result_class, e) ↦
              rw (e, generate_next_actions) (generate_for-Stands result_class y k keyed found)
        ]

  -- The execution is stored, the envelopes join its evidence, and the event tells of it.
  pub recorded-Stands :
      (event_type : String) (payload : Option JsonObject) (envelopes : List Envelope) (k : Kernel)
      → let k' = emit world x event_type payload (append_all world x envelopes (put x k)) in
        (lookup x.execution_id k'.executions ≡ some x)
        × (evidence_of x.execution_id k' ≡ evidence_of x.execution_id k ++ envelopes)
  unfolding emit put
  recorded-Stands event_type payload envelopes k =
      let (evidence, executions) = append_all-evidence envelopes (put x k) in
      (rw executions (lookup-insert_self x.execution_id x k.executions), evidence)

recorded :
    (world : World) (x : WorkflowExecution) (result : HandlerResult) (prepared : List Envelope)
    (k : Kernel)
    → let y = with_result x result in
      let k' =
        emit world y result.event_type result.event_data (append_all world y prepared (put y k)) in
      Stands x.execution_id (handler_status result.status) k'
      × (evidence_of x.execution_id k' ≡ evidence_of x.execution_id k ++ prepared)
unfolding with_result
recorded world x result prepared k =
    let y = with_result x result in
    let (found, evidence) =
      recorded-Stands world y result.event_type result.event_data prepared k in
    ((y, found, refl), evidence)

-- After the prepared envelopes, the result's event and the next actions of a completion.
pub apply_prepared-Stands :
    (world : World) (x : WorkflowExecution) (result : HandlerResult) (prepared : List Envelope)
    (k : Kernel)
    → (status : HandlerStatus)
    → Stands x.execution_id
        (handler_status result.status)
        (apply_prepared world status x result prepared k)
      × (evidence_of x.execution_id (apply_prepared world status x result prepared k)
          ≡ evidence_of x.execution_id k ++ prepared)
unfolding apply_prepared with_result stamp_completion
apply_prepared-Stands world x result prepared k HandlerStatus.completed =
    let y = stamp_completion world (with_result x result) k in
    let (found, evidence) =
      recorded-Stands world y result.event_type result.event_data prepared
        (record k { ticks = suc k.ticks }) in
    let (stands, same) = generate_next_actions-Stands world y y _ refl found in
    (stands, same ∙ evidence)
apply_prepared-Stands world x result prepared k HandlerStatus.running =
    recorded world x result prepared k
apply_prepared-Stands world x result prepared k HandlerStatus.waiting =
    recorded world x result prepared k
apply_prepared-Stands world x result prepared k HandlerStatus.approval_required =
    recorded world x result prepared k

pub give_up-Stands {ℓ} :
    (A : Type ℓ) (world : World) (x : WorkflowExecution) (failure : Failure) (k : Kernel)
    → (Q : A → Kernel → Type 0)
    → Ensures {A = A}
        (λ k'.
          Stands x.execution_id failed k'
          × (evidence_of x.execution_id k' ≡ evidence_of x.execution_id k))
        Q
        (give_up world x failure k)
unfolding give_up transition_to_failure failing emit put
give_up-Stands A world x failure k Q =
    ((_, lookup-insert_self x.execution_id _ k.executions, refl), refl)
