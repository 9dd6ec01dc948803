-- ===== src/Workflows/Transitions/Runs.antt =====
-- server/workflows/kernel.ts: the run of a handler leaves the stored executions and the handlers as they are.
use ai_knowledge_system.Common.{
  ℕ, suc, ◌<◌, String, ◌≡◌, refl, ◌∙◌, inl, inr, List, [], ◌∷◌, Option-cases,
}
use ai_knowledge_system.Provenance.Types.{Envelope, Emission, GovernedWriteAuthorization}
use ai_knowledge_system.Provenance.Service
use ai_knowledge_system.Provenance.Service.{emitted, refused, assert_governed_write_authorization}
use ai_knowledge_system.Workflows.Types.{
  HandlerStatus, WorkflowExecution, Run, returns, throws, read_clock, list_provenance,
  emit_provenance, assert_write,
}
use ai_knowledge_system.Workflows.Ensures.{Ensures, bind-Ensures}
use ai_knowledge_system.Workflows.Kernel.State.{
  World, Kernel, Outcome, returned, thrown, bind, evidence_of,
}
use ai_knowledge_system.Workflows.Kernel.Log.{
  emit, prepare_provenance, append_prepared_provenance, record_provenance, authorize_write,
}
use ai_knowledge_system.Workflows.Kernel.Handling.{prepare_all, append_all, with_result, interpret}
use ai_knowledge_system.Workflows.Kernel.Start.{start}
use ai_knowledge_system.Workflows.Wellformed.{binding_of}
use ai_knowledge_system.Workflows.Invariant.Changes.{Emitted-cases}

-- Every result of the run that would go on makes the execution smaller.
abbrev pub Decreases : (WorkflowExecution → ℕ) → WorkflowExecution → Run → Type 0
Decreases size x (returns result) =
    result.status ≡ HandlerStatus.running → size (with_result x result) < size x
Decreases size x (throws failure) = Unit
Decreases size x (read_clock next) = (now : String) → Decreases size x (next now)
Decreases size x (list_provenance next) =
    (envelopes : List Envelope) → Decreases size x (next envelopes)
Decreases size x (emit_provenance input next) =
    (envelope : Envelope) → Decreases size x (next envelope)
Decreases size x (assert_write input next) = Decreases size x next

-- The executions and the handlers are the same.
abbrev pub SameWork : Kernel → Kernel → Type 0
SameWork k k' = (k'.executions ≡ k.executions) × (k'.handlers ≡ k.handlers)

abbrev pub Keeping {ℓ} : {A : Type ℓ} → Kernel → Outcome A → Type 0
Keeping k o = Ensures (SameWork k) (λ _. SameWork k) o

SameWork-trans : (k k' k'' : Kernel) → SameWork k k' → SameWork k' k'' → SameWork k k''
SameWork-trans k k' k'' (a, b) (c, d) = (c ∙ a, d ∙ b)

onward {ℓ} :
    {A : Type ℓ} (start k : Kernel)
    → SameWork start k
    → (o : Outcome A) → Keeping k o
    → Keeping start o
onward start k same (returned a k') h = SameWork-trans start k k' same h
onward start k same (thrown e k') h = SameWork-trans start k k' same h

module _ (world : World) (x : WorkflowExecution) where
  record_provenance-Keeping :
      (input : Emission) (k : Kernel) → Keeping k (record_provenance world x input k)
  unfolding record_provenance prepare_provenance append_prepared_provenance emit
  record_provenance-Keeping input k =
      elim (Emitted-cases
        (Service.emit (world.uuid k.drawn) (world.now k.ticks) (binding_of x) input)) [
          | inl (envelope, e) ↦
              rw (e, Ensures, bind, record_provenance, prepare_provenance) (refl, refl)
          | inr (error, e) ↦
              rw (e, Ensures, bind, record_provenance, prepare_provenance) (refl, refl)
        ]

  prepare_provenance-Keeping :
      (input : Emission) (k : Kernel) → Keeping k (prepare_provenance world x input k)
  unfolding prepare_provenance
  prepare_provenance-Keeping input k =
      elim (Emitted-cases
        (Service.emit (world.uuid k.drawn) (world.now k.ticks) (binding_of x) input)) [
          | inl (envelope, e) ↦ rw (e, Ensures, prepare_provenance) (refl, refl)
          | inr (error, e) ↦ rw (e, Ensures, prepare_provenance) (refl, refl)
        ]

  authorize_write-Keeping :
      (input : GovernedWriteAuthorization) (k : Kernel)
      → Keeping k (authorize_write world x input k)
  unfolding authorize_write emit
  authorize_write-Keeping input k =
      elim (Option-cases (assert_governed_write_authorization input)) [
        | inl fine ↦ rw (fine, Ensures, authorize_write) (refl, refl)
        | inr (error, e) ↦ rw (e, Ensures, authorize_write) (refl, refl)
      ]

  pub interpret-Decreases :
      (size : WorkflowExecution → ℕ) (run : Run) (start k : Kernel)
      → SameWork start k
      → Decreases size x run
      → Ensures
          (SameWork start)
          (λ result k'. SameWork start k' × Decreases size x (returns result))
          (interpret world x run k)
  unfolding interpret
  interpret-Decreases size (returns result) start k same h = (same, h)
  interpret-Decreases size (throws failure) start k same h = same
  interpret-Decreases size (read_clock next) start k same h =
      interpret-Decreases size (next (world.now k.ticks)) start (record k { ticks = suc k.ticks })
        same (h (world.now k.ticks))
  interpret-Decreases size (list_provenance next) start k same h =
      interpret-Decreases size (next (evidence_of x.execution_id k)) start k same
        (h (evidence_of x.execution_id k))
  interpret-Decreases size (emit_provenance input next) start k same h =
      bind-Ensures (SameWork start) (λ _. SameWork start)
        (λ result k'. SameWork start k' × Decreases size x (returns result))
        (record_provenance world x input k) _
        (onward start k same _ (record_provenance-Keeping input k))
        λ envelope k' same'. interpret-Decreases size (next envelope) start k' same' (h envelope)
  interpret-Decreases size (assert_write input next) start k same h =
      bind-Ensures (SameWork start) (λ _. SameWork start)
        (λ result k'. SameWork start k' × Decreases size x (returns result))
        (authorize_write world x input k) _
        (onward start k same _ (authorize_write-Keeping input k))
        λ _ k' same'. interpret-Decreases size next start k' same' h

  pub prepare_all-Keeping :
      (inputs : List Emission) (start k : Kernel)
      → SameWork start k
      → Keeping start (prepare_all world x inputs k)
  unfolding prepare_all
  prepare_all-Keeping [] start k same = same
  prepare_all-Keeping (input ∷ rest) start k same =
      bind-Ensures (SameWork start) (λ _. SameWork start) (λ _. SameWork start)
        (prepare_provenance world x input k) _
        (onward start k same _ (prepare_provenance-Keeping input k))
        λ envelope k' same'.
          bind-Ensures (SameWork start) (λ _. SameWork start) (λ _. SameWork start)
            (prepare_all world x rest k') _ (prepare_all-Keeping rest start k' same')
            λ envelopes k'' same''. same''

  pub append_all-handlers :
      (envelopes : List Envelope) (k : Kernel)
      → (append_all world x envelopes k).handlers ≡ k.handlers
  unfolding append_all append_prepared_provenance emit
  append_all-handlers [] k = refl
  append_all-handlers (envelope ∷ rest) k =
      append_all-handlers rest (append_prepared_provenance world x envelope k)
