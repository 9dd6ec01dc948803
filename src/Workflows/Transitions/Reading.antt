-- ===== src/Workflows/Transitions/Reading.antt =====
-- server/workflows/kernel.ts: what `getProvenanceEnvelope` shows, and to whom.
use ai_knowledge_system.Common.{
  String, ◌≡◌, ◌↔◌, refl, inl, inr, true, Option, some, List, [], ◌∷◌, arith, is_empty, is_text,
  find, str_eq, eq_iff, Option-cases, lookup,
}
use ai_knowledge_system.Provenance.Types.{Envelope, ReadProjection}
use ai_knowledge_system.Provenance.Service.{validate}
use ai_knowledge_system.Workflows.Ensures.{IsGuard}
use ai_knowledge_system.Workflows.Types.{WorkflowExecution}
use ai_knowledge_system.Workflows.Kernel.State.{
  Kernel, returned, after, evidence_of, require_execution,
}
use ai_knowledge_system.Workflows.Kernel.Restore.{
  projection, scope_expected, find_envelope, get_provenance_envelope,
}

is_empty-nil_iff {ℓ} : {A : Type ℓ} (xs : List A) → (is_empty xs ≡ true) ↔ (xs ≡ [])
is_empty-nil_iff [] = (λ _. refl, λ _. refl)
is_empty-nil_iff (x ∷ xs) = (λ e. absurd (ground arith), λ e. absurd (ground arith))

-- The envelope of this id, in the evidence of this execution, that may be shown.
abbrev pub IsReadable :
    (execution_id envelope_id : String) → Option String → Kernel → Envelope → Type 0
IsReadable execution_id envelope_id expected k envelope =
    (is_text execution_id ≡ true)
    × (is_text envelope_id ≡ true)
    × (x : WorkflowExecution) × (lookup execution_id k.executions ≡ some x)
    × (scope_expected expected x.scope_key ≡ true)
    × (find (λ candidate. str_eq candidate.envelope_id envelope_id) (evidence_of execution_id k)
        ≡ some envelope)
    × (envelope.used_by_execution_id ≡ execution_id)
    × (envelope.scope_key ≡ x.scope_key)
    × (validate envelope ≡ [])

-- What a reader sees of an envelope: its object, its operation, its authority and its binding.
abbrev pub shown_of : Envelope → ReadProjection
shown_of envelope = record {
  envelope_id = envelope.envelope_id;
  object_id = envelope.object_id;
  object_type = envelope.object_type;
  operation = envelope.operation;
  scope_key = envelope.scope_key;
  authority_owner = envelope.authority_owner;
  authority_domain = envelope.authority_domain;
  authority_state = envelope.authority_state;
  authority_conflict_state = envelope.authority_conflict_state;
  used_by_execution_id = envelope.used_by_execution_id;
  workflow_id = envelope.workflow_id;
}

get_provenance_envelope-shows :
    (execution_id envelope_id : String) (expected : Option String) (k k' : Kernel)
    (shown : ReadProjection)
    → get_provenance_envelope execution_id envelope_id expected k ≡ returned shown k'
    → (envelope : Envelope) × IsReadable execution_id envelope_id expected k envelope
      × (shown ≡ shown_of envelope)
unfolding get_provenance_envelope require_execution find_envelope projection
get_provenance_envelope-shows execution_id envelope_id expected k k' shown e =
    elim (Option-cases (lookup execution_id k.executions)) [
      | inl missing ↦ absurd (ground arith)
      | inr (x, found) ↦
          elim (Option-cases (
            find (λ candidate. str_eq candidate.envelope_id envelope_id)
              (evidence_of execution_id k))) [
                | inl missing ↦ absurd (ground arith)
                | inr (envelope, there) ↦ (
                  envelope,
                  (
                    ground arith,
                    ground arith,
                    x,
                    found,
                    ground arith,
                    there,
                    ground (arith, eq_iff envelope.used_by_execution_id execution_id),
                    ground (arith, eq_iff envelope.scope_key x.scope_key),
                    (is_empty-nil_iff (validate envelope)).0 (ground arith),
                  ),
                  ground arith,
                )
              ]
    ]

get_provenance_envelope-readable :
    (execution_id envelope_id : String) (expected : Option String) (k : Kernel)
    (envelope : Envelope)
    → IsReadable execution_id envelope_id expected k envelope
    → get_provenance_envelope execution_id envelope_id expected k ≡ returned (shown_of envelope) k
unfolding get_provenance_envelope require_execution find_envelope projection
get_provenance_envelope-readable execution_id envelope_id expected k envelope
      (a, b, x, found, scope, there, bound, same, valid) =
    let fine = (is_empty-nil_iff (validate envelope)).1 valid in
    ground (
      arith,
      fine,
      eq_iff envelope.used_by_execution_id execution_id,
      eq_iff envelope.scope_key x.scope_key,
    )

get_provenance_envelope-IsGuard :
    (execution_id envelope_id : String) (expected : Option String)
    → IsGuard (get_provenance_envelope execution_id envelope_id expected)
unfolding get_provenance_envelope require_execution find_envelope
get_provenance_envelope-IsGuard execution_id envelope_id expected k = ground arith

-- A read changes nothing, and it shows an envelope exactly when the two ids are given, the execution
-- exists and has the scope that is expected, and the envelope of that id in its evidence is bound to
-- the execution and its scope and is valid now; it then shows that envelope's projection.
pub get_provenance_envelope_iff :
    (execution_id envelope_id : String) (expected : Option String) (k : Kernel)
    (shown : ReadProjection)
    → (after (get_provenance_envelope execution_id envelope_id expected k) ≡ k)
      × ((get_provenance_envelope execution_id envelope_id expected k ≡ returned shown k) ↔ (
          (envelope : Envelope) × IsReadable execution_id envelope_id expected k envelope
          × (shown ≡ shown_of envelope)))
get_provenance_envelope_iff execution_id envelope_id expected k shown = (
  get_provenance_envelope-IsGuard execution_id envelope_id expected k,
  (
    get_provenance_envelope-shows execution_id envelope_id expected k k shown,
    λ (envelope, readable, same).
        rw same
          (get_provenance_envelope-readable execution_id envelope_id expected k envelope readable),
  ),
)
