-- ===== src/Provenance/Emission.antt =====
-- server/provenance/service.ts: what `emit` and `assertGovernedWriteAuthorization` let through.
use ai_knowledge_system.Common.{
  String, true, false, refl, Option, some, or_else, ◌≡◌, ◌≢◌, ◌↔◌, inl, inr, none, List, [], arith,
  is_empty, Bool-cases,
}
use ai_knowledge_system.Provenance.Types.{
  no_conflict, Envelope, Emission, GovernedWriteAuthorization, ExecutionBinding,
}
use ai_knowledge_system.Provenance.Service.{
  validate, emitted, build, emit, authorization_issues, assert_governed_write_authorization,
}
use ai_knowledge_system.Provenance.Validity.{
  HasText, IsValid, validate-nil_iff, iff_trans, both-nil_iff, issue_if-nil_iff,
  issue_if-not-nil_iff, is_empty-false_iff, non_empty_iff,
}

is_empty-true_iff {ℓ} : {A : Type ℓ} (xs : List A) → (is_empty xs ≡ true) ↔ (xs ≡ [])
is_empty-true_iff xs = ground arith

-- The value is the given one, or the default where none is given.
abbrev pub IsOrDefault {ℓ} : {A : Type ℓ} → Option A → (default value : A) → Type ℓ
IsOrDefault none default value = value ≡ default
IsOrDefault (some given) default value = value ≡ given

or_else_lem {ℓ} :
    {A : Type ℓ} (given : Option A) (default value : A)
    → IsOrDefault given default value
    → value ≡ or_else given default
or_else_lem none default value h = h
or_else_lem (some a) default value h = h

or_else-IsOrDefault {ℓ} :
    {A : Type ℓ} (given : Option A) (default : A)
    → IsOrDefault given default (or_else given default)
or_else-IsOrDefault none default = refl
or_else-IsOrDefault (some a) default = refl

-- The envelope says what the input says, for the binding's execution, under the given id and time. What
-- the input leaves out is empty, without a conflict, and not authorized to write.
pub record IsEnvelopeOf (id now : String) (binding : ExecutionBinding) (input : Emission)
    (envelope : Envelope) : Type 0 where
  pub envelope_id : envelope.envelope_id ≡ id
  pub object_id : envelope.object_id ≡ input.object_id
  pub object_type : envelope.object_type ≡ input.object_type
  pub operation : envelope.operation ≡ input.operation
  pub epistemic_type : envelope.epistemic_type ≡ input.epistemic_type
  pub scope_key : envelope.scope_key ≡ binding.scope_key
  pub source_system : envelope.source_system ≡ input.source_system
  pub source_id : envelope.source_id ≡ input.source_id
  pub source_version : envelope.source_version ≡ input.source_version
  pub source_fingerprint : envelope.source_fingerprint ≡ input.source_fingerprint
  pub retrieved_at : envelope.retrieved_at ≡ input.retrieved_at
  pub object_fingerprint : envelope.object_fingerprint ≡ input.object_fingerprint
  pub parent_evidence_ids : IsOrDefault input.parent_evidence_ids [] envelope.parent_evidence_ids
  pub transform_chain : IsOrDefault input.transform_chain [] envelope.transform_chain
  pub authority_owner : envelope.authority_owner ≡ input.authority_owner
  pub authority_domain : envelope.authority_domain ≡ input.authority_domain
  pub authority_state : envelope.authority_state ≡ input.authority_state
  pub authority_conflict_state :
      IsOrDefault input.authority_conflict_state no_conflict envelope.authority_conflict_state
  pub confidence : envelope.confidence ≡ input.confidence
  pub access_policy_refs : envelope.access_policy_refs ≡ input.access_policy_refs
  pub write_policy_refs : IsOrDefault input.write_policy_refs [] envelope.write_policy_refs
  pub used_by_execution_id : envelope.used_by_execution_id ≡ binding.execution_id
  pub workflow_id : envelope.workflow_id ≡ binding.workflow_id
  pub trace_id : envelope.trace_id ≡ input.trace_id
  pub span_id : envelope.span_id ≡ input.span_id
  pub mason_episode_id : envelope.mason_episode_id ≡ input.mason_episode_id
  pub write_plan_id : envelope.write_plan_id ≡ input.write_plan_id
  pub authorization_id : envelope.authorization_id ≡ input.authorization_id
  pub execution_receipt_id : envelope.execution_receipt_id ≡ input.execution_receipt_id
  pub destination : envelope.destination ≡ input.destination
  pub write_authorized : IsOrDefault input.write_authorized false envelope.write_authorized
  pub emitted_at : envelope.emitted_at ≡ now
  pub validated_at : envelope.validated_at ≡ now

build-IsEnvelopeOf :
    (id now : String) (binding : ExecutionBinding) (input : Emission)
    → IsEnvelopeOf id now binding input (build id now binding input)
unfolding build
build-IsEnvelopeOf id now binding input = record {
  envelope_id = refl;
  object_id = refl;
  object_type = refl;
  operation = refl;
  epistemic_type = refl;
  scope_key = refl;
  source_system = refl;
  source_id = refl;
  source_version = refl;
  source_fingerprint = refl;
  retrieved_at = refl;
  object_fingerprint = refl;
  parent_evidence_ids = or_else-IsOrDefault input.parent_evidence_ids [];
  transform_chain = or_else-IsOrDefault input.transform_chain [];
  authority_owner = refl;
  authority_domain = refl;
  authority_state = refl;
  authority_conflict_state = or_else-IsOrDefault input.authority_conflict_state no_conflict;
  confidence = refl;
  access_policy_refs = refl;
  write_policy_refs = or_else-IsOrDefault input.write_policy_refs [];
  used_by_execution_id = refl;
  workflow_id = refl;
  trace_id = refl;
  span_id = refl;
  mason_episode_id = refl;
  write_plan_id = refl;
  authorization_id = refl;
  execution_receipt_id = refl;
  destination = refl;
  write_authorized = or_else-IsOrDefault input.write_authorized false;
  emitted_at = refl;
  validated_at = refl;
}

pub IsEnvelopeOf-build :
    (id now : String) (binding : ExecutionBinding) (input : Emission) (envelope : Envelope)
    → IsEnvelopeOf id now binding input envelope
    → envelope ≡ build id now binding input
unfolding build
IsEnvelopeOf-build id now binding input envelope h = λ i. record {
  envelope_id = h.envelope_id i;
  object_id = h.object_id i;
  object_type = h.object_type i;
  operation = h.operation i;
  epistemic_type = h.epistemic_type i;
  scope_key = h.scope_key i;
  source_system = h.source_system i;
  source_id = h.source_id i;
  source_version = h.source_version i;
  source_fingerprint = h.source_fingerprint i;
  retrieved_at = h.retrieved_at i;
  object_fingerprint = h.object_fingerprint i;
  parent_evidence_ids =
      or_else_lem input.parent_evidence_ids [] envelope.parent_evidence_ids h.parent_evidence_ids i;
  transform_chain =
      or_else_lem input.transform_chain [] envelope.transform_chain h.transform_chain i;
  authority_owner = h.authority_owner i;
  authority_domain = h.authority_domain i;
  authority_state = h.authority_state i;
  authority_conflict_state =
      or_else_lem input.authority_conflict_state no_conflict envelope.authority_conflict_state
        h.authority_conflict_state i;
  confidence = h.confidence i;
  access_policy_refs = h.access_policy_refs i;
  write_policy_refs =
      or_else_lem input.write_policy_refs [] envelope.write_policy_refs h.write_policy_refs i;
  used_by_execution_id = h.used_by_execution_id i;
  workflow_id = h.workflow_id i;
  trace_id = h.trace_id i;
  span_id = h.span_id i;
  mason_episode_id = h.mason_episode_id i;
  write_plan_id = h.write_plan_id i;
  authorization_id = h.authorization_id i;
  execution_receipt_id = h.execution_receipt_id i;
  destination = h.destination i;
  write_authorized =
      or_else_lem input.write_authorized false envelope.write_authorized h.write_authorized i;
  emitted_at = h.emitted_at i;
  validated_at = h.validated_at i;
}

-- `emit` returns an envelope exactly when it is the one that the binding and the input describe, with
-- the defaults for what the input leaves out, and it is valid.
pub emit-emitted_iff :
    (id now : String) (binding : ExecutionBinding) (input : Emission) (envelope : Envelope)
    → (emit id now binding input ≡ emitted envelope)
      ↔ (IsEnvelopeOf id now binding input envelope × IsValid envelope)
unfolding emit
emit-emitted_iff id now binding input envelope =
    let own = IsEnvelopeOf-build id now binding input envelope in
    elim (Bool-cases (is_empty (validate (build id now binding input)))) [
      | inl fine ↦ (
        λ e.
            let same : envelope ≡ build id now binding input = ground arith in
            (
              rw same (build-IsEnvelopeOf id now binding input),
              rw same ((validate-nil_iff _).0 ((is_empty-true_iff _).0 fine)),
            ),
        λ h. let same = own h.0 in ground arith,
      )
      | inr bad ↦ (
        λ e. absurd (ground arith),
        λ h.
            let valid : IsValid (build id now binding input) = rw (own h.0) at h.1 in
            let gone : is_empty (validate (build id now binding input)) ≡ true =
              (is_empty-true_iff _).1 ((validate-nil_iff _).1 valid) in
            absurd (ground arith),
      )
    ]

-- A governed write may execute: every part of its authorization is given.
pub record IsAuthorization (input : GovernedWriteAuthorization) : Type 0 where
  pub authorized : input.write_authorized ≡ true
  pub policies : input.write_policy_refs ≢ []
  pub episode : HasText input.mason_episode_id
  pub plan : HasText input.write_plan_id
  pub authorization : HasText input.authorization_id
  pub target : HasText input.destination

authorization_issues-nil_iff :
    (input : GovernedWriteAuthorization) → (authorization_issues input ≡ []) ↔ IsAuthorization input
unfolding authorization_issues
authorization_issues-nil_iff input =
    iff_trans
      (both-nil_iff _ _
        (both-nil_iff _ _
          (both-nil_iff _ _
            (both-nil_iff _ _
              (both-nil_iff _ _ (issue_if-not-nil_iff _ _ (λ h. h, λ h. h))
                (issue_if-nil_iff _ _ (is_empty-false_iff input.write_policy_refs)))
              (issue_if-not-nil_iff _ _ (non_empty_iff (some input.mason_episode_id))))
            (issue_if-not-nil_iff _ _ (non_empty_iff (some input.write_plan_id))))
          (issue_if-not-nil_iff _ _ (non_empty_iff (some input.authorization_id))))
        (issue_if-not-nil_iff _ _ (non_empty_iff (some input.destination))))
      (
        λ h. record {
          authorized = h.0.0.0.0.0;
          policies = h.0.0.0.0.1;
          episode = h.0.0.0.1;
          plan = h.0.0.1;
          authorization = h.0.1;
          target = h.1;
        },
        λ w. (((((w.authorized, w.policies), w.episode), w.plan), w.authorization), w.target),
      )

-- The assertion returns exactly when every part of the authorization is given.
pub assert-none_iff :
    (input : GovernedWriteAuthorization)
    → (assert_governed_write_authorization input ≡ none) ↔ IsAuthorization input
unfolding assert_governed_write_authorization
assert-none_iff input =
    iff_trans
      (
        λ e. ground (arith, is_empty-true_iff (authorization_issues input)),
        λ h. ground (arith, is_empty-true_iff (authorization_issues input)),
      )
      (authorization_issues-nil_iff input)
