-- ===== src/Capabilities/Release.antt =====
-- server/capabilities/service.ts, materialize: when a schema is handed out.
use mathlib.Core.Path.{subst}
use ai_knowledge_system.Common.{
  String, true, false, ◌≡◌, refl, ap, ◌↔◌, ◌⊎◌, inl, inr, Option, none, some, arith, find, str_eq,
  eq_iff, find_holds, Bool-cases, Option-cases, truthy, Number, gt,
}
use ai_knowledge_system.Capabilities.Types.{
  CapabilityHealthStatus, verified, degraded, stale, unreachable, auth_required, schema_mismatch,
  blocked, CapabilityHealth, RuntimeCapabilityDefinition, CapabilityCandidate,
  CapabilityDiscoveryEnvelope, MaterializedCapability,
}
use ai_knowledge_system.Capabilities.Service.{
  CapabilityError, Reply, answers, refuses, Registry, health_name, expiry_refusal, health_refusal,
  definition_changed, is_candidate, is_rejected, materialized, definition_refusal,
  materialize_candidate, eligible_candidate,
}

-- The parts of a definition that the candidate has a copy of.
abbrev pub IsUnchanged : RuntimeCapabilityDefinition → CapabilityCandidate → Type 0
IsUnchanged definition candidate =
    (definition.version ≡ candidate.capability_version)
    × (definition.workflow_id ≡ candidate.workflow_id)
    × (definition.input_schema_ref ≡ candidate.input_schema_ref)
    × (definition.output_schema_ref ≡ candidate.output_schema_ref)
    × (definition.expected_schema_fingerprint ≡ candidate.expected_schema_fingerprint)

-- An expiry, if there is one, is a date after the time of the evaluation, which is a date too.
abbrev pub IsUnexpired : (String → Option Number) → Option String → String → Type 0
IsUnexpired parse_date none now = Unit
IsUnexpired parse_date (some expires_at) now =
    (expires evaluated : Number) × (parse_date expires_at ≡ some expires)
    × (parse_date now ≡ some evaluated)
    × (gt expires evaluated ≡ true)

abbrev pub IsHealthy : (String → Option Number) → CapabilityHealth → String → Type 0
IsHealthy parse_date health now =
    (health.status ≡ verified) × IsUnexpired parse_date (truthy health.expires_at) now

definition_changed_iff :
    (definition : RuntimeCapabilityDefinition) (candidate : CapabilityCandidate)
    → (definition_changed definition candidate ≡ false) ↔ IsUnchanged definition candidate
unfolding definition_changed
definition_changed_iff definition candidate = ground (
  arith,
  eq_iff definition.version candidate.capability_version,
  eq_iff definition.workflow_id candidate.workflow_id,
  eq_iff definition.input_schema_ref candidate.input_schema_ref,
  eq_iff definition.output_schema_ref candidate.output_schema_ref,
  eq_iff definition.expected_schema_fingerprint candidate.expected_schema_fingerprint,
)

verified_iff :
    (status : CapabilityHealthStatus)
    → (str_eq (health_name status) "VERIFIED" ≡ true) ↔ (status ≡ verified)
unfolding health_name
verified_iff verified = (λ e. refl, λ e. refl)
verified_iff degraded = (λ e. cc, λ e. cc)
verified_iff stale = (λ e. cc, λ e. cc)
verified_iff unreachable = (λ e. cc, λ e. cc)
verified_iff auth_required = (λ e. cc, λ e. cc)
verified_iff schema_mismatch = (λ e. cc, λ e. cc)
verified_iff blocked = (λ e. cc, λ e. cc)

expiry_refusal_iff :
    (parse_date : String → Option Number) (expires_at now : String)
    → (expiry_refusal parse_date expires_at now ≡ none)
      ↔ IsUnexpired parse_date (some expires_at) now
unfolding expiry_refusal
expiry_refusal_iff parse_date expires_at now = (
  λ e. elim (Option-cases (parse_date expires_at)) [
    | inl missing ↦ absurd (ground arith)
    | inr (expires, p) ↦ elim (Option-cases (parse_date now)) [
      | inl missing ↦ absurd (ground arith)
      | inr (evaluated, q) ↦ (expires, evaluated, p, q, ground arith)
    ]
  ],
  λ (expires, evaluated, p, q, later). ground arith,
)

health_refusal_iff :
    (parse_date : String → Option Number) (health : CapabilityHealth) (now : String)
    → (health_refusal parse_date health now ≡ none) ↔ IsHealthy parse_date health now
unfolding health_refusal
health_refusal_iff parse_date health now = elim (Option-cases (truthy health.expires_at)) [
  | inl free ↦ rw (free, IsUnexpired) (ground (arith, verified_iff health.status))
  | inr (expires_at, dated) ↦
      rw (dated)
        (ground (arith, verified_iff health.status, expiry_refusal_iff parse_date expires_at now))
]

pub Reply-cases :
    {A : Type 0} (r : Reply A)
    → ((e : CapabilityError) × (r ≡ refuses e)) ⊎ ((a : A) × (r ≡ answers a))
Reply-cases (refuses e) = inl (e, refl)
Reply-cases (answers a) = inr (a, refl)

module _ (registry : Registry) where
  -- What `materialize` asks of the definition that is registered now.
  abbrev pub IsReleasable :
      CapabilityDiscoveryEnvelope
      → CapabilityCandidate
      → RuntimeCapabilityDefinition
      → String
      → Type 0
  IsReleasable envelope candidate definition now =
      IsUnchanged definition candidate
      × (registry.registry_fingerprint registry.definitions ≡ envelope.registry_fingerprint)
      × IsHealthy registry.parse_date definition.health now
      × (registry.schema_fingerprint definition ≡ definition.expected_schema_fingerprint)

  definition_refusal_iff :
      (envelope : CapabilityDiscoveryEnvelope) (candidate : CapabilityCandidate)
      (definition : RuntimeCapabilityDefinition) (now : String)
      → (definition_refusal registry envelope candidate definition now ≡ none)
        ↔ IsReleasable envelope candidate definition now
  unfolding definition_refusal
  definition_refusal_iff envelope candidate definition now =
      let kept = definition_changed_iff definition candidate in
      let healthy = health_refusal_iff registry.parse_date definition.health now in
      elim (Bool-cases (definition_changed definition candidate)) [
        | inl changed ↦
            rw (changed)
              (λ e. absurd (ground arith), λ (same, _, _, _). absurd (ground (arith, kept.1 same)))
        | inr same ↦
            elim (Option-cases (health_refusal registry.parse_date definition.health now)) [
              | inl well ↦
                  rw (same, well)
                    (ground (
                      arith,
                      eq_iff (registry.registry_fingerprint registry.definitions)
                          envelope.registry_fingerprint,
                      eq_iff (registry.schema_fingerprint definition)
                          definition.expected_schema_fingerprint,
                    ))
              | inr (reason, ill) ↦ (
                λ e. absurd (ground arith),
                λ (_, _, well, _). absurd (ground (arith, healthy.1 well)),
              )
            ]
      ]

  -- The definition that stands under the candidate's id.
  abbrev pub registered : CapabilityCandidate → Option RuntimeCapabilityDefinition
  registered candidate =
      find (λ definition. str_eq definition.capability_id candidate.capability_id)
        registry.definitions

  -- The definition's own schemas and references, for this discovery, dated.
  abbrev pub schema_of :
      CapabilityDiscoveryEnvelope
      → RuntimeCapabilityDefinition
      → (now : String) → MaterializedCapability
  schema_of envelope definition now = record {
    discovery_id = envelope.discovery_id;
    execution_id = envelope.execution_id;
    capability_id = definition.capability_id;
    capability_version = definition.version;
    workflow_id = definition.workflow_id;
    scope_key = envelope.scope_key;
    input_schema_ref = definition.input_schema_ref;
    output_schema_ref = definition.output_schema_ref;
    input_schema = definition.input_schema;
    output_schema = definition.output_schema;
    schema_fingerprint = registry.schema_fingerprint definition;
    expected_schema_fingerprint = definition.expected_schema_fingerprint;
    materialized_at = now;
  }

  -- `materialize` hands out a schema for a candidate exactly when a definition is registered under
  -- the candidate's id that is as the candidate says (version, workflow, schemas, expected
  -- fingerprint), the registry has the fingerprint that it had at discovery, the definition's health
  -- is verified and has not expired, and the definition's schemas have the fingerprint it expects;
  -- and it is that definition's schema, dated now.
  pub materialize_candidate_iff :
      (envelope : CapabilityDiscoveryEnvelope) (candidate : CapabilityCandidate) (now : String)
      (schema : MaterializedCapability)
      → (materialize_candidate registry envelope candidate now ≡ answers schema) ↔ (
          (definition : RuntimeCapabilityDefinition) × (registered candidate ≡ some definition)
          × IsReleasable envelope candidate definition now
          × (schema_of envelope definition now ≡ schema))
  unfolding materialize_candidate materialized
  materialize_candidate_iff envelope candidate now schema =
      elim (Option-cases (registered candidate)) [
        | inl missing ↦ (λ e. absurd (ground arith), λ (_, found, _, _). absurd (ground arith))
        | inr (definition, found) ↦
            let released = definition_refusal_iff envelope candidate definition now in
            (
              λ e.
                  elim (Option-cases
                    (definition_refusal registry envelope candidate definition now)) [
                      | inl clear ↦ (definition, found, released.0 clear, ground arith)
                      | inr (error, refused) ↦ absurd (ground arith)
                    ],
              λ (other, found', fit, same).
                  rw
                    (
                      materialize_candidate,
                      found',
                      (definition_refusal_iff envelope candidate other now).1 fit,
                    )
                    (ap answers same),
            )
      ]

  -- The candidate that `materialize` goes on with is eligible.
  pub eligible_candidate_lem :
      (envelope : CapabilityDiscoveryEnvelope) (id : String) (candidate : CapabilityCandidate)
      → eligible_candidate registry envelope id ≡ answers candidate
      → find (is_candidate id) envelope.eligible_candidates ≡ some candidate
  unfolding eligible_candidate
  eligible_candidate_lem envelope id candidate e =
      elim (Option-cases (find (is_candidate id) envelope.eligible_candidates)) [
        | inl missing ↦ elim (Option-cases (find (is_rejected id) envelope.rejected_candidates)) [
          | inl unknown ↦ absurd (ground arith)
          | inr (refused, found) ↦ absurd (ground arith)
        ]
        | inr (other, found) ↦ ground arith
      ]

  -- The schema is the candidate's, with the fingerprint that its definition expects.
  pub materialize_candidate_lem :
      (envelope : CapabilityDiscoveryEnvelope) (candidate : CapabilityCandidate) (now : String)
      (schema : MaterializedCapability)
      → materialize_candidate registry envelope candidate now ≡ answers schema
      → (schema.capability_id ≡ candidate.capability_id)
        × (schema.schema_fingerprint ≡ schema.expected_schema_fingerprint)
  unfolding materialized
  materialize_candidate_lem envelope candidate now schema e =
      let (definition, found, (_, _, _, match), same) =
        (materialize_candidate_iff envelope candidate now schema).0 e in
      subst
        (λ m.
          (m.capability_id ≡ candidate.capability_id)
          × (m.schema_fingerprint ≡ m.expected_schema_fingerprint))
        same
        (
          (eq_iff definition.capability_id candidate.capability_id).0 (
              find_holds (λ definition. str_eq definition.capability_id candidate.capability_id)
                registry.definitions definition found),
          match,
        )
