-- ===== src/Capabilities/Service.antt =====
-- server/capabilities/service.ts: the guards of `discover`, and `materialize` with
-- `evaluateCapabilityHealth` of policy.ts. What stays a parameter is a `Registry`: the sorted
-- definitions, the SHA-256 fingerprints, the milliseconds that `Date.parse` reads in a text (`none` if
-- it reads none), and the survey of the candidates, which gives the envelope for an id and a time.
use ai_knowledge_system.Common.{
  ℕ, String, Bool, not, ◌||◌, Option, none, some, List, [], ◌∷◌, find, str_eq, is_text,
  if◌then◌else◌, concat, join, truthy, Number, gt,
}
use ai_knowledge_system.Capabilities.Types.{
  CapabilityHealthStatus, verified, degraded, stale, unreachable, auth_required, schema_mismatch,
  blocked, CapabilityHealth, RuntimeCapabilityDefinition, CapabilityCandidate,
  RejectedCapabilityCandidate, CapabilityDiscoveryEnvelope, MaterializedCapability,
  CapabilityDiscoveryInput,
}

-- `CapabilityDiscoveryError`.
pub record CapabilityError : Type 0 where
  pub code : String
  pub message : String
  pub http_status : ℕ

-- A call that returns, or throws.
pub data Reply (A : Type 0) : Type 0 where
  answers : A → Reply A
  refuses : CapabilityError → Reply A

pub record Registry : Type 0 where
  pub definitions : List RuntimeCapabilityDefinition
  pub registry_fingerprint : List RuntimeCapabilityDefinition → String
  pub schema_fingerprint : RuntimeCapabilityDefinition → String
  pub parse_date : String → Option Number
  pub survey : CapabilityDiscoveryInput → (id generated_at : String) → CapabilityDiscoveryEnvelope

abbrev pub refusal : {A : Type 0} → (code message : String) → (http_status : ℕ) → Reply A
refusal code message http_status =
    refuses (record { code = code; message = message; http_status = http_status })

-- The two guards of `discover`: `none` if it goes on.
unfoldable pub discovery_refusal : CapabilityDiscoveryInput → Option CapabilityError
discovery_refusal input =
    if not (is_text input.intent_class)
    then some (record {
      code = "CAPABILITY_INTENT_REQUIRED";
      message = "intent_class is required.";
      http_status = 400;
    })
    else if not (is_text input.scope_key)
    then some (record {
      code = "CAPABILITY_SCOPE_REQUIRED";
      message = "scope_key is required.";
      http_status = 400;
    })
    else none

unfoldable pub health_name : CapabilityHealthStatus → String
health_name verified = "VERIFIED"
health_name degraded = "DEGRADED"
health_name stale = "STALE"
health_name unreachable = "UNREACHABLE"
health_name auth_required = "AUTH_REQUIRED"
health_name schema_mismatch = "SCHEMA_MISMATCH"
health_name blocked = "BLOCKED"

-- `evaluateCapabilityHealth`: the code and the message that `materialize` throws for the reason, and
-- `none` where the health is compatible.
unfoldable pub expiry_refusal :
    (parse_date : String → Option Number)
    → (expires_at evaluated_at : String) → Option (String × String)
expiry_refusal parse_date expires_at evaluated_at = elim (parse_date expires_at) [
  | none ↦
      some
        ("CAPABILITY_HEALTH_EXPIRED", "Capability health expiry is invalid and cannot be trusted.")
  | some expires ↦
      let expired = some (
        "CAPABILITY_HEALTH_EXPIRED",
        concat ("Capability health verification expired at " ∷ expires_at ∷ "." ∷ []),
      ) in
      elim (parse_date evaluated_at) [
        | none ↦ expired
        | some evaluated ↦ if gt expires evaluated then none else expired
      ]
]

unfoldable pub health_refusal :
    (parse_date : String → Option Number)
    → CapabilityHealth
    → (evaluated_at : String) → Option (String × String)
health_refusal parse_date health evaluated_at =
    if not (str_eq (health_name health.status) "VERIFIED")
    then some (
      "CAPABILITY_HEALTH_BLOCKED",
      concat ("Capability health is " ∷ health_name health.status ∷ "." ∷ []),
    )
    else elim (truthy health.expires_at) [
      | none ↦ none
      | some expires_at ↦ expiry_refusal parse_date expires_at evaluated_at
    ]

abbrev pub is_candidate : String → CapabilityCandidate → Bool
is_candidate id candidate = str_eq candidate.capability_id id

abbrev pub is_rejected : String → RejectedCapabilityCandidate → Bool
is_rejected id rejected = str_eq rejected.candidate.capability_id id

-- `details.join(" ") || fallback`.
abbrev pub details_or : List String → (fallback : String) → String
details_or details fallback =
    let text = join " " details in if str_eq text "" then fallback else text

unfoldable pub definition_changed : RuntimeCapabilityDefinition → CapabilityCandidate → Bool
definition_changed definition candidate =
    not (str_eq definition.version candidate.capability_version)
    || not (str_eq definition.workflow_id candidate.workflow_id)
    || not (str_eq definition.input_schema_ref candidate.input_schema_ref)
    || not (str_eq definition.output_schema_ref candidate.output_schema_ref)
    || not (str_eq definition.expected_schema_fingerprint candidate.expected_schema_fingerprint)

module _ (registry : Registry) where
  open registry use {definitions, registry_fingerprint, schema_fingerprint, parse_date}

  unfoldable pub materialized :
      CapabilityDiscoveryEnvelope
      → RuntimeCapabilityDefinition
      → (now : String) → MaterializedCapability
  materialized envelope definition now = record {
    discovery_id = envelope.discovery_id;
    execution_id = envelope.execution_id;
    capability_id = definition.capability_id;
    capability_version = definition.version;
    workflow_id = definition.workflow_id;
    scope_key = envelope.scope_key;
    input_schema_ref = definition.input_schema_ref;
    output_schema_ref = definition.output_schema_ref;
    input_schema = definition.input_schema;
    output_schema = definition.output_schema;
    schema_fingerprint = schema_fingerprint definition;
    expected_schema_fingerprint = definition.expected_schema_fingerprint;
    materialized_at = now;
  }

  -- The tests on the definition that is registered now.
  unfoldable pub definition_refusal :
      CapabilityDiscoveryEnvelope
      → CapabilityCandidate
      → RuntimeCapabilityDefinition
      → (now : String) → Option CapabilityError
  definition_refusal envelope candidate definition now =
      if definition_changed definition candidate
      then some (record {
        code = "CAPABILITY_DEFINITION_CHANGED";
        message = concat (
            "Capability '" ∷ candidate.capability_id
            ∷ "' changed after discovery; run discovery again before materialization." ∷ []);
        http_status = 409;
      })
      else if not (str_eq (registry_fingerprint definitions) envelope.registry_fingerprint)
      then some (record {
        code = "CAPABILITY_REGISTRY_CHANGED";
        message =
            "The runtime capability registry changed after discovery; run discovery again before materialization.";
        http_status = 409;
      })
      else elim (health_refusal parse_date definition.health now) [
        | some (code, message) ↦ some (record { code = code; message = message; http_status = 409 })
        | none ↦
            if not (str_eq (schema_fingerprint definition) definition.expected_schema_fingerprint)
            then some (record {
              code = "CAPABILITY_SCHEMA_FINGERPRINT_MISMATCH";
              message =
                  concat
                    ("Schema fingerprint mismatch for '" ∷ candidate.capability_id ∷ "'." ∷ []);
              http_status = 409;
            })
            else none
      ]

  unfoldable pub materialize_candidate :
      CapabilityDiscoveryEnvelope
      → CapabilityCandidate
      → (now : String) → Reply MaterializedCapability
  materialize_candidate envelope candidate now =
      elim (find (λ d. str_eq d.capability_id candidate.capability_id) definitions) [
        | none ↦
            refusal "CAPABILITY_DEFINITION_MISSING"
              (concat
                ("Capability '" ∷ candidate.capability_id ∷ "' is no longer registered." ∷ []))
              409
        | some definition ↦ elim (definition_refusal envelope candidate definition now) [
          | some error ↦ refuses error
          | none ↦ answers (materialized envelope definition now)
        ]
      ]

  -- `materialize`, before it reads the clock: the candidate.
  unfoldable pub eligible_candidate :
      CapabilityDiscoveryEnvelope → (capability_id : String) → Reply CapabilityCandidate
  eligible_candidate envelope id = elim (find (is_candidate id) envelope.eligible_candidates) [
    | some candidate ↦ answers candidate
    | none ↦ elim (find (is_rejected id) envelope.rejected_candidates) [
      | some rejected ↦
          refusal "CAPABILITY_MATERIALIZATION_BLOCKED"
            (details_or rejected.reason_details
              (concat ("Capability '" ∷ id ∷ "' is not eligible." ∷ [])))
            409
      | none ↦
          refusal "CAPABILITY_NOT_DISCOVERED"
            (concat ("Capability '" ∷ id ∷ "' was not returned by this discovery." ∷ [])) 404
    ]
  ]
