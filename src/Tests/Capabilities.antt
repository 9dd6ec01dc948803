-- ===== src/Tests/Capabilities.antt =====
-- The theorems on capabilities, with a registry of one definition.
use ai_knowledge_system.Common.{
  String, true, ◌≡◌, refl, ◌↔◌, Option, none, some, [], ◌∷◌, integer, lookup, is_text, trim,
  is_space, insert, truthy,
}
use ai_knowledge_system.Workflows.Json.{empty}
use ai_knowledge_system.Workflows.Types.{live}
use ai_knowledge_system.Capabilities.Types.{
  a3, verified, active, internal_native, execution_local, fully_reversible, process_local,
  github_execution_truth, matched, RuntimeCapabilityDefinition, CapabilityCandidate,
  CapabilityDiscoveryEnvelope, MaterializedCapability, CapabilityDiscoveryInput,
}
use ai_knowledge_system.Capabilities.Service.{
  Registry, answers, materialized, materialize_candidate, discovery_refusal, eligible_candidate,
  definition_refusal, definition_changed, health_refusal, health_name,
}
use ai_knowledge_system.Capabilities.Release.{
  IsReleasable, registered, schema_of, materialize_candidate_iff,
}
use ai_knowledge_system.Capabilities.Runtime.{
  DiscoveryState, new_runtime, Flight, begin_materialize, finish_materialize, discover, select,
  approve, emit_event, emit_returned, emit_rejected, finish_turn, put_snapshot, require_snapshot,
  require_pending, require_decided, decide_selection, load_schema, keep_schema,
  new_capability_selection,
}
use ai_knowledge_system.Capabilities.Turns.{AreGoverned, turn_state}
use ai_knowledge_system.Capabilities.Reach.{
  Reach, starts, discovers, selects, approves, begins, ends, Reach-AreGoverned,
}
use ai_knowledge_system.Tests.Data.{world, nth_uuid}

abbrev definition : RuntimeCapabilityDefinition
definition = record {
  capability_id = "cap";
  name = "Capability";
  description = "A capability";
  workflow_id = "flow";
  version = "1.0";
  status = active;
  discoverable = true;
  intent_classes = "review" ∷ [];
  positive_examples = [];
  negative_examples = [];
  overlap_group = none;
  precedence_priority = integer 1;
  preferred_over = [];
  scope_allowlist = "alpha" ∷ [];
  scope_denylist = [];
  authority_domains = [];
  input_schema_ref = "in";
  output_schema_ref = "out";
  input_schema = empty;
  output_schema = empty;
  expected_schema_fingerprint = "sha256:s";
  handler_ref = "handler";
  trust_level = internal_native;
  data_access = execution_local;
  reversibility = fully_reversible;
  blast_radius = process_local;
  autonomy_band = a3;
  approval_required = true;
  materialization_requires_approval = true;
  execution_modes = live ∷ [];
  health = record {
    status = verified;
    checked_at = "t";
    expires_at = none;
    verification_source = "tests";
  };
  source_authority = github_execution_truth;
}

abbrev candidate : CapabilityCandidate
candidate = record {
  capability_id = "cap";
  capability_version = "1.0";
  name = "Capability";
  workflow_id = "flow";
  match_score = integer 1;
  match_reasons = [];
  overlap_group = none;
  precedence_priority = integer 1;
  authority_compatible = true;
  scope_compatible = true;
  mode_compatible = true;
  health_compatible = true;
  autonomy_band = a3;
  approval_required = true;
  materialization_requires_approval = true;
  reversibility = fully_reversible;
  blast_radius = process_local;
  input_schema_ref = "in";
  output_schema_ref = "out";
  expected_schema_fingerprint = "sha256:s";
}

abbrev input : CapabilityDiscoveryInput
input = record {
  execution_id = none;
  workflow_id = none;
  scope_key = "alpha";
  mode = live;
  intent_class = "review";
  intent_text = none;
  requested_capability_id = none;
  authority_domains = none;
}

abbrev surveyed :
    CapabilityDiscoveryInput → (id generated_at : String) → CapabilityDiscoveryEnvelope
surveyed asked id generated_at = record {
  discovery_id = id;
  execution_id = asked.execution_id;
  workflow_id = asked.workflow_id;
  scope_key = asked.scope_key;
  mode = asked.mode;
  intent_class = asked.intent_class;
  intent_text = asked.intent_text;
  requested_capability_id = asked.requested_capability_id;
  authority_domains = [];
  registry_version = "runtime-handler-registry/1.0";
  registry_fingerprint = "sha256:r";
  candidates_considered = 1;
  eligible_candidates = candidate ∷ [];
  rejected_candidates = [];
  recommended_capability_id = some "cap";
  selection_confidence = some (integer 1);
  confidence_margin = some (integer 1);
  resolution_state = matched;
  generated_at = generated_at;
}

abbrev registry : Registry
registry = record {
  definitions = definition ∷ [];
  registry_fingerprint = λ definitions. "sha256:r";
  schema_fingerprint = λ one. "sha256:s";
  parse_date = λ date. some (integer 0);
  survey = surveyed;
}

abbrev envelope : CapabilityDiscoveryEnvelope
envelope = surveyed input "d" "t"

abbrev schema : MaterializedCapability
schema = record {
  discovery_id = "d";
  execution_id = none;
  capability_id = "cap";
  capability_version = "1.0";
  workflow_id = "flow";
  scope_key = "alpha";
  input_schema_ref = "in";
  output_schema_ref = "out";
  input_schema = empty;
  output_schema = empty;
  schema_fingerprint = "sha256:s";
  expected_schema_fingerprint = "sha256:s";
  materialized_at = "now";
}

materialize_candidate_iff_example :
    (materialize_candidate registry envelope candidate "now" ≡ answers schema) ↔ (
      (found : RuntimeCapabilityDefinition) × (registered registry candidate ≡ some found)
      × IsReleasable registry envelope candidate found "now"
      × (schema_of registry envelope found "now" ≡ schema))
materialize_candidate_iff_example =
    materialize_candidate_iff registry envelope candidate "now" schema

abbrev id : String
id = nth_uuid 0

abbrev approved_state : DiscoveryState
approved_state = turn_state (
    approve world id
      (turn_state (select world id "cap" (turn_state (discover world registry input new_runtime)))))

abbrev waiting_state : DiscoveryState
waiting_state = turn_state (begin_materialize world registry id approved_state)

abbrev flight : Flight
flight = record {
  discovery_id = id;
  schema = record schema { discovery_id = id; materialized_at = "12:00" };
}

-- After the four calls, the last of which waits.
waiting : Reach world waiting_state (flight ∷ [])
unfolding discover select approve begin_materialize discovery_refusal nth_uuid emit_event
    emit_returned emit_rejected finish_turn put_snapshot require_snapshot require_pending
    require_decided decide_selection load_schema eligible_candidate materialize_candidate
    materialized definition_refusal definition_changed health_refusal health_name
    new_capability_selection lookup is_text trim is_space insert truthy
waiting =
    begins {flights = []} registry id
      (approves id (selects id "cap" (discovers registry input starts tt) tt))

Reach-AreGoverned_example :
    AreGoverned [] (turn_state (finish_materialize world flight waiting_state))
Reach-AreGoverned_example =
    Reach-AreGoverned world (turn_state (finish_materialize world flight waiting_state)) []
      (ends [] flight [] waiting)

-- The calls end with the schema, released.
abbrev loaded : DiscoveryState → Option MaterializedCapability
loaded s = elim (lookup id s.snapshots) [
  | none ↦ none
  | some snapshot ↦ snapshot.materialized_capability
]

calls_release :
    loaded (turn_state (finish_materialize world flight waiting_state)) ≡ some flight.schema
unfolding discover select approve begin_materialize finish_materialize discovery_refusal nth_uuid
    emit_event emit_returned emit_rejected finish_turn put_snapshot require_snapshot require_pending
    require_decided decide_selection load_schema keep_schema eligible_candidate
    materialize_candidate materialized definition_refusal definition_changed health_refusal
    health_name new_capability_selection lookup is_text trim is_space insert truthy
calls_release = refl
