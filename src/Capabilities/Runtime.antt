-- ===== src/Capabilities/Runtime.antt =====
-- server/capabilities/runtime.ts: `CapabilityDiscoveryRuntime`. A method is a function of the state; one
-- that throws keeps what it has changed. `materialize` awaits the service: its parts before and after
-- are two functions, and other calls may come in between. What the service answers is settled by what
-- it reads at its call, copies of the definitions among it. `discover` awaits before it changes
-- anything. The world gives the clock and the UUIDs.
use ai_knowledge_system.Common.{
  ℕ, suc, ◌+◌, String, none, some, List, [], ◌∷◌, ◌++◌, find, length, if◌then◌else◌, concat, lookup,
  insert,
}
use ai_knowledge_system.Workflows.Json.{JsonObject, empty, field, text}
use ai_knowledge_system.Workflows.Kernel.State.{World}
use ai_knowledge_system.Capabilities.Types.{
  CapabilityCandidate, RejectedCapabilityCandidate, CapabilityDiscoveryEnvelope,
  MaterializedCapability, CapabilityDiscoveryInput, CapabilitySelectionDecision, selected,
  pending_approval, approved, rejected, CapabilitySelection, CapabilityDiscoverySnapshot,
}
use ai_knowledge_system.Capabilities.Service.{
  CapabilityError, answers, refuses, Registry, discovery_refusal, is_candidate, is_rejected,
  details_or, eligible_candidate, materialize_candidate,
}
use ai_knowledge_system.Capabilities.Payloads.{
  started_data, candidate_data, rejected_data, completed_data, scope_only, selected_data,
  loaded_data,
}

pub record DiscoveryState : Type 0 where
  pub snapshots : List (String × CapabilityDiscoverySnapshot)
  pub ticks : ℕ
  pub drawn : ℕ

abbrev pub new_runtime : DiscoveryState
new_runtime = record { snapshots = []; ticks = 0; drawn = 0 }

-- A `materialize` that waits for the service.
pub record Flight : Type 0 where
  pub discovery_id : String
  pub schema : MaterializedCapability

pub data Turn (A : Type 0) : Type 0 where
  gives : A → DiscoveryState → Turn A
  throws : CapabilityError → DiscoveryState → Turn A

abbrev pub then_turn : {A B : Type 0} → Turn A → (A → DiscoveryState → Turn B) → Turn B
then_turn (gives a s) f = f a s
then_turn (throws e s) f = throws e s

abbrev pub refuse_turn :
    {A : Type 0} → (code message : String) → (http_status : ℕ) → DiscoveryState → Turn A
refuse_turn code message http_status s =
    throws (record { code = code; message = message; http_status = http_status }) s

-- The map's entry.
unfoldable pub put_snapshot : CapabilityDiscoverySnapshot → DiscoveryState → DiscoveryState
put_snapshot snapshot s = record s {
  snapshots = insert snapshot.envelope.discovery_id snapshot s.snapshots;
}

unfoldable pub require_snapshot : String → DiscoveryState → Turn CapabilityDiscoverySnapshot
require_snapshot id s = elim (lookup id s.snapshots) [
  | none ↦ refuse_turn "CAPABILITY_DISCOVERY_NOT_FOUND" "Capability discovery was not found." 404 s
  | some snapshot ↦ gives snapshot s
]

unfoldable pub pending_refusal : DiscoveryState → Turn CapabilitySelection
pending_refusal s =
    refuse_turn "CAPABILITY_APPROVAL_NOT_PENDING"
      "No materialization selection is waiting for approval." 409 s

unfoldable pub require_pending :
    CapabilityDiscoverySnapshot → DiscoveryState → Turn CapabilitySelection
require_pending snapshot s = elim snapshot.selection [
  | none ↦ pending_refusal s
  | some selection ↦ elim selection.decision [
    | pending_approval ↦ gives selection s
    | _ ↦ pending_refusal s
  ]
]

-- What `select` throws for an id that is not eligible.
unfoldable pub selection_refusal :
    CapabilityDiscoveryEnvelope → (discovery_id capability_id : String) → CapabilityError
selection_refusal envelope discovery_id capability_id =
    let fallback = concat (
      "Capability '" ∷ capability_id ∷ "' was not eligible in discovery '" ∷ discovery_id ∷ "'."
      ∷ []) in
    elim (find (is_rejected capability_id) envelope.rejected_candidates) [
      | some blocked ↦ record {
        code = "CAPABILITY_SELECTION_BLOCKED";
        message = details_or blocked.reason_details fallback;
        http_status = 409;
      }
      | none ↦ record { code = "CAPABILITY_NOT_DISCOVERED"; message = fallback; http_status = 404 }
    ]

unfoldable pub new_capability_selection :
    (discovery_id : String) → CapabilityCandidate → (now : String) → CapabilitySelection
new_capability_selection discovery_id candidate now = record {
  discovery_id = discovery_id;
  capability_id = candidate.capability_id;
  capability_version = candidate.capability_version;
  selected_at = now;
  decision = if candidate.materialization_requires_approval then pending_approval else selected;
  decided_at = if candidate.materialization_requires_approval then none else some now;
}

-- `materialize`, the tests on the selection.
unfoldable pub require_decided :
    CapabilityDiscoverySnapshot → DiscoveryState → Turn CapabilitySelection
require_decided snapshot s = elim snapshot.selection [
  | none ↦
      refuse_turn "CAPABILITY_NOT_SELECTED" "Select an eligible capability before materialization."
        409 s
  | some selection ↦ elim selection.decision [
    | pending_approval ↦
        refuse_turn "CAPABILITY_APPROVAL_REQUIRED"
          "Approve the materialization-only selection before loading its schema." 409 s
    | rejected ↦
        refuse_turn "CAPABILITY_SELECTION_REJECTED" "The selected capability was rejected." 409 s
    | _ ↦ gives selection s
  ]
]

module _ (world : World) where
  -- `emit`, of a snapshot that the map then holds again.
  unfoldable pub emit_event :
      (event_type : String)
      → JsonObject
      → CapabilityDiscoverySnapshot × DiscoveryState
      → CapabilityDiscoverySnapshot × DiscoveryState
  emit_event event_type payload (snapshot, s) = (
    record snapshot {
      events =
          snapshot.events
          ++ record {
            event_id = world.uuid s.drawn;
            discovery_id = snapshot.envelope.discovery_id;
            event_type = event_type;
            sequence = length snapshot.events + 1;
            emitted_at = world.now s.ticks;
            payload = payload;
          }
            ∷ [];
    },
    record s { ticks = suc s.ticks; drawn = suc s.drawn },
  )

  unfoldable pub emit_returned :
      List CapabilityCandidate
      → CapabilityDiscoverySnapshot × DiscoveryState
      → CapabilityDiscoverySnapshot × DiscoveryState
  emit_returned [] d = d
  emit_returned (candidate ∷ rest) d =
      emit_returned rest (emit_event "capability.candidate.returned" (candidate_data candidate) d)

  unfoldable pub emit_rejected :
      List RejectedCapabilityCandidate
      → CapabilityDiscoverySnapshot × DiscoveryState
      → CapabilityDiscoverySnapshot × DiscoveryState
  emit_rejected [] d = d
  emit_rejected (candidate ∷ rest) d =
      emit_rejected rest (emit_event "capability.candidate.rejected" (rejected_data candidate) d)

  -- The snapshot is stored and returned.
  unfoldable pub finish_turn :
      CapabilityDiscoverySnapshot × DiscoveryState → Turn CapabilityDiscoverySnapshot
  finish_turn (snapshot, s) = gives snapshot (put_snapshot snapshot s)

  unfoldable pub select :
      (discovery_id capability_id : String) → DiscoveryState → Turn CapabilityDiscoverySnapshot
  select discovery_id capability_id s = then_turn (require_snapshot discovery_id s) λ snapshot s1.
      elim (find (is_candidate capability_id) snapshot.envelope.eligible_candidates) [
        | none ↦ throws (selection_refusal snapshot.envelope discovery_id capability_id) s1
        | some candidate ↦ finish_turn (
            emit_event
              (if candidate.materialization_requires_approval
                then "capability.approval.required"
                else "capability.selected")
              (selected_data candidate)
              (
                record snapshot {
                  selection =
                      some (new_capability_selection discovery_id candidate (world.now s1.ticks));
                  materialized_capability = none;
                },
                record s1 { ticks = suc s1.ticks },
              ))
      ]

  -- `approve` and `reject`, which differ in the decision and the event.
  unfoldable pub decide_selection :
      CapabilitySelectionDecision
      → (event_type : String) → (extra : JsonObject) → (discovery_id : String) → DiscoveryState
      → Turn CapabilityDiscoverySnapshot
  decide_selection decision event_type extra discovery_id s =
      then_turn (require_snapshot discovery_id s) λ snapshot s1.
        then_turn (require_pending snapshot s1) λ selection s2. finish_turn (
          emit_event event_type (field "capability_id" (text selection.capability_id) extra) (
            record snapshot {
              selection = some (record selection {
                decision = decision;
                decided_at = some (world.now s2.ticks);
              });
            },
            record s2 { ticks = suc s2.ticks },
          ))

  unfoldable pub approve :
      (discovery_id : String) → DiscoveryState → Turn CapabilityDiscoverySnapshot
  approve = decide_selection approved "capability.approved" scope_only

  unfoldable pub reject :
      (discovery_id : String) → DiscoveryState → Turn CapabilityDiscoverySnapshot
  reject = decide_selection rejected "capability.rejected" empty

  unfoldable pub keep_schema :
      CapabilityDiscoverySnapshot
      → MaterializedCapability
      → DiscoveryState
      → Turn CapabilityDiscoverySnapshot
  keep_schema snapshot schema s = finish_turn (
      emit_event "capability.schema.loaded" (loaded_data schema)
        (record snapshot { materialized_capability = some schema }, s))

  -- `materialize` after its `await`. The snapshot that it has kept is the one in the map, from which
  -- none is removed.
  unfoldable pub finish_materialize : Flight → DiscoveryState → Turn CapabilityDiscoverySnapshot
  finish_materialize flight s =
      then_turn (require_snapshot flight.discovery_id s)
        λ snapshot s1. keep_schema snapshot flight.schema s1

  module _ (registry : Registry) where
    unfoldable pub discover :
        CapabilityDiscoveryInput → DiscoveryState → Turn CapabilityDiscoverySnapshot
    discover input s = elim (discovery_refusal input) [
      | some error ↦ throws error s
      | none ↦
          let envelope = registry.survey input (world.uuid s.drawn) (world.now s.ticks) in
          finish_turn (
            emit_event "capability.discovery.completed" (completed_data envelope) (
              emit_rejected envelope.rejected_candidates (
                emit_returned envelope.eligible_candidates (
                  emit_event "capability.discovery.started" (started_data envelope) (
                    record {
                      envelope = envelope;
                      selection = none;
                      materialized_capability = none;
                      events = [];
                    },
                    record s { ticks = suc s.ticks; drawn = suc s.drawn },
                  )))))
    ]

    -- The service's `materialize`, which reads the clock once the candidate is found.
    unfoldable pub load_schema :
        CapabilityDiscoveryEnvelope
        → (capability_id : String) → DiscoveryState
        → Turn MaterializedCapability
    load_schema envelope id s = elim (eligible_candidate registry envelope id) [
      | refuses error ↦ throws error s
      | answers candidate ↦
          let s' = record s { ticks = suc s.ticks } in
          elim (materialize_candidate registry envelope candidate (world.now s.ticks)) [
            | refuses error ↦ throws error s'
            | answers schema ↦ gives schema s'
          ]
    ]

    -- `materialize` up to its `await`: the schema that the service will answer with, or its error.
    unfoldable pub begin_materialize : (discovery_id : String) → DiscoveryState → Turn Flight
    begin_materialize discovery_id s = then_turn (require_snapshot discovery_id s) λ snapshot s1.
        then_turn (require_decided snapshot s1) λ selection s2.
          then_turn
            (finish_turn (
              emit_event "capability.schema.requested"
                (field "capability_id" (text selection.capability_id) empty) (snapshot, s2)))
            λ requested s3.
              then_turn (load_schema requested.envelope selection.capability_id s3) λ schema s4.
                gives (record { discovery_id = requested.envelope.discovery_id; schema = schema })
                  s4
