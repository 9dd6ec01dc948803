-- ===== src/Capabilities/Calls.antt =====
-- server/capabilities/runtime.ts: discover and the two parts of materialize keep the discoveries governed.
use mathlib.Core.Path.{subst}
use ai_knowledge_system.Common.{
  suc, String, ◌≡◌, sym, ◌∙◌, inl, inr, none, some, List, [], ◌∷◌, refl, eq_iff, lookup,
  lookup-insert_self, find_holds, Option-cases,
}
use ai_knowledge_system.Workflows.Json.{field, text, empty}
use ai_knowledge_system.Workflows.Kernel.State.{World}
use ai_knowledge_system.Capabilities.Types.{
  CapabilityCandidate, RejectedCapabilityCandidate, CapabilityDiscoveryEnvelope,
  MaterializedCapability, CapabilityDiscoveryInput, CapabilitySelection,
  CapabilityDiscoverySnapshot,
}
use ai_knowledge_system.Capabilities.Service.{
  Registry, discovery_refusal, is_candidate, eligible_candidate, materialize_candidate,
}
use ai_knowledge_system.Capabilities.Runtime.{
  Flight, DiscoveryState, begin_materialize, finish_materialize, require_snapshot, put_snapshot,
  emit_event, emit_returned, emit_rejected, finish_turn, discover, load_schema, keep_schema,
}
use ai_knowledge_system.Capabilities.Payloads.{completed_data, started_data}
use ai_knowledge_system.Capabilities.Governed.{IsIdle, idle-AreAwaited, IsGoverned, IsReleased}
use ai_knowledge_system.Capabilities.Release.{
  Reply-cases, eligible_candidate_lem, materialize_candidate_lem,
}
use ai_knowledge_system.Capabilities.Turns.{
  AreGoverned, Draft, IsGovernedDraft, Holds, then-Holds, put-AreGoverned, require_snapshot-Holds,
  IsClearedIn, require_decided-Holds,
}
use ai_knowledge_system.Capabilities.Select.{emit-IsGovernedDraft, finish_emit-Holds}

module _ (world : World) (flights : List Flight) where
  returned-IsGovernedDraft :
      (candidates : List CapabilityCandidate) (d : Draft)
      → IsGovernedDraft flights d
      → IsGovernedDraft flights (emit_returned world candidates d)
  unfolding emit_returned
  returned-IsGovernedDraft [] d h = h
  returned-IsGovernedDraft (candidate ∷ rest) (snapshot, s) h =
      returned-IsGovernedDraft rest (emit_event world _ _ (snapshot, s))
        (emit-IsGovernedDraft world flights _ _ snapshot s h)

  rejected-IsGovernedDraft :
      (candidates : List RejectedCapabilityCandidate) (d : Draft)
      → IsGovernedDraft flights d
      → IsGovernedDraft flights (emit_rejected world candidates d)
  unfolding emit_rejected
  rejected-IsGovernedDraft [] d h = h
  rejected-IsGovernedDraft (candidate ∷ rest) (snapshot, s) h =
      rejected-IsGovernedDraft rest (emit_event world _ _ (snapshot, s))
        (emit-IsGovernedDraft world flights _ _ snapshot s h)

  -- A discovery that has just started.
  started-IsGoverned :
      (envelope : CapabilityDiscoveryEnvelope)
      → IsIdle flights envelope.discovery_id
      → IsGoverned flights (record {
        envelope = envelope;
        selection = none;
        materialized_capability = none;
        events = [];
      })
  started-IsGoverned envelope idle = record {
    log = tt;
    selection = tt;
    schema = tt;
    awaited = idle-AreAwaited flights envelope.discovery_id none idle;
  }

  -- The snapshot that asks for a schema keeps its selection.
  requested-Holds :
      (id : String) (snapshot : CapabilityDiscoverySnapshot) (selection : CapabilitySelection)
      (s : DiscoveryState)
      → IsClearedIn snapshot selection
      → IsGoverned flights snapshot
      → AreGoverned flights s
      → Holds flights
          (λ answer s'.
            (lookup answer.envelope.discovery_id s'.snapshots ≡ some answer)
            × IsClearedIn answer selection)
          (finish_turn world (
            emit_event world "capability.schema.requested"
              (field "capability_id" (text id) empty)
              (snapshot, s)))
  unfolding finish_turn emit_event put_snapshot
  requested-Holds id snapshot selection s cleared h g =
      let d =
        emit_event world "capability.schema.requested" (field "capability_id" (text id) empty)
          (snapshot, s) in
      let (h', g') = emit-IsGovernedDraft world flights _ _ snapshot s (h, g) in
      (
        put-AreGoverned flights d.0 d.1 h' g',
        (lookup-insert_self snapshot.envelope.discovery_id d.0 s.snapshots, cleared),
      )

  module _ (registry : Registry) where
    -- What `materialize` of the service gives.
    abbrev IsSchemaOf : String → MaterializedCapability → Type 0
    IsSchemaOf id schema =
        (schema.capability_id ≡ id)
        × (schema.schema_fingerprint ≡ schema.expected_schema_fingerprint)

    load_schema-Holds :
        (envelope : CapabilityDiscoveryEnvelope) (id : String) (s : DiscoveryState)
        → AreGoverned flights s
        → Holds flights
            (λ schema s'. IsSchemaOf id schema × (s'.snapshots ≡ s.snapshots))
            (load_schema world registry envelope id s)
    unfolding load_schema
    load_schema-Holds envelope id s g =
        elim (Reply-cases (eligible_candidate registry envelope id)) [
          | inl (error, e) ↦ rw (e, Holds) g
          | inr (candidate, e) ↦
              elim (Reply-cases
                (materialize_candidate registry envelope candidate (world.now s.ticks))) [
                  | inl (error, f) ↦ rw (e, f, Holds) g
                  | inr (schema, f) ↦
                      let found = eligible_candidate_lem registry envelope id candidate e in
                      let same = (eq_iff candidate.capability_id id).0 (
                        find_holds (is_candidate id) envelope.eligible_candidates candidate
                          found) in
                      let (own, match) =
                        materialize_candidate_lem registry envelope candidate (world.now s.ticks)
                          schema f in
                      rw (e, f, Holds) (g, ((own ∙ same, match), refl))
                ]
        ]

    discovered-Holds :
        (envelope : CapabilityDiscoveryEnvelope) (s : DiscoveryState)
        → IsIdle flights envelope.discovery_id
        → AreGoverned flights s
        → Holds flights
            (λ answer s'. IsGoverned flights answer)
            (finish_turn world (
              emit_event world "capability.discovery.completed" (completed_data envelope) (
                emit_rejected world envelope.rejected_candidates (
                  emit_returned world envelope.eligible_candidates (
                    emit_event world "capability.discovery.started" (started_data envelope) (
                      record {
                        envelope = envelope;
                        selection = none;
                        materialized_capability = none;
                        events = [];
                      },
                      s,
                    ))))))
    discovered-Holds envelope s idle g =
        let started = emit_event world "capability.discovery.started" (started_data envelope) (
          record {
            envelope = envelope;
            selection = none;
            materialized_capability = none;
            events = [];
          },
          s,
        ) in
        let listed =
          emit_rejected world envelope.rejected_candidates
            (emit_returned world envelope.eligible_candidates started) in
        let (h, g') =
          rejected-IsGovernedDraft envelope.rejected_candidates
            (emit_returned world envelope.eligible_candidates started)
            (returned-IsGovernedDraft envelope.eligible_candidates started
              (emit-IsGovernedDraft world flights _ _ _ s (started-IsGoverned envelope idle, g))) in
        finish_emit-Holds world flights "capability.discovery.completed" (completed_data envelope)
          listed.0 listed.1 h g'

    pub discover-Holds :
        (input : CapabilityDiscoveryInput) (s : DiscoveryState)
        → IsIdle flights
            (registry.survey input (world.uuid s.drawn) (world.now s.ticks)).discovery_id
        → AreGoverned flights s
        → Holds flights (λ answer s'. IsGoverned flights answer) (discover world registry input s)
    unfolding discover
    discover-Holds input s idle g = elim (Option-cases (discovery_refusal input)) [
      | inl goes_on ↦
          rw (goes_on, Holds)
            (discovered-Holds (registry.survey input (world.uuid s.drawn) (world.now s.ticks))
              (record s { ticks = suc s.ticks; drawn = suc s.drawn }) idle g)
      | inr (error, e) ↦ rw (e, Holds) g
    ]

    -- A `materialize` that goes on to wait has asked for the schema of a selection that is cleared.
    abbrev pub IsBegun : Flight → DiscoveryState → Type 0
    IsBegun flight s =
        (snapshot : CapabilityDiscoverySnapshot) × (lookup flight.discovery_id s.snapshots
          ≡ some snapshot)
        × IsReleased snapshot.selection (some flight.schema)

    pub begin_materialize-Holds :
        (discovery_id : String) (s : DiscoveryState)
        → AreGoverned flights s
        → Holds flights IsBegun (begin_materialize world registry discovery_id s)
    unfolding begin_materialize
    begin_materialize-Holds discovery_id s g =
        then-Holds flights _ _ _ _ (require_snapshot-Holds flights discovery_id s g)
          λ snapshot s1 g1 (own, h).
            then-Holds flights _ _ _ _ (require_decided-Holds flights snapshot s1 g1)
              λ selection s2 g2 cleared.
                then-Holds flights _ _ _ _
                  (requested-Holds selection.capability_id snapshot selection s2 cleared h g2)
                  λ requested s3 g3 (held, (e, clear)).
                    then-Holds flights _ _ _ _
                      (load_schema-Holds requested.envelope selection.capability_id s3 g3)
                      λ schema s4 g4 ((same, match), kept). (
                        g4,
                        (
                          requested,
                          subst (λ m. lookup requested.envelope.discovery_id m ≡ some requested)
                              (sym kept) held,
                          subst (λ o. IsReleased o (some schema)) (sym e) (same, clear, match),
                        ),
                      )

  -- The schema that was waited for belongs to the selection.
  pub finish_materialize-Holds :
      (flight : Flight) (s : DiscoveryState)
      → AreGoverned flights s
      → ((snapshot : CapabilityDiscoverySnapshot)
          → lookup flight.discovery_id s.snapshots ≡ some snapshot
          → IsReleased snapshot.selection (some flight.schema))
      → Holds flights (λ answer s'. IsGoverned flights answer) (finish_materialize world flight s)
  unfolding finish_materialize require_snapshot keep_schema
  finish_materialize-Holds flight s g belongs =
      elim (Option-cases (lookup flight.discovery_id s.snapshots)) [
        | inl missing ↦ rw (missing, Holds) g
        | inr (snapshot, found) ↦
            let h = (g flight.discovery_id snapshot found).1 in
            rw (found, Holds)
              (finish_emit-Holds world flights _ _ _ _
                (record {
                  log = h.log;
                  selection = h.selection;
                  schema = belongs snapshot found;
                  awaited = h.awaited;
                })
                g)
      ]
