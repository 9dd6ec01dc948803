-- ===== src/Capabilities/Select.antt =====
-- server/capabilities/runtime.ts: select, approve and reject keep the discoveries governed.
use mathlib.Core.Path.{subst}
use ai_knowledge_system.Common.{
  String, ◌≡◌, refl, sym, inl, inr, List, Option, none, some, find, eq_iff, find_holds, Bool-cases,
  Option-cases,
}
use ai_knowledge_system.Workflows.Json.{JsonObject}
use ai_knowledge_system.Workflows.Kernel.State.{World}
use ai_knowledge_system.Capabilities.Types.{
  CapabilityCandidate, MaterializedCapability, CapabilitySelectionDecision, pending_approval,
  CapabilitySelection, CapabilityDiscoverySnapshot,
}
use ai_knowledge_system.Capabilities.Service.{is_candidate}
use ai_knowledge_system.Capabilities.Runtime.{
  Flight, DiscoveryState, new_capability_selection, emit_event, finish_turn, select,
  decide_selection,
}
use ai_knowledge_system.Capabilities.Governed.{
  IsIdle, idle-AreAwaited, AreAwaited-map, IsGoverned, IsOptionalSelection, IsCleared, IsReleased,
  MeetsApproval, emit-IsGoverned,
}
use ai_knowledge_system.Capabilities.Turns.{
  AreGoverned, IsGovernedDraft, Holds, then-Holds, finish-Holds, require_snapshot-Holds,
  IsPendingIn, require_pending-Holds,
}

-- Nothing is handed out for a selection that waits.
pending_unreleased :
    (schema : Option MaterializedCapability) (selection other : CapabilitySelection)
    → IsReleased (some selection) schema
    → selection.decision ≡ pending_approval
    → IsReleased (some other) schema
pending_unreleased none selection other h d = tt
pending_unreleased (some schema) selection other (_, cleared, _) d =
    absurd (subst IsCleared d cleared)

module _ (world : World) (flights : List Flight) where
  pub emit-IsGovernedDraft :
      (event_type : String) (payload : JsonObject) (snapshot : CapabilityDiscoverySnapshot)
      (s : DiscoveryState)
      → IsGovernedDraft flights (snapshot, s)
      → IsGovernedDraft flights (emit_event world event_type payload (snapshot, s))
  unfolding emit_event
  emit-IsGovernedDraft event_type payload snapshot s (h, g) =
      (emit-IsGoverned world flights event_type payload snapshot s h, g)

  pub finish_emit-Holds :
      (event_type : String) (payload : JsonObject) (snapshot : CapabilityDiscoverySnapshot)
      (s : DiscoveryState)
      → IsGoverned flights snapshot
      → AreGoverned flights s
      → Holds flights
          (λ answer s'. IsGoverned flights answer)
          (finish_turn world (emit_event world event_type payload (snapshot, s)))
  finish_emit-Holds event_type payload snapshot s h g =
      let d = emit_event world event_type payload (snapshot, s) in
      finish-Holds flights world d.0 d.1 (emit-IsGovernedDraft event_type payload snapshot s (h, g))

  -- A new selection asks for approval as its candidate requires.
  fresh-MeetsApproval :
      (discovery_id : String) (candidate : CapabilityCandidate) (now : String)
      → MeetsApproval candidate (new_capability_selection discovery_id candidate now).decision
  unfolding new_capability_selection
  fresh-MeetsApproval discovery_id candidate now =
      elim (Bool-cases candidate.materialization_requires_approval) [
        | inl required ↦ rw (required, MeetsApproval) required
        | inr free ↦ rw (free, MeetsApproval) free
      ]

  -- The snapshot as `select` leaves it, before the event.
  selected-IsGoverned :
      (discovery_id capability_id now : String) (snapshot : CapabilityDiscoverySnapshot)
      (candidate : CapabilityCandidate)
      → find (is_candidate capability_id) snapshot.envelope.eligible_candidates ≡ some candidate
      → IsIdle flights snapshot.envelope.discovery_id
      → IsGoverned flights snapshot
      → IsGoverned flights (record snapshot {
        selection = some (new_capability_selection discovery_id candidate now);
        materialized_capability = none;
      })
  unfolding new_capability_selection
  selected-IsGoverned discovery_id capability_id now snapshot candidate found idle h =
      let same : candidate.capability_id ≡ capability_id =
        (eq_iff candidate.capability_id capability_id).0 (
          find_holds (is_candidate capability_id) snapshot.envelope.eligible_candidates candidate
            found) in
      record {
        log = h.log;
        selection = (
          candidate,
          subst
              (λ id. find (is_candidate id) snapshot.envelope.eligible_candidates ≡ some candidate)
              (sym same) found,
          refl,
          fresh-MeetsApproval discovery_id candidate now,
        );
        schema = tt;
        awaited = idle-AreAwaited flights snapshot.envelope.discovery_id _ idle;
      }

  pub select-Holds :
      (discovery_id capability_id : String) (s : DiscoveryState)
      → IsIdle flights discovery_id
      → AreGoverned flights s
      → Holds flights
          (λ answer s'. IsGoverned flights answer)
          (select world discovery_id capability_id s)
  unfolding select
  select-Holds discovery_id capability_id s idle g =
      then-Holds flights _ _ _ _ (require_snapshot-Holds flights discovery_id s g)
        λ snapshot s1 g1 (own, h).
          elim (Option-cases
            (find (is_candidate capability_id) snapshot.envelope.eligible_candidates)) [
              | inl missing ↦ rw (missing, Holds) g1
              | inr (candidate, found) ↦
                  rw (found, Holds)
                    (finish_emit-Holds _ _ _ _
                      (selected-IsGoverned discovery_id capability_id _ snapshot candidate found
                        (subst (IsIdle flights) (sym own) idle) h)
                      g1)
            ]

  decided-IsGoverned :
      (decision : CapabilitySelectionDecision) (now : String)
      (snapshot : CapabilityDiscoverySnapshot) (selection : CapabilitySelection)
      → ((candidate : CapabilityCandidate)
          → MeetsApproval candidate pending_approval
          → MeetsApproval candidate decision)
      → IsPendingIn snapshot selection
      → IsGoverned flights snapshot
      → IsGoverned flights (record snapshot {
        selection = some (record selection { decision = decision; decided_at = some now });
      })
  decided-IsGoverned decision now snapshot selection may (e, d) h =
      let (candidate, found, version, met) =
        subst (λ o. IsOptionalSelection snapshot.envelope o) e h.selection in
      record {
        log = h.log;
        selection =
            (candidate, found, version, may candidate (subst (MeetsApproval candidate) d met));
        schema =
            pending_unreleased snapshot.materialized_capability selection
              (record selection { decision = decision; decided_at = some now })
              (subst (λ o. IsReleased o snapshot.materialized_capability) e h.schema) d;
        awaited =
            AreAwaited-map flights snapshot.envelope.discovery_id snapshot.selection _
              (λ schema belongs.
                pending_unreleased (some schema) selection
                  (record selection { decision = decision; decided_at = some now })
                  (subst (λ o. IsReleased o (some schema)) e belongs) d)
              h.awaited;
      }

  pub decide-Holds :
      (decision : CapabilitySelectionDecision) (event_type : String) (extra : JsonObject)
      (discovery_id : String) (s : DiscoveryState)
      → ((candidate : CapabilityCandidate)
          → MeetsApproval candidate pending_approval
          → MeetsApproval candidate decision)
      → AreGoverned flights s
      → Holds flights
          (λ answer s'. IsGoverned flights answer)
          (decide_selection world decision event_type extra discovery_id s)
  unfolding decide_selection
  decide-Holds decision event_type extra discovery_id s may g =
      then-Holds flights _ _ _ _ (require_snapshot-Holds flights discovery_id s g)
        λ snapshot s1 g1 (own, h).
          then-Holds flights _ _ _ _ (require_pending-Holds flights snapshot s1 g1)
            λ selection s2 g2 (e, d).
              finish_emit-Holds event_type _ _ _
                (decided-IsGoverned decision _ snapshot selection may (e, d) h) g2
