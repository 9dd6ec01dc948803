-- ===== src/Capabilities/Governed.antt =====
-- server/capabilities/runtime.ts: what holds of a stored discovery between two calls.
use ai_knowledge_system.Common.{
  ℕ, suc, ◌+◌, String, true, false, ◌≡◌, ◌≢◌, refl, Option, none, some, List, [], ◌∷◌, ◌++◌, arith,
  find, length,
}
use ai_knowledge_system.Workflows.Json.{JsonObject}
use ai_knowledge_system.Workflows.Kernel.State.{World}
use ai_knowledge_system.Capabilities.Types.{
  CapabilityCandidate, CapabilityDiscoveryEnvelope, MaterializedCapability,
  CapabilitySelectionDecision, selected, pending_approval, approved, rejected, CapabilitySelection,
  CapabilityDiscoveryEvent, CapabilityDiscoverySnapshot,
}
use ai_knowledge_system.Capabilities.Service.{is_candidate}
use ai_knowledge_system.Capabilities.Runtime.{Flight, DiscoveryState, emit_event}

-- The events after the first `n`, numbered from `n + 1`.
abbrev pub IsNumbered : (discovery_id : String) → ℕ → List CapabilityDiscoveryEvent → Type 0
IsNumbered id n [] = Unit
IsNumbered id n (event ∷ rest) =
    (event.discovery_id ≡ id) × (event.sequence ≡ n + 1) × IsNumbered id (suc n) rest

-- Approval was asked for exactly where the candidate requires it.
abbrev pub MeetsApproval : CapabilityCandidate → CapabilitySelectionDecision → Type 0
MeetsApproval candidate selected = candidate.materialization_requires_approval ≡ false
MeetsApproval candidate pending_approval = candidate.materialization_requires_approval ≡ true
MeetsApproval candidate approved = candidate.materialization_requires_approval ≡ true
MeetsApproval candidate rejected = candidate.materialization_requires_approval ≡ true

-- The selection is of an eligible candidate.
abbrev pub IsSelection : CapabilityDiscoveryEnvelope → CapabilitySelection → Type 0
IsSelection envelope selection =
    (candidate : CapabilityCandidate) × (find (is_candidate selection.capability_id)
        envelope.eligible_candidates
      ≡ some candidate)
    × (selection.capability_version ≡ candidate.capability_version)
    × MeetsApproval candidate selection.decision

-- No approval is outstanding, and none was refused.
abbrev pub IsCleared : CapabilitySelectionDecision → Type 0
IsCleared selected = Unit
IsCleared approved = Unit
IsCleared pending_approval = ⊥
IsCleared rejected = ⊥

abbrev pub IsOptionalSelection : CapabilityDiscoveryEnvelope → Option CapabilitySelection → Type 0
IsOptionalSelection envelope none = Unit
IsOptionalSelection envelope (some selection) = IsSelection envelope selection

-- A schema that was handed out belongs to the selection, which is cleared, and has the fingerprint
-- that its definition expects.
abbrev pub IsReleased : Option CapabilitySelection → Option MaterializedCapability → Type 0
IsReleased selection none = Unit
IsReleased none (some schema) = ⊥
IsReleased (some selection) (some schema) =
    (schema.capability_id ≡ selection.capability_id)
    × IsCleared selection.decision
    × (schema.schema_fingerprint ≡ schema.expected_schema_fingerprint)

-- The schema that a waiting `materialize` will store belongs to the selection.
abbrev pub AreAwaited : List Flight → (discovery_id : String) → Option CapabilitySelection → Type 0
AreAwaited [] id selection = Unit
AreAwaited (flight ∷ rest) id selection =
    (flight.discovery_id ≡ id → IsReleased selection (some flight.schema))
    × AreAwaited rest id selection

-- No `materialize` waits for this discovery.
abbrev pub IsIdle : List Flight → (discovery_id : String) → Type 0
IsIdle [] id = Unit
IsIdle (flight ∷ rest) id = (flight.discovery_id ≢ id) × IsIdle rest id

pub idle-AreAwaited :
    (flights : List Flight) (id : String) (selection : Option CapabilitySelection)
    → IsIdle flights id
    → AreAwaited flights id selection
idle-AreAwaited [] id selection h = tt
idle-AreAwaited (flight ∷ rest) id selection (other, h) =
    (λ e. absurd (other e), idle-AreAwaited rest id selection h)

pub AreAwaited-map :
    (flights : List Flight) (id : String) (selection next : Option CapabilitySelection)
    → ((schema : MaterializedCapability)
        → IsReleased selection (some schema)
        → IsReleased next (some schema))
    → AreAwaited flights id selection
    → AreAwaited flights id next
AreAwaited-map [] id selection next f h = tt
AreAwaited-map (flight ∷ rest) id selection next f (p, h) =
    (λ e. f flight.schema (p e), AreAwaited-map rest id selection next f h)

pub AreAwaited-drop :
    (before : List Flight) (flight : Flight) (rest : List Flight) (id : String)
    (selection : Option CapabilitySelection)
    → AreAwaited (before ++ flight ∷ rest) id selection
    → (flight.discovery_id ≡ id → IsReleased selection (some flight.schema))
      × AreAwaited (before ++ rest) id selection
AreAwaited-drop [] flight rest id selection (p, h) = (p, h)
AreAwaited-drop (first ∷ before) flight rest id selection (q, h) =
    let (p, h') = AreAwaited-drop before flight rest id selection h in (p, (q, h'))

pub record IsGoverned (flights : List Flight) (snapshot : CapabilityDiscoverySnapshot)
    : Type 0 where
  pub log : IsNumbered snapshot.envelope.discovery_id 0 snapshot.events
  pub selection : IsOptionalSelection snapshot.envelope snapshot.selection
  pub schema : IsReleased snapshot.selection snapshot.materialized_capability
  pub awaited : AreAwaited flights snapshot.envelope.discovery_id snapshot.selection

IsNumbered-append :
    (id : String) (n : ℕ) (events : List CapabilityDiscoveryEvent)
    (event : CapabilityDiscoveryEvent)
    → IsNumbered id n events
    → event.discovery_id ≡ id
    → event.sequence ≡ n + length events + 1
    → IsNumbered id n (events ++ event ∷ [])
IsNumbered-append id n [] event h e f = (e, omega (arith, f), tt)
IsNumbered-append id n (first ∷ rest) event (a, b, h) e f =
    (a, b, IsNumbered-append id (suc n) rest event h e (omega (arith, f)))

module _ (world : World) (flights : List Flight) where
  -- An event changes nothing but the log, which it continues.
  pub emit-IsGoverned :
      (event_type : String) (payload : JsonObject) (snapshot : CapabilityDiscoverySnapshot)
      (s : DiscoveryState)
      → IsGoverned flights snapshot
      → IsGoverned flights ((emit_event world event_type payload (snapshot, s)).0)
  unfolding emit_event
  emit-IsGoverned event_type payload snapshot s h = record {
    log =
        IsNumbered-append snapshot.envelope.discovery_id 0 snapshot.events _ h.log refl
          (omega arith);
    selection = h.selection;
    schema = h.schema;
    awaited = h.awaited;
  }
