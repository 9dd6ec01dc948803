-- ===== src/Capabilities/Turns.antt =====
-- server/capabilities/runtime.ts: what the calls keep, and its lookups keep it.
use ai_knowledge_system.Common.{
  String, List, ◌≡◌, refl, inl, inr, some, arith, str_eq, eq_iff, lookup, lookup-insert, Bool-cases,
  Option-cases,
}
use ai_knowledge_system.Workflows.Kernel.State.{World}
use ai_knowledge_system.Capabilities.Types.{
  CapabilitySelectionDecision, selected, pending_approval, approved, rejected, CapabilitySelection,
  CapabilityDiscoverySnapshot,
}
use ai_knowledge_system.Capabilities.Runtime.{
  Flight, DiscoveryState, Turn, gives, throws, then_turn, put_snapshot, require_snapshot,
  require_pending, require_decided, pending_refusal, finish_turn,
}
use ai_knowledge_system.Capabilities.Governed.{IsGoverned, IsCleared}

abbrev pub turn_state : {A : Type 0} → Turn A → DiscoveryState
turn_state (gives a s) = s
turn_state (throws e s) = s

-- The selection that waits for a decision.
abbrev pub IsPendingIn : CapabilityDiscoverySnapshot → CapabilitySelection → Type 0
IsPendingIn snapshot selection =
    (snapshot.selection ≡ some selection) × (selection.decision ≡ pending_approval)

-- The selection that was cleared.
abbrev pub IsClearedIn : CapabilityDiscoverySnapshot → CapabilitySelection → Type 0
IsClearedIn snapshot selection =
    (snapshot.selection ≡ some selection) × IsCleared selection.decision

abbrev pub Draft : Type 0
Draft = CapabilityDiscoverySnapshot × DiscoveryState

module _ (flights : List Flight) where
  -- Every discovery stands under its own id and is governed.
  abbrev pub AreGoverned : DiscoveryState → Type 0
  AreGoverned s =
      (id : String) (snapshot : CapabilityDiscoverySnapshot)
      → lookup id s.snapshots ≡ some snapshot
      → (snapshot.envelope.discovery_id ≡ id) × IsGoverned flights snapshot

  abbrev pub IsGovernedDraft : Draft → Type 0
  IsGovernedDraft (snapshot, s) = IsGoverned flights snapshot × AreGoverned s

  -- `Q` of the result; the state is governed in any case.
  abbrev pub Holds : {A : Type 0} → (A → DiscoveryState → Type 0) → Turn A → Type 0
  Holds Q (gives a s) = AreGoverned s × Q a s
  Holds Q (throws e s) = AreGoverned s

  pub then-Holds :
      {A B : Type 0} (R : A → DiscoveryState → Type 0) (Q : B → DiscoveryState → Type 0)
      (o : Turn A) (f : A → DiscoveryState → Turn B)
      → Holds R o
      → ((a : A) (s : DiscoveryState) → AreGoverned s → R a s → Holds Q (f a s))
      → Holds Q (then_turn o f)
  then-Holds R Q (gives a s) f (g, h) next = next a s g h
  then-Holds R Q (throws e s) f g next = g

  pub Holds-state :
      {A : Type 0} (Q : A → DiscoveryState → Type 0) (o : Turn A)
      → Holds Q o
      → AreGoverned (turn_state o)
  Holds-state Q (gives a s) (g, h) = g
  Holds-state Q (throws e s) g = g

  pub put-AreGoverned :
      (snapshot : CapabilityDiscoverySnapshot) (s : DiscoveryState)
      → IsGoverned flights snapshot
      → AreGoverned s
      → AreGoverned (put_snapshot snapshot s)
  unfolding put_snapshot
  put-AreGoverned snapshot s h g id other found =
      let key = snapshot.envelope.discovery_id in
      elim (Bool-cases (str_eq key id)) [
        | inl here ↦
            let same : snapshot ≡ other =
              ground (arith, lookup-insert key id snapshot s.snapshots) in
            rw (← same) ((eq_iff key id).0 here, h)
        | inr there ↦
            let found' : lookup id s.snapshots ≡ some other =
              ground (arith, lookup-insert key id snapshot s.snapshots) in
            g id other found'
      ]

  pub finish-Holds :
      (world : World) (snapshot : CapabilityDiscoverySnapshot) (s : DiscoveryState)
      → IsGovernedDraft (snapshot, s)
      → Holds (λ answer s'. IsGoverned flights answer) (finish_turn world (snapshot, s))
  unfolding finish_turn
  finish-Holds world snapshot s (h, g) = (put-AreGoverned snapshot s h g, h)

  pub require_snapshot-Holds :
      (id : String) (s : DiscoveryState)
      → AreGoverned s
      → Holds
          (λ snapshot s'. (snapshot.envelope.discovery_id ≡ id) × IsGoverned flights snapshot)
          (require_snapshot id s)
  unfolding require_snapshot
  require_snapshot-Holds id s g = elim (Option-cases (lookup id s.snapshots)) [
    | inl missing ↦ rw (missing, Holds) g
    | inr (snapshot, found) ↦ rw (found, Holds) (g, g id snapshot found)
  ]

  by_pending :
      (snapshot : CapabilityDiscoverySnapshot) (s : DiscoveryState)
      (selection : CapabilitySelection) (decision : CapabilitySelectionDecision)
      → AreGoverned s
      → snapshot.selection ≡ some selection
      → selection.decision ≡ decision
      → Holds (λ answer s'. IsPendingIn snapshot answer) (require_pending snapshot s)
  unfolding require_pending pending_refusal
  by_pending snapshot s selection pending_approval g e d = rw (e, d, Holds) (g, (e, d))
  by_pending snapshot s selection selected g e d = rw (e, d, Holds) g
  by_pending snapshot s selection approved g e d = rw (e, d, Holds) g
  by_pending snapshot s selection rejected g e d = rw (e, d, Holds) g

  pub require_pending-Holds :
      (snapshot : CapabilityDiscoverySnapshot) (s : DiscoveryState)
      → AreGoverned s
      → Holds (λ answer s'. IsPendingIn snapshot answer) (require_pending snapshot s)
  unfolding require_pending pending_refusal
  require_pending-Holds snapshot s g = elim (Option-cases snapshot.selection) [
    | inl missing ↦ rw (missing, Holds) g
    | inr (selection, e) ↦ by_pending snapshot s selection selection.decision g e refl
  ]

  by_decision :
      (snapshot : CapabilityDiscoverySnapshot) (s : DiscoveryState)
      (selection : CapabilitySelection) (decision : CapabilitySelectionDecision)
      → AreGoverned s
      → snapshot.selection ≡ some selection
      → selection.decision ≡ decision
      → Holds (λ answer s'. IsClearedIn snapshot answer) (require_decided snapshot s)
  unfolding require_decided
  by_decision snapshot s selection pending_approval g e d = rw (e, d, Holds) g
  by_decision snapshot s selection rejected g e d = rw (e, d, Holds) g
  by_decision snapshot s selection selected g e d = rw (e, d, Holds) (g, (e, rw d tt))
  by_decision snapshot s selection approved g e d = rw (e, d, Holds) (g, (e, rw d tt))

  pub require_decided-Holds :
      (snapshot : CapabilityDiscoverySnapshot) (s : DiscoveryState)
      → AreGoverned s
      → Holds (λ answer s'. IsClearedIn snapshot answer) (require_decided snapshot s)
  unfolding require_decided
  require_decided-Holds snapshot s g = elim (Option-cases snapshot.selection) [
    | inl missing ↦ rw (missing, Holds) g
    | inr (selection, e) ↦ by_decision snapshot s selection selection.decision g e refl
  ]
