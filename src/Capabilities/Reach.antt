-- ===== src/Capabilities/Reach.antt =====
-- server/capabilities/runtime.ts: the states that any calls lead to, with the `materialize` calls that
-- wait for the service; and what holds of all of them.
use mathlib.Core.Path.{subst}
use ai_knowledge_system.Common.{String, ◌≡◌, sym, ◌∙◌, some, List, [], ◌∷◌, ◌++◌, arith, lookup}
use ai_knowledge_system.Workflows.Kernel.State.{World}
use ai_knowledge_system.Capabilities.Types.{
  CapabilityDiscoveryInput, approved, rejected, CapabilityDiscoverySnapshot,
}
use ai_knowledge_system.Capabilities.Service.{Registry}
use ai_knowledge_system.Capabilities.Runtime.{
  DiscoveryState, new_runtime, Flight, Turn, gives, throws, select, approve, reject, discover,
  begin_materialize, finish_materialize,
}
use ai_knowledge_system.Capabilities.Governed.{IsReleased, AreAwaited-drop, IsIdle}
use ai_knowledge_system.Capabilities.Turns.{AreGoverned, Holds, Holds-state, turn_state}
use ai_knowledge_system.Capabilities.Select.{select-Holds, decide-Holds}
use ai_knowledge_system.Capabilities.Calls.{
  IsBegun, discover-Holds, begin_materialize-Holds, finish_materialize-Holds,
}

-- A `materialize` that goes on waits with the others; one that throws does not.
abbrev pub with_flight : Turn Flight → List Flight → List Flight
with_flight (gives flight s) flights = flight ∷ flights
with_flight (throws e s) flights = flights

module _ (world : World) where
  -- The registry is the one that its provider gives at the call. The calls that wait end in any order.
  -- What is left out is a `select` of a discovery, or a new discovery of its id, while a `materialize`
  -- of it waits.
  pub data Reach : DiscoveryState → List Flight → Type 0 where
    starts : Reach new_runtime []
    discovers :
        {s : DiscoveryState}
        → {flights : List Flight} (registry : Registry) (input : CapabilityDiscoveryInput)
        → Reach s flights
        → IsIdle flights
            (registry.survey input (world.uuid s.drawn) (world.now s.ticks)).discovery_id
        → Reach (turn_state (discover world registry input s)) flights
    selects :
        {s : DiscoveryState}
        → {flights : List Flight} (discovery_id capability_id : String) → Reach s flights
        → IsIdle flights discovery_id
        → Reach (turn_state (select world discovery_id capability_id s)) flights
    approves :
        {s : DiscoveryState}
        → {flights : List Flight} (discovery_id : String) → Reach s flights
        → Reach (turn_state (approve world discovery_id s)) flights
    rejects :
        {s : DiscoveryState}
        → {flights : List Flight} (discovery_id : String) → Reach s flights
        → Reach (turn_state (reject world discovery_id s)) flights
    begins :
        {s : DiscoveryState}
        → {flights : List Flight} (registry : Registry) (discovery_id : String) → Reach s flights
        → Reach
            (turn_state (begin_materialize world registry discovery_id s))
            (with_flight (begin_materialize world registry discovery_id s) flights)
    ends :
        {s : DiscoveryState}
        → (before : List Flight) (flight : Flight) (rest : List Flight)
        → Reach s (before ++ flight ∷ rest)
        → Reach (turn_state (finish_materialize world flight s)) (before ++ rest)

-- One more call waits, for the schema of a selection.
join-AreGoverned :
    (flights : List Flight) (flight : Flight) (s : DiscoveryState)
    (snapshot : CapabilityDiscoverySnapshot)
    → AreGoverned flights s
    → lookup flight.discovery_id s.snapshots ≡ some snapshot
    → IsReleased snapshot.selection (some flight.schema)
    → AreGoverned (flight ∷ flights) s
join-AreGoverned flights flight s snapshot g held belongs id other found =
    let (own, h) = g id other found in
    (
      own,
      record {
        log = h.log;
        selection = h.selection;
        schema = h.schema;
        awaited = (
          λ e.
              let there : lookup flight.discovery_id s.snapshots ≡ some other =
                subst (λ j. lookup j s.snapshots ≡ some other) (sym (e ∙ own)) found in
              let same : snapshot ≡ other = ground arith in
              subst (λ o. IsReleased o.selection (some flight.schema)) same belongs,
          h.awaited,
        );
      },
    )

leave-AreGoverned :
    (before : List Flight) (flight : Flight) (rest : List Flight) (s : DiscoveryState)
    → AreGoverned (before ++ flight ∷ rest) s
    → AreGoverned (before ++ rest) s
leave-AreGoverned before flight rest s g id snapshot found =
    let (own, h) = g id snapshot found in
    let (_, waiting) =
      AreAwaited-drop before flight rest snapshot.envelope.discovery_id snapshot.selection
        h.awaited in
    (own, record { log = h.log; selection = h.selection; schema = h.schema; awaited = waiting })

no_snapshot :
    (id : String) (snapshot : CapabilityDiscoverySnapshot)
    → lookup id new_runtime.snapshots ≡ some snapshot
    → ⊥
unfolding lookup
no_snapshot id snapshot found = ground arith

module _ (world : World) where
  begun-AreGoverned :
      (registry : Registry) (flights : List Flight) (o : Turn Flight)
      → Holds flights (IsBegun world flights registry) o
      → AreGoverned (with_flight o flights) (turn_state o)
  begun-AreGoverned registry flights (gives flight s) (g, (snapshot, held, belongs)) =
      join-AreGoverned flights flight s snapshot g held belongs
  begun-AreGoverned registry flights (throws e s) g = g

  ended-AreGoverned :
      (before : List Flight) (flight : Flight) (rest : List Flight) (s : DiscoveryState)
      → AreGoverned (before ++ flight ∷ rest) s
      → AreGoverned (before ++ rest) (turn_state (finish_materialize world flight s))
  ended-AreGoverned before flight rest s g =
      leave-AreGoverned before flight rest (turn_state (finish_materialize world flight s)) (
        Holds-state (before ++ flight ∷ rest) _ _ (
          finish_materialize-Holds world (before ++ flight ∷ rest) flight s g λ snapshot found.
            let (own, h) = g flight.discovery_id snapshot found in
            (AreAwaited-drop before flight rest snapshot.envelope.discovery_id snapshot.selection
                h.awaited).0
              (sym own)))

  -- After any calls, returned or thrown, also while calls of `materialize` wait for the service, if no
  -- `select` and no new discovery comes to a discovery while one waits for it: each discovery stands
  -- under its own id and is governed. Its events are numbered from 1; its selection is of an eligible
  -- candidate in its version and asked for approval exactly where the candidate requires it; a schema
  -- was handed out only for that selection, cleared, with the fingerprint that its definition expects;
  -- and each schema that is still waited for is such a one too.
  pub Reach-AreGoverned :
      (s : DiscoveryState) (flights : List Flight) → Reach world s flights → AreGoverned flights s
  unfolding approve reject
  Reach-AreGoverned _ _ starts = λ id snapshot found. absurd (no_snapshot id snapshot found)
  Reach-AreGoverned _ _ (discovers {s} {flights} registry input r idle) =
      Holds-state flights _ _
        (discover-Holds world flights registry input s idle (Reach-AreGoverned s flights r))
  Reach-AreGoverned _ _ (selects {s} {flights} id capability_id r idle) =
      Holds-state flights _ _
        (select-Holds world flights id capability_id s idle (Reach-AreGoverned s flights r))
  Reach-AreGoverned _ _ (approves {s} {flights} id r) = Holds-state flights _ _ (
      decide-Holds world flights approved _ _ id s (λ candidate h. h)
        (Reach-AreGoverned s flights r))
  Reach-AreGoverned _ _ (rejects {s} {flights} id r) = Holds-state flights _ _ (
      decide-Holds world flights rejected _ _ id s (λ candidate h. h)
        (Reach-AreGoverned s flights r))
  Reach-AreGoverned _ _ (begins {s} {flights} registry id r) =
      begun-AreGoverned registry flights (begin_materialize world registry id s)
        (begin_materialize-Holds world flights registry id s (Reach-AreGoverned s flights r))
  Reach-AreGoverned _ _ (ends {s} before flight rest r) =
      ended-AreGoverned before flight rest s (Reach-AreGoverned s (before ++ flight ∷ rest) r)
