-- ===== src/Durable/RoundTrip.antt =====
-- server/workflows/durable-runtime.ts: what `snapshotToDurableHistory` makes of a snapshot,
-- `durableHistoryToSnapshot` reads back.
use ai_knowledge_system.Common.{
  ℕ, suc, String, Bool, ◌≡◌, refl, ap, inl, inr, some, List, [], ◌∷◌, ◌++◌, map, find, arith,
  eq_iff, truthy, Option-cases,
}
use ai_knowledge_system.Provenance.Types.{Envelope}
use ai_knowledge_system.Workflows.Types.{live, WorkflowExecution, ExecutionEvent, ExecutionSnapshot}
use ai_knowledge_system.Workflows.Kernel.State.{Kernel, returned}
use ai_knowledge_system.Workflows.Kernel.Restore.{install, restore_execution}
use ai_knowledge_system.Workflows.Wellformed.{binding_of, event_binding, IsLog}
use ai_knowledge_system.Workflows.Wellformed.Restore.{IsPersisted, restore_execution_iff}
use ai_knowledge_system.Durable.Types.{ExecutionHistoryIdentity}
use ai_knowledge_system.Durable.Names.{link_type_name}
use ai_knowledge_system.Durable.Valid.Sequence.{natural_of-integer}
use ai_knowledge_system.Durable.Valid.Bundles.{IsBundle, assert_bundle-none_iff}
use ai_knowledge_system.Durable.Snapshots.{
  converted, identity_of, provenance_link, state_link, parent_links, durable_record, durable_event,
  bundle_of, is_state_link, next_action_envelope_of, selected_next_action_of, envelope_in,
  envelopes_in, event_of, snapshot_of, snapshot_to_durable_history, durable_history_to_snapshot,
}

event_of-durable_event :
    (execution : WorkflowExecution) (capability_id : String) (event : ExecutionEvent)
    → event_binding event ≡ binding_of execution
    → event_of (durable_event (identity_of execution capability_id) event) ≡ event
unfolding event_of durable_event identity_of
event_of-durable_event execution capability_id event e =
    let id : event.execution_id ≡ execution.execution_id = ap (λ b. b.execution_id) e in
    let scope : event.scope_key ≡ execution.scope_key = ap (λ b. b.scope_key) e in
    rw (← id, ← scope) (ap (λ n. record event { sequence = n }) (natural_of-integer event.sequence))

pub events_back :
    (execution : WorkflowExecution) (capability_id : String) (n : ℕ) (events : List ExecutionEvent)
    → IsLog (binding_of execution) n events
    → map event_of (map (durable_event (identity_of execution capability_id)) events) ≡ events
events_back execution capability_id n [] h = refl
events_back execution capability_id n (event ∷ rest) (b, s, h) = cc (
  event_of-durable_event execution capability_id event b,
  events_back execution capability_id (suc n) rest h,
)

envelopes_in-parent_links :
    (identity : ExecutionHistoryIdentity) (execution : WorkflowExecution)
    → envelopes_in (parent_links identity execution) ≡ []
unfolding envelopes_in parent_links envelope_in
envelopes_in-parent_links identity execution =
    elim (Option-cases (truthy execution.parent_execution_id)) [
      | inl absent ↦ rw (absent, envelopes_in, parent_links) refl
      | inr (parent, given) ↦ rw (given, envelopes_in, parent_links) refl
    ]

pub envelopes_back :
    (identity : ExecutionHistoryIdentity) (execution : WorkflowExecution)
    (envelopes : List Envelope)
    → envelopes_in (
        map (provenance_link identity) envelopes
        ++ (state_link identity execution ∷ parent_links identity execution))
      ≡ envelopes
unfolding envelopes_in provenance_link state_link envelope_in
envelopes_back identity execution [] = envelopes_in-parent_links identity execution
envelopes_back identity execution (envelope ∷ rest) =
    ap (λ xs. envelope ∷ xs) (envelopes_back identity execution rest)

pub state_back :
    (identity : ExecutionHistoryIdentity) (execution : WorkflowExecution)
    (envelopes : List Envelope)
    → find (is_state_link execution.execution_id) (
        map (provenance_link identity) envelopes
        ++ (state_link identity execution ∷ parent_links identity execution))
      ≡ some (state_link identity execution)
unfolding is_state_link provenance_link state_link link_type_name
state_back identity execution [] =
    rw ((eq_iff execution.execution_id execution.execution_id).1 refl) refl
state_back identity execution (envelope ∷ rest) = state_back identity execution rest

action_back :
    (identity : ExecutionHistoryIdentity) (execution : WorkflowExecution)
    → next_action_envelope_of (some (state_link identity execution))
      ≡ execution.next_action_envelope
unfolding next_action_envelope_of state_link
action_back identity execution = refl

selection_back :
    (identity : ExecutionHistoryIdentity) (execution : WorkflowExecution)
    → selected_next_action_of (some (state_link identity execution))
      ≡ execution.selected_next_action
unfolding selected_next_action_of state_link
selection_back identity execution = refl

-- A snapshot that may be restored is read back from the bundle that is made of it.
pub snapshot_of-bundle_of :
    (saved : ExecutionSnapshot) (capability_id : String)
    → IsPersisted saved
    → snapshot_of (bundle_of saved capability_id) ≡ saved
unfolding snapshot_of bundle_of durable_record identity_of
snapshot_of-bundle_of saved capability_id p =
    let execution = saved.execution in
    let identity = identity_of execution capability_id in
    rw
      (
        state_back identity execution saved.provenance_envelopes,
        envelopes_back identity execution saved.provenance_envelopes,
        events_back execution capability_id 0 saved.events p.log,
        action_back identity execution,
        selection_back identity execution,
        ← p.mode,
      )
      refl

pub converted_lem :
    (is_date : String → Bool) (saved : ExecutionSnapshot) (capability_id : String)
    → IsBundle is_date (bundle_of saved capability_id)
    → snapshot_to_durable_history is_date saved capability_id
      ≡ converted (bundle_of saved capability_id)
unfolding snapshot_to_durable_history
converted_lem is_date saved capability_id h =
    let passed = (assert_bundle-none_iff is_date (bundle_of saved capability_id)).1 h in
    ground arith

pub mode_back :
    (saved : ExecutionSnapshot) (capability_id : String)
    → IsPersisted saved
    → (bundle_of saved capability_id).execution.mode ≡ live
unfolding bundle_of durable_record
mode_back saved capability_id p = p.mode

converted-back :
    (is_date : String → Bool) (saved : ExecutionSnapshot) (capability_id : String)
    → IsPersisted saved
    → IsBundle is_date (bundle_of saved capability_id)
    → durable_history_to_snapshot is_date (bundle_of saved capability_id) ≡ converted saved
unfolding durable_history_to_snapshot
converted-back is_date saved capability_id p h =
    let passed = (assert_bundle-none_iff is_date (bundle_of saved capability_id)).1 h in
    let mode = mode_back saved capability_id p in
    let same = snapshot_of-bundle_of saved capability_id p in ground arith

-- A snapshot that may be restored, and whose bundle is well formed, is converted to that bundle; the
-- bundle is converted back to the same snapshot; and any kernel then restores it.
pub durable_round_trip :
    (is_date : String → Bool) (saved : ExecutionSnapshot) (capability_id : String) (k : Kernel)
    → IsPersisted saved
    → IsBundle is_date (bundle_of saved capability_id)
    → (snapshot_to_durable_history is_date saved capability_id
        ≡ converted (bundle_of saved capability_id))
      × (durable_history_to_snapshot is_date (bundle_of saved capability_id) ≡ converted saved)
      × (restore_execution saved k ≡ returned saved (install saved k))
durable_round_trip is_date saved capability_id k p h = (
  converted_lem is_date saved capability_id h,
  converted-back is_date saved capability_id p h,
  (restore_execution_iff saved k).1 p,
)
