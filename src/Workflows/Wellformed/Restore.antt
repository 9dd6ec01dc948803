-- ===== src/Workflows/Wellformed/Restore.antt =====
-- server/workflows/kernel.ts: `restoreExecution` accepts exactly the snapshots that are well formed,
-- and what it accepts it keeps well formed.
use ai_knowledge_system.Common.{
  ℕ, suc, ◌+◌, String, true, false, ◌≡◌, ◌≢◌, ◌↔◌, refl, ap, inl, inr, ◌⊎◌, none, List, [], ◌∷◌,
  arith, All, eq_iff, includes, Bool-cases, lookup-insert_self,
}
use ai_knowledge_system.Provenance.Types.{Envelope}
use ai_knowledge_system.Workflows.Types.{
  live, simulation, Mode, WorkflowExecution, ExecutionEvent, ExecutionSnapshot, Failure,
}
use ai_knowledge_system.Workflows.Kernel.State.{Kernel, returned, thrown, snapshot}
use ai_knowledge_system.Workflows.Kernel.Restore.{
  is_bound_event, check_events, is_sound_envelope, check_provenance, install, restore_execution,
}
use ai_knowledge_system.Workflows.Wellformed.{
  binding_of, event_binding, IsLog, Distinct, IsSoundEnvelope,
}

-- The ids seen so far are not among the later events.
abbrev IsFreshFor : List String → List ExecutionEvent → Type 0
IsFreshFor seen events = All (λ (e : ExecutionEvent). includes seen e.event_id ≡ false) events

bound_iff :
    (execution : WorkflowExecution) (event : ExecutionEvent)
    → (is_bound_event execution event ≡ true) ↔ (event_binding event ≡ binding_of execution)
unfolding is_bound_event
bound_iff execution event = (
  λ h. ground (
    arith,
    eq_iff event.execution_id execution.execution_id,
    eq_iff event.workflow_id execution.workflow_id,
    eq_iff event.scope_key execution.scope_key,
  ),
  λ h.
      let a = ap (λ b. b.execution_id) h in
      let b = ap (λ c. c.workflow_id) h in
      let c = ap (λ d. d.scope_key) h in
      ground (
        arith,
        eq_iff event.execution_id execution.execution_id,
        eq_iff event.workflow_id execution.workflow_id,
        eq_iff event.scope_key execution.scope_key,
      ),
)

sound_iff :
    (execution : WorkflowExecution) (envelope : Envelope)
    → (is_sound_envelope execution envelope ≡ true)
      ↔ IsSoundEnvelope (binding_of execution) envelope
unfolding is_sound_envelope
sound_iff execution envelope = (
  λ h. (
    ground (
      arith,
      eq_iff envelope.used_by_execution_id execution.execution_id,
      eq_iff envelope.workflow_id execution.workflow_id,
      eq_iff envelope.scope_key execution.scope_key,
    ),
    ground arith,
  ),
  λ (h, v).
      let a = ap (λ b. b.execution_id) h in
      let b = ap (λ c. c.workflow_id) h in
      let c = ap (λ d. d.scope_key) h in
      ground (
        arith,
        eq_iff envelope.used_by_execution_id execution.execution_id,
        eq_iff envelope.workflow_id execution.workflow_id,
        eq_iff envelope.scope_key execution.scope_key,
      ),
)

check_provenance-none_iff :
    (execution : WorkflowExecution) (envelopes : List Envelope)
    → (check_provenance execution envelopes ≡ none)
      ↔ All (IsSoundEnvelope (binding_of execution)) envelopes
unfolding check_provenance
check_provenance-none_iff execution [] = (λ _. tt, λ _. refl)
check_provenance-none_iff execution (envelope ∷ rest) =
    let (to, from) = check_provenance-none_iff execution rest in
    let (sound_to, sound_from) = sound_iff execution envelope in
    elim (Bool-cases (is_sound_envelope execution envelope)) [
      | inl good ↦ (
        λ h. (sound_to good, to (rw good at h)),
        λ (_, all). rw (good, check_provenance) (from all),
      )
      | inr bad ↦
          (λ h. absurd (ground arith), λ (s, all). let good = sound_from s in absurd (ground arith))
    ]

fresh-cons_iff :
    (id : String) (seen : List String) (events : List ExecutionEvent)
    → IsFreshFor (id ∷ seen) events
      ↔ (All (λ (later : ExecutionEvent). later.event_id ≢ id) events × IsFreshFor seen events)
fresh-cons_iff id seen [] = (λ _. (tt, tt), λ _. tt)
fresh-cons_iff id seen (event ∷ rest) =
    let (to, from) = fresh-cons_iff id seen rest in
    (
      λ (f, all).
          let (l, r) = to all in
          ((λ e. ground (arith, eq_iff id event.event_id), l), (ground arith, r)),
      λ ((ne, l), (f, r)). (ground (arith, eq_iff id event.event_id), from (l, r)),
    )

-- What the loop over the events looks for.
abbrev IsUnread : WorkflowExecution → ℕ → List String → List ExecutionEvent → Type 0
IsUnread execution index seen events =
    IsLog (binding_of execution) index events × Distinct events × IsFreshFor seen events

check_events-none_iff :
    (execution : WorkflowExecution) (index : ℕ) (seen : List String) (events : List ExecutionEvent)
    → (check_events execution index seen events ≡ none) ↔ IsUnread execution index seen events
unfolding check_events
check_events-none_iff execution index seen [] = (λ _. (tt, tt, tt), λ _. refl)
check_events-none_iff execution index seen (event ∷ rest) =
    let (to, from) = check_events-none_iff execution (suc index) (event.event_id ∷ seen) rest in
    let (bound_to, bound_from) = bound_iff execution event in
    let (fresh_to, fresh_from) = fresh-cons_iff event.event_id seen rest in
    (
      λ h.
          let bound : is_bound_event execution event ≡ true = ground arith in
          let numbered : event.sequence ≡ index + 1 = ground arith in
          let fresh : includes seen event.event_id ≡ false = ground arith in
          let (log, distinct, later) = to (ground arith) in
          let (different, others) = fresh_to later in
          ((bound_to bound, numbered, log), (different, distinct), (fresh, others)),
      λ ((b, s, log), (different, distinct), (fresh, others)).
          let bound = bound_from b in
          let rest_fine = from (log, distinct, fresh_from (different, others)) in ground arith,
    )

-- A snapshot that may be restored.
pub record IsPersisted (saved : ExecutionSnapshot) : Type 0 where
  pub mode : saved.execution.mode ≡ live
  pub log : IsLog (binding_of saved.execution) 0 saved.events
  pub distinct : Distinct saved.events
  pub evidence : All (IsSoundEnvelope (binding_of saved.execution)) saved.provenance_envelopes

all_fresh : (events : List ExecutionEvent) → IsFreshFor [] events
all_fresh [] = tt
all_fresh (event ∷ rest) = (refl, all_fresh rest)

pub snapshot-install :
    (saved : ExecutionSnapshot) (k : Kernel)
    → snapshot saved.execution.execution_id (install saved k) ≡ returned saved (install saved k)
unfolding snapshot install
snapshot-install saved k =
    let id = saved.execution.execution_id in
    ground (
      arith,
      lookup-insert_self id saved.execution k.executions,
      lookup-insert_self id saved.events k.events,
      lookup-insert_self id saved.provenance_envelopes k.provenance,
    )

Mode-cases : (mode : Mode) → (mode ≡ live) ⊎ (mode ≡ simulation)
Mode-cases live = inl refl
Mode-cases simulation = inr refl

-- A snapshot is restored exactly when it is live, its log is bound to its execution and numbered
-- from 1 without a gap or a repeated id, and its provenance is bound and valid; the call then
-- returns it, and its maps hold it.
pub restore_execution_iff :
    (saved : ExecutionSnapshot) (k : Kernel)
    → (restore_execution saved k ≡ returned saved (install saved k)) ↔ IsPersisted saved
unfolding restore_execution
restore_execution_iff saved k =
    let execution = saved.execution in
    let (log_to, log_from) = check_events-none_iff execution 0 [] saved.events in
    let (prov_to, prov_from) = check_provenance-none_iff execution saved.provenance_envelopes in
    (
      λ h.
          let live_mode : execution.mode ≡ live = ground arith in
          let events_fine : check_events execution 0 [] saved.events ≡ none = ground arith in
          let provenance_fine : check_provenance execution saved.provenance_envelopes ≡ none =
            ground arith in
          let (log, distinct, _) = log_to events_fine in
          record {
            mode = live_mode;
            log = log;
            distinct = distinct;
            evidence = prov_to provenance_fine;
          },
      λ p.
          let events_fine = log_from (p.log, p.distinct, all_fresh saved.events) in
          let provenance_fine = prov_from p.evidence in
          let mode = p.mode in ground (arith, snapshot-install saved k),
    )

-- A snapshot that is refused changes nothing.
pub restore_execution-thrown :
    (saved : ExecutionSnapshot) (k k' : Kernel) (failure : Failure)
    → restore_execution saved k ≡ thrown failure k'
    → k' ≡ k
unfolding restore_execution
restore_execution-thrown saved k k' failure e = ground (arith, snapshot-install saved k)

restored_parts :
    (saved : ExecutionSnapshot) (k : Kernel) (answer : ExecutionSnapshot) (k' : Kernel)
    → restore_execution saved k ≡ returned answer k'
    → (restore_execution saved k ≡ returned saved (install saved k)) × (k' ≡ install saved k)
unfolding restore_execution
restored_parts saved k answer k' e = ground (arith, snapshot-install saved k)

-- A call that returns has installed the snapshot, which is one that may be restored.
pub restore_execution-returned :
    (saved : ExecutionSnapshot) (k : Kernel) (answer : ExecutionSnapshot) (k' : Kernel)
    → restore_execution saved k ≡ returned answer k'
    → IsPersisted saved × (k' ≡ install saved k)
restore_execution-returned saved k answer k' e =
    let (p, installed) = restored_parts saved k answer k' e in
    ((restore_execution_iff saved k).0 p, installed)
