-- ===== src/Workflows/History.antt =====
-- server/workflows/kernel.ts: the event log and the provenance of an execution only grow, and its
-- identity is never changed.
use mathlib.Core.List.{append-nil, append_assoc}
use ai_knowledge_system.Common.{
  String, ◌≡◌, ◌≢◌, refl, sym, ap, ◌∙◌, inl, inr, Option, some, List, [], ◌∷◌, ◌++◌, arith, or_else,
  false, str_eq, eq_iff, Bool-cases, lookup, insert, lookup-insert, lookup-remove,
}
use ai_knowledge_system.Provenance.Types.{Envelope}
use ai_knowledge_system.Workflows.Json.{JsonObject}
use ai_knowledge_system.Workflows.Types.{
  WorkflowExecution, ExecutionEvent, ExecutionSnapshot, CreateExecutionRequest,
}
use ai_knowledge_system.Workflows.Kernel.State.{World, Kernel, log_of, evidence_of, put}
use ai_knowledge_system.Workflows.Kernel.Log.{next_event, emit}
use ai_knowledge_system.Workflows.Kernel.Create.{fresh_execution, enter, discard_execution}
use ai_knowledge_system.Workflows.Calls.{Call, restores, discards, perform}
use ai_knowledge_system.Workflows.Wellformed.{
  Wellformed, HasFreshUuids, Identity, identity_of, IsStored,
}
use ai_knowledge_system.Workflows.Wellformed.Primitives.{or_else-insert, discard-Wellformed}
use ai_knowledge_system.Workflows.Wellformed.RoundTrip.{restore-Keeps, install-Wellformed}
use ai_knowledge_system.Workflows.Kernel.Restore.{install}
use ai_knowledge_system.Workflows.Invariant.{IsInvariant, attach, enter_fresh}
use ai_knowledge_system.Workflows.Invariant.Calls.{MapsKept, perform-Keeps}
use ai_knowledge_system.Workflows.Reach.{IsAllowed, Wellformed-IsInvariant}

-- The second list begins with the first.
abbrev pub IsPrefix {ℓ} : {A : Type ℓ} → List A → List A → Type ℓ
IsPrefix {A} old new = (added : List A) × (new ≡ old ++ added)

IsPrefix-refl {ℓ} : {A : Type ℓ} (xs : List A) → IsPrefix xs xs
IsPrefix-refl xs = ([], sym (append-nil xs))

IsPrefix-concat {ℓ} : {A : Type ℓ} (xs ys zs : List A) → IsPrefix xs ys → IsPrefix xs (ys ++ zs)
IsPrefix-concat xs ys zs (added, e) = (added ++ zs, ap (λ l. l ++ zs) e ∙ append_assoc xs added zs)

-- The execution is in the map with this identity, and its log and its evidence begin with these.
pub record Extends (id : String) (who : Identity) (events : List ExecutionEvent)
    (envelopes : List Envelope) (k : Kernel) : Type 0 where
  pub present : (x : WorkflowExecution) × (lookup id k.executions ≡ some x) × (identity_of x ≡ who)
  pub log : IsPrefix events (log_of id k)
  pub evidence : IsPrefix envelopes (evidence_of id k)

-- An entry of a map of lists that one element is added to.
write_IsPrefix {ℓ} :
    {A : Type ℓ} (id key : String) (x : A) (old : List A) (m : List (String × List A))
    → IsPrefix old (or_else (lookup id m) [])
    → IsPrefix old (or_else (lookup id (insert key (or_else (lookup key m) [] ++ x ∷ []) m)) [])
write_IsPrefix id key x old m h = elim (Bool-cases (str_eq key id)) [
  | inl here ↦
      let eq : key ≡ id = (eq_iff key id).0 here in
      rw (or_else-insert key id _ m, here, eq) (IsPrefix-concat old _ (x ∷ []) h)
  | inr other ↦ rw (or_else-insert key id _ m, other) h
]

module _ (world : World) (id : String) (who : Identity) (events : List ExecutionEvent)
    (envelopes : List Envelope) where
  abbrev Kept : Kernel → Type 0
  Kept k = Wellformed world k × Extends id who events envelopes k

  put-Extends :
      (k : Kernel) (execution : WorkflowExecution)
      → Extends id who events envelopes k
      → IsStored execution k
      → Extends id who events envelopes (put execution k)
  unfolding put
  put-Extends k execution h (stored, at, same) = record {
    present = elim (Bool-cases (str_eq execution.execution_id id)) [
      | inl here ↦
          let key : execution.execution_id ≡ id = (eq_iff _ _).0 here in
          let eq : stored ≡ h.present.0 = cc (key, at, h.present.1) in
          (
            execution,
            rw (lookup-insert execution.execution_id id execution k.executions, here) refl,
            sym same ∙ ap identity_of eq ∙ h.present.2,
          )
      | inr other ↦ (
        h.present.0,
        rw (lookup-insert execution.execution_id id execution k.executions, other) h.present.1,
        h.present.2,
      )
    ];
    log = h.log;
    evidence = h.evidence;
  }

  emit-Extends :
      (k : Kernel) (execution : WorkflowExecution) (event_type : String)
      (payload : Option JsonObject)
      → Extends id who events envelopes k
      → Extends id who events envelopes (emit world execution event_type payload k)
  unfolding emit
  emit-Extends k execution event_type payload h = record {
    present = h.present;
    log =
        write_IsPrefix id execution.execution_id (next_event world execution event_type payload k)
          events k.events h.log;
    evidence = h.evidence;
  }

  attach-Extends :
      (k : Kernel) (execution : WorkflowExecution) (envelope : Envelope)
      → Extends id who events envelopes k
      → Extends id who events envelopes (attach execution envelope k)
  attach-Extends k execution envelope h = record {
    present = h.present;
    log = h.log;
    evidence = write_IsPrefix id execution.execution_id envelope envelopes k.provenance h.evidence;
  }

  -- A new execution has another id: the UUID that it draws is none of those drawn before.
  enter-Extends :
      HasFreshUuids world
      → (request : CreateExecutionRequest) (k : Kernel) → Wellformed world k
      → Extends id who events envelopes k
      → Extends id who events envelopes (enter_fresh world request k)
  unfolding enter fresh_execution
  enter-Extends unique request k w h =
      let (x, at, same) = h.present in
      let known = (w id x at).1.known in
      let keyed = (w id x at).0 in
      let other : str_eq (world.uuid k.drawn) id ≡ false =
        elim (Bool-cases (str_eq (world.uuid k.drawn) id)) [
          | inl here ↦
              let i = unique k.drawn known.0 ((eq_iff _ _).0 here ∙ sym keyed ∙ known.2) in
              absurd (omega (arith, known.1, i))
          | inr other ↦ other
        ] in
      record {
        present = (x, rw (lookup-insert (world.uuid k.drawn) id _ k.executions, other) at, same);
        log = rw (or_else-insert (world.uuid k.drawn) id _ k.events, other) h.log;
        evidence = rw (or_else-insert (world.uuid k.drawn) id _ k.provenance, other) h.evidence;
      }

  Kept-IsInvariant : HasFreshUuids world → IsInvariant world Kept
  Kept-IsInvariant unique =
      let base = Wellformed-IsInvariant world unique in
      record {
        unique = unique;
        wellformed = λ k h. h.0;
        tick =
            λ k h. (h.0, record { present = h.1.present; log = h.1.log; evidence = h.1.evidence });
        draw = λ k h. (
          base.draw k h.0,
          record { present = h.1.present; log = h.1.log; evidence = h.1.evidence },
        );
        changed =
            λ k execution h s. (base.changed k execution h.0 s, put-Extends k execution h.1 s);
        emitted = λ k execution event_type payload h s. (
          base.emitted k execution event_type payload h.0 s,
          emit-Extends k execution event_type payload h.1,
        );
        attached = λ k execution envelope h s sound. (
          base.attached k execution envelope h.0 s sound,
          attach-Extends k execution envelope h.1,
        );
        entered =
            λ request k h. (base.entered request k h.0, enter-Extends unique request k h.0 h.1);
      }

  discard-Extends :
      (k : Kernel) (other : String)
      → other ≢ id
      → Extends id who events envelopes k
      → Extends id who events envelopes (discard_execution other k)
  unfolding discard_execution
  discard-Extends k other ne h =
      let differs : str_eq other id ≡ false = ground (arith, eq_iff other id) in
      let (x, at, same) = h.present in
      record {
        present = (x, rw (lookup-remove other id k.executions, differs) at, same);
        log = rw (lookup-remove other id k.events, differs) h.log;
        evidence = rw (lookup-remove other id k.provenance, differs) h.evidence;
      }

  install-Extends :
      (k : Kernel) (saved : ExecutionSnapshot)
      → saved.execution.execution_id ≢ id
      → Extends id who events envelopes k
      → Extends id who events envelopes (install saved k)
  unfolding install
  install-Extends k saved ne h =
      let other = saved.execution.execution_id in
      let differs : str_eq other id ≡ false = ground (arith, eq_iff other id) in
      let (x, at, same) = h.present in
      record {
        present = (x, rw (lookup-insert other id saved.execution k.executions, differs) at, same);
        log = rw (or_else-insert other id saved.events k.events, differs) h.log;
        evidence =
            rw (or_else-insert other id saved.provenance_envelopes k.provenance, differs)
              h.evidence;
      }

-- The call does not discard the execution, nor restore a snapshot over it.
abbrev pub Spares : String → Call → Type 0
Spares id (restores saved) = saved.execution.execution_id ≢ id
Spares id (discards other) = other ≢ id
Spares id _ = Unit

maps-Kept :
    (world : World) (id : String) (who : Identity) (events : List ExecutionEvent)
    (envelopes : List Envelope) (call : Call) (k : Kernel)
    → IsAllowed world call k
    → Spares id call
    → Kept world id who events envelopes k
    → MapsKept (Kept world id who events envelopes) call k
maps-Kept world id who events envelopes (restores saved) k known ne (w, h) =
    restore-Keeps (Kept world id who events envelopes) saved k (w, h)
      λ p. (
        install-Wellformed world saved k w known p,
        install-Extends world id who events envelopes k saved ne h,
      )
maps-Kept world id who events envelopes (discards other) k _ ne (w, h) =
    (discard-Wellformed world k other w, discard-Extends world id who events envelopes k other ne h)
maps-Kept world id who events envelopes _ k _ _ _ = tt

module _ (world : World) where
  -- Calls, one after the other, none of which discards or overwrites the execution.
  pub data Continues (id : String) (k : Kernel) : Kernel → Type 0 where
    stays : Continues id k k
    goes_on :
        {k' : Kernel}
        → Continues id k k'
        → (call : Call) → IsAllowed world call k'
        → Spares id call
        → Continues id k (perform world call k')

Continues-Kept :
    (world : World) (id : String) (who : Identity) {k k' : Kernel}
    → HasFreshUuids world
    → Continues world id k k'
    → (events : List ExecutionEvent) (envelopes : List Envelope)
    → Kept world id who events envelopes k
    → Kept world id who events envelopes k'
Continues-Kept world id who unique stays events envelopes h = h
Continues-Kept world id who unique (goes_on {k'} run call allowed spares) events envelopes h =
    let h' = Continues-Kept world id who unique run events envelopes h in
    perform-Keeps world (Kept world id who events envelopes)
      (Kept-IsInvariant world id who events envelopes unique) call k' h'
      (maps-Kept world id who events envelopes call k' allowed spares h')

-- From a well-formed state, if no UUID is drawn twice: as long as an execution is neither discarded nor overwritten by a restore, whatever else is
-- called, and also by calls that throw: it stays in the map with its identity, its event log only
-- gains events at the end, and its provenance only gains envelopes at the end.
pub Continues-Extends :
    (world : World) (id : String) (execution : WorkflowExecution) (k k' : Kernel)
    → HasFreshUuids world
    → Wellformed world k
    → lookup id k.executions ≡ some execution
    → Continues world id k k'
    → Extends id (identity_of execution) (log_of id k) (evidence_of id k) k'
Continues-Extends world id execution k k' unique w found run =
    (Continues-Kept world id (identity_of execution) unique run (log_of id k) (evidence_of id k) (
      w,
      record {
        present = (execution, found, refl);
        log = IsPrefix-refl (log_of id k);
        evidence = IsPrefix-refl (evidence_of id k);
      },
    )).1
