-- ===== src/Workflows/Wellformed/Primitives.antt =====
-- server/workflows/kernel.ts: each change that the methods are made of keeps the maps well formed.
use ai_knowledge_system.Common.{
  ℕ, suc, ◌+◌, String, ◌≡◌, refl, sym, ap, ◌∙◌, ◌≢◌, inl, inr, Option, some, List, [], ◌∷◌, ◌++◌,
  arith, All, All-append, All-map, length, or_else, if◌then◌else◌, str_eq, eq_iff, Bool-cases,
  lookup, insert, lookup-insert, lookup-remove,
}
use ai_knowledge_system.Provenance.Types.{Envelope, ExecutionBinding}
use ai_knowledge_system.Workflows.Json.{JsonObject}
use ai_knowledge_system.Workflows.Types.{WorkflowExecution, ExecutionEvent}
use ai_knowledge_system.Workflows.Kernel.State.{World, Kernel, log_of, evidence_of, put}
use ai_knowledge_system.Workflows.Kernel.Log.{next_event, emit}
use ai_knowledge_system.Workflows.Kernel.Create.{discard_execution}
use ai_knowledge_system.Workflows.Wellformed.{
  binding_of, identity_of, event_binding, IsLog, Distinct, IsSoundEnvelope, IsIssued, IsEntry,
  Wellformed, HasFreshUuids, IsStored,
}

-- What a map holds at a key after a write, and the same where a missing entry is the empty list.
pub or_else-insert {ℓ} :
    {V : Type ℓ} (k j : String) (v : List V) (m : List (String × List V))
    → or_else (lookup j (insert k v m)) [] ≡ (if str_eq k j then v else or_else (lookup j m) [])
or_else-insert k j v m = rw (lookup-insert k j v m) (ground arith)

IsLog-concat :
    (binding : ExecutionBinding) (n : ℕ) (events : List ExecutionEvent) (event : ExecutionEvent)
    → IsLog binding n events
    → event_binding event ≡ binding
    → event.sequence ≡ n + length events + 1
    → IsLog binding n (events ++ event ∷ [])
IsLog-concat binding n [] event h b s = (b, omega arith, tt)
IsLog-concat binding n (first ∷ rest) event (fb, fs, h) b s =
    (fb, fs, IsLog-concat binding (suc n) rest event h b (omega arith))

Distinct-concat :
    (events : List ExecutionEvent) (event : ExecutionEvent)
    → Distinct events
    → All (λ (e : ExecutionEvent). event.event_id ≢ e.event_id) events
    → Distinct (events ++ event ∷ [])
Distinct-concat [] event h n = (tt, tt)
Distinct-concat (first ∷ rest) event (d, h) (p, n) = (
  All-append (λ (later : ExecutionEvent). later.event_id ≢ first.event_id) rest (event ∷ []) d
      (p, tt),
  Distinct-concat rest event h n,
)

module _ (world : World) where
  IsIssued-suc :
      (n : ℕ) (events : List ExecutionEvent)
      → All (IsIssued world n) events
      → All (IsIssued world (suc n)) events
  IsIssued-suc n events h =
      All-map (IsIssued world n) (IsIssued world (suc n)) events
        (λ e i. (i.0, omega (arith, i.1), i.2)) h

  fresh-ne :
      HasFreshUuids world
      → (n : ℕ) (events : List ExecutionEvent) → All (IsIssued world n) events
      → All (λ (e : ExecutionEvent). world.uuid n ≢ e.event_id) events
  fresh-ne unique n events h =
      All-map (IsIssued world n) (λ e. world.uuid n ≢ e.event_id) events
        (λ e i same. let eq = unique n i.0 (cc (i.2)) in omega (arith, i.1, eq)) h

  -- A draw of a UUID that no event takes.
  pub IsEntry-suc :
      (n : ℕ) (events : List ExecutionEvent) (envelopes : List Envelope)
      (execution : WorkflowExecution)
      → IsEntry world n events envelopes execution
      → IsEntry world (suc n) events envelopes execution
  IsEntry-suc n events envelopes execution h = record {
    mode = h.mode;
    known = (h.known.0, omega (arith, h.known.1), h.known.2);
    log = h.log;
    distinct = h.distinct;
    issued = IsIssued-suc n events h.issued;
    evidence = h.evidence;
  }

  -- The entry depends on the execution's identity alone.
  pub IsEntry-same :
      (n : ℕ) (events : List ExecutionEvent) (envelopes : List Envelope)
      (old new : WorkflowExecution)
      → identity_of old ≡ identity_of new
      → IsEntry world n events envelopes old
      → IsEntry world n events envelopes new
  IsEntry-same n events envelopes old new same h =
      let b = ap (λ i. i.binding) same in
      record {
        mode = sym (ap (λ i. i.mode) same) ∙ h.mode;
        known = (h.known.0, h.known.1, ap (λ c. c.execution_id) (sym b) ∙ h.known.2);
        log = rw (← b) h.log;
        distinct = h.distinct;
        issued = h.issued;
        evidence = rw (← b) h.evidence;
      }

  pub draw-Wellformed :
      (k : Kernel) → Wellformed world k → Wellformed world (record k { drawn = suc k.drawn })
  draw-Wellformed k w id execution found =
      let (keyed, entry) = w id execution found in (keyed, IsEntry-suc k.drawn _ _ execution entry)

  pub put-Wellformed :
      (k : Kernel) (execution : WorkflowExecution)
      → Wellformed world k
      → IsStored execution k
      → Wellformed world (put execution k)
  unfolding put
  put-Wellformed k execution w (stored, at, same) id x found =
      elim (Bool-cases (str_eq execution.execution_id id)) [
        | inl here ↦
            let key : execution.execution_id ≡ id = (eq_iff _ _).0 here in
            let eq : execution ≡ x =
              ground (arith, lookup-insert execution.execution_id id execution k.executions) in
            let (keyed, entry) = w id stored (rw (← key) at) in
            rw (← eq) (key, IsEntry-same k.drawn _ _ stored execution same entry)
        | inr other ↦
            w id x (ground (arith, lookup-insert execution.execution_id id execution k.executions))
      ]

  -- The event that `emit` builds extends the log of its execution.
  emit-IsEntry :
      HasFreshUuids world
      → (k : Kernel) (execution stored : WorkflowExecution) (event_type : String)
        (payload : Option JsonObject)
      → identity_of stored ≡ identity_of execution
      → IsEntry world k.drawn
          (log_of execution.execution_id k)
          (evidence_of execution.execution_id k)
          stored
      → IsEntry world
          (suc k.drawn)
          (log_of execution.execution_id k ++ next_event world execution event_type payload k ∷ [])
          (evidence_of execution.execution_id k)
          stored
  unfolding next_event
  emit-IsEntry unique k execution stored event_type payload same h = record {
    mode = h.mode;
    known = (h.known.0, omega (arith, h.known.1), h.known.2);
    log =
        IsLog-concat (binding_of stored) 0 _ _ h.log (sym (ap (λ i. i.binding) same)) (omega arith);
    distinct = Distinct-concat _ _ h.distinct (fresh-ne unique k.drawn _ h.issued);
    issued =
        All-append (IsIssued world (suc k.drawn)) _ _ (IsIssued-suc k.drawn _ h.issued)
          ((k.drawn, omega arith, refl), tt);
    evidence = h.evidence;
  }

  pub emit-Wellformed :
      HasFreshUuids world
      → (k : Kernel) (execution : WorkflowExecution) (event_type : String)
        (payload : Option JsonObject)
      → Wellformed world k
      → IsStored execution k
      → Wellformed world (emit world execution event_type payload k)
  unfolding emit
  emit-Wellformed unique k execution event_type payload w (stored, at, same) id x found =
      elim (Bool-cases (str_eq execution.execution_id id)) [
        | inl here ↦
            let key : execution.execution_id ≡ id = (eq_iff _ _).0 here in
            let found' : lookup id k.executions ≡ some x = found in
            let eq : stored ≡ x = cc (key, at, found') in
            let (keyed, entry) = w execution.execution_id stored at in
            rw (← key, ← eq)
              (
                keyed,
                rw
                    (
                      or_else-insert execution.execution_id execution.execution_id _ k.events,
                      (eq_iff execution.execution_id execution.execution_id).1 refl,
                    )
                    (emit-IsEntry unique k execution stored event_type payload same entry),
              )
        | inr other ↦
            let (keyed, entry) = w id x found in
            (
              keyed,
              rw (or_else-insert execution.execution_id id _ k.events, other)
                  (IsEntry-suc k.drawn _ _ x entry),
            )
      ]

  IsEntry-concat :
      (n : ℕ) (events : List ExecutionEvent) (envelopes : List Envelope) (envelope : Envelope)
      (execution : WorkflowExecution)
      → IsEntry world n events envelopes execution
      → IsSoundEnvelope (binding_of execution) envelope
      → IsEntry world n events (envelopes ++ envelope ∷ []) execution
  IsEntry-concat n events envelopes envelope execution h sound = record {
    mode = h.mode;
    known = h.known;
    log = h.log;
    distinct = h.distinct;
    issued = h.issued;
    evidence =
        All-append (IsSoundEnvelope (binding_of execution)) envelopes (envelope ∷ []) h.evidence
          (sound, tt);
  }

  -- A valid envelope, bound to the execution, joins its evidence.
  pub evidence-Wellformed :
      (k : Kernel) (execution : WorkflowExecution) (envelope : Envelope)
      → Wellformed world k
      → IsStored execution k
      → IsSoundEnvelope (binding_of execution) envelope
      → Wellformed world (record k {
        provenance =
            insert execution.execution_id
              (evidence_of execution.execution_id k ++ envelope ∷ [])
              k.provenance;
      })
  evidence-Wellformed k execution envelope w (stored, at, same) sound id x found =
      elim (Bool-cases (str_eq execution.execution_id id)) [
        | inl here ↦
            let key : execution.execution_id ≡ id = (eq_iff _ _).0 here in
            let found' : lookup id k.executions ≡ some x = found in
            let eq : stored ≡ x = cc (key, at, found') in
            let (keyed, entry) = w execution.execution_id stored at in
            rw (← key, ← eq)
              (
                keyed,
                rw
                    (
                      or_else-insert execution.execution_id execution.execution_id _ k.provenance,
                      (eq_iff execution.execution_id execution.execution_id).1 refl,
                    )
                    (IsEntry-concat k.drawn _ _ envelope stored entry
                      (rw (ap (λ i. i.binding) same) sound)),
              )
        | inr other ↦
            let (keyed, entry) = w id x found in
            (keyed, rw (or_else-insert execution.execution_id id _ k.provenance, other) entry)
      ]

  -- An entry that replaces whatever its id had.
  pub replace-Wellformed :
      (k : Kernel) (execution : WorkflowExecution) (events : List ExecutionEvent)
      (envelopes : List Envelope)
      → Wellformed world k
      → IsEntry world k.drawn events envelopes execution
      → Wellformed world (record k {
        executions = insert execution.execution_id execution k.executions;
        events = insert execution.execution_id events k.events;
        provenance = insert execution.execution_id envelopes k.provenance;
      })
  replace-Wellformed k execution events envelopes w h id x found =
      let key = execution.execution_id in
      elim (Bool-cases (str_eq key id)) [
        | inl here ↦
            let eq : execution ≡ x = ground (arith, lookup-insert key id execution k.executions) in
            rw (or_else-insert key id _ k.events, or_else-insert key id _ k.provenance, here, ← eq)
              ((eq_iff _ _).0 here, h)
        | inr other ↦
            let found' : lookup id k.executions ≡ some x =
              ground (arith, lookup-insert key id execution k.executions) in
            rw (or_else-insert key id _ k.events, or_else-insert key id _ k.provenance, other)
              (w id x found')
      ]

  pub discard-Wellformed :
      (k : Kernel) (id : String) → Wellformed world k → Wellformed world (discard_execution id k)
  unfolding discard_execution
  discard-Wellformed k id w j x found = elim (Bool-cases (str_eq id j)) [
    | inl here ↦ absurd (ground (arith, lookup-remove id j k.executions))
    | inr other ↦
        let found' : lookup j k.executions ≡ some x =
          ground (arith, lookup-remove id j k.executions) in
        rw (lookup-remove id j k.events, lookup-remove id j k.provenance, other) (w j x found')
  ]
