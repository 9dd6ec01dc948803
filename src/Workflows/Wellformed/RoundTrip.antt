-- ===== src/Workflows/Wellformed/RoundTrip.antt =====
-- server/workflows/kernel.ts: `snapshot` and `restoreExecution` are inverse, and a restore keeps the
-- maps well formed.
use mathlib.Core.Path.{subst}
use ai_knowledge_system.Common.{String, ◌≡◌, refl, sym, some, arith, All, lookup}
use ai_knowledge_system.Workflows.Types.{ExecutionSnapshot}
use ai_knowledge_system.Workflows.Kernel.State.{
  World, Kernel, Outcome, after, returned, thrown, log_of, evidence_of, require_execution, snapshot,
}
use ai_knowledge_system.Workflows.Kernel.Restore.{install, restore_execution}
use ai_knowledge_system.Workflows.Wellformed.{IsDrawn, IsIssued, Wellformed}
use ai_knowledge_system.Workflows.Wellformed.Primitives.{replace-Wellformed}
use ai_knowledge_system.Workflows.Wellformed.Restore.{
  IsPersisted, snapshot-install, restore_execution_iff, restore_execution-thrown,
  restore_execution-returned,
}

snapshot-parts :
    (id : String) (k : Kernel) (saved : ExecutionSnapshot) (k' : Kernel)
    → snapshot id k ≡ returned saved k'
    → (lookup id k.executions ≡ some saved.execution)
      × (saved.events ≡ log_of id k)
      × (saved.provenance_envelopes ≡ evidence_of id k)
      × (k' ≡ k)
unfolding snapshot require_execution
snapshot-parts id k saved k' e = ground arith

-- What a well-formed kernel shows of an execution, any kernel restores, and shows again.
pub restore-snapshot :
    (world : World) (id : String) (k k' : Kernel) (saved : ExecutionSnapshot) (other : Kernel)
    → Wellformed world k
    → snapshot id k ≡ returned saved k'
    → (restore_execution saved other ≡ returned saved (install saved other))
      × (snapshot id (install saved other) ≡ returned saved (install saved other))
restore-snapshot world id k k' saved other w e =
    let (found, events, envelopes, _) = snapshot-parts id k saved k' e in
    let (keyed, entry) = w id saved.execution found in
    (
      (restore_execution_iff saved other).1 (record {
        mode = entry.mode;
        log = rw events entry.log;
        distinct = rw events entry.distinct;
        evidence = rw envelopes entry.evidence;
      }),
      subst (λ j. snapshot j (install saved other) ≡ returned saved (install saved other)) keyed
          (snapshot-install saved other),
    )

-- The ids of a snapshot are UUIDs that the world had drawn.
pub record HasKnownIds (world : World) (saved : ExecutionSnapshot) (k : Kernel) : Type 0 where
  pub execution : IsDrawn world k.drawn saved.execution.execution_id
  pub events : All (IsIssued world k.drawn) saved.events

pub install-Wellformed :
    (world : World) (saved : ExecutionSnapshot) (k : Kernel)
    → Wellformed world k
    → HasKnownIds world saved k
    → IsPersisted saved
    → Wellformed world (install saved k)
unfolding install
install-Wellformed world saved k w known p =
    replace-Wellformed world k saved.execution saved.events saved.provenance_envelopes w (record {
      mode = p.mode;
      known = known.execution;
      log = p.log;
      distinct = p.distinct;
      issued = known.events;
      evidence = p.evidence;
    })

by_outcome :
    (P : Kernel → Type 0) (saved : ExecutionSnapshot) (k : Kernel)
    (outcome : Outcome ExecutionSnapshot)
    → restore_execution saved k ≡ outcome
    → P k
    → (IsPersisted saved → P (install saved k))
    → P (after outcome)
by_outcome P saved k (thrown e k') same h next =
    subst P (sym (restore_execution-thrown saved k k' e same)) h
by_outcome P saved k (returned s k') same h next =
    let (p, installed) = restore_execution-returned saved k s k' same in
    subst P (sym installed) (next p)

-- A property of the state that the installed snapshot keeps is kept by the call.
pub restore-Keeps :
    (P : Kernel → Type 0) (saved : ExecutionSnapshot) (k : Kernel)
    → P k
    → (IsPersisted saved → P (install saved k))
    → P (after (restore_execution saved k))
restore-Keeps P saved k h next = by_outcome P saved k (restore_execution saved k) refl h next

pub restore_execution-Wellformed :
    (world : World) (saved : ExecutionSnapshot) (k : Kernel)
    → Wellformed world k
    → HasKnownIds world saved k
    → Wellformed world (after (restore_execution saved k))
restore_execution-Wellformed world saved k w known =
    restore-Keeps (Wellformed world) saved k w (install-Wellformed world saved k w known)
