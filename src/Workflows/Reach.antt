-- ===== src/Workflows/Reach.antt =====
-- server/workflows/kernel.ts: the states that a kernel reaches, by calls in any order and number.
use ai_knowledge_system.Common.{refl, List, [], suc, lookup, arith}
use ai_knowledge_system.Workflows.Types.{WorkflowHandler}
use ai_knowledge_system.Workflows.Kernel.State.{World, Kernel}
use ai_knowledge_system.Workflows.Kernel.Create.{new_kernel, enter, fresh_execution}
use ai_knowledge_system.Workflows.Calls.{Call, restores, discards, perform}
use ai_knowledge_system.Workflows.Wellformed.{Wellformed, HasFreshUuids}
use ai_knowledge_system.Workflows.Wellformed.Primitives.{
  draw-Wellformed, put-Wellformed, emit-Wellformed, evidence-Wellformed, replace-Wellformed,
  discard-Wellformed,
}
use ai_knowledge_system.Workflows.Wellformed.RoundTrip.{HasKnownIds, restore_execution-Wellformed}
use ai_knowledge_system.Workflows.Invariant.{IsInvariant}
use ai_knowledge_system.Workflows.Invariant.Calls.{MapsKept, perform-Keeps}

module _ (world : World) where
  -- The ids of a snapshot that is restored are UUIDs that were drawn before; any other call is allowed.
  abbrev pub IsAllowed : Call → Kernel → Type 0
  IsAllowed (restores saved) k = HasKnownIds world saved k
  IsAllowed _ k = Unit

  pub data Reach (k : Kernel) : Kernel → Type 0 where
    here : Reach k k
    next :
        {k' : Kernel}
        → Reach k k'
        → (call : Call) → IsAllowed call k'
        → Reach k (perform world call k')

pub Wellformed-IsInvariant :
    (world : World) → HasFreshUuids world → IsInvariant world (Wellformed world)
unfolding enter fresh_execution
Wellformed-IsInvariant world unique = record {
  unique = unique;
  wellformed = λ k w. w;
  tick = λ k w. w;
  draw = λ k w. draw-Wellformed world k w;
  changed = λ k execution w s. put-Wellformed world k execution w s;
  emitted = λ k execution event_type payload w s.
      emit-Wellformed world unique k execution event_type payload w s;
  attached =
      λ k execution envelope w s sound. evidence-Wellformed world k execution envelope w s sound;
  entered = λ request k w.
      replace-Wellformed world (record k { ticks = suc k.ticks; drawn = suc k.drawn })
        (fresh_execution world request k) [] [] (draw-Wellformed world k w)
        (record {
          mode = refl;
          known = (k.drawn, omega arith, refl);
          log = tt;
          distinct = tt;
          issued = tt;
          evidence = tt;
        });
}

maps-Wellformed :
    (world : World) (call : Call) (k : Kernel)
    → Wellformed world k
    → IsAllowed world call k
    → MapsKept (Wellformed world) call k
maps-Wellformed world (restores saved) k w known =
    restore_execution-Wellformed world saved k w known
maps-Wellformed world (discards id) k w _ = discard-Wellformed world k id w
maps-Wellformed world _ k w _ = tt

-- No call spoils the maps, whether it returns or throws, if no UUID is drawn twice and a restored
-- snapshot has ids that were drawn before: if every execution is stored under its own id, with a
-- log that is bound to it and numbered from 1 without a gap or a repeated id, and with provenance
-- that is bound to it and valid, then so it is after the call.
pub perform-Wellformed :
    (world : World) (call : Call) (k : Kernel)
    → HasFreshUuids world
    → IsAllowed world call k
    → Wellformed world k
    → Wellformed world (perform world call k)
perform-Wellformed world call k unique allowed w =
    perform-Keeps world (Wellformed world) (Wellformed-IsInvariant world unique) call k w
      (maps-Wellformed world call k w allowed)

new_kernel-Wellformed :
    (world : World) (handlers : List WorkflowHandler) → Wellformed world (new_kernel handlers)
unfolding new_kernel lookup
new_kernel-Wellformed world handlers id execution found = cc

Reach-from-Wellformed :
    (world : World) {k k' : Kernel}
    → HasFreshUuids world
    → Wellformed world k
    → Reach world k k'
    → Wellformed world k'
Reach-from-Wellformed world unique w here = w
Reach-from-Wellformed world unique w (next {k'} r call allowed) =
    perform-Wellformed world call k' unique allowed (Reach-from-Wellformed world unique w r)

-- If no UUID is drawn twice, and only snapshots whose ids were drawn before are restored, then in
-- every state that a new kernel reaches, by calls in any order and number, each execution is stored
-- under its own id, with a log that is bound to it and numbered from 1 without a gap or a repeated
-- id, and with provenance that is bound to it and valid.
pub Reach-Wellformed :
    (world : World) (handlers : List WorkflowHandler) (k : Kernel)
    → HasFreshUuids world
    → Reach world (new_kernel handlers) k
    → Wellformed world k
Reach-Wellformed world handlers k unique r =
    Reach-from-Wellformed world unique (new_kernel-Wellformed world handlers) r
