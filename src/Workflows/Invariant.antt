-- ===== src/Workflows/Invariant.antt =====
-- server/workflows/kernel.ts: what a predicate on the kernel's state needs so that every method keeps
-- it: that the few changes which the methods are made of keep it. The children prove it of the methods.
pub mod Changes
pub mod Control
pub mod Handling
pub mod NextSteps
pub mod Calls
use ai_knowledge_system.Common.{suc, String, Option, List, [], ◌∷◌, ◌++◌, insert}
use ai_knowledge_system.Provenance.Types.{Envelope}
use ai_knowledge_system.Workflows.Json.{JsonObject}
use ai_knowledge_system.Workflows.Types.{WorkflowExecution, CreateExecutionRequest}
use ai_knowledge_system.Workflows.Kernel.State.{World, Kernel, evidence_of, put}
use ai_knowledge_system.Workflows.Kernel.Log.{emit}
use ai_knowledge_system.Workflows.Kernel.Create.{fresh_execution, enter}
use ai_knowledge_system.Workflows.Wellformed.{
  binding_of, IsSoundEnvelope, Wellformed, HasFreshUuids, IsStored,
}

-- The execution's evidence with one more envelope.
abbrev pub attach : WorkflowExecution → Envelope → Kernel → Kernel
attach execution envelope k = record k {
  provenance =
      insert execution.execution_id (evidence_of execution.execution_id k ++ envelope ∷ [])
        k.provenance;
}

-- A new execution, entered with the UUID and the time that it draws.
abbrev pub enter_fresh : World → CreateExecutionRequest → Kernel → Kernel
enter_fresh world request k =
    enter world (fresh_execution world request k)
      (record k { ticks = suc k.ticks; drawn = suc k.drawn })

pub record IsInvariant (world : World) (I : Kernel → Type 0) : Type 0 where
  pub unique : HasFreshUuids world
  pub wellformed : (k : Kernel) → I k → Wellformed world k
  pub tick : (k : Kernel) → I k → I (record k { ticks = suc k.ticks })
  pub draw : (k : Kernel) → I k → I (record k { drawn = suc k.drawn })
  pub changed :
      (k : Kernel) (execution : WorkflowExecution)
      → I k
      → IsStored execution k
      → I (put execution k)
  pub emitted :
      (k : Kernel) (execution : WorkflowExecution) (event_type : String)
      (payload : Option JsonObject)
      → I k
      → IsStored execution k
      → I (emit world execution event_type payload k)
  pub attached :
      (k : Kernel) (execution : WorkflowExecution) (envelope : Envelope)
      → I k
      → IsStored execution k
      → IsSoundEnvelope (binding_of execution) envelope
      → I (attach execution envelope k)
  pub entered :
      (request : CreateExecutionRequest) (k : Kernel) → I k → I (enter_fresh world request k)
