-- ===== src/Workflows/Calls.antt =====
-- server/workflows/kernel.ts: the calls that reach a kernel, in any order. `start` and `advance` wait
-- for a handler, and other calls may come in between: besides the whole calls there are their parts,
-- the beginning up to the `await`, a call of the handler's context, and the end with the handler's
-- result or exception. An execution whose handler runs is the one that the map holds.
use ai_knowledge_system.Common.{String}
use ai_knowledge_system.NextActions.Types.{approved, rejected}
use ai_knowledge_system.Provenance.Types.{Envelope, Emission, GovernedWriteAuthorization}
use ai_knowledge_system.Workflows.Json.{JsonObject}
use ai_knowledge_system.Workflows.Types.{
  ExecutionError, ExecutionSnapshot, HandlerResult, Failure, CreateExecutionRequest,
}
use ai_knowledge_system.Workflows.Kernel.State.{World, Kernel, M, ◌>>=◌, after, require_execution}
use ai_knowledge_system.Workflows.Kernel.Log.{record_provenance, authorize_write}
use ai_knowledge_system.Workflows.Kernel.Create.{create_execution, discard_execution}
use ai_knowledge_system.Workflows.Kernel.Control.{pause, resume, cancel, fail, complete}
use ai_knowledge_system.Workflows.Kernel.Handling.{apply_handler_result, give_up}
use ai_knowledge_system.Workflows.Kernel.Start.{begin_start, begin_advance, start, advance}
use ai_knowledge_system.Workflows.Kernel.NextSteps.{
  select_next_action, decide_next_action, spawn_selected_next_action,
}
use ai_knowledge_system.Workflows.Kernel.Restore.{restore_execution}

pub data Call : Type 0 where
  creates : CreateExecutionRequest → Call
  restores : ExecutionSnapshot → Call
  discards : String → Call
  starts advances : String → Call
  begins_start begins_advance : String → Call
  emits : String → Emission → Call
  authorizes : String → GovernedWriteAuthorization → Call
  settles : String → HandlerResult → Call
  breaks : String → Failure → Call
  pauses resumes cancels : String → Call
  fails : String → ExecutionError → Call
  completes : String → JsonObject → Call
  selects : (id command : String) → Call
  approves rejects : String → Call
  spawns : String → JsonObject → Call

module _ (world : World) where
  -- The context's `emit`, of a handler that runs for the execution.
  unfoldable pub emit_in_context : String → Emission → M Envelope
  emit_in_context id input =
      require_execution id >>= λ execution. record_provenance world execution input

  unfoldable pub authorize_in_context : String → GovernedWriteAuthorization → M (Unit {0})
  authorize_in_context id input =
      require_execution id >>= λ execution. authorize_write world execution input

  -- The handler's promise is fulfilled, or rejected.
  unfoldable pub settle : String → HandlerResult → M ExecutionSnapshot
  settle id result =
      require_execution id >>= λ execution. apply_handler_result world execution result

  unfoldable pub break_off : String → Failure → M ExecutionSnapshot
  break_off id failure = require_execution id >>= λ execution. give_up world execution failure

  -- The state that a call leaves, whether it returns or throws.
  unfoldable pub perform : Call → Kernel → Kernel
  perform (creates request) k = after (create_execution world request k)
  perform (restores saved) k = after (restore_execution saved k)
  perform (discards id) k = discard_execution id k
  perform (starts id) k = after (start world id k)
  perform (advances id) k = after (advance world id k)
  perform (begins_start id) k = after (begin_start world id k)
  perform (begins_advance id) k = after (begin_advance world id k)
  perform (emits id input) k = after (emit_in_context id input k)
  perform (authorizes id input) k = after (authorize_in_context id input k)
  perform (settles id result) k = after (settle id result k)
  perform (breaks id failure) k = after (break_off id failure k)
  perform (pauses id) k = after (pause world id k)
  perform (resumes id) k = after (resume world id k)
  perform (cancels id) k = after (cancel world id k)
  perform (fails id error) k = after (fail world id error k)
  perform (completes id output) k = after (complete world id output k)
  perform (selects id command) k = after (select_next_action world id command k)
  perform (approves id) k = after (decide_next_action world approved "next_action.approved" id k)
  perform (rejects id) k = after (decide_next_action world rejected "next_action.rejected" id k)
  perform (spawns id input) k = after (spawn_selected_next_action world id input k)
