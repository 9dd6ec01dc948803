-- ===== src/Tests/Control.antt =====
-- The theorems on single methods, at concrete states.
use ai_knowledge_system.Common.{
  ◌∷◌, ◌≡◌, ◌⊎◌, ◌↔◌, refl, inl, Option, none, some, [], lookup, insert, lookup-insert_self, truthy,
}
use ai_knowledge_system.NextActions.Types.{ActionDefinition, Selection, approved}
use ai_knowledge_system.Provenance.Types.{Envelope}
use ai_knowledge_system.Workflows.Json.{JsonObject, empty}
use ai_knowledge_system.Workflows.Types.{
  waiting, approval_required, Status, queued, running, paused, completed, failed, WorkflowExecution,
  ExecutionSnapshot, ExecutionError,
}
use ai_knowledge_system.Workflows.Kernel.State.{
  Kernel, Outcome, returned, thrown, after, require_execution, snapshot, put, handler_allows_scope,
}
use ai_knowledge_system.Workflows.Kernel.Log.{emit, next_event, transition_to_failure}
use ai_knowledge_system.Workflows.Kernel.Create.{
  create_execution, create_live, fresh_execution, enter, admit, register, new_kernel,
}
use ai_knowledge_system.Workflows.Kernel.Control.{
  pause, resume, cancel, fail, complete, terminal_statuses,
}
use ai_knowledge_system.Workflows.Kernel.Start.{start, advance}
use ai_knowledge_system.Workflows.Kernel.NextSteps.{
  select_next_action, decide_next_action, spawnable, child_request, adopt, spawn_child,
  spawn_selected_next_action,
}
use ai_knowledge_system.Workflows.Kernel.Restore.{get_provenance_envelope}
use ai_knowledge_system.Workflows.Transitions.{Shows, Moves, Refuses, IsOneOf, Answers}
use ai_knowledge_system.Workflows.Transitions.Control.{
  cancelled_form, failed_form, IsPausable, IsCancellable, pause-Answers, resume-Answers,
  cancel-Answers, fail-Answers, terminal-Refuses,
}
use ai_knowledge_system.Workflows.Transitions.Completion.{
  IsSelectable, HasSelected, selection_event, HasCompleted, select_next_action-Moves,
  complete-HasCompleted,
}
use ai_knowledge_system.Workflows.Transitions.Creation.{
  IsRegistered, HasCreated, create_execution_lem,
}
use ai_knowledge_system.Workflows.Transitions.FollowUps.{
  IsPending, IsDecided, decide-Answers, spawn-Refuses,
}
use ai_knowledge_system.Workflows.Transitions.Spawning.{spawn_selected_next_action_once}
use ai_knowledge_system.Workflows.Transitions.Reading.{
  shown_of, IsReadable, get_provenance_envelope_iff,
}
use ai_knowledge_system.Tests.Data.{
  envelope, nth_uuid, world, world-HasFreshUuids, empty_kernel, request, execution_in, selection,
  kernel_with, kernel_with-Wellformed,
}

stored :
    (status : Status) (chosen : Option Selection)
    → lookup "u" (kernel_with (execution_in status chosen)).executions
      ≡ some (execution_in status chosen)
stored status chosen = lookup-insert_self "u" (execution_in status chosen) empty_kernel.executions

abbrev at_work : Kernel
at_work = kernel_with (execution_in running none)

abbrev on_hold : Kernel
on_hold = kernel_with (execution_in paused none)

abbrev finished : Kernel
finished = kernel_with (execution_in completed none)

abbrev error : ExecutionError
error = record { code = "STOPPED"; message = "stopped" }

pause-Answers_example :
    Answers
      (IsPausable (execution_in running none) at_work)
      "u"
      at_work
      (execution_in paused none)
      "workflow.execution.paused"
      (pause world "u" at_work)
pause-Answers_example =
    pause-Answers world "u" (execution_in running none) at_work (stored running none) refl

resume-Answers_example :
    Answers
      (Status.paused ≡ paused)
      "u"
      on_hold
      (execution_in running none)
      "workflow.execution.resumed"
      (resume world "u" on_hold)
resume-Answers_example =
    resume-Answers world "u" (execution_in paused none) on_hold (stored paused none) refl

cancel-Answers_example :
    Answers
      (IsCancellable (execution_in running none) at_work)
      "u"
      at_work
      (cancelled_form world "u" (execution_in running none) at_work)
      "workflow.execution.cancelled"
      (cancel world "u" at_work)
cancel-Answers_example =
    cancel-Answers world "u" (execution_in running none) at_work (stored running none) refl

fail-Answers_example :
    Answers
      (¬ IsOneOf running terminal_statuses)
      "u"
      at_work
      (failed_form world "u" (execution_in running none) at_work error)
      "workflow.execution.failed"
      (fail world "u" error at_work)
fail-Answers_example =
    fail-Answers world "u" (execution_in running none) at_work error (stored running none) refl

terminal-Refuses_example :
    Refuses finished (start world "u" finished)
    × Refuses finished (advance world "u" finished)
    × Refuses finished (pause world "u" finished)
    × Refuses finished (resume world "u" finished)
    × Refuses finished (cancel world "u" finished)
    × Refuses finished (fail world "u" error finished)
    × Refuses finished (complete world "u" empty finished)
terminal-Refuses_example =
    terminal-Refuses world "u" (execution_in completed none) finished error empty
      (stored completed none) (inl refl)

select_next_action-Moves_example :
    ((action : ActionDefinition) × IsSelectable (execution_in completed none) "X" action
      × Moves "u" finished completed
          (selection_event action)
          (select_next_action world "u" "X" finished)
      × Shows
          (HasSelected (execution_in completed none) action (world.now finished.ticks))
          (select_next_action world "u" "X" finished))
    ⊎ ((¬ ((action : ActionDefinition) × IsSelectable (execution_in completed none) "X" action))
        × Refuses finished (select_next_action world "u" "X" finished))
select_next_action-Moves_example =
    select_next_action-Moves world "u" (execution_in completed none) finished "X"
      (stored completed none) refl

complete-HasCompleted_example :
    (IsOneOf running (running ∷ waiting ∷ approval_required ∷ [])
      × HasCompleted world "u"
          (execution_in running none)
          empty
          at_work
          (complete world "u" empty at_work))
    ⊎ ((¬ IsOneOf running (running ∷ waiting ∷ approval_required ∷ []))
        × Refuses at_work (complete world "u" empty at_work))
complete-HasCompleted_example =
    complete-HasCompleted world "u" (execution_in running none) at_work empty (stored running none)
      refl

create_execution_lem_example :
    (IsRegistered "memory-audit" "alpha" empty_kernel
      × HasCreated world request queued empty_kernel (create_execution world request empty_kernel))
    ⊎ ((¬ IsRegistered "memory-audit" "alpha" empty_kernel)
        × HasCreated world request failed empty_kernel
            (create_execution world request empty_kernel))
create_execution_lem_example = create_execution_lem world request empty_kernel refl

decide-Answers_example :
    (IsPending (execution_in completed none)
      × Moves "u" finished completed "next_action.approved"
          (decide_next_action world approved "next_action.approved" "u" finished)
      × Shows
          (IsDecided (execution_in completed none) approved (world.now finished.ticks))
          (decide_next_action world approved "next_action.approved" "u" finished))
    ⊎ ((¬ IsPending (execution_in completed none))
        × Refuses finished (decide_next_action world approved "next_action.approved" "u" finished))
decide-Answers_example =
    decide-Answers world "u" (execution_in completed none) finished approved "next_action.approved"
      (stored completed none) refl

spawn-Refuses_example : Refuses finished (spawn_selected_next_action world "u" empty finished)
spawn-Refuses_example =
    spawn-Refuses world "u" (execution_in completed none) finished empty (stored completed none)
      λ (s, at, _, _, _, _). cc

get_provenance_envelope_iff_example :
    (after (get_provenance_envelope "u" "e" none finished) ≡ finished)
    × ((get_provenance_envelope "u" "e" none finished ≡ returned (shown_of envelope) finished) ↔ (
        (readable : Envelope) × IsReadable "u" "e" none finished readable
        × (shown_of envelope ≡ shown_of readable)))
get_provenance_envelope_iff_example =
    get_provenance_envelope_iff "u" "e" none finished (shown_of envelope)

-- A completed execution whose selected action targets a workflow.
abbrev parent : WorkflowExecution
parent = execution_in completed (some selection)

abbrev chosen : Kernel
chosen = kernel_with parent

abbrev shown : Outcome ExecutionSnapshot → ExecutionSnapshot
shown (returned s k) = s
shown (thrown e k) = record { execution = parent; events = []; provenance_envelopes = [] }

abbrev spawning : Outcome ExecutionSnapshot
spawning = spawn_selected_next_action world "u" empty chosen

spawning-returned : spawning ≡ returned (shown spawning) (after spawning)
unfolding spawn_selected_next_action require_execution lookup insert spawnable truthy spawn_child
    child_request create_execution create_live enter fresh_execution admit emit next_event put adopt
    snapshot handler_allows_scope transition_to_failure new_kernel register nth_uuid
spawning-returned = refl

spawn_selected_next_action_once_example :
    ((shown spawning).execution.status ≡ queued)
    × ((shown spawning).execution.parent_execution_id ≡ some "u")
    × ((shown spawning).execution.scope_key ≡ "alpha")
    × (some (shown spawning).execution.workflow_id ≡ some "memory-audit")
    × ((again : JsonObject)
        → (s : ExecutionSnapshot) × (spawn_selected_next_action world "u" again (after spawning)
            ≡ returned s (after spawning))
          × (s.execution ≡ (shown spawning).execution))
unfolding truthy
spawn_selected_next_action_once_example =
    spawn_selected_next_action_once world "u" parent chosen empty selection (shown spawning)
      (after spawning) world-HasFreshUuids (unfold nth_uuid in λ e. cc)
      (kernel_with-Wellformed completed (some selection)) (stored completed (some selection)) refl
      refl spawning-returned
