-- ===== src/Workflows/Kernel/NextSteps.antt =====
-- server/workflows/kernel.ts: `selectNextAction`, `approveNextAction`, `rejectNextAction` and
-- `spawnSelectedNextAction`.
use ai_knowledge_system.Common.{
  suc, String, Bool, true, false, Option, none, some, [], ◌∷◌, str_eq, find, if◌then◌else◌, or_else,
  concat, truthy,
}
use ai_knowledge_system.NextActions.Types.{
  AutonomyBand, a0, adv, a3, a4, a5, ActionDefinition, ActionEnvelope, Decision, selected,
  pending_approval, approved, rejected, Selection,
}
use ai_knowledge_system.Workflows.Json.{
  JsonObject, empty, field, bool, text, object, text_or_null, set_field,
}
use ai_knowledge_system.Workflows.Types.{
  live, completed, failed, WorkflowExecution, ExecutionError, ExecutionSnapshot,
  CreateExecutionRequest, Failure, kernel_error,
}
use ai_knowledge_system.Workflows.Kernel.State.{
  World, Kernel, returned, thrown, M, ◌>>=◌, ◌>>◌, modify, throw, pure, is_status, put,
  require_execution, assert_status, snapshot,
}
use ai_knowledge_system.Workflows.Kernel.Log.{emit}
use ai_knowledge_system.Workflows.Kernel.Create.{create_execution}

unfoldable pub autonomy_name : AutonomyBand → String
autonomy_name a0 = "A0"
autonomy_name adv = "ADV"
autonomy_name a3 = "A3"
autonomy_name a4 = "A4"
autonomy_name a5 = "A5"

abbrev pub with_selection : WorkflowExecution → Selection → WorkflowExecution
with_selection execution selection = record execution { selected_next_action = some selection }

-- The action that a command names, if the envelope has it and does not block it.
unfoldable pub choose_action : Option ActionEnvelope → String → M ActionDefinition
choose_action none command k =
    thrown
      (kernel_error "NEXT_ACTIONS_UNAVAILABLE" "This execution has no next-action envelope." 409) k
choose_action (some envelope) command k =
    elim (find (λ b. str_eq b.action.command command) envelope.blocked_actions) [
      | some blocked ↦ thrown (kernel_error "NEXT_ACTION_BLOCKED" blocked.blocked_reason 409) k
      | none ↦ elim (find (λ a. str_eq a.command command) envelope.available_actions) [
        | none ↦
            thrown
              (kernel_error "NEXT_ACTION_NOT_FOUND"
                (concat ("Next action '" ∷ command ∷ "' is not valid for this result." ∷ [])) 404)
              k
        | some action ↦ returned action k
      ]
    ]

unfoldable pub new_selection : ActionDefinition → (now : String) → Selection
new_selection action now = record {
  command = action.command;
  target_workflow_id = action.target_workflow_id;
  selected_at = now;
  decision = if action.requires_approval then pending_approval else selected;
  decided_at = if action.requires_approval then none else some now;
  child_execution_id = none;
}

abbrev is_pending : Decision → Bool
is_pending pending_approval = true
is_pending _ = false

-- `requirePendingNextAction`.
unfoldable pub pending_selection : Option Selection → M Selection
pending_selection none k =
    thrown (kernel_error "NEXT_ACTION_NOT_PENDING" "No next action is waiting for approval." 409) k
pending_selection (some selection) k =
    if is_pending selection.decision
    then returned selection k
    else thrown
        (kernel_error "NEXT_ACTION_NOT_PENDING" "No next action is waiting for approval." 409) k

unfoldable pub decide : Selection → Decision → (now : String) → Selection
decide selection decision now = record selection { decision = decision; decided_at = some now }

-- The guards of `spawnSelectedNextAction`: the selection and the workflow that it targets.
unfoldable pub spawnable : Option Selection → M (Selection × String)
spawnable none k =
    thrown
      (kernel_error "NEXT_ACTION_NOT_SELECTED"
        "Select a next action before spawning a follow-up execution." 409)
      k
spawnable (some selection) k = elim selection.decision [
  | pending_approval ↦
      thrown
        (kernel_error "NEXT_ACTION_APPROVAL_REQUIRED"
          "Approve the selected next action before spawning it." 409)
        k
  | rejected ↦
      thrown (kernel_error "NEXT_ACTION_REJECTED" "The selected next action was rejected." 409) k
  | _ ↦ elim (truthy selection.target_workflow_id) [
    | none ↦
        thrown
          (kernel_error "NEXT_ACTION_NOT_SPAWNABLE"
            "The selected next action does not target another workflow." 409)
          k
    | some target ↦ returned (selection, target) k
  ]
]

unfoldable pub child_request :
    WorkflowExecution → Selection → String → JsonObject → CreateExecutionRequest
child_request parent selection target input = record {
  workflow_id = target;
  scope_key = parent.scope_key;
  requested_by = parent.requested_by;
  parent_execution_id = some parent.execution_id;
  mode = live;
  input = some (
      set_field "follow_up"
        (object (
          field "parent_execution_id" (text parent.execution_id)
            (field "command" (text selection.command) empty)))
        input);
}

unfoldable pub spawn_failure : Option ExecutionError → Failure
spawn_failure none =
    kernel_error "NEXT_ACTION_SPAWN_FAILED" "The follow-up execution could not be created." 409
spawn_failure (some error) = kernel_error error.code error.message 409

module _ (world : World) where
  unfoldable pub select_next_action : String → String → M ExecutionSnapshot
  select_next_action id command = do
    execution ← require_execution id
    assert_status execution (completed ∷ []) "select a next action for"
    action ← choose_action execution.next_action_envelope command
    modify (λ k.
        let execution' = with_selection execution (new_selection action (world.now k.ticks)) in
        emit world execution'
          (if action.requires_approval
            then "next_action.approval_required"
            else "next_action.selected")
          (some (
            field "command" (text action.command) (
              field "autonomy" (text (autonomy_name action.autonomy)) (
                field "target_workflow_id" (text_or_null action.target_workflow_id)
                  (field "terminal" (bool (or_else action.terminal false)) empty)))))
          (put execution' (record k { ticks = suc k.ticks })))
    snapshot id

  -- `approveNextAction` and `rejectNextAction` differ in the decision and the event.
  unfoldable pub decide_next_action : Decision → String → String → M ExecutionSnapshot
  decide_next_action decision event_type id = do
    execution ← require_execution id
    selection ← pending_selection execution.selected_next_action
    modify (λ k.
        let execution' = with_selection execution (decide selection decision (world.now k.ticks)) in
        emit world execution' event_type
          (some (
            field "command" (text selection.command)
              (field "target_workflow_id" (text_or_null selection.target_workflow_id) empty)))
          (put execution' (record k { ticks = suc k.ticks })))
    snapshot id

  unfoldable pub approve_next_action : String → M ExecutionSnapshot
  approve_next_action = decide_next_action approved "next_action.approved"

  unfoldable pub reject_next_action : String → M ExecutionSnapshot
  reject_next_action = decide_next_action rejected "next_action.rejected"

  -- What the parent records once the child stands.
  unfoldable pub adopt : WorkflowExecution → Selection → ExecutionSnapshot → Kernel → Kernel
  adopt parent selection child k =
      let child_id = child.execution.execution_id in
      let parent' =
        with_selection parent (record selection { child_execution_id = some child_id }) in
      emit world parent' "next_action.execution_created"
        (some (
          field "command" (text selection.command) (
            field "child_execution_id" (text child_id)
              (field "target_workflow_id" (text_or_null selection.target_workflow_id) empty))))
        (put parent' k)

  unfoldable pub spawn_child :
      WorkflowExecution → Selection → String → JsonObject → M ExecutionSnapshot
  spawn_child parent selection target input = do
    child ← create_execution world (child_request parent selection target input)
    if is_status failed child.execution.status
        then throw (spawn_failure child.execution.error)
        else modify (adopt parent selection child)
    pure child

  unfoldable pub spawn_selected_next_action : String → JsonObject → M ExecutionSnapshot
  spawn_selected_next_action id input = do
    parent ← require_execution id
    (selection, target) ← spawnable parent.selected_next_action
    elim (truthy selection.child_execution_id) [
      | some child_id ↦ snapshot child_id
      | none ↦ spawn_child parent selection target input
    ]
