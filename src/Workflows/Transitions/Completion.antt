-- ===== src/Workflows/Transitions/Completion.antt =====
-- server/workflows/kernel.ts: when `complete` and `selectNextAction` are allowed, and what they do.
use mathlib.Core.Path.{subst}
use mathlib.Core.List.{append_assoc}
use ai_knowledge_system.Common.{
  suc, String, ◌≡◌, refl, sym, ap, ◌∙◌, Option, List, ◌++◌, any, or_option, ◌⊎◌, inl, inr, true,
  false, some, none, [], ◌∷◌, arith, or_else, find, str_eq, if◌then◌else◌, Option-cases, lookup,
  lookup-insert_self,
}
use ai_knowledge_system.NextActions.Types.{
  ActionDefinition, ActionEnvelope, Selection, selected, pending_approval,
}
use ai_knowledge_system.Workflows.Json.{
  get_field, as_text, JsonObject, empty, field, bool, text, text_or_null,
}
use ai_knowledge_system.Workflows.Types.{
  Status, running, waiting, approval_required, completed, ExecutionEvent, WorkflowExecution,
  ExecutionSnapshot,
}
use ai_knowledge_system.Workflows.Kernel.State.{
  World, Kernel, Outcome, returned, put, evidence_of, log_of, is_status, require_execution,
  assert_status, snapshot,
}
use ai_knowledge_system.Workflows.Kernel.Log.{emit, next_event}
use ai_knowledge_system.Workflows.Kernel.Control.{
  resolve_input, completing, complete, generate_next_actions,
}
use ai_knowledge_system.Workflows.Kernel.NextSteps.{
  autonomy_name, with_selection, choose_action, new_selection, select_next_action,
}
use ai_knowledge_system.Workflows.Transitions.{
  Moves, Shows, announced-Shows, Refuses, IsOneOf, IsOneOf-cases, announced-Moves,
}
use ai_knowledge_system.NextActions.Resolve.{get_default_result_class}
use ai_knowledge_system.Workflows.Transitions.Generation.{
  HasNextActions, generate_next_actions-Generates,
}
use ai_knowledge_system.Workflows.Transitions.Recording.{generate_next_actions-Stands}

-- The command names an action that the execution's envelope offers and does not block.
abbrev pub IsSelectable : WorkflowExecution → (command : String) → ActionDefinition → Type 0
IsSelectable x command action =
    (x.status ≡ completed)
    × (envelope : ActionEnvelope) × (x.next_action_envelope ≡ some envelope)
    × (find (λ b. str_eq b.action.command command) envelope.blocked_actions ≡ none)
    × (find (λ a. str_eq a.command command) envelope.available_actions ≡ some action)

-- The event that a selection is logged with.
abbrev pub selection_event : ActionDefinition → String
selection_event action =
    if action.requires_approval then "next_action.approval_required" else "next_action.selected"

-- The action is selected, from `now` on: approval is pending exactly where the action asks for it.
pub record IsSelectionOf (action : ActionDefinition) (now : String) (selection : Selection)
    : Type 0 where
  pub command : selection.command ≡ action.command
  pub target : selection.target_workflow_id ≡ action.target_workflow_id
  pub time : selection.selected_at ≡ now
  pub child : selection.child_execution_id ≡ none
  pub asks :
      action.requires_approval ≡ true
      → (selection.decision ≡ pending_approval) × (selection.decided_at ≡ none)
  pub free :
      action.requires_approval ≡ false
      → (selection.decision ≡ selected) × (selection.decided_at ≡ some now)

-- The execution has the selection; nothing else of it has changed.
abbrev pub HasSelected :
    WorkflowExecution → ActionDefinition → (now : String) → WorkflowExecution → Type 0
HasSelected x action now y =
    (selection : Selection) × IsSelectionOf action now selection
    × (y ≡ record x { selected_next_action = some selection })

new_selection-IsSelectionOf :
    (action : ActionDefinition) (now : String) → IsSelectionOf action now (new_selection action now)
unfolding new_selection
new_selection-IsSelectionOf action now = record {
  command = refl;
  target = refl;
  time = refl;
  child = refl;
  asks = λ e. (ground arith, ground arith);
  free = λ e. (ground arith, ground arith);
}

-- The result class that the output names, or else the workflow's default.
abbrev pub IsResultClass : JsonObject → (workflow_id : String) → Option String → Type 0
IsResultClass output workflow_id class =
    ((named : String) × (as_text (get_field "result_class" output) ≡ some named)
      × (class ≡ some named))
    ⊎ ((as_text (get_field "result_class" output) ≡ none)
        × (class ≡ get_default_result_class workflow_id))

-- The execution has the output, its result class and the time, and the next actions that follow.
abbrev pub IsCompletion :
    WorkflowExecution → JsonObject → (now : String) → Kernel → WorkflowExecution → Type 0
IsCompletion x output now k y =
    (class : Option String) × IsResultClass output x.workflow_id class
    × HasNextActions
        (record x {
          status = completed;
          current_stage = some "completed";
          completed_at = some now;
          output = some output;
          result_class = class;
        })
        k y

-- The completion is logged before the events of the next actions.
abbrev pub HasCompleted :
    World → String → WorkflowExecution → JsonObject → Kernel → Outcome ExecutionSnapshot → Type 0
HasCompleted world id x output k outcome =
    (s : ExecutionSnapshot) × (k' : Kernel) × (outcome ≡ returned s k')
    × (lookup id k'.executions ≡ some s.execution)
    × (s.execution.status ≡ completed)
    × IsCompletion x output (world.now k.ticks) k s.execution
    × (event : ExecutionEvent) × (rest : List ExecutionEvent) × (log_of id k'
        ≡ log_of id k ++ event ∷ rest)
    × (event.event_type ≡ "workflow.execution.completed")
    × (event.status ≡ completed)
    × (evidence_of id k' ≡ evidence_of id k)

class_of_output :
    (output : JsonObject) (workflow_id : String)
    → IsResultClass output workflow_id (
        or_option
          (as_text (get_field "result_class" output))
          (get_default_result_class workflow_id))
class_of_output output workflow_id =
    elim (Option-cases (as_text (get_field "result_class" output))) [
      | inl missing ↦
          inr (missing, ap (λ o. or_option o (get_default_result_class workflow_id)) missing)
      | inr (named, given) ↦
          inl (named, given, ap (λ o. or_option o (get_default_result_class workflow_id)) given)
    ]

next_status :
    (y : WorkflowExecution) (k : Kernel) (y' : WorkflowExecution)
    → HasNextActions y k y'
    → y'.status ≡ y.status
next_status y k y' (inl (_, same)) = ap (λ z. z.status) same
next_status y k y' (inr (_, _, _, same)) = ap (λ z. z.status) same

snapshot_found :
    (id : String) (y : WorkflowExecution) (k : Kernel)
    → lookup id k.executions ≡ some y
    → snapshot id k
      ≡ returned
          (record { execution = y; events = log_of id k; provenance_envelopes = evidence_of id k })
          k
unfolding snapshot require_execution
snapshot_found id y k found = ground (arith, found)

completed_only : (status : Status) → IsOneOf status (completed ∷ []) → status ≡ completed
completed_only status (inl e) = sym e
completed_only status (inr h) = absurd h

module _ (world : World) (id : String) (x : WorkflowExecution) (k : Kernel) where
  -- An action is selected, and an event of it logged, exactly when the execution, stored under its
  -- id, is COMPLETED and its envelope offers the command and does not block it: the execution gets
  -- the selection of this action, which waits for an approval exactly where the action asks for one,
  -- and the event says so; nothing else of the execution changes. Otherwise the call throws and
  -- changes nothing.
  pub select_next_action-Moves :
      (command : String)
      → lookup id k.executions ≡ some x
      → x.execution_id ≡ id
      → ((action : ActionDefinition) × IsSelectable x command action
          × Moves id k x.status (selection_event action) (select_next_action world id command k)
          × Shows
              (HasSelected x action (world.now k.ticks))
              (select_next_action world id command k))
        ⊎ ((¬ ((action : ActionDefinition) × IsSelectable x command action))
            × Refuses k (select_next_action world id command k))
  unfolding select_next_action require_execution assert_status choose_action
  select_next_action-Moves command found keyed = elim (IsOneOf-cases x.status (completed ∷ [])) [
    | inr (none_of, forbidden) ↦ inr (λ h. none_of (inl (sym h.1.0)), (ground arith, ground arith))
    | inl (one, allowed) ↦ elim (Option-cases x.next_action_envelope) [
      | inl missing ↦ inr (λ h. let e = h.1.2 in ground arith, (ground arith, ground arith))
      | inr (envelope, at) ↦
          elim (Option-cases
            (find (λ b. str_eq b.action.command command) envelope.blocked_actions)) [
              | inr (b, blocked) ↦ inr (
                λ h. let e = h.1.2 in let free = h.1.3 in ground arith,
                (ground arith, ground arith),
              )
              | inl free ↦
                  elim (Option-cases
                    (find (λ a. str_eq a.command command) envelope.available_actions)) [
                      | inl unknown ↦ inr (
                        λ h. let e = h.1.2 in let there = h.1.4 in ground arith,
                        (ground arith, ground arith),
                      )
                      | inr (action, there) ↦
                          let now = world.now k.ticks in
                          let y = with_selection x (new_selection action now) in
                          let told = some (
                            field "command" (text action.command) (
                              field "autonomy" (text (autonomy_name action.autonomy)) (
                                field "target_workflow_id" (text_or_null action.target_workflow_id)
                                  (field "terminal" (bool (or_else action.terminal false))
                                    empty)))) in
                          let k1 = record k { ticks = suc k.ticks } in
                          let answer : select_next_action world id command k
                              ≡ snapshot id
                                  (emit world y (selection_event action) told (put y k1)) =
                            ground arith in
                          inl (
                            action,
                            (completed_only x.status one, envelope, at, free, there),
                            announced-Moves world id k1 y (selection_event action) told _ _ keyed
                                refl answer,
                            announced-Shows (HasSelected x action now) world id k1 y
                                (selection_event action) told _ _ keyed refl answer
                                (
                                  new_selection action now,
                                  new_selection-IsSelectionOf action now,
                                  refl,
                                ),
                          )
                    ]
            ]
    ]
  ]

  -- The execution as `complete` leaves it before the next actions, and the kernel then.
  abbrev completion : JsonObject → WorkflowExecution
  completion output = completing world x output k

  abbrev logged : JsonObject → Kernel
  logged output =
      emit world (completion output) "workflow.execution.completed" none
        (put (completion output) (record k { ticks = suc k.ticks }))

  complete_value :
      (output : JsonObject)
      → lookup id k.executions ≡ some x
      → x.execution_id ≡ id
      → any (λ a. is_status a x.status) (running ∷ waiting ∷ approval_required ∷ []) ≡ true
      → complete world id output k
        ≡ snapshot x.execution_id (generate_next_actions world (completion output) (logged output))
  unfolding complete require_execution assert_status
  complete_value output found keyed allowed = ground (arith, found, allowed, keyed)

  completed_log :
      (output : JsonObject)
      → log_of x.execution_id (logged output)
        ≡ log_of x.execution_id k
          ++ next_event world
              (completion output)
              "workflow.execution.completed"
              none
              (put (completion output) (record k { ticks = suc k.ticks }))
            ∷ []
  unfolding completing emit put
  completed_log output = ap (λ o. or_else o []) (lookup-insert_self x.execution_id _ k.events)

  completed_lem :
      (output : JsonObject) (outcome : Outcome ExecutionSnapshot)
      → outcome
        ≡ snapshot x.execution_id (generate_next_actions world (completion output) (logged output))
      → HasCompleted world x.execution_id x output k outcome
  unfolding completing emit put next_event resolve_input
  completed_lem output outcome same =
      let y = completion output in
      let k' = generate_next_actions world y (logged output) in
      let stored = lookup-insert_self x.execution_id y k.executions in
      let (y', held, next, rest, log) =
        generate_next_actions-Generates world y (logged output) stored in
      let (_, evidence) = generate_next_actions-Stands world y y (logged output) refl stored in
      (
        record {
          execution = y';
          events = log_of x.execution_id k';
          provenance_envelopes = evidence_of x.execution_id k';
        },
        k',
        same ∙ snapshot_found x.execution_id y' k' held,
        held,
        next_status y (logged output) y' next,
        (_, class_of_output output x.workflow_id, next),
        next_event world y "workflow.execution.completed" none
            (put y (record k { ticks = suc k.ticks })),
        rest,
        log
            ∙ ap (λ events. events ++ rest) (completed_log output)
            ∙ append_assoc (log_of x.execution_id k) _ rest,
        refl,
        refl,
        evidence,
      )

  -- `complete` completes an execution, stored under its id, exactly when it is RUNNING, WAITING or
  -- APPROVAL_REQUIRED: the execution is COMPLETED, at the time of the call, with the output, the result
  -- class that the output names or the workflow's default, and the next actions of that class; the
  -- completion is logged first; the provenance is left. Otherwise the call throws and changes nothing.
  pub complete-HasCompleted :
      (output : JsonObject)
      → lookup id k.executions ≡ some x
      → x.execution_id ≡ id
      → (IsOneOf x.status (running ∷ waiting ∷ approval_required ∷ [])
          × HasCompleted world id x output k (complete world id output k))
        ⊎ ((¬ IsOneOf x.status (running ∷ waiting ∷ approval_required ∷ []))
            × Refuses k (complete world id output k))
  unfolding complete require_execution assert_status
  complete-HasCompleted output found keyed =
      elim (IsOneOf-cases x.status (running ∷ waiting ∷ approval_required ∷ [])) [
        | inr (none_of, forbidden) ↦ inr (none_of, (ground arith, ground arith))
        | inl (one, allowed) ↦ inl (
          one,
          subst (λ j. HasCompleted world j x output k (complete world id output k)) keyed
              (completed_lem output (complete world id output k)
                (complete_value output found keyed allowed)),
        )
      ]
