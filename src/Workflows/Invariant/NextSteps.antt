-- ===== src/Workflows/Invariant/NextSteps.antt =====
-- server/workflows/kernel.ts: `selectNextAction`, `approveNextAction`, `rejectNextAction` and
-- `spawnSelectedNextAction` keep an invariant.
use ai_knowledge_system.Common.{
  suc, String, ◌≢◌, refl, sym, ap, ◌∙◌, inl, inr, Option, none, some, arith, eq_iff, Bool-cases,
  Option-cases, truthy, lookup, lookup-insert,
}
use ai_knowledge_system.NextActions.Types.{ActionEnvelope, Decision, Selection}
use ai_knowledge_system.Workflows.Json.{JsonObject}
use ai_knowledge_system.Workflows.Types.{
  failed, WorkflowExecution, ExecutionError, ExecutionSnapshot, CreateExecutionRequest,
}
use ai_knowledge_system.Workflows.Ensures.{
  Ensures, Ensures-weaken, IsGuard, bind-Ensures, guard-Ensures, guard-Ensures_last,
  assert_status-IsGuard, snapshot-IsGuard,
}
use ai_knowledge_system.Workflows.Kernel.State.{
  World, Kernel, is_status, put, snapshot, assert_status, handler_allows_scope,
}
use ai_knowledge_system.Workflows.Kernel.Log.{emit, failing, transition_to_failure}
use ai_knowledge_system.Workflows.Kernel.Create.{
  fresh_execution, enter, admit, create_live, create_execution,
}
use ai_knowledge_system.Workflows.Kernel.NextSteps.{
  with_selection, choose_action, new_selection, pending_selection, decide, spawnable, child_request,
  select_next_action, decide_next_action, adopt, spawn_child, spawn_selected_next_action,
}
use ai_knowledge_system.Workflows.Invariant.{IsInvariant}
use ai_knowledge_system.Workflows.Wellformed.{IsStored}
use ai_knowledge_system.Workflows.Invariant.Changes.{Holds, change-Holds}
use ai_knowledge_system.Workflows.Invariant.Control.{fetch-Ensures, enter-Holds, admit-Keeps}

choose_action-IsGuard :
    (envelope : Option ActionEnvelope) (command : String) → IsGuard (choose_action envelope command)
unfolding choose_action
choose_action-IsGuard none command k = refl
choose_action-IsGuard (some envelope) command k = ground arith

pending_selection-IsGuard : (selection : Option Selection) → IsGuard (pending_selection selection)
unfolding pending_selection
pending_selection-IsGuard none k = refl
pending_selection-IsGuard (some selection) k = ground arith

spawnable-IsGuard : (selection : Option Selection) → IsGuard (spawnable selection)
unfolding spawnable
spawnable-IsGuard none k = refl
spawnable-IsGuard (some selection) k = ground arith

-- A change of another execution leaves this one stored.
put-IsStored_other :
    (k : Kernel) (other execution : WorkflowExecution)
    → other.execution_id ≢ execution.execution_id
    → IsStored execution k
    → IsStored execution (put other k)
unfolding put
put-IsStored_other k other execution ne (stored, at, same) = (
  stored,
  ground (
    arith,
    eq_iff other.execution_id execution.execution_id,
    lookup-insert other.execution_id execution.execution_id other k.executions,
  ),
  same,
)

module _ (world : World) where
  transition-IsStored_other :
      (k : Kernel) (other execution : WorkflowExecution) (error : ExecutionError)
      → other.execution_id ≢ execution.execution_id
      → IsStored execution k
      → IsStored execution (transition_to_failure world other error k)
  unfolding transition_to_failure failing emit
  transition-IsStored_other k other execution error ne s =
      put-IsStored_other (record k { ticks = suc k.ticks }) (failing world other error k) execution
        ne s

  admit-IsStored_other :
      (other execution : WorkflowExecution) (k : Kernel)
      → other.execution_id ≢ execution.execution_id
      → IsStored execution k
      → IsStored execution (admit world other k)
  unfolding admit emit
  admit-IsStored_other other execution k ne s =
      elim (Option-cases (lookup other.workflow_id k.handlers)) [
        | inl e ↦ rw (e, admit) (transition-IsStored_other k other execution _ ne s)
        | inr (handler, e) ↦ elim (Bool-cases (handler_allows_scope handler other.scope_key)) [
          | inl fine ↦ rw (e, admit, fine) s
          | inr refused ↦
              rw (e, admit, refused) (transition-IsStored_other k other execution _ ne s)
        ]
      ]

  module _ (I : Kernel → Type 0) (inv : IsInvariant world I) where
    pub select_next_action-Keeps :
        (id command : String) (k : Kernel)
        → I k
        → Ensures I (λ _. I) (select_next_action world id command k)
    unfolding select_next_action
    select_next_action-Keeps id command k w =
        fetch-Ensures world I inv (λ _. I) id _ k w
          λ execution _ (w', s).
            guard-Ensures I _ (assert_status execution _ _) _ k
              (assert_status-IsGuard execution _ _) w
              λ _ _.
                guard-Ensures I _ (choose_action execution.next_action_envelope command) _ k
                  (choose_action-IsGuard execution.next_action_envelope command) w
                  λ action _.
                    guard-Ensures_last I (snapshot id) _ (snapshot-IsGuard id)
                      (change-Holds world I inv (record k { ticks = suc k.ticks })
                        (with_selection execution (new_selection action (world.now k.ticks))) _ _
                        (inv.tick k w) s).0

    pub decide_next_action-Keeps :
        (decision : Decision) (event_type id : String) (k : Kernel)
        → I k
        → Ensures I (λ _. I) (decide_next_action world decision event_type id k)
    unfolding decide_next_action
    decide_next_action-Keeps decision event_type id k w =
        fetch-Ensures world I inv (λ _. I) id _ k w
          λ execution _ (w', s).
            guard-Ensures I _ (pending_selection execution.selected_next_action) _ k
              (pending_selection-IsGuard execution.selected_next_action) w
              λ selection _.
                guard-Ensures_last I (snapshot id) _ (snapshot-IsGuard id)
                  (change-Holds world I inv (record k { ticks = suc k.ticks })
                    (with_selection execution (decide selection decision (world.now k.ticks))) _ _
                    (inv.tick k w) s).0

    -- The next UUID is none that a stored execution has.
    uuid-ne_stored :
        (execution : WorkflowExecution) (k : Kernel)
        → Holds I execution k
        → world.uuid k.drawn ≢ execution.execution_id
    uuid-ne_stored execution k (w, (stored, at, same)) q =
        let (i, below, drawn) = (inv.wellformed k w execution.execution_id stored at).1.known in
        let clash =
          inv.unique k.drawn i (q ∙ sym (ap (λ b. b.binding.execution_id) same) ∙ drawn) in
        omega (arith, below, clash)

    enter-IsStored_other :
        (request : CreateExecutionRequest) (parent : WorkflowExecution) (k : Kernel)
        → world.uuid k.drawn ≢ parent.execution_id
        → IsStored parent k
        → IsStored parent (
            enter world
              (fresh_execution world request k)
              (record k { ticks = suc k.ticks; drawn = suc k.drawn }))
    unfolding enter fresh_execution put
    enter-IsStored_other request parent k ne s =
        put-IsStored_other k (fresh_execution world request k) parent ne s

    -- A parent is still stored when a child of another id has been created.
    create-Ensures :
        (request : CreateExecutionRequest) (parent : WorkflowExecution) (k : Kernel)
        → world.uuid k.drawn ≢ parent.execution_id
        → Holds I parent k
        → Ensures I (λ _. Holds I parent) (create_live world request k)
    unfolding create_live fresh_execution
    create-Ensures request parent k ne (w, s) =
        Ensures-weaken (Holds I parent) I (λ _. Holds I parent) _ (λ _ h. h.0)
          (guard-Ensures_last (Holds I parent) (snapshot (world.uuid k.drawn)) _
            (snapshot-IsGuard _)
            (
              admit-Keeps world I inv (fresh_execution world request k) _
                  (enter-Holds world I inv request k w),
              admit-IsStored_other (fresh_execution world request k) parent _ ne
                  (enter-IsStored_other request parent k ne s),
            ))

    adopt-Keeps :
        (parent : WorkflowExecution) (selection : Selection) (child : ExecutionSnapshot)
        (k : Kernel)
        → Holds I parent k
        → I (adopt world parent selection child k)
    unfolding adopt
    adopt-Keeps parent selection child k (w, s) =
        (change-Holds world I inv k
          (with_selection parent
            (record selection { child_execution_id = some child.execution.execution_id }))
          _ _ w s).0

    spawn_child-Keeps :
        (parent : WorkflowExecution) (selection : Selection) (target : String) (input : JsonObject)
        (k : Kernel)
        → Holds I parent k
        → world.uuid k.drawn ≢ parent.execution_id
        → Ensures I (λ _. I) (spawn_child world parent selection target input k)
    unfolding spawn_child create_execution child_request
    spawn_child-Keeps parent selection target input k h ne =
        bind-Ensures I (λ _. Holds I parent) (λ _. I)
          (create_execution world (child_request parent selection target input) k) _
          (create-Ensures (child_request parent selection target input) parent k ne h)
          λ child k' h'. elim (Bool-cases (is_status failed child.execution.status)) [
            | inl bad ↦ rw (bad) h'.0
            | inr fine ↦ rw (fine) (adopt-Keeps parent selection child k' h')
          ]

    pub spawn_selected_next_action-Keeps :
        (id : String) (input : JsonObject) (k : Kernel)
        → I k
        → Ensures I (λ _. I) (spawn_selected_next_action world id input k)
    unfolding spawn_selected_next_action
    spawn_selected_next_action-Keeps id input k w =
        fetch-Ensures world I inv (λ _. I) id _ k w
          λ parent keyed (w', s).
            guard-Ensures I _ (spawnable parent.selected_next_action) _ k
              (spawnable-IsGuard parent.selected_next_action) w
              λ (selection, target) _. elim (Option-cases (truthy selection.child_execution_id)) [
                | inl first ↦ rw (first) (
                    spawn_child-Keeps parent selection target input k (w', s)
                      (uuid-ne_stored parent k (w', s)))
                | inr (child, again) ↦
                    rw (again) (guard-Ensures_last I (snapshot child) k (snapshot-IsGuard child) w)
              ]
