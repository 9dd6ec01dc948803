-- ===== src/Workflows/Transitions/Spawning.antt =====
-- server/workflows/kernel.ts: a selection is spawned once.
use mathlib.Core.Path.{subst}
use ai_knowledge_system.Common.{
  String, ◌≡◌, ◌≢◌, refl, sym, ap, ◌∙◌, inl, inr, false, Option, some, none, arith, eq_iff, truthy,
  lookup, lookup-insert,
}
use ai_knowledge_system.NextActions.Types.{Selection}
use ai_knowledge_system.Workflows.Json.{JsonObject}
use ai_knowledge_system.Workflows.Types.{
  queued, failed, live, WorkflowExecution, ExecutionSnapshot, CreateExecutionRequest,
}
use ai_knowledge_system.Workflows.Kernel.State.{
  World, Kernel, returned, log_of, evidence_of, put, is_status, require_execution, snapshot,
}
use ai_knowledge_system.Workflows.Kernel.Log.{emit}
use ai_knowledge_system.Workflows.Kernel.Create.{fresh_execution, create_execution}
use ai_knowledge_system.Workflows.Kernel.NextSteps.{
  with_selection, child_request, adopt, spawn_selected_next_action,
}
use ai_knowledge_system.Workflows.Wellformed.{HasFreshUuids, Wellformed, identity_of}
use ai_knowledge_system.Workflows.Transitions.Creation.{create_execution_lem}
use ai_knowledge_system.Workflows.Transitions.FollowUps.{returned-injective, spawned, spawn-again}

snapshot-found :
    (id : String) (x : WorkflowExecution) (k : Kernel)
    → lookup id k.executions ≡ some x
    → (s : ExecutionSnapshot) × (snapshot id k ≡ returned s k) × (s.execution ≡ x)
unfolding snapshot require_execution
snapshot-found id x k found = (
  record { execution = x; events = log_of id k; provenance_envelopes = evidence_of id k },
  ground (arith, found),
  refl,
)

-- What the created child is, from the answer of `createExecution`.
created-child :
    (world : World) (request : CreateExecutionRequest) (k created : Kernel)
    (child : ExecutionSnapshot)
    → request.mode ≡ live
    → create_execution world request k ≡ returned child created
    → is_status failed child.execution.status ≡ false
    → (lookup child.execution.execution_id created.executions ≡ some child.execution)
      × (identity_of child.execution ≡ identity_of (fresh_execution world request k))
      × (child.execution.status ≡ queued)
unfolding fresh_execution
created-child world request k created child mode e fine =
    elim (create_execution_lem world request k mode) [
      | inl h ↦
          let (s, k', e', found, same, status, _, _) = h.1 in
          let (one, two) = returned-injective s child k' created (sym e' ∙ e) in
          (
            subst (λ j. lookup child.execution.execution_id j.executions ≡ some child.execution) two
                (subst (λ c. lookup c.execution.execution_id k'.executions ≡ some c.execution) one
                  found),
            subst (λ c. identity_of c.execution ≡ identity_of (fresh_execution world request k)) one
                same,
            subst (λ c. c.execution.status ≡ queued) one status,
          )
      | inr h ↦
          let (s, k', e', found, same, status, _, _) = h.1 in
          let (one, two) = returned-injective s child k' created (sym e' ∙ e) in
          let bad : child.execution.status ≡ failed =
            subst (λ c. c.execution.status ≡ failed) one status in
          absurd (ground arith)
    ]

adopted-child :
    (world : World) (x : WorkflowExecution) (selection : Selection) (child : ExecutionSnapshot)
    (created : Kernel)
    → child.execution.execution_id ≢ x.execution_id
    → lookup child.execution.execution_id created.executions ≡ some child.execution
    → lookup child.execution.execution_id (adopt world x selection child created).executions
      ≡ some child.execution
unfolding adopt put emit
adopted-child world x selection child created other found = ground (
  arith,
  found,
  eq_iff x.execution_id child.execution.execution_id,
  lookup-insert x.execution_id child.execution.execution_id
      (with_selection x
        (record selection { child_execution_id = some child.execution.execution_id }))
      created.executions,
)

child-facts :
    (world : World) (x : WorkflowExecution) (selection : Selection) (target : String)
    (input : JsonObject) (k : Kernel) (child : WorkflowExecution)
    → identity_of child
      ≡ identity_of (fresh_execution world (child_request x selection target input) k)
    → (child.execution_id ≡ world.uuid k.drawn)
      × (child.parent_execution_id ≡ some x.execution_id)
      × (child.scope_key ≡ x.scope_key)
      × (child.workflow_id ≡ target)
unfolding fresh_execution child_request
child-facts world x selection target input k child same = (
  ap (λ i. i.binding.execution_id) same,
  ap (λ i. i.parent_execution_id) same,
  ap (λ i. i.binding.scope_key) same,
  ap (λ i. i.binding.workflow_id) same,
)

truthy-some : (s : Option String) (t : String) → truthy s ≡ some t → s ≡ some t
unfolding truthy
truthy-some none t e = absurd (ground arith)
truthy-some (some s) t e = ground arith

named-truthy : (s : String) → s ≢ "" → truthy (some s) ≡ some s
unfolding truthy
named-truthy s ne = ground (arith, eq_iff s "")

request-live :
    (x : WorkflowExecution) (selection : Selection) (target : String) (input : JsonObject)
    → (child_request x selection target input).mode ≡ live
unfolding child_request
request-live x selection target input = refl

-- A call that spawns a selection without a child, in a well-formed state, where UUIDs are never
-- drawn twice nor empty, and returns: the child is QUEUED, it names the parent and runs in its scope,
-- for the workflow that the selection targets; and a later call there, with whatever input, returns
-- the same child and changes nothing.
pub spawn_selected_next_action_once :
    (world : World) (id : String) (x : WorkflowExecution) (k : Kernel) (input : JsonObject)
    (selection : Selection) (child : ExecutionSnapshot) (k' : Kernel)
    → HasFreshUuids world
    → world.uuid k.drawn ≢ ""
    → Wellformed world k
    → lookup id k.executions ≡ some x
    → x.selected_next_action ≡ some selection
    → truthy selection.child_execution_id ≡ none
    → spawn_selected_next_action world id input k ≡ returned child k'
    → (child.execution.status ≡ queued)
      × (child.execution.parent_execution_id ≡ some id)
      × (child.execution.scope_key ≡ x.scope_key)
      × (some child.execution.workflow_id ≡ selection.target_workflow_id)
      × ((again : JsonObject)
          → (s : ExecutionSnapshot) × (spawn_selected_next_action world id again k' ≡ returned s k')
            × (s.execution ≡ child.execution))
spawn_selected_next_action_once world id x k input selection child k' unique named w found at fresh
      e =
    let (keyed, entry) = w id x found in
    let (target, created, c, fine, there, _, _, targets) =
      spawned world id x k input selection child k' found at fresh e in
    let request = child_request x selection target input in
    let (held, same, status) =
      created-child world request k created child (request-live x selection target input) c fine in
    let (drawn, parent, scope, workflow) =
      child-facts world x selection target input k child.execution same in
    let other : child.execution.execution_id ≢ x.execution_id = λ p.
      let i = unique k.drawn entry.known.0 (sym drawn ∙ p ∙ entry.known.2) in
      omega (arith, entry.known.1, i) in
    let stands : lookup child.execution.execution_id k'.executions ≡ some child.execution =
      subst (λ j. lookup child.execution.execution_id j.executions ≡ some child.execution)
        (sym there) (adopted-child world x selection child created other held) in
    (
      status,
      rw (← keyed) parent,
      scope,
      ap (λ t. some t) workflow ∙ sym (truthy-some selection.target_workflow_id target targets),
      λ again.
          let (s, shown, is_child) =
            snapshot-found child.execution.execution_id child.execution k' stands in
          (
            s,
            spawn-again world id x k input again selection child k' found keyed at fresh
                  (named-truthy child.execution.execution_id (rw drawn named)) e
                ∙ shown,
            is_child,
          ),
    )
