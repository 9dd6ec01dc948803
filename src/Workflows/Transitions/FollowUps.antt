-- ===== src/Workflows/Transitions/FollowUps.antt =====
-- server/workflows/kernel.ts: when a next action may be selected, decided and spawned.
use mathlib.Core.Path.{subst}
use ai_knowledge_system.Common.{
  suc, String, ◌≡◌, ◌≢◌, refl, ◌⊎◌, inl, inr, false, some, none, arith, Bool-cases, Option-cases,
  truthy, lookup, lookup-insert_self,
}
use ai_knowledge_system.NextActions.Types.{
  Decision, selected, pending_approval, approved, rejected, Selection,
}
use ai_knowledge_system.Workflows.Json.{JsonObject, empty, field, text, text_or_null}
use ai_knowledge_system.Workflows.Types.{failed, WorkflowExecution, ExecutionSnapshot}
use ai_knowledge_system.Workflows.Ensures.{Outcome-cases}
use ai_knowledge_system.Workflows.Kernel.State.{
  World, Kernel, returned, put, is_status, require_execution, snapshot,
}
use ai_knowledge_system.Workflows.Kernel.Log.{emit}
use ai_knowledge_system.Workflows.Kernel.Create.{create_execution}
use ai_knowledge_system.Workflows.Kernel.NextSteps.{
  with_selection, pending_selection, decide, spawnable, child_request, decide_next_action, adopt,
  spawn_child, spawn_selected_next_action,
}
use ai_knowledge_system.Workflows.Transitions.{
  Refuses, Moves, Shows, announced-Moves, announced-Shows,
}

-- The selection waits for an approval.
abbrev pub IsPending : WorkflowExecution → Type 0
IsPending x =
    (selection : Selection) × (x.selected_next_action ≡ some selection)
    × (selection.decision ≡ pending_approval)

-- The selection may be spawned: it needs no approval or has it, and it targets a workflow.
abbrev pub IsSpawnable : WorkflowExecution → Type 0
IsSpawnable x =
    (selection : Selection) × (x.selected_next_action ≡ some selection)
    × (selection.decision ≢ pending_approval)
    × (selection.decision ≢ rejected)
    × (target : String) × (truthy selection.target_workflow_id ≡ some target)

-- The selection has the decision, dated; nothing else of the execution has changed.
abbrev pub IsDecided : WorkflowExecution → Decision → (now : String) → WorkflowExecution → Type 0
IsDecided x decision now y =
    (selection : Selection) × (x.selected_next_action ≡ some selection)
    × (y ≡ record x {
      selected_next_action = some (record selection { decision = decision; decided_at = some now });
    })

Decision-cases :
    (d : Decision) → (d ≡ selected) ⊎ (d ≡ pending_approval) ⊎ (d ≡ approved) ⊎ (d ≡ rejected)
Decision-cases selected = inl refl
Decision-cases pending_approval = inr (inl refl)
Decision-cases approved = inr (inr (inl refl))
Decision-cases rejected = inr (inr (inr refl))

pub returned-injective {ℓ} :
    {A : Type ℓ} (a b : A) (k k' : Kernel) → returned a k ≡ returned b k' → (a ≡ b) × (k ≡ k')
returned-injective a b k k' e = (cc, cc)

module _ (world : World) (id : String) (x : WorkflowExecution) (k : Kernel) where
  -- A decision, to approve or to reject, is taken and logged exactly while the selection waits for
  -- an approval: the selection gets it with the time, nothing else of the execution changes;
  -- otherwise the call throws and changes nothing.
  pub decide-Answers :
      (decision : Decision) (event_type : String)
      → lookup id k.executions ≡ some x
      → x.execution_id ≡ id
      → (IsPending x
          × Moves id k x.status event_type (decide_next_action world decision event_type id k)
          × Shows
              (IsDecided x decision (world.now k.ticks))
              (decide_next_action world decision event_type id k))
        ⊎ ((¬ IsPending x) × Refuses k (decide_next_action world decision event_type id k))
  unfolding decide_next_action require_execution pending_selection decide
  decide-Answers decision event_type found keyed = elim (Option-cases x.selected_next_action) [
    | inl missing ↦ inr (λ (s, at, d). ground arith, (ground arith, ground arith))
    | inr (selection, at) ↦ elim (Decision-cases selection.decision) [
      | inl e ↦ inr (λ (s, at', d). ground arith, (ground arith, ground arith))
      | inr (inr (inl e)) ↦ inr (λ (s, at', d). ground arith, (ground arith, ground arith))
      | inr (inr (inr e)) ↦ inr (λ (s, at', d). ground arith, (ground arith, ground arith))
      | inr (inl e) ↦
          let y = with_selection x (decide selection decision (world.now k.ticks)) in
          let told = some (
            field "command" (text selection.command)
              (field "target_workflow_id" (text_or_null selection.target_workflow_id) empty)) in
          let k1 = record k { ticks = suc k.ticks } in
          let answer : decide_next_action world decision event_type id k
              ≡ snapshot id (emit world y event_type told (put y k1)) =
            ground arith in
          inl (
            (selection, at, e),
            announced-Moves world id k1 y event_type told _ _ keyed refl answer,
            announced-Shows (IsDecided x decision (world.now k.ticks)) world id k1 y event_type told
                _ _ keyed refl answer (selection, at, refl),
          )
    ]
  ]

  -- Where nothing is selected, or the selection waits for approval, was rejected or targets no
  -- workflow, spawning throws and changes nothing.
  pub spawn-Refuses :
      (input : JsonObject)
      → lookup id k.executions ≡ some x
      → ¬ IsSpawnable x
      → Refuses k (spawn_selected_next_action world id input k)
  unfolding spawn_selected_next_action require_execution spawnable
  spawn-Refuses input found not_spawnable = elim (Option-cases x.selected_next_action) [
    | inl missing ↦ (ground arith, ground arith)
    | inr (selection, at) ↦ elim (Option-cases (truthy selection.target_workflow_id)) [
      | inl none_there ↦ elim (Decision-cases selection.decision) [
        | inl e ↦ (ground arith, ground arith)
        | inr (inl e) ↦ (ground arith, ground arith)
        | inr (inr (inl e)) ↦ (ground arith, ground arith)
        | inr (inr (inr e)) ↦ (ground arith, ground arith)
      ]
      | inr (target, named) ↦ elim (Decision-cases selection.decision) [
        | inl e ↦ absurd (not_spawnable (selection, at, (λ p. cc), (λ p. cc), target, named))
        | inr (inl e) ↦ (ground arith, ground arith)
        | inr (inr (inl e)) ↦
            absurd (not_spawnable (selection, at, (λ p. cc), (λ p. cc), target, named))
        | inr (inr (inr e)) ↦ (ground arith, ground arith)
      ]
    ]
  ]

  -- What a call that returns a new child has done: it has created the child, and adopted it.
  abbrev pub Spawned : JsonObject → Selection → ExecutionSnapshot → Kernel → Type 0
  Spawned input selection child k' =
      (target : String) × (created : Kernel) × (create_execution world
          (child_request x selection target input) k
        ≡ returned child created)
      × (is_status failed child.execution.status ≡ false)
      × (k' ≡ adopt world x selection child created)
      × (selection.decision ≢ pending_approval)
      × (selection.decision ≢ rejected)
      × (truthy selection.target_workflow_id ≡ some target)

  spawn_child-Spawned :
      (input : JsonObject) (selection : Selection) (target : String) (child : ExecutionSnapshot)
      (k' : Kernel)
      → spawn_child world x selection target input k ≡ returned child k'
      → (created : Kernel) × (create_execution world (child_request x selection target input) k
          ≡ returned child created)
        × (is_status failed child.execution.status ≡ false)
        × (k' ≡ adopt world x selection child created)
  unfolding spawn_child
  spawn_child-Spawned input selection target child k' e =
      elim (Outcome-cases (create_execution world (child_request x selection target input) k)) [
        | inr (failure, k1, c) ↦ absurd (ground arith)
        | inl (s, k1, c) ↦ elim (Bool-cases (is_status failed s.execution.status)) [
          | inl bad ↦ absurd (ground arith)
          | inr fine ↦
              let same : s ≡ child = ground arith in
              let there : k' ≡ adopt world x selection s k1 = ground arith in
              (
                k1,
                subst
                    (λ c'.
                      create_execution world (child_request x selection target input) k
                      ≡ returned c' k1)
                    same c,
                subst (λ c'. is_status failed c'.execution.status ≡ false) same fine,
                subst (λ c'. k' ≡ adopt world x selection c' k1) same there,
              )
        ]
      ]

  pub spawned :
      (input : JsonObject) (selection : Selection) (child : ExecutionSnapshot) (k' : Kernel)
      → lookup id k.executions ≡ some x
      → x.selected_next_action ≡ some selection
      → truthy selection.child_execution_id ≡ none
      → spawn_selected_next_action world id input k ≡ returned child k'
      → Spawned input selection child k'
  unfolding spawn_selected_next_action require_execution spawnable
  spawned input selection child k' found at fresh e =
      elim (Option-cases (truthy selection.target_workflow_id)) [
        | inl none_there ↦ elim (Decision-cases selection.decision) [
          | inl d ↦ absurd (ground arith)
          | inr (inl d) ↦ absurd (ground arith)
          | inr (inr (inl d)) ↦ absurd (ground arith)
          | inr (inr (inr d)) ↦ absurd (ground arith)
        ]
        | inr (target, named) ↦
            let parts = spawn_child-Spawned input selection target child k' in
            elim (Decision-cases selection.decision) [
              | inl d ↦
                  let (k1, c, f, a) = parts (ground arith) in
                  (target, k1, c, f, a, (λ p. cc), (λ p. cc), named)
              | inr (inl d) ↦ absurd (ground arith)
              | inr (inr (inl d)) ↦
                  let (k1, c, f, a) = parts (ground arith) in
                  (target, k1, c, f, a, (λ p. cc), (λ p. cc), named)
              | inr (inr (inr d)) ↦ absurd (ground arith)
            ]
      ]

  -- A second call answers with the child that the first has created.
  pub spawn-again :
      (input again : JsonObject) (selection : Selection) (child : ExecutionSnapshot) (k' : Kernel)
      → lookup id k.executions ≡ some x
      → x.execution_id ≡ id
      → x.selected_next_action ≡ some selection
      → truthy selection.child_execution_id ≡ none
      → truthy (some child.execution.execution_id) ≡ some child.execution.execution_id
      → spawn_selected_next_action world id input k ≡ returned child k'
      → spawn_selected_next_action world id again k' ≡ snapshot child.execution.execution_id k'
  unfolding spawn_selected_next_action require_execution spawnable adopt put emit
  spawn-again input again selection child k' found keyed at fresh named e =
      let (target, created, _, _, there, not_pending, not_rejected, targets) =
        spawned input selection child k' found at fresh e in
      let adopted : lookup id k'.executions
          ≡ some (
              with_selection x
                (record selection { child_execution_id = some child.execution.execution_id })) =
        ground (
          arith,
          there,
          keyed,
          lookup-insert_self id
              (with_selection x
                (record selection { child_execution_id = some child.execution.execution_id }))
              created.executions,
        ) in
      elim (Decision-cases selection.decision) [
        | inl d ↦ ground (arith, adopted, targets, named, d)
        | inr (inl d) ↦ absurd (not_pending d)
        | inr (inr (inl d)) ↦ ground (arith, adopted, targets, named, d)
        | inr (inr (inr d)) ↦ absurd (not_rejected d)
      ]
