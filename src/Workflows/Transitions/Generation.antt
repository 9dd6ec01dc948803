-- ===== src/Workflows/Transitions/Generation.antt =====
-- server/workflows/kernel.ts, generateNextActions: what it leaves of an execution and of its log.
use ai_knowledge_system.Common.{
  suc, String, ◌≡◌, refl, sym, ap, ◌⊎◌, inl, inr, some, none, List, [], ◌∷◌, ◌++◌, or_else,
  or_option, truthy, Option-cases, lookup, lookup-insert_self,
}
use ai_knowledge_system.NextActions.Resolve.{get_default_result_class, resolve_next_action_envelope}
use ai_knowledge_system.Workflows.Types.{WorkflowExecution, ExecutionEvent}
use ai_knowledge_system.Workflows.Kernel.State.{World, Kernel, log_of, put}
use ai_knowledge_system.Workflows.Kernel.Log.{emit, next_event}
use ai_knowledge_system.Workflows.Kernel.Control.{
  resolve_input, generated_data, generate_for, generate_next_actions,
}

-- With a result class, the execution has that class and the envelope that is resolved for it; without
-- one it is as it was.
abbrev pub HasNextActions : WorkflowExecution → Kernel → WorkflowExecution → Type 0
HasNextActions y k y' =
    ((truthy (or_option y.result_class (get_default_result_class y.workflow_id)) ≡ none) × (y' ≡ y))
    ⊎ ((class now : String) × (truthy
            (or_option y.result_class (get_default_result_class y.workflow_id))
          ≡ some class)
        × (y' ≡ record y {
          result_class = some class;
          next_action_envelope = resolve_next_action_envelope now (resolve_input y class k);
        }))

-- The execution that is stored, and the events that join the log.
abbrev pub Generates : WorkflowExecution → Kernel → Kernel → Type 0
Generates y k k' =
    (y' : WorkflowExecution) × (lookup y.execution_id k'.executions ≡ some y')
    × HasNextActions y k y'
    × (rest : List ExecutionEvent) × (log_of y.execution_id k' ≡ log_of y.execution_id k ++ rest)

append_none {ℓ} : {A : Type ℓ} (xs : List A) → xs ≡ xs ++ []
append_none [] = refl
append_none (x ∷ xs) = ap (λ rest. x ∷ rest) (append_none xs)

module _ (world : World) (y : WorkflowExecution) (k : Kernel) where
  generate_for-Generates :
      (class : String)
      → truthy (or_option y.result_class (get_default_result_class y.workflow_id)) ≡ some class
      → Generates y k (generate_for world y class k)
  unfolding generate_for emit put
  generate_for-Generates class given =
      elim (Option-cases
        (resolve_next_action_envelope (world.now k.ticks) (resolve_input y class k))) [
          | inl e ↦
              rw (e, generate_for)
                (
                  record y { result_class = some class; next_action_envelope = none },
                  lookup-insert_self y.execution_id _ k.executions,
                  inr (
                    class,
                    world.now k.ticks,
                    given,
                    ap (λ o. record y { result_class = some class; next_action_envelope = o })
                        (sym e),
                  ),
                  [],
                  append_none _,
                )
          | inr (envelope, e) ↦
              let z = record y {
                result_class = some class;
                next_action_envelope = some envelope;
              } in
              let event =
                next_event world z "next_action.generated" (some (generated_data class envelope))
                  (put z (record k { ticks = suc k.ticks })) in
              rw (e, generate_for)
                (
                  z,
                  lookup-insert_self y.execution_id _ k.executions,
                  inr (
                    class,
                    world.now k.ticks,
                    given,
                    ap (λ o. record y { result_class = some class; next_action_envelope = o })
                        (sym e),
                  ),
                  event ∷ [],
                  ap (λ o. or_else o []) (lookup-insert_self y.execution_id _ k.events),
                )
        ]

  without_class :
      truthy (or_option y.result_class (get_default_result_class y.workflow_id)) ≡ none
      → generate_next_actions world y k ≡ k
  unfolding generate_next_actions
  without_class e = rw (e, generate_next_actions) refl

  with_class :
      (class : String)
      → truthy (or_option y.result_class (get_default_result_class y.workflow_id)) ≡ some class
      → generate_next_actions world y k ≡ generate_for world y class k
  unfolding generate_next_actions
  with_class class e = rw (e, generate_next_actions) refl

  pub generate_next_actions-Generates :
      lookup y.execution_id k.executions ≡ some y → Generates y k (generate_next_actions world y k)
  generate_next_actions-Generates found =
      elim (Option-cases
        (truthy (or_option y.result_class (get_default_result_class y.workflow_id)))) [
          | inl e ↦ rw (without_class e) (y, found, inl (e, refl), [], append_none _)
          | inr (class, e) ↦ rw (with_class class e) (generate_for-Generates class e)
        ]
