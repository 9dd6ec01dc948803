-- ===== src/NextActions/Catalogue.antt =====
-- shared/next-actions.ts: what the table `nextActionPolicies` guarantees of every envelope.
use ai_knowledge_system.Common.{
  String, Bool, true, false, not, ◌&&◌, ◌||◌, ◌≡◌, refl, inl, inr, Option, none, some, List, [],
  ◌∷◌, arith, str_eq, All, find-All, is_some, if◌then◌else◌, Option-cases, truthy, lookup,
  lookup-All,
}
use ai_knowledge_system.NextActions.Types.{
  AutonomyBand, a3, ActionDefinition, ActionEnvelope, PolicyState, ActionPolicy, ResolveInput,
  Availability,
}
use ai_knowledge_system.NextActions.Policies.{next_action_policies}
use ai_knowledge_system.NextActions.Resolve.{
  find_policy, get_default_result_class, blocked_reason, split_actions, state_of, envelope_of,
  resolve_next_action_envelope,
}

abbrev is_a3 : AutonomyBand → Bool
is_a3 a3 = true
is_a3 _ = false

-- A governed action is the one kind that asks for approval: it is of band A3 and has a target. A
-- target is a workflow, which has a policy of its own. An action with a target is not terminal.
abbrev pub IsGoverned : ActionDefinition → Type 0
IsGoverned action =
    (action.requires_approval ≡ true → action.autonomy ≡ a3)
    × (action.autonomy ≡ a3 → action.requires_approval ≡ true)
    × (action.requires_approval ≡ true → is_some (truthy action.target_workflow_id) ≡ true)
    × ((target : String)
        → truthy action.target_workflow_id ≡ some target
        → (action.terminal ≡ none) × (is_some (find_policy target) ≡ true))

has_policy : Option String → Bool
has_policy none = true
has_policy (some target) = is_some (find_policy target)

governed_test : ActionDefinition → Bool
governed_test action =
    (if action.requires_approval then is_a3 action.autonomy else not (is_a3 action.autonomy))
    && (not action.requires_approval || is_some (truthy action.target_workflow_id))
    && has_policy (truthy action.target_workflow_id)
    && (not (is_some (truthy action.target_workflow_id)) || not (is_some action.terminal))

governed_test_sound : (action : ActionDefinition) → governed_test action ≡ true → IsGoverned action
unfolding governed_test has_policy
governed_test_sound action h = (ground arith, ground arith, ground arith, λ target e. ground arith)

all_governed : List ActionDefinition → Bool
all_governed [] = true
all_governed (action ∷ rest) = governed_test action && all_governed rest

all_governed_sound :
    (actions : List ActionDefinition) → all_governed actions ≡ true → All IsGoverned actions
unfolding all_governed
all_governed_sound [] h = tt
all_governed_sound (action ∷ rest) h =
    (governed_test_sound action (ground arith), all_governed_sound rest (ground arith))

-- A policy describes its own default result, and its actions are governed.
abbrev IsSound : ActionPolicy → Type 0
IsSound p =
    (is_some (lookup p.default_result_class p.states) ≡ true)
    × All (λ entry. all_governed entry.1.actions ≡ true) p.states

policies-IsSound : All IsSound next_action_policies
unfolding next_action_policies lookup all_governed governed_test has_policy find_policy truthy
policies-IsSound =
    let one : (◌≡◌ {A = Bool} true true) × (◌≡◌ {A = Bool} true true) × Unit {0} =
      (refl, refl, tt) in
    let each : (◌≡◌ {A = Bool} true true) × ((◌≡◌ {A = Bool} true true) × Unit {0}) =
      (refl, (refl, tt)) in
    (each, (each, (each, (each, (each, (each, (each, (each, tt))))))))

find_policy-IsSound : (id : String) (p : ActionPolicy) → find_policy id ≡ some p → IsSound p
unfolding find_policy
find_policy-IsSound id p e =
    find-All IsSound (λ policy. str_eq policy.workflow_id id) next_action_policies p
      policies-IsSound e

state_of-IsGoverned :
    (input : ResolveInput) (state : PolicyState)
    → state_of input ≡ some state
    → All IsGoverned state.actions
unfolding state_of
state_of-IsGoverned input state e = elim (Option-cases (find_policy input.workflow_id)) [
  | inl missing ↦ absurd (ground arith)
  | inr (p, found) ↦
      let sound = find_policy-IsSound input.workflow_id p found in
      let governed = λ (key : String) (h : lookup key p.states ≡ some state).
        all_governed_sound state.actions
          (lookup-All (λ s. all_governed s.actions ≡ true) key p.states state sound.1 h) in
      elim (Option-cases (lookup input.result_class p.states)) [
        | inl other ↦ governed input.current_state (ground arith)
        | inr (s, direct) ↦ governed input.result_class (ground arith)
      ]
]

module _ (P : ActionDefinition → Type 0)
    (availability : Option (List (String × Availability))) where
  split_actions-All :
      (actions : List ActionDefinition)
      → All P actions
      → All P (split_actions availability actions).0
        × All (λ b. P b.action) (split_actions availability actions).1
  unfolding split_actions
  split_actions-All [] h = (tt, tt)
  split_actions-All (candidate ∷ rest) (p, h) =
      let (left, right) = split_actions-All rest h in
      elim (Option-cases (blocked_reason availability (truthy candidate.target_workflow_id))) [
        | inl free ↦ rw (free, split_actions) ((p, left), right)
        | inr (reason, stopped) ↦ rw (stopped, split_actions) (left, (p, right))
      ]

-- Whatever an envelope offers or blocks asks for approval exactly if its autonomy band is A3, and
-- has a target if it asks; an action with a target is not terminal and targets a workflow that has
-- a policy.
pub resolve-IsGoverned :
    (now : String) (input : ResolveInput) (envelope : ActionEnvelope)
    → resolve_next_action_envelope now input ≡ some envelope
    → All IsGoverned envelope.available_actions
      × All (λ b. IsGoverned b.action) envelope.blocked_actions
unfolding resolve_next_action_envelope
resolve-IsGoverned now input envelope e = elim (Option-cases (state_of input)) [
  | inl missing ↦ absurd (ground arith)
  | inr (state, chosen) ↦
      let same : envelope_of now input state ≡ envelope = ground arith in
      rw (← same) (
        split_actions-All IsGoverned input.target_availability state.actions
          (state_of-IsGoverned input state chosen))
]

-- A workflow's default result class resolves: an execution that ends with it gets an envelope.
pub resolve-default :
    (now : String) (input : ResolveInput)
    → get_default_result_class input.workflow_id ≡ some input.result_class
    → (envelope : ActionEnvelope) × (resolve_next_action_envelope now input ≡ some envelope)
unfolding resolve_next_action_envelope state_of get_default_result_class
resolve-default now input e = elim (Option-cases (find_policy input.workflow_id)) [
  | inl missing ↦ absurd (ground arith)
  | inr (p, found) ↦
      let (answers, _) = find_policy-IsSound input.workflow_id p found in
      let same : p.default_result_class ≡ input.result_class = ground arith in
      elim (Option-cases (lookup input.result_class p.states)) [
        | inl missing ↦
            let gone : is_some (lookup input.result_class p.states) ≡ true = rw same at answers in
            absurd (ground arith)
        | inr (state, direct) ↦ (envelope_of now input state, ground arith)
      ]
]
