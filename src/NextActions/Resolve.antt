-- ===== src/NextActions/Resolve.antt =====
-- shared/next-actions.ts: `getDefaultResultClass` and `resolveNextActionEnvelope`. A `Record` is an
-- association list, so the keys that every JavaScript object inherits are no keys here.
use ai_knowledge_system.Common.{
  String, false, Option, none, some, List, [], ◌∷◌, str_eq, if◌then◌else◌, find, any, or_else,
  or_option, concat, truthy, lookup,
}
use ai_knowledge_system.NextActions.Types.{
  ActionDefinition, BlockedAction, ActionEnvelope, PolicyState, ActionPolicy, Availability,
  ResolveInput,
}
use ai_knowledge_system.NextActions.Policies.{next_action_policies}

unfoldable pub find_policy : String → Option ActionPolicy
unfolding next_action_policies
find_policy workflow_id =
    find (λ policy. str_eq policy.workflow_id workflow_id) next_action_policies

unfoldable pub get_default_result_class : String → Option String
unfolding find_policy
get_default_result_class workflow_id = elim (find_policy workflow_id) [
  | none ↦ none
  | some policy ↦ some policy.default_result_class
]

-- Why a target with this entry is blocked; `none` if it is available.
unfoldable pub target_reason : String → Option Availability → Option String
target_reason target_id none =
    some (concat ("Target workflow '" ∷ target_id ∷ "' is unavailable in this executor." ∷ []))
target_reason target_id (some target) =
    if target.available
    then none
    else some (
        or_else target.reason
          (concat ("Target workflow '" ∷ target_id ∷ "' is unavailable in this executor." ∷ [])))

-- The test that makes the loop put an action among the blocked ones.
unfoldable pub blocked_reason :
    Option (List (String × Availability)) → Option String → Option String
unfolding target_reason
blocked_reason none target = none
blocked_reason (some availability) none = none
blocked_reason (some availability) (some target) = target_reason target (lookup target availability)

-- The loop over `state.actions`, with the two arrays that it fills.
unfoldable pub split_actions :
    Option (List (String × Availability))
    → List ActionDefinition
    → List ActionDefinition × List BlockedAction
split_actions availability [] = ([], [])
split_actions availability (candidate ∷ rest) =
    let (available, blocked) = split_actions availability rest in
    elim (blocked_reason availability (truthy candidate.target_workflow_id)) [
      | none ↦ (candidate ∷ available, blocked)
      | some reason ↦ (available, record { action = candidate; blocked_reason = reason } ∷ blocked)
    ]

abbrev pub first_command : List ActionDefinition → Option String
first_command [] = none
first_command (candidate ∷ rest) = some candidate.command

unfoldable pub recommend : Option String → List ActionDefinition → Option String
recommend recommended available = elim (truthy recommended) [
  | none ↦ first_command available
  | some command ↦
      if any (λ candidate. str_eq candidate.command command) available
      then some command
      else first_command available
]

-- `now` is the time that the envelope is stamped with.
unfoldable pub envelope_of : (now : String) → ResolveInput → PolicyState → ActionEnvelope
envelope_of now input state =
    let (available, blocked) = split_actions input.target_availability state.actions in
    record {
      execution_id = input.execution_id;
      scope_key = input.scope_key;
      workflow_id = input.workflow_id;
      current_state = input.current_state;
      result_class = input.result_class;
      authority_context =
          or_else input.authority_context
            (record { read_from = []; authority = "Unspecified"; write_authorized = false });
      recommended_action = recommend state.recommended_action available;
      available_actions = available;
      blocked_actions = blocked;
      generated_at = now;
    }

unfoldable pub state_of : ResolveInput → Option PolicyState
unfolding find_policy
state_of input = elim (find_policy input.workflow_id) [
  | none ↦ none
  | some policy ↦
      or_option (lookup input.result_class policy.states) (lookup input.current_state policy.states)
]

unfoldable pub resolve_next_action_envelope : (now : String) → ResolveInput → Option ActionEnvelope
unfolding envelope_of
resolve_next_action_envelope now input = elim (state_of input) [
  | none ↦ none
  | some state ↦ some (envelope_of now input state)
]
