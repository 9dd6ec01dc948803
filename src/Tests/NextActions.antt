-- ===== src/Tests/NextActions.antt =====
-- The theorems on next actions, for a finished memory audit.
use ai_knowledge_system.Common.{
  ◌≡◌, refl, false, Option, none, some, [], ◌∷◌, All, map, lookup, truthy,
}
use ai_knowledge_system.NextActions.Types.{ActionEnvelope, ResolveInput}
use ai_knowledge_system.NextActions.Policies.{
  resume_project, memory_audit, cross_project_comparison, repository_state_sync,
  repository_development_bridge, stone_mason_harvester, research_harvest,
  internal_runtime_diagnostic, next_action_policies,
}
use ai_knowledge_system.NextActions.Resolve.{
  find_policy, get_default_result_class, target_reason, blocked_reason, split_actions, envelope_of,
  state_of, resolve_next_action_envelope,
}
use ai_knowledge_system.NextActions.Partition.{IsResolved, resolve-IsResolved}
use ai_knowledge_system.NextActions.Catalogue.{IsGoverned, resolve-IsGoverned, resolve-default}

abbrev finished : ResolveInput
finished = record {
  execution_id = "u";
  scope_key = "alpha";
  workflow_id = "memory-audit";
  current_state = "COMPLETED";
  result_class = "AUDIT_FINDINGS_READY";
  authority_context = none;
  target_availability = some [];
}

abbrev resolved : Option ActionEnvelope
resolved = resolve_next_action_envelope "12:00" finished

abbrev shown : Option ActionEnvelope → ActionEnvelope
shown (some envelope) = envelope
shown none = record {
  execution_id = "";
  scope_key = "";
  workflow_id = "";
  current_state = "";
  result_class = "";
  authority_context = record { read_from = []; authority = ""; write_authorized = false };
  recommended_action = none;
  available_actions = [];
  blocked_actions = [];
  generated_at = "";
}

resolved-some : resolved ≡ some (shown resolved)
unfolding resolve_next_action_envelope state_of find_policy next_action_policies resume_project
    memory_audit cross_project_comparison repository_state_sync repository_development_bridge
    stone_mason_harvester research_harvest internal_runtime_diagnostic lookup
resolved-some = refl

-- No target is registered: what needs none is available, and the rest is blocked.
resolved-commands :
    (map (λ a. a.command) (shown resolved).available_actions
      ≡ "REVIEW_FINDINGS" ∷ "CLOSE_SESSION" ∷ [])
    × (map (λ b. b.action.command) (shown resolved).blocked_actions
        ≡ "RUN_CROSS_PROJECT_COMPARISON" ∷ "CREATE_STONE_CANDIDATES" ∷ [])
unfolding resolve_next_action_envelope state_of find_policy next_action_policies resume_project
    memory_audit cross_project_comparison repository_state_sync repository_development_bridge
    stone_mason_harvester research_harvest internal_runtime_diagnostic lookup envelope_of
    split_actions blocked_reason target_reason truthy
resolved-commands = (refl, refl)

resolve-IsResolved_example : IsResolved finished (shown resolved)
resolve-IsResolved_example = resolve-IsResolved "12:00" finished (shown resolved) resolved-some

resolve-IsGoverned_example :
    All IsGoverned (shown resolved).available_actions
    × All (λ b. IsGoverned b.action) (shown resolved).blocked_actions
resolve-IsGoverned_example = resolve-IsGoverned "12:00" finished (shown resolved) resolved-some

default-class : get_default_result_class "memory-audit" ≡ some "AUDIT_FINDINGS_READY"
unfolding get_default_result_class find_policy next_action_policies resume_project memory_audit
    cross_project_comparison repository_state_sync repository_development_bridge
    stone_mason_harvester research_harvest internal_runtime_diagnostic
default-class = refl

resolve-default_example :
    (envelope : ActionEnvelope) × (resolve_next_action_envelope "12:00" finished ≡ some envelope)
resolve-default_example = resolve-default "12:00" finished default-class
