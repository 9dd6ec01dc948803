-- ===== src/NextActions/Policies.antt =====
-- shared/next-actions.ts: `action` and the table `nextActionPolicies`.
use ai_knowledge_system.Common.{String, true, false, none, some, List, [], ◌∷◌}
use ai_knowledge_system.NextActions.Types.{a0, a3, ActionDefinition, ActionPolicy}

-- The forms in which the table calls `action`: with no option, with a target, with
-- `terminal: true`, and with `autonomy: "A3"`, `requires_approval: true` and a target.
abbrev action : (command label description : String) → ActionDefinition
action command label description = record {
  command = command;
  label = label;
  description = description;
  autonomy = a0;
  requires_approval = false;
  target_workflow_id = none;
  terminal = none;
}

abbrev follow_up : (command label description target : String) → ActionDefinition
follow_up command label description target = record (action command label description) {
  target_workflow_id = some target;
}

abbrev last_action : (command label description : String) → ActionDefinition
last_action command label description = record (action command label description) {
  terminal = some true;
}

abbrev governed : (command label description target : String) → ActionDefinition
governed command label description target = record (action command label description) {
  autonomy = a3;
  requires_approval = true;
  target_workflow_id = some target;
}

-- A policy with one state.
abbrev policy :
    (workflow_id result_class recommended : String) → List ActionDefinition → ActionPolicy
policy workflow_id result_class recommended actions = record {
  workflow_id = workflow_id;
  default_result_class = result_class;
  states = (result_class, record { recommended_action = some recommended; actions = actions }) ∷ [];
}

unfoldable pub resume_project : ActionPolicy
resume_project = policy "resume-project" "RESUME_PACKET_READY" "INSPECT_CURRENT_STATE" (
    action "INSPECT_CURRENT_STATE" "Inspect current state"
      "Open the resolved handoff, constraints, and next bounded task."
    ∷ follow_up "RUN_MEMORY_AUDIT" "Run memory audit"
        "Check the resolved scope for drift, stale objects, and authority conflicts." "memory-audit"
    ∷ follow_up "RUN_CROSS_PROJECT_COMPARISON" "Compare project boundaries"
        "Compare isolated scopes without merging sibling canon." "cross-project-comparison"
    ∷ last_action "CLOSE_SESSION" "End here" "Close the workflow without creating a durable change."
    ∷ [])

unfoldable pub memory_audit : ActionPolicy
memory_audit = policy "memory-audit" "AUDIT_FINDINGS_READY" "REVIEW_FINDINGS" (
    action "REVIEW_FINDINGS" "Review findings"
      "Inspect contradictions, stale records, and scope leakage before proposing repair."
    ∷ follow_up "RUN_CROSS_PROJECT_COMPARISON" "Compare affected scopes"
        "Open a read-only comparison when more than one registered scope is involved."
        "cross-project-comparison"
    ∷ governed "CREATE_STONE_CANDIDATES" "Prepare STONE candidates"
        "Enter the governed STONE to MASON workflow. No write occurs before approval."
        "stone-mason-harvester"
    ∷ last_action "CLOSE_SESSION" "Keep report only"
        "Retain the audit result without promotion or repair."
    ∷ [])

unfoldable pub cross_project_comparison : ActionPolicy
cross_project_comparison =
    policy "cross-project-comparison" "COMPARISON_READY" "REVIEW_DIFFERENCES" (
      action "REVIEW_DIFFERENCES" "Review differences"
        "Inspect convergences and conflicts while preserving project isolation."
      ∷ follow_up "RUN_MEMORY_AUDIT" "Audit one scope" "Return to a bounded single-scope audit."
          "memory-audit"
      ∷ last_action "CLOSE_SESSION" "End comparison" "Close without modifying either scope."
      ∷ [])

unfoldable pub repository_state_sync : ActionPolicy
repository_state_sync =
    policy "repository-state-sync" "REPOSITORY_DELTA_READY" "REVIEW_REPOSITORY_DELTA" (
      action "REVIEW_REPOSITORY_DELTA" "Review repository delta"
        "Inspect changed repository facts before any memory synchronization."
      ∷ governed "OPEN_DEVELOPMENT_BRIDGE" "Open development bridge"
          "Prepare repository work through the governed A3 bridge." "repository-development-bridge"
      ∷ last_action "CLOSE_SESSION" "Keep repository-only" "Close without creating a memory delta."
      ∷ [])

unfoldable pub repository_development_bridge : ActionPolicy
repository_development_bridge =
    policy "repository-development-bridge" "DEVELOPMENT_RESULT_READY" "INSPECT_WRITE_PLAN" (
      action "INSPECT_WRITE_PLAN" "Inspect write plan"
        "Review exact destinations, preconditions, reversibility, and verification steps."
      ∷ follow_up "RUN_REPOSITORY_STATE_SYNC" "Refresh repository state"
          "Return to the read-only repository fact sync." "repository-state-sync"
      ∷ last_action "CLOSE_SESSION" "End development bridge" "Close without another execution."
      ∷ [])

unfoldable pub stone_mason_harvester : ActionPolicy
stone_mason_harvester =
    policy "stone-mason-harvester" "GOVERNED_WRITE_RECEIPT_READY" "INSPECT_RECEIPT" (
      action "INSPECT_RECEIPT" "Inspect receipt"
        "Review the verified destinations, deltas, and execution evidence."
      ∷ follow_up "RUN_MEMORY_AUDIT" "Audit the updated scope"
          "Verify memory health after the governed write." "memory-audit"
      ∷ last_action "CLOSE_SESSION" "Close episode"
          "End the governed episode with the receipt intact."
      ∷ [])

unfoldable pub research_harvest : ActionPolicy
research_harvest = policy "research-harvest" "RESEARCH_PACKET_COMPLETE" "VERIFY_CLAIMS" (
    action "VERIFY_CLAIMS" "Verify disputed claims"
      "Check load-bearing claims against authoritative sources."
    ∷ action "MAP_ARCHITECTURE" "Map to our architecture"
        "Separate independent convergence, adoption candidates, and architectural differences."
    ∷ governed "CREATE_STONE_CANDIDATES" "Prepare STONE candidates"
        "Route reusable findings into governed candidate review." "stone-mason-harvester"
    ∷ last_action "KEEP_AS_RESEARCH" "Keep as research only"
        "Retain the source packet without promoting memory."
    ∷ [])

unfoldable pub internal_runtime_diagnostic : ActionPolicy
internal_runtime_diagnostic =
    policy "internal-runtime-diagnostic" "DIAGNOSTIC_COMPLETE" "INSPECT_DIAGNOSTIC" (
      action "INSPECT_DIAGNOSTIC" "Inspect diagnostic"
        "Review the server-owned computation result and execution trace."
      ∷ follow_up "RERUN_DIAGNOSTIC" "Run again"
          "Create a child execution in the same scope using the same LIVE handler."
          "internal-runtime-diagnostic"
      ∷ last_action "CLOSE_EXECUTION" "Close execution" "End without creating another execution."
      ∷ [])

unfoldable pub next_action_policies : List ActionPolicy
unfolding resume_project memory_audit cross_project_comparison repository_state_sync
    repository_development_bridge stone_mason_harvester research_harvest internal_runtime_diagnostic
next_action_policies =
    resume_project ∷ memory_audit ∷ cross_project_comparison ∷ repository_state_sync
    ∷ repository_development_bridge ∷ stone_mason_harvester ∷ research_harvest
    ∷ internal_runtime_diagnostic ∷ []
