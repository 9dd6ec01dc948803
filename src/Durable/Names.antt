-- ===== src/Durable/Names.antt =====
-- shared/execution-history.ts, the lists of the names that a field may hold, and the name of each value.
use ai_knowledge_system.Common.{String, List, [], ◌∷◌}
use ai_knowledge_system.Workflows.Types.{Mode, live, simulation}
use ai_knowledge_system.Durable.Types.{
  LinkType, provenance, artifact, approval, receipt, touched_resource, related_execution,
  SourceSystem, github, notion, google_drive, runtime, HistoryAuthority, authoritative, shadow,
  execution_truth, observational, ReasonCode, d1_binding_unavailable, d1_schema_unavailable,
  d1_write_failed, d1_read_failed,
}

abbrev pub execution_history_modes : List String
execution_history_modes = "LIVE" ∷ "SIMULATION" ∷ []

abbrev pub execution_history_statuses : List String
execution_history_statuses =
    "QUEUED" ∷ "RUNNING" ∷ "WAITING" ∷ "APPROVAL_REQUIRED" ∷ "PAUSED" ∷ "COMPLETED" ∷ "FAILED"
    ∷ "CANCELLED" ∷ []

abbrev pub execution_history_link_types : List String
execution_history_link_types =
    "PROVENANCE" ∷ "ARTIFACT" ∷ "APPROVAL" ∷ "RECEIPT" ∷ "TOUCHED_RESOURCE" ∷ "RELATED_EXECUTION"
    ∷ []

abbrev pub execution_history_source_systems : List String
execution_history_source_systems = "GitHub" ∷ "Notion" ∷ "Google_Drive" ∷ "runtime" ∷ []

abbrev pub execution_history_authority_states : List String
execution_history_authority_states =
    "authoritative" ∷ "shadow" ∷ "execution_truth" ∷ "observational" ∷ []

unfoldable pub mode_name : Mode → String
mode_name live = "LIVE"
mode_name simulation = "SIMULATION"

unfoldable pub link_type_name : LinkType → String
link_type_name provenance = "PROVENANCE"
link_type_name artifact = "ARTIFACT"
link_type_name approval = "APPROVAL"
link_type_name receipt = "RECEIPT"
link_type_name touched_resource = "TOUCHED_RESOURCE"
link_type_name related_execution = "RELATED_EXECUTION"

unfoldable pub source_system_name : SourceSystem → String
source_system_name github = "GitHub"
source_system_name notion = "Notion"
source_system_name google_drive = "Google_Drive"
source_system_name runtime = "runtime"

unfoldable pub authority_name : HistoryAuthority → String
authority_name authoritative = "authoritative"
authority_name shadow = "shadow"
authority_name execution_truth = "execution_truth"
authority_name observational = "observational"

unfoldable pub reason_name : ReasonCode → String
reason_name d1_binding_unavailable = "D1_BINDING_UNAVAILABLE"
reason_name d1_schema_unavailable = "D1_SCHEMA_UNAVAILABLE"
reason_name d1_write_failed = "D1_WRITE_FAILED"
reason_name d1_read_failed = "D1_READ_FAILED"
