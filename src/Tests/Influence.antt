-- ===== src/Tests/Influence.antt =====
-- The theorem on influence receipts, at a concrete input.
use ai_knowledge_system.Common.{◌≡◌, ◌↔◌, none, [], ◌∷◌, integer}
use ai_knowledge_system.Workflows.Types.{completed}
use ai_knowledge_system.Workflows.Kernel.State.{Kernel}
use ai_knowledge_system.Workflows.Kernel.Restore.{get_provenance_envelope}
use ai_knowledge_system.Influence.Receipt.{
  evidence, cited_in_output, ReferenceInput, resolved,
  resolve_influence_receipt_provenance_references,
}
use ai_knowledge_system.Influence.References.{
  HasGoodCounts, AreResolved, resolve_influence_receipt_provenance_references_iff,
}
use ai_knowledge_system.Tests.Data.{execution_in, kernel_with}

abbrev finished : Kernel
finished = kernel_with (execution_in completed none)

abbrev input : ReferenceInput
input = record {
  execution_id = "u";
  resolved_scope = "alpha";
  referenced_sources =
      (record {
        provenance_envelope_id = "e";
        contribution_class = evidence;
        linkage_type = cited_in_output;
      })
      ∷ [];
  admitted_object_count = integer 2;
  referenced_object_count = integer 1;
}

resolve_influence_receipt_provenance_references_iff_example :
    (resolve_influence_receipt_provenance_references get_provenance_envelope input finished
      ≡ resolved [] finished)
    ↔ (HasGoodCounts input × AreResolved "u" "alpha" finished input.referenced_sources [])
resolve_influence_receipt_provenance_references_iff_example =
    resolve_influence_receipt_provenance_references_iff input finished []
