-- ===== src/Tests/Governance.antt =====
-- The theorems on the guards, at concrete inputs.
use ai_knowledge_system.Common.{◌≡◌, ◌↔◌, true, false, none, some, [], ◌∷◌, truthy}
use ai_knowledge_system.Provenance.Validity.{Given}
use ai_knowledge_system.Governance.Guards.{
  InstructionInput, primary, portable, resolve_repository_instruction_source, PublicationInput,
  rejected, verified_published, assess_staged_artifact_publication, ToolAuthorityInput, read_only,
  allow, evaluate_agent_tool_authority,
}
use ai_knowledge_system.Governance.Instructions.{
  IsPortable, resolve_repository_instruction_source_lem,
}
use ai_knowledge_system.Governance.Publication.{IsApproved, assess_staged_artifact_publication_lem}
use ai_knowledge_system.Governance.Authority.{IsAuthority, evaluate_agent_tool_authority_iff}

abbrev instructions : InstructionInput
instructions = record {
  primary_instruction = record { present = false; digest = none };
  portable_instruction = record { present = true; digest = some "sha256:1" };
  provider_supports_portable_instruction = true;
}

resolve_repository_instruction_source_lem_example :
    let answer = resolve_repository_instruction_source instructions in
    (((answer.selected_source ≡ primary) × (answer.selected_digest ≡ none))
      ↔ ((false ≡ true) × Given none))
    × (((answer.selected_source ≡ portable) × (answer.selected_digest ≡ some "sha256:1"))
        ↔ IsPortable instructions)
resolve_repository_instruction_source_lem_example =
    resolve_repository_instruction_source_lem instructions

abbrev publication : PublicationInput
publication = record {
  stage_authorized = true;
  publish_authorized = true;
  staged_digest = "sha256:1";
  approved_digest = some "sha256:1";
  acknowledgement = rejected;
  observed_published_digest = none;
}

assess_staged_artifact_publication_lem_example :
    let answer = assess_staged_artifact_publication publication in
    ((answer.state ≡ verified_published)
      ↔ (IsApproved publication × (publication.observed_published_digest ≡ some "sha256:1")))
    × ((answer.retry_authorized ≡ true) ↔ (
        IsApproved publication
        × (truthy publication.observed_published_digest ≡ none)
        × (publication.acknowledgement ≡ rejected)))
assess_staged_artifact_publication_lem_example = assess_staged_artifact_publication_lem publication

abbrev tool_call : ToolAuthorityInput
tool_call = record {
  principal_id = "agent";
  principal_scopes = " read " ∷ [];
  tool_id = "search";
  tool_schema_revision = "1";
  capability_class = read_only;
  required_scopes = "read" ∷ [];
  run_identity = "run";
  mutation_expected = false;
}

evaluate_agent_tool_authority_iff_example :
    ((evaluate_agent_tool_authority tool_call).state ≡ allow) ↔ IsAuthority tool_call
evaluate_agent_tool_authority_iff_example = evaluate_agent_tool_authority_iff tool_call
