-- ===== src/Governance/Instructions.antt =====
-- server/governance/research-delta-guards.ts: which instruction source is selected.
use ai_knowledge_system.Common.{◌≡◌, ◌↔◌, true, false, arith}
use ai_knowledge_system.Provenance.Validity.{Given, non_empty_iff}
use ai_knowledge_system.Governance.Guards.{
  InstructionInput, primary, portable, resolve_repository_instruction_source,
}

-- The portable instruction stands in for a missing primary one.
abbrev pub IsPortable : InstructionInput → Type 0
IsPortable input =
    (input.primary_instruction.present ≡ false)
    × (input.portable_instruction.present ≡ true)
    × (input.provider_supports_portable_instruction ≡ true)
    × Given input.portable_instruction.digest

portable_if :
    (input : InstructionInput)
    → (resolve_repository_instruction_source input).selected_source ≡ portable
    → IsPortable input
unfolding resolve_repository_instruction_source
portable_if input e = (
  ground arith,
  ground arith,
  ground arith,
  (non_empty_iff input.portable_instruction.digest).0 (ground arith),
)

primary_if :
    (input : InstructionInput)
    → (resolve_repository_instruction_source input).selected_source ≡ primary
    → (input.primary_instruction.present ≡ true) × Given input.primary_instruction.digest
unfolding resolve_repository_instruction_source
primary_if input e =
    (ground arith, (non_empty_iff input.primary_instruction.digest).0 (ground arith))

-- The primary instruction is selected exactly when it is present and has a digest, with that digest;
-- the portable one exactly when there is no primary, the provider supports it, and it is present and
-- has a digest, with that digest.
pub resolve_repository_instruction_source_lem :
    (input : InstructionInput)
    → let answer = resolve_repository_instruction_source input in
      (((answer.selected_source ≡ primary)
          × (answer.selected_digest ≡ input.primary_instruction.digest))
        ↔ ((input.primary_instruction.present ≡ true) × Given input.primary_instruction.digest))
      × (((answer.selected_source ≡ portable)
            × (answer.selected_digest ≡ input.portable_instruction.digest))
          ↔ IsPortable input)
unfolding resolve_repository_instruction_source
resolve_repository_instruction_source_lem input = (
  (
    λ h. primary_if input h.0,
    λ (there, given).
        let g = (non_empty_iff input.primary_instruction.digest).1 given in
        (ground arith, ground arith),
  ),
  (
    λ h. portable_if input h.0,
    λ (no_primary, there, supported, given).
        let g = (non_empty_iff input.portable_instruction.digest).1 given in
        (ground arith, ground arith),
  ),
)
