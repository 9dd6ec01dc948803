-- ===== src/Tests/Provenance.antt =====
-- The theorems on provenance, at a concrete envelope and a concrete authorization.
use ai_knowledge_system.Common.{◌≡◌, ◌↔◌, refl, true, none, [], ◌∷◌}
use ai_knowledge_system.Provenance.Types.{GovernedWriteAuthorization}
use ai_knowledge_system.Provenance.Service.{
  validate, emitted, build, emit, assert_governed_write_authorization,
}
use ai_knowledge_system.Provenance.Validity.{IsValid, validate-nil_iff}
use ai_knowledge_system.Provenance.Emission.{
  IsEnvelopeOf, IsAuthorization, emit-emitted_iff, assert-none_iff,
}
use ai_knowledge_system.Tests.Data.{emission, binding, envelope}

validate-nil_iff_example : (validate envelope ≡ []) ↔ IsValid envelope
validate-nil_iff_example = validate-nil_iff envelope

emit-emitted_iff_example :
    (emit "e" "12:00" binding emission ≡ emitted envelope)
    ↔ (IsEnvelopeOf "e" "12:00" binding emission envelope × IsValid envelope)
emit-emitted_iff_example = emit-emitted_iff "e" "12:00" binding emission envelope

abbrev authorization : GovernedWriteAuthorization
authorization = record {
  write_authorized = true;
  write_policy_refs = "policy" ∷ [];
  mason_episode_id = "episode";
  write_plan_id = "plan";
  authorization_id = "authorization";
  destination = "ledger";
}

assert-none_iff_example :
    (assert_governed_write_authorization authorization ≡ none) ↔ IsAuthorization authorization
assert-none_iff_example = assert-none_iff authorization

built_is_envelope : build "e" "12:00" binding emission ≡ envelope
unfolding build
built_is_envelope = refl
