-- ===== src/Influence/Receipt.antt =====
-- server/influence-receipt/reference-validator.ts. The reader is a method of the kernel; the calls of
-- `map` run in the order of the sources, and the first that throws ends them.
use ai_knowledge_system.Common.{
  String, not, ◌||◌, Option, none, some, List, [], ◌∷◌, if◌then◌else◌, length, concat, Number,
  is_integer, lt_zero, equals_natural, gt,
}
use ai_knowledge_system.Provenance.Types.{ReadProjection}
use ai_knowledge_system.Workflows.Types.{Failure}
use ai_knowledge_system.Workflows.Kernel.State.{Kernel, returned, thrown, M}

pub data ContributionClass : Type 0 where
  evidence constraint current_state authority_reference action_input : ContributionClass

pub data LinkageType : Type 0 where
  cited_in_output named_in_decision_receipt linked_to_action_input linked_to_verification_receipt :
      LinkageType

pub record ReferencedSource : Type 0 where
  pub provenance_envelope_id : String
  pub contribution_class : ContributionClass
  pub linkage_type : LinkageType

pub record ReferenceInput : Type 0 where
  pub execution_id : String
  pub resolved_scope : String
  pub referenced_sources : List ReferencedSource
  pub admitted_object_count : Number
  pub referenced_object_count : Number

pub record ResolvedReference : Type 0 where
  pub contribution_class : ContributionClass
  pub linkage_type : LinkageType
  pub provenance : ReadProjection

pub data ReferenceErrorCode : Type 0 where
  count_invalid count_mismatch exceeds_admitted : ReferenceErrorCode

-- `InfluenceReceiptReferenceValidationError`.
pub record ReferenceError : Type 0 where
  pub code : ReferenceErrorCode
  pub message : String

-- The call returns, throws its own error, or throws what the reader throws.
pub data Resolution : Type 0 where
  resolved : List ResolvedReference → Kernel → Resolution
  refused : ReferenceError → Kernel → Resolution
  unreadable : Failure → Kernel → Resolution

-- `assertNonNegativeInteger`.
unfoldable pub assert_non_negative_integer : Number → (name : String) → Option ReferenceError
assert_non_negative_integer value name =
    if not (is_integer value) || lt_zero value
    then some (record {
      code = count_invalid;
      message = concat (name ∷ " must be a non-negative integer." ∷ []);
    })
    else none

-- The tests on the counts.
unfoldable pub check_counts : ReferenceInput → Option ReferenceError
check_counts input =
    elim (assert_non_negative_integer input.admitted_object_count "admitted_object_count") [
      | some error ↦ some error
      | none ↦
          elim (assert_non_negative_integer input.referenced_object_count
            "referenced_object_count") [
              | some error ↦ some error
              | none ↦
                  if not
                    (equals_natural input.referenced_object_count (length input.referenced_sources))
                  then some (record {
                    code = count_mismatch;
                    message = "referenced_object_count must equal referenced_sources.length.";
                  })
                  else if gt input.referenced_object_count input.admitted_object_count
                  then some (record {
                    code = exceeds_admitted;
                    message = "referenced_object_count cannot exceed admitted_object_count.";
                  })
                  else none
            ]
    ]

-- `ContextProvenanceEnvelopeReader`.
abbrev pub Reader : Type 0
Reader = (execution_id envelope_id : String) → (expected_scope : Option String) → M ReadProjection

abbrev pub reference_of : ReferencedSource → ReadProjection → ResolvedReference
reference_of source provenance = record {
  contribution_class = source.contribution_class;
  linkage_type = source.linkage_type;
  provenance = provenance;
}

-- One reference before the others.
abbrev pub prepend : ResolvedReference → Resolution → Resolution
prepend reference (resolved references k) = resolved (reference ∷ references) k
prepend reference (refused error k) = refused error k
prepend reference (unreadable failure k) = unreadable failure k

module _ (reader : Reader) where
  -- The `map` over the sources.
  unfoldable pub read_sources :
      (execution_id resolved_scope : String) → List ReferencedSource → Kernel → Resolution
  read_sources execution_id resolved_scope [] k = resolved [] k
  read_sources execution_id resolved_scope (source ∷ rest) k =
      elim (reader execution_id source.provenance_envelope_id (some resolved_scope) k) [
        | thrown failure k' ↦ unreadable failure k'
        | returned provenance k' ↦
            prepend (reference_of source provenance)
              (read_sources execution_id resolved_scope rest k')
      ]

  unfoldable pub resolve_influence_receipt_provenance_references :
      ReferenceInput → Kernel → Resolution
  resolve_influence_receipt_provenance_references input k = elim (check_counts input) [
    | some error ↦ refused error k
    | none ↦ read_sources input.execution_id input.resolved_scope input.referenced_sources k
  ]
