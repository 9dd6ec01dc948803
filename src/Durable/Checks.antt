-- ===== src/Durable/Checks.antt =====
-- shared/execution-history.ts, `requireText` and `assertJsonSafe`. An assertion that returns is
-- `none`, one that throws is its error; a sequence of assertions is the first error among them.
use ai_knowledge_system.Common.{
  ℕ, suc, String, Bool, not, Option, none, some, List, [], ◌∷◌, if◌then◌else◌, or_option, concat,
  is_text, decimal, is_finite,
}
use ai_knowledge_system.Workflows.Json.{
  Json, Items, JsonObject, null, bool, number, text, array, object, not_json, foreign, ancestor,
  nil, cons, empty, field,
}
use ai_knowledge_system.Durable.Types.{
  Metadata, context_provenance_envelope, kernel_state, parent_execution, other_object,
  HistoryErrorCode, identity_invalid, json_unsafe, ContractError,
}

abbrev pub Check : Type 0
Check = Option ContractError

abbrev pub refuse : HistoryErrorCode → List String → Check
refuse code message = some (record { code = code; message = concat message })

-- `if (test) throw …`.
abbrev pub refuse_if : Bool → HistoryErrorCode → List String → Check
refuse_if test code message = if test then refuse code message else none

-- The assertions, one after the other.
abbrev pub in_turn : List Check → Check
in_turn [] = none
in_turn (check ∷ rest) = or_option check (in_turn rest)

unfoldable pub require_text : (value name : String) → Check
require_text value name =
    refuse_if (not (is_text value)) identity_invalid (name ∷ " must be a non-empty string." ∷ [])

unfoldable mutual
  -- `assertJsonSafeValue`, with the path that its message shows.
  pub assert_json_safe_value : Json → (path : String) → Check
  assert_json_safe_value null path = none
  assert_json_safe_value (bool b) path = none
  assert_json_safe_value (text s) path = none
  assert_json_safe_value (number n) path =
      refuse_if (not (is_finite n)) json_unsafe (path ∷ " contains a non-finite number." ∷ [])
  assert_json_safe_value not_json path =
      refuse json_unsafe (path ∷ " contains a non-JSON value." ∷ [])
  assert_json_safe_value ancestor path =
      refuse json_unsafe (path ∷ " contains a circular reference." ∷ [])
  assert_json_safe_value foreign path =
      refuse json_unsafe (path ∷ " must contain only plain JSON objects." ∷ [])
  assert_json_safe_value (array entries) path = assert_items_safe entries path 0
  assert_json_safe_value (object fields) path = assert_json_safe fields path

  pub assert_items_safe : Items → (path : String) → (index : ℕ) → Check
  assert_items_safe nil path index = none
  assert_items_safe (cons entry rest) path index =
      or_option (assert_json_safe_value entry (concat (path ∷ "[" ∷ decimal index ∷ "]" ∷ [])))
        (assert_items_safe rest path (suc index))

  -- `assertJsonSafe`, of an object.
  pub assert_json_safe : JsonObject → (path : String) → Check
  assert_json_safe empty path = none
  assert_json_safe (field key entry rest) path =
      or_option (assert_json_safe_value entry (concat (path ∷ "." ∷ key ∷ [])))
        (assert_json_safe rest path)

unfoldable pub assert_optional_safe : Option JsonObject → (path : String) → Check
assert_optional_safe none path = none
assert_optional_safe (some fields) path = assert_json_safe fields path

-- The one number in the three objects of the runtime is an envelope's confidence.
unfoldable pub assert_metadata_safe : Metadata → (path : String) → Check
assert_metadata_safe (context_provenance_envelope envelope) path = elim envelope.confidence [
  | none ↦ none
  | some value ↦ assert_json_safe_value (number value) (concat (path ∷ ".envelope.confidence" ∷ []))
]
assert_metadata_safe (kernel_state action selection) path = none
assert_metadata_safe parent_execution path = none
assert_metadata_safe (other_object fields) path = assert_json_safe fields path
