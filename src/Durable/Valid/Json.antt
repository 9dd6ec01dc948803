-- ===== src/Durable/Valid/Json.antt =====
-- shared/execution-history.ts: `assertJsonSafe` accepts exactly the JSON values whose numbers
-- are finite.
use ai_knowledge_system.Common.{
  ℕ, suc, String, true, ◌≡◌, refl, ◌↔◌, Option, none, some, Number, is_finite,
}
use ai_knowledge_system.Workflows.Json.{
  Json, Items, JsonObject, null, bool, number, text, array, object, not_json, foreign, ancestor,
  nil, cons, empty, field,
}
use ai_knowledge_system.Durable.Types.{
  Metadata, context_provenance_envelope, kernel_state, parent_execution, other_object,
}
use ai_knowledge_system.Durable.Checks.{
  assert_json_safe_value, assert_items_safe, assert_json_safe, assert_optional_safe,
  assert_metadata_safe,
}
use ai_knowledge_system.Durable.Valid.{chain_iff, refuse_if-not-none_iff}

unfoldable mutual
  pub IsSafeValue : Json → Type 0
  IsSafeValue (number n) = is_finite n ≡ true
  IsSafeValue (array entries) = IsSafeItems entries
  IsSafeValue (object fields) = IsSafeObject fields
  IsSafeValue not_json = ⊥
  IsSafeValue foreign = ⊥
  IsSafeValue ancestor = ⊥
  IsSafeValue null = Unit
  IsSafeValue (bool b) = Unit
  IsSafeValue (text s) = Unit

  pub IsSafeItems : Items → Type 0
  IsSafeItems nil = Unit
  IsSafeItems (cons entry rest) = IsSafeValue entry × IsSafeItems rest

  pub IsSafeObject : JsonObject → Type 0
  IsSafeObject empty = Unit
  IsSafeObject (field key entry rest) = IsSafeValue entry × IsSafeObject rest

abbrev pub IsSafeOptional : Option JsonObject → Type 0
IsSafeOptional none = Unit
IsSafeOptional (some fields) = IsSafeObject fields

abbrev IsFiniteConfidence : Option Number → Type 0
IsFiniteConfidence none = Unit
IsFiniteConfidence (some n) = is_finite n ≡ true

abbrev pub IsSafeMetadata : Metadata → Type 0
IsSafeMetadata (context_provenance_envelope envelope) = IsFiniteConfidence envelope.confidence
IsSafeMetadata (kernel_state action selection) = Unit
IsSafeMetadata parent_execution = Unit
IsSafeMetadata (other_object fields) = IsSafeObject fields

mutual
  unfolding assert_json_safe_value IsSafeValue

  pub assert_json_safe_value-none_iff :
      (value : Json) (path : String)
      → (assert_json_safe_value value path ≡ none) ↔ IsSafeValue value
  assert_json_safe_value-none_iff null path = (λ e. tt, λ h. refl)
  assert_json_safe_value-none_iff (bool b) path = (λ e. tt, λ h. refl)
  assert_json_safe_value-none_iff (text s) path = (λ e. tt, λ h. refl)
  assert_json_safe_value-none_iff (number n) path =
      refuse_if-not-none_iff (is_finite n) _ _ (λ h. h, λ h. h)
  assert_json_safe_value-none_iff not_json path = (λ e. cc, λ h. absurd h)
  assert_json_safe_value-none_iff foreign path = (λ e. cc, λ h. absurd h)
  assert_json_safe_value-none_iff ancestor path = (λ e. cc, λ h. absurd h)
  assert_json_safe_value-none_iff (array entries) path = assert_items_safe-none_iff entries path 0
  assert_json_safe_value-none_iff (object fields) path = assert_json_safe-none_iff fields path

  pub assert_items_safe-none_iff :
      (entries : Items) (path : String) (index : ℕ)
      → (assert_items_safe entries path index ≡ none) ↔ IsSafeItems entries
  assert_items_safe-none_iff nil path index = (λ e. tt, λ h. refl)
  assert_items_safe-none_iff (cons entry rest) path index =
      chain_iff _ _ (assert_json_safe_value-none_iff entry _)
        (assert_items_safe-none_iff rest path (suc index))

  pub assert_json_safe-none_iff :
      (fields : JsonObject) (path : String)
      → (assert_json_safe fields path ≡ none) ↔ IsSafeObject fields
  assert_json_safe-none_iff empty path = (λ e. tt, λ h. refl)
  assert_json_safe-none_iff (field key entry rest) path =
      chain_iff _ _ (assert_json_safe_value-none_iff entry _) (assert_json_safe-none_iff rest path)

pub assert_optional_safe-none_iff :
    (fields : Option JsonObject) (path : String)
    → (assert_optional_safe fields path ≡ none) ↔ IsSafeOptional fields
unfolding assert_optional_safe
assert_optional_safe-none_iff none path = (λ e. tt, λ h. refl)
assert_optional_safe-none_iff (some fields) path = assert_json_safe-none_iff fields path

by_confidence :
    (value : Option Number) (path : String)
    → ((elim value [ none ↦ none | some n ↦ assert_json_safe_value (number n) path ]) ≡ none)
      ↔ IsFiniteConfidence value
unfolding IsSafeValue
by_confidence none path = (λ e. tt, λ h. refl)
by_confidence (some n) path = assert_json_safe_value-none_iff (number n) path

pub assert_metadata_safe-none_iff :
    (metadata : Metadata) (path : String)
    → (assert_metadata_safe metadata path ≡ none) ↔ IsSafeMetadata metadata
unfolding assert_metadata_safe
assert_metadata_safe-none_iff (context_provenance_envelope envelope) path =
    by_confidence envelope.confidence _
assert_metadata_safe-none_iff (kernel_state action selection) path = (λ e. tt, λ h. refl)
assert_metadata_safe-none_iff parent_execution path = (λ e. tt, λ h. refl)
assert_metadata_safe-none_iff (other_object fields) path = assert_json_safe-none_iff fields path
