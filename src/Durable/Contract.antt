-- ===== src/Durable/Contract.antt =====
-- shared/execution-history.ts, the assertions on a record, an event, a link and a bundle. The
-- standard leaves it to the engine which texts outside its own date format `Date.parse` reads:
-- `is_date` stands for that test. The set of the sequences
-- is one of natural numbers, since an event's sequence is asserted to be one before it is looked up.
use ai_knowledge_system.Common.{
  ℕ, String, Bool, true, false, not, ◌&&◌, ◌||◌, ◌==◌, Option, none, some, List, [], ◌∷◌, str_eq,
  any, if◌then◌else◌, concat, includes, decimal, Number, integer, gt, is_safe_integer, natural_of,
}
use ai_knowledge_system.Workflows.Json.{JsonObject, empty, field, text}
use ai_knowledge_system.Workflows.Types.{ExecutionError}
use ai_knowledge_system.Workflows.Kernel.State.{status_name}
use ai_knowledge_system.Durable.Types.{
  PersistenceState, durable_available, durable_unavailable, ExecutionHistoryIdentity,
  DurableExecutionRecord, DurableExecutionEvent, DurableExecutionLink, DurableBundle, BackendState,
  schema_invalid, mode_invalid, status_invalid, binding_mismatch, mode_collision, sequence_invalid,
  duplicate_sequence, duplicate_event_id, duplicate_link_id, link_invalid, timestamp_invalid,
  durability_unavailable,
}
use ai_knowledge_system.Durable.Names.{
  execution_history_modes, execution_history_statuses, execution_history_link_types,
  execution_history_source_systems, execution_history_authority_states, mode_name, link_type_name,
  source_system_name, authority_name, reason_name,
}
use ai_knowledge_system.Durable.Checks.{
  Check, refuse, refuse_if, in_turn, require_text, assert_json_safe, assert_optional_safe,
  assert_metadata_safe,
}

abbrev pub execution_history_schema : String × String
execution_history_schema = ("AIOSDurableExecutionHistory", "0.1")

unfoldable pub assert_execution_history_identity : ExecutionHistoryIdentity → Check
assert_execution_history_identity identity = in_turn (
    require_text identity.execution_id "execution_id"
    ∷ require_text identity.scope_key "scope_key"
    ∷ require_text identity.capability_id "capability_id"
    ∷ [])

unfoldable pub identity_key : ExecutionHistoryIdentity → String
identity_key identity =
    concat (identity.execution_id ∷ "\0" ∷ identity.scope_key ∷ "\0" ∷ identity.capability_id ∷ [])

unfoldable pub same_execution_history_identity : (left right : ExecutionHistoryIdentity) → Bool
same_execution_history_identity left right = str_eq (identity_key left) (identity_key right)

unfoldable pub assert_execution_history_binding :
    (parent child : ExecutionHistoryIdentity) → (label : String) → Check
assert_execution_history_binding parent child label = in_turn (
    assert_execution_history_identity parent
    ∷ assert_execution_history_identity child
    ∷ refuse_if (not (same_execution_history_identity parent child)) binding_mismatch (
        label ∷ " does not match the parent execution_id + scope_key + capability_id binding." ∷ [])
    ∷ [])

-- `Number.isSafeInteger(n) && !(n < 1)`.
unfoldable pub is_positive_safe : Number → Bool
is_positive_safe n = is_safe_integer n && not (gt (integer 1) n)

-- `error`, as an object.
unfoldable pub error_object : Option ExecutionError → Option JsonObject
error_object none = none
error_object (some error) =
    some (field "code" (text error.code) (field "message" (text error.message) empty))

module _ (is_date : String → Bool) where
  -- `assertIsoTimestamp`, where `null` is `none`.
  unfoldable pub assert_iso_timestamp : Option String → (name : String) → Check
  assert_iso_timestamp none name = none
  assert_iso_timestamp (some value) name =
      refuse_if (str_eq value "" || not (is_date value)) timestamp_invalid
        (name ∷ " must be null or a valid timestamp." ∷ [])

  unfoldable pub assert_durable_execution_record : DurableExecutionRecord → Check
  assert_durable_execution_record execution = in_turn (
      assert_execution_history_identity execution.identity
      ∷ refuse_if
          (not (
            str_eq execution.schema_name execution_history_schema.0
            && str_eq execution.schema_version execution_history_schema.1))
          schema_invalid ("Execution history record schema is not supported." ∷ [])
      ∷ require_text execution.workflow_id "workflow_id"
      ∷ require_text execution.authority_owner "authority_owner"
      ∷ require_text execution.authority_domain "authority_domain"
      ∷ refuse_if (not (includes execution_history_modes (mode_name execution.mode))) mode_invalid
          ("Unsupported execution mode '" ∷ mode_name execution.mode ∷ "'." ∷ [])
      ∷ refuse_if (not (includes execution_history_statuses (status_name execution.status)))
          status_invalid
          ("Unsupported execution status '" ∷ status_name execution.status ∷ "'." ∷ [])
      ∷ refuse_if
          (not (
            includes execution_history_authority_states (authority_name execution.authority_state)))
          schema_invalid
          ("Unsupported authority_state '" ∷ authority_name execution.authority_state ∷ "'." ∷ [])
      ∷ assert_iso_timestamp (some execution.created_at) "created_at"
      ∷ assert_iso_timestamp execution.started_at "started_at"
      ∷ assert_iso_timestamp execution.completed_at "completed_at"
      ∷ assert_json_safe execution.input "input"
      ∷ assert_optional_safe execution.output "output"
      ∷ assert_optional_safe (error_object execution.error) "error"
      ∷ [])

  unfoldable pub assert_durable_execution_event :
      DurableExecutionRecord → DurableExecutionEvent → Check
  assert_durable_execution_event execution event = in_turn (
      assert_execution_history_binding execution.identity event.identity
        (concat ("event '" ∷ event.event_id ∷ "'" ∷ []))
      ∷ require_text event.event_id "event_id"
      ∷ require_text event.workflow_id "event.workflow_id"
      ∷ require_text event.event_type "event_type"
      ∷ refuse_if (not (str_eq event.workflow_id execution.workflow_id)) binding_mismatch
          ("event '" ∷ event.event_id ∷ "' workflow_id does not match the parent execution." ∷ [])
      ∷ refuse_if (not (includes execution_history_statuses (status_name event.status)))
          status_invalid ("Unsupported event status '" ∷ status_name event.status ∷ "'." ∷ [])
      ∷ refuse_if (not (is_positive_safe event.sequence)) sequence_invalid
          ("event '" ∷ event.event_id ∷ "' sequence must be a positive safe integer." ∷ [])
      ∷ assert_iso_timestamp (some event.emitted_at) "event.emitted_at"
      ∷ assert_optional_safe event.payload (concat ("event." ∷ event.event_id ∷ ".data" ∷ []))
      ∷ [])

  unfoldable pub assert_durable_execution_link :
      DurableExecutionRecord → DurableExecutionLink → Check
  assert_durable_execution_link execution link = in_turn (
      assert_execution_history_binding execution.identity link.identity
        (concat ("link '" ∷ link.link_id ∷ "'" ∷ []))
      ∷ require_text link.link_id "link_id"
      ∷ require_text link.target_id "target_id"
      ∷ require_text link.authority_owner "link.authority_owner"
      ∷ require_text link.authority_domain "link.authority_domain"
      ∷ refuse_if
          (not (includes execution_history_link_types (link_type_name link.link_type))
            || not
                (includes execution_history_source_systems (source_system_name link.source_system)))
          link_invalid
          ("link '" ∷ link.link_id ∷ "' has an unsupported link type or source system." ∷ [])
      ∷ refuse_if
          (not (includes execution_history_authority_states (authority_name link.authority_state)))
          link_invalid ("link '" ∷ link.link_id ∷ "' has an unsupported authority_state." ∷ [])
      ∷ assert_iso_timestamp (some link.created_at) "link.created_at"
      ∷ assert_metadata_safe link.metadata (concat ("link." ∷ link.link_id ∷ ".metadata" ∷ []))
      ∷ [])

  -- The loop over the events; `ids` and `sequences` are the two sets.
  unfoldable pub assert_events :
      DurableExecutionRecord
      → (ids : List String) → (sequences : List ℕ) → List DurableExecutionEvent
      → Check
  assert_events execution ids sequences [] = none
  assert_events execution ids sequences (event ∷ rest) = in_turn (
      assert_durable_execution_event execution event
      ∷ refuse_if (includes ids event.event_id) duplicate_event_id
          ("Duplicate event_id '" ∷ event.event_id ∷ "'." ∷ [])
      ∷ refuse_if (any (λ n. n == natural_of event.sequence) sequences) duplicate_sequence
          ("Duplicate event sequence '" ∷ decimal (natural_of event.sequence) ∷ "'." ∷ [])
      ∷ assert_events execution (event.event_id ∷ ids) (natural_of event.sequence ∷ sequences) rest
      ∷ [])

  -- The loop over the links; `ids` is the set.
  unfoldable pub assert_links :
      DurableExecutionRecord → (ids : List String) → List DurableExecutionLink → Check
  assert_links execution ids [] = none
  assert_links execution ids (link ∷ rest) = in_turn (
      assert_durable_execution_link execution link
      ∷ refuse_if (includes ids link.link_id) duplicate_link_id
          ("Duplicate link_id '" ∷ link.link_id ∷ "'." ∷ [])
      ∷ assert_links execution (link.link_id ∷ ids) rest
      ∷ [])

  unfoldable pub assert_bundle : DurableBundle → Check
  assert_bundle bundle = in_turn (
      assert_durable_execution_record bundle.execution
      ∷ assert_events bundle.execution [] [] bundle.events
      ∷ assert_links bundle.execution [] bundle.links
      ∷ [])

unfoldable pub assert_mode_consistency : (existing incoming : DurableExecutionRecord) → Check
assert_mode_consistency existing incoming =
    let id = existing.identity.execution_id in
    if not (str_eq id incoming.identity.execution_id)
    then none
    else in_turn (
        refuse_if (not (str_eq (mode_name existing.mode) (mode_name incoming.mode))) mode_collision
          ("execution_id '"
            ∷ id
            ∷ "' cannot change from "
            ∷ mode_name existing.mode
            ∷ " to "
            ∷ mode_name incoming.mode
            ∷ "."
            ∷ [])
        ∷ assert_execution_history_binding existing.identity incoming.identity
            (concat ("execution '" ∷ incoming.identity.execution_id ∷ "'" ∷ []))
        ∷ [])

unfoldable pub is_available : PersistenceState → Bool
is_available durable_available = true
is_available durable_unavailable = false

unfoldable pub assert_durable_persistence_available : BackendState → Check
assert_durable_persistence_available state = elim state.reason_code [
  | none ↦
      refuse_if (not (is_available state.state)) durability_unavailable
        ("Durable execution history is unavailable (" ∷ "UNKNOWN_BACKEND_STATE" ∷ ")." ∷ [])
  | some reason ↦
      refuse durability_unavailable
        ("Durable execution history is unavailable (" ∷ reason_name reason ∷ ")." ∷ [])
]
