-- ===== src/Durable/Valid/Records.antt =====
-- shared/execution-history.ts: what the assertions demand of a record, an event and a link. The
-- tests of a mode, a status, a link type, a source system and an authority state never fail, since
-- each list names every value of its type.
use ai_knowledge_system.Common.{
  String, Bool, true, false, not, ◌&&◌, ◌||◌, ◌≡◌, ◌≢◌, refl, ◌↔◌, Option, none, some, List, [],
  ◌∷◌, arith, or_option, str_eq, eq_iff, includes,
}
use ai_knowledge_system.Provenance.Validity.{HasText}
use ai_knowledge_system.Workflows.Types.{
  Mode, live, simulation, Status, queued, running, waiting, approval_required, paused, completed,
  failed, cancelled,
}
use ai_knowledge_system.Workflows.Kernel.State.{status_name}
use ai_knowledge_system.Durable.Types.{
  LinkType, SourceSystem, HistoryAuthority, ExecutionHistoryIdentity, DurableExecutionRecord,
  DurableExecutionEvent, DurableExecutionLink, HistoryErrorCode, schema_invalid,
}
use ai_knowledge_system.Durable.Names.{
  execution_history_modes, execution_history_statuses, execution_history_link_types,
  execution_history_source_systems, execution_history_authority_states, mode_name, link_type_name,
  source_system_name, authority_name,
}
use ai_knowledge_system.Durable.Checks.{
  Check, refuse_if, in_turn, assert_json_safe, assert_optional_safe,
}
use ai_knowledge_system.Durable.Contract.{
  execution_history_schema, assert_execution_history_identity, identity_key,
  same_execution_history_identity, assert_execution_history_binding, error_object,
  assert_iso_timestamp, assert_durable_execution_record, assert_durable_execution_event,
  assert_durable_execution_link,
}
use ai_knowledge_system.Durable.Valid.{
  chain_iff, end_iff, Every, refuse_if-none_iff, refuse_if-not-none_iff, require_text-none_iff,
}
use ai_knowledge_system.Durable.Valid.Sequence.{IsPositiveSafe, is_positive_safe_iff}
use ai_knowledge_system.Durable.Valid.Json.{
  IsSafeObject, IsSafeOptional, IsSafeMetadata, assert_json_safe-none_iff,
  assert_optional_safe-none_iff, assert_metadata_safe-none_iff,
}

pub is_known_mode : (mode : Mode) → includes execution_history_modes (mode_name mode) ≡ true
unfolding mode_name
is_known_mode live = refl
is_known_mode simulation = refl

is_known_status :
    (status : Status) → includes execution_history_statuses (status_name status) ≡ true
unfolding status_name
is_known_status queued = refl
is_known_status running = refl
is_known_status waiting = refl
is_known_status approval_required = refl
is_known_status paused = refl
is_known_status completed = refl
is_known_status failed = refl
is_known_status cancelled = refl

is_known_link_type :
    (type : LinkType) → includes execution_history_link_types (link_type_name type) ≡ true
unfolding link_type_name
is_known_link_type LinkType.provenance = refl
is_known_link_type LinkType.artifact = refl
is_known_link_type LinkType.approval = refl
is_known_link_type LinkType.receipt = refl
is_known_link_type LinkType.touched_resource = refl
is_known_link_type LinkType.related_execution = refl

is_known_source :
    (source : SourceSystem)
    → includes execution_history_source_systems (source_system_name source) ≡ true
unfolding source_system_name
is_known_source SourceSystem.github = refl
is_known_source SourceSystem.notion = refl
is_known_source SourceSystem.google_drive = refl
is_known_source SourceSystem.runtime = refl

is_known_authority :
    (state : HistoryAuthority)
    → includes execution_history_authority_states (authority_name state) ≡ true
unfolding authority_name
is_known_authority HistoryAuthority.authoritative = refl
is_known_authority HistoryAuthority.shadow = refl
is_known_authority HistoryAuthority.execution_truth = refl
is_known_authority HistoryAuthority.observational = refl

-- A test that always passes.
skip_iff :
    {P : Type 0} (test : Bool) (code : HistoryErrorCode) (message : List String) (rest : Check)
    → test ≡ true
    → (rest ≡ none) ↔ P
    → (or_option (refuse_if (not test) code message) rest ≡ none) ↔ P
skip_iff true code message rest e p = p
skip_iff false code message rest e p = cc

skip_either_iff :
    {P : Type 0} (first second : Bool) (code : HistoryErrorCode) (message : List String)
    (rest : Check)
    → first ≡ true
    → second ≡ true
    → (rest ≡ none) ↔ P
    → (or_option (refuse_if (not first || not second) code message) rest ≡ none) ↔ P
skip_either_iff true true code message rest e f p = p
skip_either_iff true false code message rest e f p = cc
skip_either_iff false second code message rest e f p = cc

both_true_iff :
    {P Q : Type 0} {a b : Bool} → (a ≡ true) ↔ P → (b ≡ true) ↔ Q → ((a && b) ≡ true) ↔ (P × Q)
both_true_iff {a = true} p q = (λ e. (p.0 refl, q.0 e), λ h. q.1 h.1)
both_true_iff {a = false} p q = (λ e. cc, λ h. cc (p.1 h.0))

-- Three ids with a character that is no white space.
abbrev pub IsIdentity : ExecutionHistoryIdentity → Type 0
IsIdentity identity = Every (
    HasText identity.execution_id
    ∷ HasText identity.scope_key
    ∷ HasText identity.capability_id
    ∷ [])

pub assert_execution_history_identity-none_iff :
    (identity : ExecutionHistoryIdentity)
    → (assert_execution_history_identity identity ≡ none) ↔ IsIdentity identity
unfolding assert_execution_history_identity
assert_execution_history_identity-none_iff identity =
    chain_iff _ _ (require_text-none_iff identity.execution_id _) (
      chain_iff _ _ (require_text-none_iff identity.scope_key _)
        (chain_iff _ _ (require_text-none_iff identity.capability_id _) end_iff))

-- Both identities are given, and their keys agree.
abbrev pub IsBound : (parent child : ExecutionHistoryIdentity) → Type 0
IsBound parent child =
    Every (IsIdentity parent ∷ IsIdentity child ∷ (identity_key parent ≡ identity_key child) ∷ [])

pub assert_execution_history_binding-none_iff :
    (parent child : ExecutionHistoryIdentity) (label : String)
    → (assert_execution_history_binding parent child label ≡ none) ↔ IsBound parent child
unfolding assert_execution_history_binding same_execution_history_identity
assert_execution_history_binding-none_iff parent child label =
    chain_iff _ _ (assert_execution_history_identity-none_iff parent) (
      chain_iff _ _ (assert_execution_history_identity-none_iff child) (
        chain_iff _ _
          (refuse_if-not-none_iff _ _ _ (eq_iff (identity_key parent) (identity_key child)))
          end_iff))

schema_iff :
    (name version : String)
    → (refuse_if
          (not
            (str_eq name execution_history_schema.0 && str_eq version execution_history_schema.1))
          schema_invalid
          ("Execution history record schema is not supported." ∷ [])
        ≡ none)
      ↔ ((name ≡ "AIOSDurableExecutionHistory") × (version ≡ "0.1"))
schema_iff name version =
    refuse_if-not-none_iff _ _ _ (both_true_iff (eq_iff name _) (eq_iff version _))

module _ (is_date : String → Bool) where
  abbrev pub IsTimestamp : Option String → Type 0
  IsTimestamp none = Unit
  IsTimestamp (some value) = (value ≢ "") × (is_date value ≡ true)

  pub assert_iso_timestamp-none_iff :
      (value : Option String) (name : String)
      → (assert_iso_timestamp is_date value name ≡ none) ↔ IsTimestamp value
  unfolding assert_iso_timestamp
  assert_iso_timestamp-none_iff none name = (λ e. tt, λ h. refl)
  assert_iso_timestamp-none_iff (some value) name =
      refuse_if-none_iff _ _ _ (ground (arith, eq_iff value ""))

  -- What is asserted of a record.
  abbrev pub IsRecord : DurableExecutionRecord → Type 0
  IsRecord execution = Every (
      IsIdentity execution.identity
      ∷ ((execution.schema_name ≡ "AIOSDurableExecutionHistory")
          × (execution.schema_version ≡ "0.1"))
      ∷ HasText execution.workflow_id
      ∷ HasText execution.authority_owner
      ∷ HasText execution.authority_domain
      ∷ IsTimestamp (some execution.created_at)
      ∷ IsTimestamp execution.started_at
      ∷ IsTimestamp execution.completed_at
      ∷ IsSafeObject execution.input
      ∷ IsSafeOptional execution.output
      ∷ IsSafeOptional (error_object execution.error)
      ∷ [])

  times_iff :
      (execution : DurableExecutionRecord)
      → (in_turn (
            assert_iso_timestamp is_date (some execution.created_at) "created_at"
            ∷ assert_iso_timestamp is_date execution.started_at "started_at"
            ∷ assert_iso_timestamp is_date execution.completed_at "completed_at"
            ∷ assert_json_safe execution.input "input"
            ∷ assert_optional_safe execution.output "output"
            ∷ assert_optional_safe (error_object execution.error) "error"
            ∷ [])
          ≡ none)
        ↔ Every (
            IsTimestamp (some execution.created_at)
            ∷ IsTimestamp execution.started_at
            ∷ IsTimestamp execution.completed_at
            ∷ IsSafeObject execution.input
            ∷ IsSafeOptional execution.output
            ∷ IsSafeOptional (error_object execution.error)
            ∷ [])
  times_iff execution =
      chain_iff _ _ (assert_iso_timestamp-none_iff (some execution.created_at) _) (
        chain_iff _ _ (assert_iso_timestamp-none_iff execution.started_at _) (
          chain_iff _ _ (assert_iso_timestamp-none_iff execution.completed_at _) (
            chain_iff _ _ (assert_json_safe-none_iff execution.input _) (
              chain_iff _ _ (assert_optional_safe-none_iff execution.output _) (
                chain_iff _ _ (assert_optional_safe-none_iff (error_object execution.error) _)
                  end_iff)))))

  pub assert_durable_execution_record-none_iff :
      (execution : DurableExecutionRecord)
      → (assert_durable_execution_record is_date execution ≡ none) ↔ IsRecord execution
  unfolding assert_durable_execution_record
  assert_durable_execution_record-none_iff execution =
      chain_iff _ _ (assert_execution_history_identity-none_iff execution.identity) (
        chain_iff _ _ (schema_iff execution.schema_name execution.schema_version) (
          chain_iff _ _ (require_text-none_iff execution.workflow_id _) (
            chain_iff _ _ (require_text-none_iff execution.authority_owner _) (
              chain_iff _ _ (require_text-none_iff execution.authority_domain _) (
                skip_iff _ _ _ _ (is_known_mode execution.mode) (
                  skip_iff _ _ _ _ (is_known_status execution.status) (
                    skip_iff _ _ _ _ (is_known_authority execution.authority_state)
                      (times_iff execution))))))))

  -- What is asserted of an event.
  abbrev pub IsEvent : DurableExecutionRecord → DurableExecutionEvent → Type 0
  IsEvent execution event = Every (
      IsBound execution.identity event.identity
      ∷ HasText event.event_id
      ∷ HasText event.workflow_id
      ∷ HasText event.event_type
      ∷ (event.workflow_id ≡ execution.workflow_id)
      ∷ IsPositiveSafe event.sequence
      ∷ IsTimestamp (some event.emitted_at)
      ∷ IsSafeOptional event.payload
      ∷ [])

  pub assert_durable_execution_event-none_iff :
      (execution : DurableExecutionRecord) (event : DurableExecutionEvent)
      → (assert_durable_execution_event is_date execution event ≡ none) ↔ IsEvent execution event
  unfolding assert_durable_execution_event
  assert_durable_execution_event-none_iff execution event =
      chain_iff _ _ (assert_execution_history_binding-none_iff execution.identity event.identity _)
        (chain_iff _ _ (require_text-none_iff event.event_id _) (
          chain_iff _ _ (require_text-none_iff event.workflow_id _) (
            chain_iff _ _ (require_text-none_iff event.event_type _) (
              chain_iff _ _
                (refuse_if-not-none_iff _ _ _ (eq_iff event.workflow_id execution.workflow_id))
                (skip_iff _ _ _ _ (is_known_status event.status) (
                  chain_iff _ _ (refuse_if-not-none_iff _ _ _ (is_positive_safe_iff event.sequence))
                    (chain_iff _ _ (assert_iso_timestamp-none_iff (some event.emitted_at) _)
                      (chain_iff _ _ (assert_optional_safe-none_iff event.payload _) end_iff))))))))

  -- What is asserted of a link.
  abbrev pub IsLink : DurableExecutionRecord → DurableExecutionLink → Type 0
  IsLink execution link = Every (
      IsBound execution.identity link.identity
      ∷ HasText link.link_id
      ∷ HasText link.target_id
      ∷ HasText link.authority_owner
      ∷ HasText link.authority_domain
      ∷ IsTimestamp (some link.created_at)
      ∷ IsSafeMetadata link.metadata
      ∷ [])

  pub assert_durable_execution_link-none_iff :
      (execution : DurableExecutionRecord) (link : DurableExecutionLink)
      → (assert_durable_execution_link is_date execution link ≡ none) ↔ IsLink execution link
  unfolding assert_durable_execution_link
  assert_durable_execution_link-none_iff execution link =
      chain_iff _ _ (assert_execution_history_binding-none_iff execution.identity link.identity _) (
        chain_iff _ _ (require_text-none_iff link.link_id _) (
          chain_iff _ _ (require_text-none_iff link.target_id _) (
            chain_iff _ _ (require_text-none_iff link.authority_owner _) (
              chain_iff _ _ (require_text-none_iff link.authority_domain _) (
                skip_either_iff _ _ _ _ _ (is_known_link_type link.link_type)
                  (is_known_source link.source_system)
                  (skip_iff _ _ _ _ (is_known_authority link.authority_state) (
                    chain_iff _ _ (assert_iso_timestamp-none_iff (some link.created_at) _)
                      (chain_iff _ _ (assert_metadata_safe-none_iff link.metadata _) end_iff))))))))
