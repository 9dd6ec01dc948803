-- ===== src/Durable/Snapshots.antt =====
-- server/workflows/durable-runtime.ts: `snapshotToDurableHistory` and `durableHistoryToSnapshot`. An
-- `other_object` is one of no kind that the runtime writes, so it is no kernel state and no envelope.
use ai_knowledge_system.Common.{
  integer, natural_of, String, Bool, true, false, ◌&&◌, Option, none, some, List, [], ◌∷◌, ◌++◌,
  map, find, str_eq, or_else, or_option, concat, truthy,
}
use ai_knowledge_system.NextActions.Types.{ActionEnvelope, Selection}
use ai_knowledge_system.Provenance.Types.{AuthorityState, Envelope}
use ai_knowledge_system.Workflows.Types.{
  live, simulation, WorkflowExecution, ExecutionEvent, ExecutionSnapshot, kernel_error,
}
use ai_knowledge_system.Durable.Types.{
  provenance, related_execution, runtime, HistoryAuthority, authoritative, shadow, execution_truth,
  observational, ExecutionHistoryIdentity, DurableExecutionRecord, DurableExecutionEvent,
  context_provenance_envelope, kernel_state, parent_execution, DurableExecutionLink, DurableBundle,
}
use ai_knowledge_system.Durable.Names.{link_type_name}
use ai_knowledge_system.Durable.Contract.{execution_history_schema, assert_bundle}
use ai_knowledge_system.Durable.Store.{Fault, failure, contract_error}

-- A conversion that returns, or throws.
pub data Converted (A : Type 0) : Type 0 where
  converted : A → Converted A
  rejected : Fault → Converted A

unfoldable pub provenance_authority_state : AuthorityState → HistoryAuthority
provenance_authority_state AuthorityState.authoritative = authoritative
provenance_authority_state AuthorityState.shadow = shadow
provenance_authority_state _ = observational

-- `envelopes.find((envelope) => envelope.trace_id)?.trace_id ?? null`.
unfoldable pub first_trace : List Envelope → Option String
first_trace [] = none
first_trace (envelope ∷ rest) = or_option (truthy envelope.trace_id) (first_trace rest)

-- The owner and the domain of `executionAuthority`.
abbrev pub authority_owner : String
authority_owner = "WorkflowExecutionKernel"

abbrev pub authority_domain : String
authority_domain = "server-runtime-execution-state"

unfoldable pub identity_of : WorkflowExecution → (capability_id : String) → ExecutionHistoryIdentity
identity_of execution capability_id = record {
  execution_id = execution.execution_id;
  scope_key = execution.scope_key;
  capability_id = capability_id;
}

unfoldable pub provenance_link : ExecutionHistoryIdentity → Envelope → DurableExecutionLink
provenance_link identity envelope = record {
  identity = identity;
  link_id = concat ("provenance:" ∷ envelope.envelope_id ∷ []);
  link_type = provenance;
  target_id = envelope.envelope_id;
  source_system = runtime;
  authority_owner = envelope.authority_owner;
  authority_domain = envelope.authority_domain;
  authority_state = provenance_authority_state envelope.authority_state;
  created_at = envelope.emitted_at;
  metadata = context_provenance_envelope envelope;
}

unfoldable pub state_link : ExecutionHistoryIdentity → WorkflowExecution → DurableExecutionLink
state_link identity execution = record {
  identity = identity;
  link_id = concat ("runtime-state:" ∷ execution.execution_id ∷ []);
  link_type = related_execution;
  target_id = execution.execution_id;
  source_system = runtime;
  authority_owner = authority_owner;
  authority_domain = authority_domain;
  authority_state = execution_truth;
  created_at = or_else (or_option execution.completed_at execution.started_at) execution.created_at;
  metadata = kernel_state execution.next_action_envelope execution.selected_next_action;
}

-- The link to the parent; a parent id that is empty counts as none.
unfoldable pub parent_links :
    ExecutionHistoryIdentity → WorkflowExecution → List DurableExecutionLink
parent_links identity execution = elim (truthy execution.parent_execution_id) [
  | none ↦ []
  | some parent ↦
      (record {
        identity = identity;
        link_id = concat ("parent:" ∷ execution.execution_id ∷ ":" ∷ parent ∷ []);
        link_type = related_execution;
        target_id = parent;
        source_system = runtime;
        authority_owner = authority_owner;
        authority_domain = authority_domain;
        authority_state = execution_truth;
        created_at = execution.created_at;
        metadata = parent_execution;
      })
      ∷ []
]

unfoldable pub durable_record :
    (capability_id : String) → ExecutionSnapshot → DurableExecutionRecord
durable_record capability_id saved =
    let execution = saved.execution in
    record {
      identity = identity_of execution capability_id;
      schema_name = execution_history_schema.0;
      schema_version = execution_history_schema.1;
      workflow_id = execution.workflow_id;
      trace_id = first_trace saved.provenance_envelopes;
      requested_by = execution.requested_by;
      parent_execution_id = execution.parent_execution_id;
      mode = execution.mode;
      status = execution.status;
      created_at = execution.created_at;
      started_at = execution.started_at;
      completed_at = execution.completed_at;
      current_stage = execution.current_stage;
      input = execution.input;
      output = execution.output;
      error = execution.error;
      result_class = execution.result_class;
      authority_owner = authority_owner;
      authority_domain = authority_domain;
      authority_state = execution_truth;
    }

unfoldable pub durable_event : ExecutionHistoryIdentity → ExecutionEvent → DurableExecutionEvent
durable_event identity event = record {
  identity = identity;
  event_id = event.event_id;
  workflow_id = event.workflow_id;
  event_type = event.event_type;
  status = event.status;
  stage = event.stage;
  sequence = integer event.sequence;
  emitted_at = event.emitted_at;
  payload = event.payload;
}

-- The bundle that `snapshotToDurableHistory` builds, before it is asserted.
unfoldable pub bundle_of : ExecutionSnapshot → (capability_id : String) → DurableBundle
bundle_of saved capability_id =
    let identity = identity_of saved.execution capability_id in
    record {
      execution = durable_record capability_id saved;
      events = map (durable_event identity) saved.events;
      links =
          map (provenance_link identity) saved.provenance_envelopes
          ++ (state_link identity saved.execution ∷ parent_links identity saved.execution);
    }

unfoldable pub is_state_link : (execution_id : String) → DurableExecutionLink → Bool
is_state_link execution_id link =
    str_eq (link_type_name link.link_type) "RELATED_EXECUTION"
    && str_eq link.target_id execution_id
    && (elim link.metadata [ kernel_state action selection ↦ true | _ ↦ false ])

unfoldable pub next_action_envelope_of : Option DurableExecutionLink → Option ActionEnvelope
next_action_envelope_of none = none
next_action_envelope_of (some link) = elim link.metadata [
  | kernel_state action selection ↦ action
  | _ ↦ none
]

unfoldable pub selected_next_action_of : Option DurableExecutionLink → Option Selection
selected_next_action_of none = none
selected_next_action_of (some link) = elim link.metadata [
  | kernel_state action selection ↦ selection
  | _ ↦ none
]

-- The envelope that a link of type PROVENANCE carries.
unfoldable pub envelope_in : DurableExecutionLink → Option Envelope
envelope_in link = elim link.link_type [
  | provenance ↦ elim link.metadata [
    | context_provenance_envelope envelope ↦ some envelope
    | _ ↦ none
  ]
  | _ ↦ none
]

-- The filter and the map over the links.
unfoldable pub envelopes_in : List DurableExecutionLink → List Envelope
envelopes_in [] = []
envelopes_in (link ∷ rest) = elim (envelope_in link) [
  | none ↦ envelopes_in rest
  | some envelope ↦ envelope ∷ envelopes_in rest
]

-- An event of a bundle that was asserted: its sequence is a natural number.
unfoldable pub event_of : DurableExecutionEvent → ExecutionEvent
event_of event = record {
  event_id = event.event_id;
  execution_id = event.identity.execution_id;
  workflow_id = event.workflow_id;
  scope_key = event.identity.scope_key;
  event_type = event.event_type;
  status = event.status;
  stage = event.stage;
  sequence = natural_of event.sequence;
  emitted_at = event.emitted_at;
  payload = event.payload;
}

-- The snapshot that `durableHistoryToSnapshot` returns.
unfoldable pub snapshot_of : DurableBundle → ExecutionSnapshot
snapshot_of bundle =
    let stored = bundle.execution in
    let state = find (is_state_link stored.identity.execution_id) bundle.links in
    record {
      execution = record {
        execution_id = stored.identity.execution_id;
        workflow_id = stored.workflow_id;
        scope_key = stored.identity.scope_key;
        requested_by = stored.requested_by;
        parent_execution_id = stored.parent_execution_id;
        mode = live;
        status = stored.status;
        created_at = stored.created_at;
        started_at = stored.started_at;
        completed_at = stored.completed_at;
        current_stage = stored.current_stage;
        input = stored.input;
        output = stored.output;
        error = stored.error;
        result_class = stored.result_class;
        next_action_envelope = next_action_envelope_of state;
        selected_next_action = selected_next_action_of state;
      };
      events = map event_of bundle.events;
      provenance_envelopes = envelopes_in bundle.links;
    }

module _ (is_date : String → Bool) where
  unfoldable pub snapshot_to_durable_history :
      ExecutionSnapshot → (capability_id : String) → Converted DurableBundle
  snapshot_to_durable_history saved capability_id =
      elim (assert_bundle is_date (bundle_of saved capability_id)) [
        | none ↦ converted (bundle_of saved capability_id)
        | some error ↦ rejected (contract_error error)
      ]

  unfoldable pub durable_history_to_snapshot : DurableBundle → Converted ExecutionSnapshot
  durable_history_to_snapshot bundle = elim (assert_bundle is_date bundle) [
    | some error ↦ rejected (contract_error error)
    | none ↦ elim bundle.execution.mode [
      | live ↦ converted (snapshot_of bundle)
      | simulation ↦ rejected (
          failure (
            kernel_error "DURABLE_MODE_NOT_LIVE"
              "SIMULATION history cannot be hydrated into the LIVE workflow kernel." 409))
    ]
  ]
