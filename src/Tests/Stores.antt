-- ===== src/Tests/Stores.antt =====
-- The inputs of the examples on durable history: snapshots, a store in memory, and runtimes.
use ai_knowledge_system.Common.{
  is_safe_integer, gt, natural_of, is_text, trim, drop_space, is_space, truthy, concat, decimal,
  String, true, Bool, refl, none, some, List, [], ◌∷◌, lookup, insert,
}
use ai_knowledge_system.Workflows.Types.{Status, running, paused, ExecutionSnapshot}
use ai_knowledge_system.Workflows.Kernel.State.{status_name}
use ai_knowledge_system.Workflows.Wellformed.Restore.{IsPersisted}
use ai_knowledge_system.Durable.Types.{d1_binding_unavailable, DurableBundle}
use ai_knowledge_system.Durable.Store.{done, ExecutionHistoryStore, unavailable_store}
use ai_knowledge_system.Durable.Contract.{
  assert_bundle, assert_durable_execution_record, assert_execution_history_identity,
  assert_iso_timestamp, assert_events, assert_links, assert_durable_execution_event, error_object,
  is_positive_safe, assert_durable_execution_link, assert_execution_history_binding,
  same_execution_history_identity, identity_key,
}
use ai_knowledge_system.Durable.Names.{
  mode_name, authority_name, link_type_name, source_system_name,
}
use ai_knowledge_system.Durable.Checks.{
  require_text, assert_json_safe, assert_optional_safe, assert_metadata_safe,
}
use ai_knowledge_system.Durable.Snapshots.{
  bundle_of, durable_record, durable_event, state_link, identity_of, parent_links, first_trace,
}
use ai_knowledge_system.Durable.Valid.Bundles.{IsBundle, assert_bundle-none_iff}
use ai_knowledge_system.Durable.Runtime.{DurableWorkflowRuntime}
use ai_knowledge_system.Durable.Runtime.Restart.{available}
use ai_knowledge_system.Tests.Data.{world, execution_in}

abbrev pub any_date : String → Bool
any_date text = true

abbrev pub saved_in : Status → ExecutionSnapshot
saved_in status = record {
  execution = execution_in status none;
  events = [];
  provenance_envelopes = [];
}

pub saved_in-IsPersisted : (status : Status) → IsPersisted (saved_in status)
saved_in-IsPersisted status = record { mode = refl; log = tt; distinct = tt; evidence = tt }

abbrev pub bundle : DurableBundle
bundle = bundle_of (saved_in running) "cap"

-- A map from execution ids to bundles.
abbrev pub Shelf : Type 0
Shelf = List (String × DurableBundle)

abbrev put_all : List DurableBundle → Shelf → Shelf
put_all [] shelf = shelf
put_all (b ∷ rest) shelf = put_all rest (insert b.execution.identity.execution_id b shelf)

abbrev pub memory_store : ExecutionHistoryStore
memory_store = record {
  State = Shelf;
  get_backend_state = λ s. available;
  persist = λ b s. done tt (put_all (b ∷ []) s);
  persist_many = λ bundles s. done tt (put_all bundles s);
  get = λ identity s. done (lookup identity.execution_id s) s;
  get_by_execution_id = λ id s. done (lookup id s) s;
  list = λ query s. done [] s;
}

abbrev pub runtime_over : ExecutionHistoryStore → DurableWorkflowRuntime
runtime_over store = record {
  is_date = any_date;
  stringify = λ saved. saved.execution.execution_id;
  world = world;
  store = store;
  resolve_capability_id = λ workflow_id. some "cap";
}

abbrev pub in_memory : DurableWorkflowRuntime
in_memory = runtime_over memory_store

abbrev pub without_store : DurableWorkflowRuntime
without_store = runtime_over (unavailable_store d1_binding_unavailable)

pub bundle-IsBundle : IsBundle any_date bundle
unfolding assert_bundle bundle_of durable_record assert_durable_execution_record
    assert_execution_history_identity require_text is_text trim drop_space is_space mode_name
    status_name authority_name assert_iso_timestamp assert_json_safe assert_optional_safe
    assert_events assert_links state_link identity_of parent_links truthy
    assert_durable_execution_link assert_execution_history_binding same_execution_history_identity
    identity_key concat link_type_name source_system_name assert_metadata_safe first_trace
    error_object
bundle-IsBundle = (assert_bundle-none_iff any_date bundle).0 refl

abbrev pub paused_saved : ExecutionSnapshot
paused_saved = record {
  execution = execution_in paused none;
  events =
      (record {
        event_id = "uu";
        execution_id = "u";
        workflow_id = "memory-audit";
        scope_key = "alpha";
        event_type = "workflow.execution.paused";
        status = paused;
        stage = none;
        sequence = 1;
        emitted_at = "12:00";
        payload = none;
      })
      ∷ [];
  provenance_envelopes = [];
}

pub paused-IsPersisted : IsPersisted paused_saved
paused-IsPersisted = record {
  mode = refl;
  log = (refl, refl, tt);
  distinct = (tt, tt);
  evidence = tt;
}

pub paused-IsBundle : IsBundle any_date (bundle_of paused_saved "cap")
unfolding assert_bundle bundle_of durable_record assert_durable_execution_record
    assert_execution_history_identity require_text is_text trim drop_space is_space mode_name
    status_name authority_name assert_iso_timestamp assert_json_safe assert_optional_safe
    assert_events assert_links state_link identity_of parent_links truthy
    assert_durable_execution_link assert_execution_history_binding same_execution_history_identity
    identity_key concat link_type_name source_system_name assert_metadata_safe first_trace
    durable_event assert_durable_execution_event is_positive_safe is_safe_integer gt natural_of
    decimal error_object
paused-IsBundle = (assert_bundle-none_iff any_date (bundle_of paused_saved "cap")).0 refl
