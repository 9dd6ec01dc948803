-- ===== src/Tests/Durable.antt =====
-- The theorems on durable history, at concrete states.
use mathlib.Core.Path.{subst}
use mathlib.Core.List.Permᴰ
use ai_knowledge_system.Common.{
  ℕ, ◌≤◌, sym, integer, ◌≡◌, ◌↔◌, refl, true, none, some, [], ◌∷◌, lookup, insert, truthy, is_text,
  trim, drop_space, is_space,
}
use ai_knowledge_system.Workflows.Types.{running, queued, ExecutionSnapshot, live}
use ai_knowledge_system.Workflows.Kernel.State.{
  Kernel, returned, after, require_execution, require_handler, handler_allows_scope, assert_status,
  snapshot, put,
}
use ai_knowledge_system.Workflows.Kernel.Log.{emit, next_event}
use ai_knowledge_system.Workflows.Kernel.Create.{
  create_execution, create_live, fresh_execution, enter, admit, created_data, get_execution,
  new_kernel, register,
}
use ai_knowledge_system.Workflows.Kernel.Control.{pause, assert_pausable}
use ai_knowledge_system.Workflows.Kernel.Restore.{install, restore_execution}
use ai_knowledge_system.Durable.Types.{ExecutionHistoryIdentity, DurableBundle}
use ai_knowledge_system.Durable.Contract.{
  assert_bundle, same_execution_history_identity, assert_durable_persistence_available,
  is_available,
}
use ai_knowledge_system.Durable.Identity.{same_execution_history_identity_iff}
use ai_knowledge_system.Durable.Snapshots.{
  converted, bundle_of, durable_record, identity_of, snapshot_to_durable_history,
  durable_history_to_snapshot,
}
use ai_knowledge_system.Durable.Valid.Bundles.{IsBundle, assert_bundle-none_iff}
use ai_knowledge_system.Durable.RoundTrip.{durable_round_trip}
use ai_knowledge_system.Durable.Store.{
  ExecutionHistoryListQuery, assert_execution_history_list_query, done,
  read_durable_execution_history_by_id, assert_read,
}
use ai_knowledge_system.Durable.Runtime.{
  Machine, in_kernel, mutate, get_durable_execution, persistence_available,
}
use ai_knowledge_system.Durable.Runtime.Unbound.{IsStorable, mutate-unbound}
use ai_knowledge_system.Durable.Runtime.Restart.{IsReadBack, mutate-survives}
use ai_knowledge_system.Durable.Runtime.Creation.{IsStoredOrGone, create_durable-Ends}
use ai_knowledge_system.Durable.Valid.Sequence.{IsNatural}
use ai_knowledge_system.Durable.Queries.{OnValue, assert_execution_history_list_query_iff}
use ai_knowledge_system.Provenance.Validity.{HasText}
use ai_knowledge_system.Tests.Data.{
  world, nth_uuid, request, empty_kernel, execution_in, kernel_with,
}
use ai_knowledge_system.Tests.Stores.{
  any_date, saved_in, saved_in-IsPersisted, bundle, bundle-IsBundle, Shelf, in_memory,
  without_store, paused_saved, paused-IsPersisted, paused-IsBundle,
}

assert_bundle-none_iff_example : (assert_bundle any_date bundle ≡ none) ↔ IsBundle any_date bundle
assert_bundle-none_iff_example = assert_bundle-none_iff any_date bundle

abbrev identity : ExecutionHistoryIdentity
identity = record { execution_id = "u"; scope_key = "a"; capability_id = "cap" }

abbrev other_identity : ExecutionHistoryIdentity
other_identity = record { execution_id = "u"; scope_key = "b"; capability_id = "cap" }

same_execution_history_identity_iff_example :
    (same_execution_history_identity identity other_identity ≡ true) ↔ (identity ≡ other_identity)
same_execution_history_identity_iff_example =
    same_execution_history_identity_iff identity other_identity (λ e. cc, tt) (λ e. cc, tt)
      (λ e. cc, tt) (λ e. cc, tt)

durable_round_trip_example :
    (snapshot_to_durable_history any_date (saved_in running) "cap" ≡ converted bundle)
    × (durable_history_to_snapshot any_date bundle ≡ converted (saved_in running))
    × (restore_execution (saved_in running) empty_kernel
        ≡ returned (saved_in running) (install (saved_in running) empty_kernel))
durable_round_trip_example =
    durable_round_trip any_date (saved_in running) "cap" empty_kernel (saved_in-IsPersisted running)
      bundle-IsBundle

abbrev at_work : Kernel
at_work = kernel_with (execution_in running none)

capability_known : truthy (some "cap") ≡ some "cap"
unfolding truthy
capability_known = refl

shown : get_execution "u" at_work ≡ returned (saved_in running) at_work
unfolding get_execution snapshot require_execution lookup insert new_kernel register
shown = refl

pause_result : pause world "u" at_work ≡ returned paused_saved (after (pause world "u" at_work))
unfolding pause require_execution lookup insert new_kernel register assert_status require_handler
    handler_allows_scope assert_pausable put emit next_event snapshot nth_uuid
pause_result = refl

mutate-unbound_example :
    mutate without_store "u" (pause world "u") (record { kernel = at_work; stored = tt })
    ≡ in_kernel (pause world "u") (record { kernel = at_work; stored = tt })
mutate-unbound_example =
    mutate-unbound without_store (record { kernel = at_work; stored = tt }) refl "u"
      (pause world "u") (saved_in running) "cap" shown capability_known
      (subst (λ o. IsStorable any_date "cap" "u" o) (sym pause_result) paused-IsBundle)

abbrev shelved : Machine Shelf
shelved = record { kernel = at_work; stored = [] }

read_result : get_durable_execution in_memory "u" shelved ≡ done (saved_in running) shelved
unfolding get_durable_execution persistence_available is_available
    read_durable_execution_history_by_id assert_durable_persistence_available assert_read is_text
    trim drop_space is_space lookup get_execution snapshot require_execution insert new_kernel
    register
read_result = refl

abbrev paused_shelf : Shelf
paused_shelf = insert "u" (bundle_of paused_saved "cap") []

given : is_text "u" ≡ true
unfolding is_text trim drop_space is_space
given = refl

abbrev paused_bundle : DurableBundle
paused_bundle = bundle_of paused_saved "cap"

mutate-survives_example :
    (mutate in_memory "u" (pause world "u") shelved
      ≡ done paused_saved
          (record { kernel = after (pause world "u" at_work); stored = paused_shelf }))
    × IsReadBack in_memory "u" paused_saved paused_shelf
unfolding bundle_of durable_record identity_of lookup insert
mutate-survives_example =
    mutate-survives in_memory "u" (saved_in running) paused_saved "cap" (pause world "u") shelved
      shelved (after (pause world "u" at_work)) paused_shelf paused_bundle read_result
      capability_known refl pause_result paused-IsPersisted paused-IsBundle given refl refl refl
      (record { execution = refl; events = refl; links = Permᴰ.refl paused_bundle.links })

abbrev created_saved : ExecutionSnapshot
created_saved = record {
  execution = execution_in queued none;
  events =
      (record {
        event_id = "uu";
        execution_id = "u";
        workflow_id = "memory-audit";
        scope_key = "alpha";
        event_type = "workflow.execution.created";
        status = queued;
        stage = none;
        sequence = 1;
        emitted_at = "12:00";
        payload = some (created_data (execution_in queued none));
      })
      ∷ [];
  provenance_envelopes = [];
}

create_result :
    create_execution world request empty_kernel
    ≡ returned created_saved (after (create_execution world request empty_kernel))
unfolding create_execution create_live fresh_execution enter admit emit next_event snapshot
    require_execution lookup insert new_kernel register handler_allows_scope nth_uuid
create_result = refl

create_durable-Ends_example :
    IsStoredOrGone in_memory request
      (record { kernel = empty_kernel; stored = [] })
      created_saved
      (after (create_execution world request empty_kernel))
      "cap"
create_durable-Ends_example =
    create_durable-Ends in_memory request (record { kernel = empty_kernel; stored = [] })
      created_saved (after (create_execution world request empty_kernel)) "cap" refl
      capability_known create_result

abbrev query : ExecutionHistoryListQuery
query = record {
  scope_key = "alpha";
  capability_id = none;
  mode = some live;
  limit = some (integer 50);
}

assert_execution_history_list_query_iff_example :
    (assert_execution_history_list_query query ≡ none) ↔ (
      HasText query.scope_key
      × OnValue HasText query.capability_id
      × OnValue (λ limit. (n : ℕ) × (1 ≤ n) × (n ≤ 200) × IsNatural limit n) query.limit)
assert_execution_history_list_query_iff_example = assert_execution_history_list_query_iff query
