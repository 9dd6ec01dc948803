-- ===== src/Durable/Runtime/Restart.antt =====
-- server/workflows/durable-runtime.ts over a store that gives back what it has accepted, the
-- links in another order: an execution survives a restart of the kernel.
use mathlib.Core.List.{Permᴰ}
use ai_knowledge_system.Common.{
  String, true, ◌≡◌, refl, none, some, [], ◌∷◌, arith, truthy, is_text,
}
use ai_knowledge_system.Workflows.Types.{ExecutionSnapshot}
use ai_knowledge_system.Workflows.Kernel.State.{Kernel, returned, M}
use ai_knowledge_system.Workflows.Kernel.Restore.{install, restore_execution}
use ai_knowledge_system.Workflows.Wellformed.Restore.{IsPersisted, restore_execution_iff}
use ai_knowledge_system.Durable.Types.{durable_available, DurableBundle, BackendState}
use ai_knowledge_system.Durable.Contract.{is_available, assert_durable_persistence_available}
use ai_knowledge_system.Durable.Store.{
  done, assert_bundles, assert_read, persist_many_durable_execution_histories,
  read_durable_execution_history_by_id,
}
use ai_knowledge_system.Durable.Snapshots.{bundle_of}
use ai_knowledge_system.Durable.Valid.Bundles.{IsBundle, assert_bundle-none_iff}
use ai_knowledge_system.Durable.RoundTrip.{converted_lem}
use ai_knowledge_system.Durable.Reordered.{
  IsReordered, IsBundle-reordered, read_back, read_back-IsPersisted, evidence_reordered,
  converted-reordered,
}
use ai_knowledge_system.Durable.Runtime.{
  DurableWorkflowRuntime, Machine, in_kernel, persistence_available, persist_if_available,
  persist_snapshot, get_durable_execution, commit, settle_outcome, mutate,
}
use ai_knowledge_system.Durable.Runtime.Mutation.{mutate_found}

abbrev pub available : BackendState
available = record { state = durable_available; reason_code = none }

available_check :
    (state : BackendState) → state ≡ available → assert_durable_persistence_available state ≡ none
unfolding assert_durable_persistence_available is_available
available_check state e = rw e refl

module _ (runtime : DurableWorkflowRuntime) where
  assert_bundles-one :
      (bundle : DurableBundle)
      → IsBundle runtime.is_date bundle
      → assert_bundles runtime.is_date (bundle ∷ []) ≡ none
  unfolding assert_bundles
  assert_bundles-one bundle h = rw ((assert_bundle-none_iff runtime.is_date bundle).1 h) refl

  persist_many-done :
      (bundle : DurableBundle) (s s' : runtime.store.State)
      → IsBundle runtime.is_date bundle
      → runtime.store.get_backend_state s ≡ available
      → runtime.store.persist_many (bundle ∷ []) s ≡ done tt s'
      → persist_many_durable_execution_histories runtime.is_date runtime.store (bundle ∷ []) s
        ≡ done tt s'
  unfolding persist_many_durable_execution_histories
  persist_many-done bundle s s' h on accepted =
      rw (available_check _ on, assert_bundles-one bundle h, accepted) refl

  persistence_available-true :
      (s : runtime.store.State)
      → runtime.store.get_backend_state s ≡ available
      → persistence_available runtime s ≡ true
  unfolding persistence_available is_available
  persistence_available-true s on = rw on refl

  pub persist_snapshot-done :
      (saved : ExecutionSnapshot) (capability_id : String) (t : Machine runtime.store.State)
      (s : runtime.store.State)
      → IsBundle runtime.is_date (bundle_of saved capability_id)
      → runtime.store.get_backend_state t.stored ≡ available
      → runtime.store.persist_many (bundle_of saved capability_id ∷ []) t.stored ≡ done tt s
      → persist_snapshot runtime saved capability_id t ≡ done tt (record t { stored = s })
  unfolding persist_snapshot persist_if_available
  persist_snapshot-done saved capability_id t s h on accepted =
      rw
        (
          persist_snapshot,
          converted_lem runtime.is_date saved capability_id h,
          persistence_available-true t.stored on,
          persist_many-done (bundle_of saved capability_id) t.stored s h on accepted,
        )
        refl

  read-done :
      (bundle : DurableBundle) (id : String) (s : runtime.store.State)
      → IsBundle runtime.is_date bundle
      → is_text id ≡ true
      → runtime.store.get_backend_state s ≡ available
      → runtime.store.get_by_execution_id id s ≡ done (some bundle) s
      → read_durable_execution_history_by_id runtime.is_date runtime.store id s
        ≡ done (some bundle) s
  unfolding read_durable_execution_history_by_id assert_read
  read-done bundle id s h given on found =
      rw (available_check _ on, given, found, (assert_bundle-none_iff runtime.is_date bundle).1 h)
        refl

  in_kernel-returned :
      (t : Machine runtime.store.State) (m : M ExecutionSnapshot) (saved : ExecutionSnapshot)
      (k : Kernel)
      → m t.kernel ≡ returned saved k
      → in_kernel m t ≡ done saved (record t { kernel = k })
  in_kernel-returned t m saved k e = ground arith

  -- A snapshot whose bundle the store reads, the links in some order, is restored in any kernel.
  get_durable-done :
      (saved : ExecutionSnapshot) (capability_id id : String) (read : DurableBundle)
      (t : Machine runtime.store.State)
      → IsPersisted saved
      → IsBundle runtime.is_date (bundle_of saved capability_id)
      → IsReordered (bundle_of saved capability_id) read
      → is_text id ≡ true
      → runtime.store.get_backend_state t.stored ≡ available
      → runtime.store.get_by_execution_id id t.stored ≡ done (some read) t.stored
      → get_durable_execution runtime id t
        ≡ done
            (read_back saved read)
            (record t { kernel = install (read_back saved read) t.kernel })
  unfolding get_durable_execution
  get_durable-done saved capability_id id read t p h same given on found =
      let sound = IsBundle-reordered runtime.is_date (bundle_of saved capability_id) read same h in
      let again = read_back saved read in
      let restorable = read_back-IsPersisted saved capability_id read p same in
      rw
        (
          get_durable_execution,
          persistence_available-true t.stored on,
          read-done read id t.stored sound given on found,
          converted-reordered saved capability_id read runtime.is_date p h same,
          in_kernel-returned t (restore_execution again) again (install again t.kernel)
              ((restore_execution_iff again t.kernel).1 restorable),
        )
        refl

  settle-done :
      (id : String) (before answer : ExecutionSnapshot) (capability_id : String)
      (t : Machine runtime.store.State) (k : Kernel) (s : runtime.store.State)
      → persist_snapshot runtime answer capability_id (record t { kernel = k })
        ≡ done tt (record { kernel = k; stored = s })
      → settle_outcome runtime id before capability_id (returned answer k) t
        ≡ done answer (record { kernel = k; stored = s })
  unfolding settle_outcome commit
  settle-done id before answer capability_id t k s e = rw (commit, e) refl

  -- The runtime reads the execution and its events back into any kernel, and its provenance in some
  -- order.
  abbrev pub IsReadBack :
      (id : String) (answer : ExecutionSnapshot) (s : runtime.store.State) → Type 0
  IsReadBack id answer s =
      (other : Kernel)
      → (again : ExecutionSnapshot) × (again.execution ≡ answer.execution)
        × (again.events ≡ answer.events)
        × Permᴰ answer.provenance_envelopes again.provenance_envelopes
        × (get_durable_execution runtime id (record { kernel = other; stored = s })
            ≡ done again (record { kernel = install again other; stored = s }))

  -- An operation returns a snapshot of an execution that was read and whose workflow has a capability;
  -- the snapshot can be restored, and its bundle is well formed and accepted by the available store.
  -- If the store is then available and reads, under the execution's id, which is given, the same record
  -- and events with the links in any order, as they come by time and id from D1, then the runtime
  -- returns the snapshot too; and from then on it reads into every kernel, a fresh one after a restart
  -- among them, the same execution and events, and the same provenance in some order.
  pub mutate-survives :
      (id : String) (before answer : ExecutionSnapshot) (capability_id : String)
      (operation : M ExecutionSnapshot) (t found : Machine runtime.store.State) (k : Kernel)
      (s : runtime.store.State) (read : DurableBundle)
      → get_durable_execution runtime id t ≡ done before found
      → truthy (runtime.resolve_capability_id before.execution.workflow_id) ≡ some capability_id
      → runtime.store.get_backend_state found.stored ≡ available
      → operation found.kernel ≡ returned answer k
      → IsPersisted answer
      → IsBundle runtime.is_date (bundle_of answer capability_id)
      → is_text id ≡ true
      → runtime.store.persist_many (bundle_of answer capability_id ∷ []) found.stored ≡ done tt s
      → runtime.store.get_backend_state s ≡ available
      → runtime.store.get_by_execution_id id s ≡ done (some read) s
      → IsReordered (bundle_of answer capability_id) read
      → (mutate runtime id operation t ≡ done answer (record { kernel = k; stored = s }))
        × IsReadBack id answer s
  mutate-survives id before answer capability_id operation t found k s read was capability on
        returns p h given accepted still back same =
      let saved =
        persist_snapshot-done answer capability_id (record found { kernel = k }) s h on accepted in
      (
        rw (mutate_found runtime id before capability_id operation t found was capability, returns)
            (settle-done id before answer capability_id found k s saved),
        λ other. (
          read_back answer read,
          refl,
          refl,
          evidence_reordered answer capability_id read same,
          get_durable-done answer capability_id id read (record { kernel = other; stored = s }) p h
              same given still back,
        ),
      )
