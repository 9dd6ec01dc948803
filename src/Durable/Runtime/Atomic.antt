-- ===== src/Durable/Runtime/Atomic.antt =====
-- server/workflows/durable-runtime.ts: what an operation of the kernel ends in when it goes through
-- `mutate`.
use ai_knowledge_system.Common.{
  String, Bool, true, false, ◌≡◌, refl, ap, ◌⊎◌, inl, inr, Option, none, some, arith, Bool-cases,
}
use ai_knowledge_system.Workflows.Types.{ExecutionSnapshot, Failure}
use ai_knowledge_system.Workflows.Kernel.State.{Kernel, Outcome, returned, thrown}
use ai_knowledge_system.Workflows.Kernel.Restore.{install, restore_execution}
use ai_knowledge_system.Workflows.Wellformed.Restore.{
  IsPersisted, restore_execution_iff, restore_execution-thrown, restore_execution-returned,
}
use ai_knowledge_system.Durable.Types.{DurableBundle}
use ai_knowledge_system.Durable.Store.{
  Fault, Attempt, done, broken, read_durable_execution_history_by_id,
}
use ai_knowledge_system.Durable.Snapshots.{
  Converted, converted, rejected, durable_history_to_snapshot,
}
use ai_knowledge_system.Durable.Runtime.{
  DurableWorkflowRuntime, Machine, persistence_failure, persist_if_available, persist_snapshot,
  persistence_available, restore_read, restore_latest, restore_latest_durable_or_fallback,
  take_back,
}

abbrev pub machine_after : {T A : Type 0} → Attempt T A → T
machine_after (done a t) = t
machine_after (broken fault t) = t

module _ (runtime : DurableWorkflowRuntime) where
  abbrev State : Type 0
  State = Machine runtime.store.State

  pub persist-kernel :
      (saved : ExecutionSnapshot) (capability_id : String) (t : State)
      → (machine_after (persist_snapshot runtime saved capability_id t)).kernel ≡ t.kernel
  unfolding persist_snapshot persist_if_available
  persist-kernel saved capability_id t = ground arith

  abbrev Read : Type 0
  Read = Attempt runtime.store.State (Option DurableBundle)

  -- The durable history that was read has been restored.
  abbrev pub IsRestored : Read → Kernel → Kernel → Type 0
  IsRestored read k k' =
      (bundle : DurableBundle) × (saved : ExecutionSnapshot) × (s : runtime.store.State) × (read
        ≡ done (some bundle) s)
      × (durable_history_to_snapshot runtime.is_date bundle ≡ converted saved)
      × (k' ≡ install saved k)

  abbrev RestoresOrKeeps : Read → Kernel → Bool × State → Type 0
  RestoresOrKeeps read k (true, t') = IsRestored read k t'.kernel
  RestoresOrKeeps read k (false, t') = t'.kernel ≡ k

  restore_read-returned :
      (bundle : DurableBundle) (s : runtime.store.State) (k : Kernel)
      (saved answer : ExecutionSnapshot) (k' : Kernel)
      → durable_history_to_snapshot runtime.is_date bundle ≡ converted saved
      → restore_execution saved k ≡ returned answer k'
      → restore_read runtime (done (some bundle) s) k ≡ (true, record { kernel = k'; stored = s })
  unfolding restore_read
  restore_read-returned bundle s k saved answer k' c e = ground arith

  restore_read-thrown :
      (bundle : DurableBundle) (s : runtime.store.State) (k : Kernel) (saved : ExecutionSnapshot)
      (error : Failure) (k' : Kernel)
      → durable_history_to_snapshot runtime.is_date bundle ≡ converted saved
      → restore_execution saved k ≡ thrown error k'
      → restore_read runtime (done (some bundle) s) k ≡ (false, record { kernel = k'; stored = s })
  unfolding restore_read
  restore_read-thrown bundle s k saved error k' c e = ground arith

  restore_read-rejected :
      (bundle : DurableBundle) (s : runtime.store.State) (k : Kernel) (fault : Fault)
      → durable_history_to_snapshot runtime.is_date bundle ≡ rejected fault
      → restore_read runtime (done (some bundle) s) k ≡ (false, record { kernel = k; stored = s })
  unfolding restore_read
  restore_read-rejected bundle s k fault c = ground arith

  by_restore :
      (bundle : DurableBundle) (s : runtime.store.State) (k : Kernel) (saved : ExecutionSnapshot)
      (outcome : Outcome ExecutionSnapshot)
      → durable_history_to_snapshot runtime.is_date bundle ≡ converted saved
      → restore_execution saved k ≡ outcome
      → RestoresOrKeeps (done (some bundle) s) k (restore_read runtime (done (some bundle) s) k)
  by_restore bundle s k saved (returned answer k') c e =
      let (persisted, installed) = restore_execution-returned saved k answer k' e in
      rw (restore_read-returned bundle s k saved answer k' c e)
        (bundle, saved, s, refl, c, installed)
  by_restore bundle s k saved (thrown error k') c e =
      rw (restore_read-thrown bundle s k saved error k' c e)
        (restore_execution-thrown saved k k' error e)

  by_conversion :
      (bundle : DurableBundle) (s : runtime.store.State) (k : Kernel)
      (conversion : Converted ExecutionSnapshot)
      → durable_history_to_snapshot runtime.is_date bundle ≡ conversion
      → RestoresOrKeeps (done (some bundle) s) k (restore_read runtime (done (some bundle) s) k)
  by_conversion bundle s k (rejected fault) c = rw (restore_read-rejected bundle s k fault c) refl
  by_conversion bundle s k (converted saved) c =
      by_restore bundle s k saved (restore_execution saved k) c refl

  restore_read_lem :
      (read : Read) (k : Kernel) → RestoresOrKeeps read k (restore_read runtime read k)
  unfolding restore_read
  restore_read_lem (broken fault s) k = refl
  restore_read_lem (done none s) k = refl
  restore_read_lem (done (some bundle) s) k =
      by_conversion bundle s k (durable_history_to_snapshot runtime.is_date bundle) refl

  abbrev latest : String → State → Read
  latest id t = read_durable_execution_history_by_id runtime.is_date runtime.store id t.stored

  restore_latest-available :
      (id : String) (t : State)
      → persistence_available runtime t.stored ≡ true
      → restore_latest runtime id t ≡ restore_read runtime (latest id t) t.kernel
  unfolding restore_latest
  restore_latest-available id t e = rw e refl

  restore_latest-unavailable :
      (id : String) (t : State)
      → persistence_available runtime t.stored ≡ false
      → restore_latest runtime id t ≡ (false, t)
  unfolding restore_latest
  restore_latest-unavailable id t e = rw e refl

  restore_latest_lem :
      (id : String) (t : State)
      → RestoresOrKeeps (latest id t) t.kernel (restore_latest runtime id t)
  restore_latest_lem id t = elim (Bool-cases (persistence_available runtime t.stored)) [
    | inl on ↦ rw (restore_latest-available id t on) (restore_read_lem (latest id t) t.kernel)
    | inr off ↦ rw (restore_latest-unavailable id t off) refl
  ]

  -- What the kernel gets back: the durable history, if it is read and restored, or the snapshot from
  -- before the operation.
  abbrev pub IsGivenBack : String → (before : ExecutionSnapshot) → State → Kernel → Type 0
  IsGivenBack id before t k' = (k' ≡ install before t.kernel) ⊎ IsRestored (latest id t) t.kernel k'

  by_latest :
      (id : String) (before : ExecutionSnapshot) (fault : Fault) (t : State)
      (outcome : Bool × State)
      → IsPersisted before
      → restore_latest runtime id t ≡ outcome
      → RestoresOrKeeps (latest id t) t.kernel outcome
      → (t' : State) × (take_back runtime id before fault t ≡ broken (persistence_failure fault) t')
        × IsGivenBack id before t t'.kernel
  unfolding take_back restore_latest_durable_or_fallback
  by_latest id before fault t (true, t') p e h = (t', ground arith, inr h)
  by_latest id before fault t (false, t') p e h =
      let restored = (restore_execution_iff before t'.kernel).1 p in
      (record t' { kernel = install before t'.kernel }, ground arith, inl (ap (install before) h))

  -- The state is taken back, whatever the store answers, and the persistence failure is thrown.
  pub take_back_lem :
      (id : String) (before : ExecutionSnapshot) (fault : Fault) (t : State)
      → IsPersisted before
      → (t' : State) × (take_back runtime id before fault t ≡ broken (persistence_failure fault) t')
        × IsGivenBack id before t t'.kernel
  take_back_lem id before fault t p =
      by_latest id before fault t (restore_latest runtime id t) p refl (restore_latest_lem id t)
