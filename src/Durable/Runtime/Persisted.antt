-- ===== src/Durable/Runtime/Persisted.antt =====
-- server/workflows/durable-runtime.ts, `persistIfAvailable` of a snapshot: what the store was asked for.
use ai_knowledge_system.Common.{
  String, true, false, ◌≡◌, ◌≢◌, refl, ◌⊎◌, inl, inr, Option, none, some, [], ◌∷◌, arith,
  Bool-cases, Option-cases,
}
use ai_knowledge_system.Workflows.Types.{ExecutionSnapshot}
use ai_knowledge_system.Durable.Types.{
  durable_available, durable_unavailable, PersistenceState, ReasonCode, d1_binding_unavailable,
  DurableBundle,
}
use ai_knowledge_system.Durable.Contract.{is_available, assert_durable_persistence_available}
use ai_knowledge_system.Durable.Store.{
  Fault, Attempt, done, broken, assert_bundles, persist_many_durable_execution_histories,
}
use ai_knowledge_system.Durable.Snapshots.{
  Converted, converted, rejected, snapshot_to_durable_history,
}
use ai_knowledge_system.Durable.Runtime.{
  DurableWorkflowRuntime, Machine, persistence_available, without_backend, persist_if_available,
  persist_snapshot,
}

pub Attempt-cases {ℓ} :
    {T : Type ℓ} {A : Type 0} (o : Attempt T A)
    → ((a : A) × (t : T) × (o ≡ done a t)) ⊎ ((fault : Fault) × (t : T) × (o ≡ broken fault t))
Attempt-cases (done a t) = inl (a, t, refl)
Attempt-cases (broken fault t) = inr (fault, t, refl)

Converted-cases :
    {A : Type 0} (o : Converted A)
    → ((a : A) × (o ≡ converted a)) ⊎ ((fault : Fault) × (o ≡ rejected fault))
Converted-cases (converted a) = inl (a, refl)
Converted-cases (rejected fault) = inr (fault, refl)

is_available_iff :
    (state : PersistenceState) → is_available state ≡ true → state ≡ durable_available
unfolding is_available
is_available_iff durable_available e = refl
is_available_iff durable_unavailable e = cc

not_available_iff :
    (state : PersistenceState) → is_available state ≡ false → state ≡ durable_unavailable
unfolding is_available
not_available_iff durable_available e = cc
not_available_iff durable_unavailable e = refl

only_unbound :
    (reason : Option ReasonCode)
    → without_backend reason ≡ none
    → reason ≡ some d1_binding_unavailable
unfolding without_backend
only_unbound none e = cc
only_unbound (some d1_binding_unavailable) e = refl
only_unbound (some other) e = cc

module _ (runtime : DurableWorkflowRuntime) (saved : ExecutionSnapshot)
    (capability_id : String) where
  open runtime use {is_date, store}

  abbrev State : Type 0
  State = Machine runtime.store.State

  -- The snapshot's bundle was given to the store, which has taken it; or the D1 binding is missing, and
  -- nothing is stored.
  abbrev pub IsStored : State → State → Type 0
  IsStored t t' =
      (bundle : DurableBundle) × (snapshot_to_durable_history runtime.is_date saved capability_id
        ≡ converted bundle)
      × (t'.kernel ≡ t.kernel)
      × ((((runtime.store.get_backend_state t.stored).state ≡ durable_available)
            × (runtime.store.persist_many (bundle ∷ []) t.stored ≡ done tt t'.stored))
          ⊎ (((runtime.store.get_backend_state t.stored).state ≡ durable_unavailable)
              × ((runtime.store.get_backend_state t.stored).reason_code
                  ≡ some d1_binding_unavailable)
              × (t'.stored ≡ t.stored)))

  -- There is no bundle of the snapshot; or the store is available and it or the check before it has thrown;
  -- or the store is unavailable for another reason than a missing binding.
  abbrev pub IsNotStored : State → Fault → State → Type 0
  IsNotStored t fault t' =
      (t'.kernel ≡ t.kernel)
      × ((snapshot_to_durable_history runtime.is_date saved capability_id ≡ rejected fault)
          ⊎ ((bundle : DurableBundle) × ((runtime.store.get_backend_state t.stored).state
                ≡ durable_available)
              × (snapshot_to_durable_history runtime.is_date saved capability_id ≡ converted bundle)
              × (persist_many_durable_execution_histories runtime.is_date runtime.store
                    (bundle ∷ []) t.stored
                  ≡ broken fault t'.stored))
          ⊎ (((runtime.store.get_backend_state t.stored).state ≡ durable_unavailable)
              × ((runtime.store.get_backend_state t.stored).reason_code
                  ≢ some d1_binding_unavailable)))

  store_done :
      (bundle : DurableBundle) (s s' : runtime.store.State)
      → persist_many_durable_execution_histories runtime.is_date runtime.store (bundle ∷ []) s
        ≡ done tt s'
      → runtime.store.persist_many (bundle ∷ []) s ≡ done tt s'
  unfolding persist_many_durable_execution_histories
  store_done bundle s s' e =
      elim (Option-cases
        (assert_durable_persistence_available (runtime.store.get_backend_state s))) [
          | inr (error, off) ↦ absurd (ground arith)
          | inl on ↦ elim (Option-cases (assert_bundles runtime.is_date (bundle ∷ []))) [
            | inr (error, bad) ↦ absurd (ground arith)
            | inl fine ↦ ground arith
          ]
        ]

  pub persist_snapshot-IsStored :
      (t t' : State) → persist_snapshot runtime saved capability_id t ≡ done tt t' → IsStored t t'
  unfolding persist_snapshot persist_if_available persistence_available
  persist_snapshot-IsStored t t' e =
      elim (Converted-cases (snapshot_to_durable_history runtime.is_date saved capability_id)) [
        | inr (fault, c) ↦ absurd (ground arith)
        | inl (bundle, c) ↦
            elim (Bool-cases (is_available (runtime.store.get_backend_state t.stored).state)) [
              | inl on ↦
                  elim (Attempt-cases (
                    persist_many_durable_execution_histories runtime.is_date runtime.store
                      (bundle ∷ []) t.stored)) [
                        | inr (fault, s, p) ↦ absurd (ground arith)
                        | inl (u, s, p) ↦
                            let same : record t { stored = s } ≡ t' = ground arith in
                            rw (← same) (
                              bundle,
                              c,
                              refl,
                              inl (is_available_iff _ on, store_done bundle t.stored s p),
                            )
                      ]
              | inr off ↦
                  elim (Option-cases
                    (without_backend (runtime.store.get_backend_state t.stored).reason_code)) [
                      | inr (fault, w) ↦ absurd (ground arith)
                      | inl w ↦
                          let same : t ≡ t' = ground arith in
                          rw (← same)
                            (bundle, c, refl, inr (not_available_iff _ off, only_unbound _ w, refl))
                    ]
            ]
      ]

  pub persist_snapshot-IsNotStored :
      (t t' : State) (fault : Fault)
      → persist_snapshot runtime saved capability_id t ≡ broken fault t'
      → IsNotStored t fault t'
  unfolding persist_snapshot persist_if_available persistence_available without_backend
  persist_snapshot-IsNotStored t t' fault e =
      elim (Converted-cases (snapshot_to_durable_history runtime.is_date saved capability_id)) [
        | inr (cause, c) ↦
            let same : t ≡ t' = ground arith in
            let why : cause ≡ fault = ground arith in rw (← same, ← why) (refl, inl c)
        | inl (bundle, c) ↦
            elim (Bool-cases (is_available (runtime.store.get_backend_state t.stored).state)) [
              | inl on ↦
                  elim (Attempt-cases (
                    persist_many_durable_execution_histories runtime.is_date runtime.store
                      (bundle ∷ []) t.stored)) [
                        | inl (u, s, p) ↦ absurd (ground arith)
                        | inr (cause, s, p) ↦
                            let same : record t { stored = s } ≡ t' = ground arith in
                            let why : cause ≡ fault = ground arith in
                            rw (← same, ← why)
                              (refl, inr (inl (bundle, is_available_iff _ on, c, p)))
                      ]
              | inr off ↦
                  elim (Option-cases
                    (without_backend (runtime.store.get_backend_state t.stored).reason_code)) [
                      | inl w ↦ absurd (ground arith)
                      | inr (cause, w) ↦
                          let same : t ≡ t' = ground arith in
                          rw (← same) (refl, inr (inr (not_available_iff _ off, λ r. ground arith)))
                    ]
            ]
      ]
