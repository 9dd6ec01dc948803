-- ===== src/Workflows/Ensures.antt =====
-- Rules for the methods of the kernel: what holds of the state after a call, by its parts.
use ai_knowledge_system.Common.{◌⊎◌, inl, inr, refl, String, ◌≡◌, some, List, arith, lookup}
use ai_knowledge_system.Workflows.Types.{Failure, Status, WorkflowExecution}
use ai_knowledge_system.Workflows.Kernel.State.{
  Kernel, Outcome, returned, thrown, M, bind, after, require_execution, require_handler,
  assert_status, snapshot,
}

-- `P` holds of the state if the call throws, and `Q` of the result and the state if it returns.
abbrev pub Ensures {ℓ} :
    {A : Type ℓ} → (Kernel → Type 0) → (A → Kernel → Type 0) → Outcome A → Type 0
Ensures P Q (returned a k) = Q a k
Ensures P Q (thrown e k) = P k

-- A call that leaves the state as it was.
abbrev pub IsGuard {ℓ} : {A : Type ℓ} → M A → Type 0
IsGuard m = (k : Kernel) → after (m k) ≡ k

pub Outcome-cases {ℓ} :
    {A : Type ℓ} (o : Outcome A)
    → ((a : A) × (k : Kernel) × (o ≡ returned a k))
      ⊎ ((e : Failure) × (k : Kernel) × (o ≡ thrown e k))
Outcome-cases (returned a k) = inl (a, k, refl)
Outcome-cases (thrown e k) = inr (e, k, refl)

module _ {ℓ κ} {A : Type ℓ} {B : Type κ} where
  pub bind-Ensures :
      (P : Kernel → Type 0) (R : A → Kernel → Type 0) (Q : B → Kernel → Type 0) (o : Outcome A)
      (f : A → M B)
      → Ensures P R o
      → ((a : A) (k : Kernel) → R a k → Ensures P Q (f a k))
      → Ensures P Q (bind o f)
  bind-Ensures P R Q (returned a k) f h next = next a k h
  bind-Ensures P R Q (thrown e k) f h next = h

  same-Ensures :
      (P : Kernel → Type 0) (Q : B → Kernel → Type 0) (o : Outcome A) (f : A → M B) (k : Kernel)
      → after o ≡ k
      → P k
      → ((a : A) → o ≡ returned a k → Ensures P Q (f a k))
      → Ensures P Q (bind o f)
  same-Ensures P Q (returned a k') f k e h next = rw e (next a (ap-returned a k' k e))
    where
      ap-returned : (a : A) (k' k : Kernel) → k' ≡ k → returned a k' ≡ returned a k
      ap-returned a k' k e = cc
  same-Ensures P Q (thrown e' k') f k e h next = rw e h

  -- The rest runs in the state that the guard was called in.
  pub guard-Ensures :
      (P : Kernel → Type 0) (Q : B → Kernel → Type 0) (m : M A) (f : A → M B) (k : Kernel)
      → IsGuard m
      → P k
      → ((a : A) → m k ≡ returned a k → Ensures P Q (f a k))
      → Ensures P Q (bind (m k) f)
  guard-Ensures P Q m f k g h next = same-Ensures P Q (m k) f k (g k) h next

module _ {ℓ} {A : Type ℓ} where
  pub after-Ensures : (P : Kernel → Type 0) (o : Outcome A) → P (after o) → Ensures P (λ _. P) o
  after-Ensures P (returned a k) h = h
  after-Ensures P (thrown e k) h = h

  pub Ensures-weaken :
      (P P' : Kernel → Type 0) (Q : A → Kernel → Type 0) (o : Outcome A)
      → ((k : Kernel) → P k → P' k)
      → Ensures P Q o
      → Ensures P' Q o
  Ensures-weaken P P' Q (returned a k) f h = h
  Ensures-weaken P P' Q (thrown e k) f h = f k h

  pub guard-Ensures_last :
      (P : Kernel → Type 0) (m : M A) (k : Kernel) → IsGuard m → P k → Ensures P (λ _. P) (m k)
  guard-Ensures_last P m k g h = after-Ensures P (m k) (rw (g k) h)

  -- What holds of the state in both cases.
  pub Ensures-after :
      (P : Kernel → Type 0) (Q : A → Kernel → Type 0) (o : Outcome A)
      → ((a : A) (k : Kernel) → Q a k → P k)
      → Ensures P Q o
      → P (after o)
  Ensures-after P Q (returned a k) f h = f a k h
  Ensures-after P Q (thrown e k) f h = h

pub require_execution-IsGuard : (id : String) → IsGuard (require_execution id)
unfolding require_execution
require_execution-IsGuard id k = ground arith

pub require_handler-IsGuard : (execution : WorkflowExecution) → IsGuard (require_handler execution)
unfolding require_handler
require_handler-IsGuard execution k = ground arith

pub assert_status-IsGuard :
    (execution : WorkflowExecution) (allowed : List Status) (operation : String)
    → IsGuard (assert_status execution allowed operation)
unfolding assert_status
assert_status-IsGuard execution allowed operation k = ground arith

pub snapshot-IsGuard : (id : String) → IsGuard (snapshot id)
unfolding snapshot
snapshot-IsGuard id k = ground arith

pub require_execution-lookup :
    (id : String) (k : Kernel) (execution : WorkflowExecution)
    → require_execution id k ≡ returned execution k
    → lookup id k.executions ≡ some execution
unfolding require_execution
require_execution-lookup id k execution e = ground arith
