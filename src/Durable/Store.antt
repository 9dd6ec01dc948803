-- ===== src/Durable/Store.antt =====
-- server/workflows/execution-history-store.ts. What a store keeps is a state, and a call that is
-- awaited is a function of it; a call that throws keeps what it has changed.
use ai_knowledge_system.Common.{
  String, Bool, true, not, ◌&&◌, Option, none, some, List, [], map, if◌then◌else◌, is_text,
  includes, Number, integer, gt, is_safe_integer,
}
use ai_knowledge_system.Workflows.Types.{Mode, Failure}
use ai_knowledge_system.Durable.Types.{
  durable_unavailable, ReasonCode, ExecutionHistoryIdentity, DurableExecutionRecord, DurableBundle,
  BackendState, ContractError,
}
use ai_knowledge_system.Durable.Names.{execution_history_modes, mode_name}
use ai_knowledge_system.Durable.Checks.{Check, in_turn}
use ai_knowledge_system.Durable.Contract.{assert_bundle, assert_durable_persistence_available}

-- A thrown value: one that the kernel throws, or another error, is a `Failure`.
pub data Fault : Type 0 where
  failure : Failure → Fault
  contract_error : ContractError → Fault
  conflict_error : (message : String) → Fault
  type_error : (message : String) → Fault

-- A call that returns, or throws, and the state that it leaves.
pub data Attempt {ℓ} (T : Type ℓ) (A : Type 0) : Type ℓ where
  done : A → T → Attempt T A
  broken : Fault → T → Attempt T A

pub record ExecutionHistoryListQuery : Type 0 where
  pub scope_key : String
  pub capability_id : Option String
  pub mode : Option Mode
  pub limit : Option Number

pub record ExecutionHistoryStore : Type 1 where
  pub State : Type 0
  pub get_backend_state : State → BackendState
  pub persist : DurableBundle → State → Attempt State (Unit {0})
  pub persist_many : List DurableBundle → State → Attempt State (Unit {0})
  pub get : ExecutionHistoryIdentity → State → Attempt State (Option DurableBundle)
  pub get_by_execution_id : String → State → Attempt State (Option DurableBundle)
  pub list : ExecutionHistoryListQuery → State → Attempt State (List DurableExecutionRecord)

-- An assertion, then the rest.
abbrev pub asserting {ℓ} : {T : Type ℓ} {A : Type 0} → Check → Attempt T A → T → Attempt T A
asserting none rest t = rest
asserting (some error) rest t = broken (contract_error error) t

abbrev unavailable : ReasonCode → BackendState
unavailable reason = record { state = durable_unavailable; reason_code = some reason }

-- `UnavailableExecutionHistoryStore`.
abbrev pub unavailable_store : ReasonCode → ExecutionHistoryStore
unavailable_store reason =
    let check = assert_durable_persistence_available (unavailable reason) in
    record {
      State = Unit;
      get_backend_state = λ s. unavailable reason;
      persist = λ bundle s. asserting check (done tt s) s;
      persist_many = λ bundles s. asserting check (done tt s) s;
      get = λ identity s. asserting check (done none s) s;
      get_by_execution_id = λ id s. asserting check (done none s) s;
      list = λ query s. asserting check (done [] s) s;
    }

abbrev pub optionally : {A : Type 0} → (A → Bool) → Option A → Bool
optionally p none = true
optionally p (some a) = p a

-- `assertExecutionHistoryListQuery`: the message of the `TypeError` that it throws.
unfoldable pub assert_execution_history_list_query : ExecutionHistoryListQuery → Option String
assert_execution_history_list_query query =
    if not (is_text query.scope_key)
    then some "execution history list scope_key must be a non-empty string."
    else if not (optionally is_text query.capability_id)
    then some "execution history list capability_id must be a non-empty string when provided."
    else if not (optionally (λ mode. includes execution_history_modes (mode_name mode)) query.mode)
    then some "execution history list mode must be LIVE or SIMULATION when provided."
    else if not (
        optionally
          (λ limit.
            is_safe_integer limit && not (gt (integer 1) limit) && not (gt limit (integer 200)))
          query.limit)
    then some "execution history list limit must be a safe integer from 1 through 200."
    else none

-- The error of the first bundle that is refused.
unfoldable pub assert_bundles : (is_date : String → Bool) → List DurableBundle → Check
assert_bundles is_date bundles = in_turn (map (assert_bundle is_date) bundles)

module _ (is_date : String → Bool) (store : ExecutionHistoryStore) where
  -- A bundle that the store gives out is asserted again.
  unfoldable pub assert_read :
      Attempt store.State (Option DurableBundle) → Attempt store.State (Option DurableBundle)
  assert_read (done none s) = done none s
  assert_read (done (some bundle) s) =
      asserting (assert_bundle is_date bundle) (done (some bundle) s) s
  assert_read (broken fault s) = broken fault s

  unfoldable pub persist_durable_execution_history :
      DurableBundle → store.State → Attempt store.State (Unit {0})
  persist_durable_execution_history bundle s =
      asserting (assert_durable_persistence_available (store.get_backend_state s))
        (asserting (assert_bundle is_date bundle) (store.persist bundle s) s) s

  unfoldable pub persist_many_durable_execution_histories :
      List DurableBundle → store.State → Attempt store.State (Unit {0})
  persist_many_durable_execution_histories bundles s =
      asserting (assert_durable_persistence_available (store.get_backend_state s))
        (asserting (assert_bundles is_date bundles) (store.persist_many bundles s) s) s

  unfoldable pub read_durable_execution_history :
      ExecutionHistoryIdentity → store.State → Attempt store.State (Option DurableBundle)
  read_durable_execution_history identity s =
      asserting (assert_durable_persistence_available (store.get_backend_state s))
        (assert_read (store.get identity s)) s

  unfoldable pub read_durable_execution_history_by_id :
      String → store.State → Attempt store.State (Option DurableBundle)
  read_durable_execution_history_by_id id s =
      asserting (assert_durable_persistence_available (store.get_backend_state s))
        (if is_text id
          then assert_read (store.get_by_execution_id id s)
          else broken (type_error "execution_id must be a non-empty string.") s)
        s

  unfoldable pub list_durable_execution_history :
      ExecutionHistoryListQuery → store.State → Attempt store.State (List DurableExecutionRecord)
  list_durable_execution_history query s =
      asserting (assert_durable_persistence_available (store.get_backend_state s))
        (elim (assert_execution_history_list_query query) [
          | none ↦ store.list query s
          | some message ↦ broken (type_error message) s
        ])
        s
