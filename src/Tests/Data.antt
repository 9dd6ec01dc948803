-- ===== src/Tests/Data.antt =====
-- The inputs of the examples: a world, a handler, an execution and kernels that hold it.
use Prim.Native.String.{[], ◌∷◌}
use ai_knowledge_system.Common.{
  ℕ, zero, suc, String, ◌≡◌, refl, ap, true, false, Option, none, some, insert, lookup, arith,
  ◌∷◌ as ◌∷ᴸ◌, [] as []ᴸ,
}
use ai_knowledge_system.NextActions.Types.{Selection, selected}
use ai_knowledge_system.Provenance.Types.{
  retrieval, claim, non_authoritative, no_conflict, Emission, Envelope, ExecutionBinding,
}
use ai_knowledge_system.Workflows.Json.{empty}
use ai_knowledge_system.Workflows.Types.{
  Status, live, WorkflowExecution, HandlerStatus, HandlerResult, returns, WorkflowHandler,
  CreateExecutionRequest,
}
use ai_knowledge_system.Workflows.Kernel.State.{World, Kernel}
use ai_knowledge_system.Workflows.Kernel.Create.{new_kernel}
use ai_knowledge_system.Workflows.Wellformed.{Wellformed, HasFreshUuids}
use ai_knowledge_system.Workflows.Wellformed.Primitives.{replace-Wellformed}

-- `n + 1` times the letter u.
unfoldable pub nth_uuid : ℕ → String
nth_uuid zero = "u"
nth_uuid (suc n) = "u" ∷ nth_uuid n

abbrev count : String → ℕ
count [] = 0
count (c ∷ s) = suc (count s)

count-nth_uuid : (n : ℕ) → count (nth_uuid n) ≡ suc n
unfolding nth_uuid
count-nth_uuid zero = refl
count-nth_uuid (suc n) = ap (λ m. suc m) (count-nth_uuid n)

abbrev pub world : World
world = record { now = λ _. "12:00"; uuid = nth_uuid }

pub world-HasFreshUuids : HasFreshUuids world
world-HasFreshUuids i j e =
    let same = ap count e in omega (arith, same, count-nth_uuid i, count-nth_uuid j)

-- A result that goes on, and one that completes.
abbrev pub result_of : HandlerStatus → HandlerResult
result_of status = record {
  status = status;
  current_stage = some "compute";
  output = none;
  result_class = none;
  event_type = "worked";
  event_data = none;
  provenance_emissions = none;
}

abbrev pub handler : WorkflowHandler
handler = record {
  workflow_id = "memory-audit";
  version = "1";
  allowed_scope_keys = "*" ∷ᴸ []ᴸ;
  supports_pause = true;
  supports_cancel = true;
  start = λ _. returns (result_of HandlerStatus.running);
  advance = λ _. returns (result_of HandlerStatus.completed);
}

abbrev pub empty_kernel : Kernel
empty_kernel = new_kernel (handler ∷ᴸ []ᴸ)

abbrev pub request : CreateExecutionRequest
request = record {
  workflow_id = "memory-audit";
  scope_key = "alpha";
  requested_by = none;
  parent_execution_id = none;
  mode = live;
  input = none;
}

abbrev pub execution_in : Status → Option Selection → WorkflowExecution
execution_in status chosen = record {
  execution_id = "u";
  workflow_id = "memory-audit";
  scope_key = "alpha";
  requested_by = none;
  parent_execution_id = none;
  mode = live;
  status = status;
  created_at = "12:00";
  started_at = none;
  completed_at = none;
  current_stage = none;
  input = empty;
  output = none;
  error = none;
  result_class = none;
  next_action_envelope = none;
  selected_next_action = chosen;
}

abbrev pub selection : Selection
selection = record {
  command = "RUN_MEMORY_AUDIT";
  target_workflow_id = some "memory-audit";
  selected_at = "12:00";
  decision = selected;
  decided_at = some "12:00";
  child_execution_id = none;
}

-- A kernel that has drawn one UUID, and holds one execution under it.
abbrev pub kernel_with : WorkflowExecution → Kernel
kernel_with x = record empty_kernel {
  executions = insert x.execution_id x empty_kernel.executions;
  events = insert x.execution_id []ᴸ empty_kernel.events;
  provenance = insert x.execution_id []ᴸ empty_kernel.provenance;
  drawn = 1;
}

pub kernel_with-Wellformed :
    (status : Status) (chosen : Option Selection)
    → Wellformed world (kernel_with (execution_in status chosen))
unfolding nth_uuid new_kernel lookup
kernel_with-Wellformed status chosen =
    replace-Wellformed world (record empty_kernel { drawn = 1 }) (execution_in status chosen) []ᴸ
      []ᴸ (λ id x found. cc)
      (record {
        mode = refl;
        known = (0, omega arith, refl);
        log = tt;
        distinct = tt;
        issued = tt;
        evidence = tt;
      })

abbrev pub emission : Emission
emission = record {
  object_id = "workflow-input:u";
  object_type = "workflow_execution_input";
  operation = retrieval;
  epistemic_type = claim;
  source_system = "TRANSIENT_CONTEXT";
  source_id = "workflow_execution.input";
  source_version = none;
  source_fingerprint = "sha256:0";
  retrieved_at = some "12:00";
  object_fingerprint = "sha256:0";
  parent_evidence_ids = none;
  transform_chain = none;
  authority_owner = "WorkflowExecutionKernel";
  authority_domain = "execution-local input";
  authority_state = non_authoritative;
  authority_conflict_state = none;
  confidence = none;
  access_policy_refs = "execution-local-read" ∷ᴸ []ᴸ;
  write_policy_refs = none;
  trace_id = none;
  span_id = none;
  mason_episode_id = none;
  write_plan_id = none;
  authorization_id = none;
  execution_receipt_id = none;
  destination = none;
  write_authorized = none;
}

abbrev pub binding : ExecutionBinding
binding = record { execution_id = "u"; workflow_id = "memory-audit"; scope_key = "alpha" }

abbrev pub envelope : Envelope
envelope = record {
  envelope_id = "e";
  object_id = "workflow-input:u";
  object_type = "workflow_execution_input";
  operation = retrieval;
  epistemic_type = claim;
  scope_key = "alpha";
  source_system = "TRANSIENT_CONTEXT";
  source_id = "workflow_execution.input";
  source_version = none;
  source_fingerprint = "sha256:0";
  retrieved_at = some "12:00";
  object_fingerprint = "sha256:0";
  parent_evidence_ids = []ᴸ;
  transform_chain = []ᴸ;
  authority_owner = "WorkflowExecutionKernel";
  authority_domain = "execution-local input";
  authority_state = non_authoritative;
  authority_conflict_state = no_conflict;
  confidence = none;
  access_policy_refs = "execution-local-read" ∷ᴸ []ᴸ;
  write_policy_refs = []ᴸ;
  used_by_execution_id = "u";
  workflow_id = "memory-audit";
  trace_id = none;
  span_id = none;
  mason_episode_id = none;
  write_plan_id = none;
  authorization_id = none;
  execution_receipt_id = none;
  destination = none;
  write_authorized = false;
  emitted_at = "12:00";
  validated_at = "12:00";
}
