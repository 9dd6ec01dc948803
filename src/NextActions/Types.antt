-- ===== src/NextActions/Types.antt =====
-- shared/next-actions.ts, the types.
use ai_knowledge_system.Common.{String, Bool, Option, List}

pub data AutonomyBand : Type 0 where
  a0 adv a3 a4 a5 : AutonomyBand

pub record ActionDefinition : Type 0 where
  pub command : String
  pub label : String
  pub description : String
  pub autonomy : AutonomyBand
  pub requires_approval : Bool
  pub target_workflow_id : Option String
  pub terminal : Option Bool

pub record BlockedAction : Type 0 where
  pub action : ActionDefinition
  pub blocked_reason : String

pub record AuthorityContext : Type 0 where
  pub read_from : List String
  pub authority : String
  pub write_authorized : Bool

pub record ActionEnvelope : Type 0 where
  pub execution_id : String
  pub scope_key : String
  pub workflow_id : String
  pub current_state : String
  pub result_class : String
  pub authority_context : AuthorityContext
  pub recommended_action : Option String
  pub available_actions : List ActionDefinition
  pub blocked_actions : List BlockedAction
  pub generated_at : String

pub data Decision : Type 0 where
  selected pending_approval approved rejected : Decision

pub record Selection : Type 0 where
  pub command : String
  pub target_workflow_id : Option String
  pub selected_at : String
  pub decision : Decision
  pub decided_at : Option String
  pub child_execution_id : Option String

pub record PolicyState : Type 0 where
  pub recommended_action : Option String
  pub actions : List ActionDefinition

pub record ActionPolicy : Type 0 where
  pub workflow_id : String
  pub default_result_class : String
  pub states : List (String × PolicyState)

-- An entry of `target_availability`.
pub record Availability : Type 0 where
  pub available : Bool
  pub reason : Option String

pub record ResolveInput : Type 0 where
  pub execution_id : String
  pub scope_key : String
  pub workflow_id : String
  pub current_state : String
  pub result_class : String
  pub authority_context : Option AuthorityContext
  pub target_availability : Option (List (String × Availability))
