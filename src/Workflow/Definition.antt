-- ===== src/Workflow/Definition.antt =====
-- src/congeries_core/workflow/model.py: the parts of a Workflow definition, with the constants of
-- src/congeries_core/workflow/persistence.py and src/congeries_core/evaluation that its validation
-- reads. `J` is the type of JSON values. The checks of spelling (`strip`) are left out.
use congeries_core.Prelude.{
  ℕ, String, Bool, not, ◌||◌, Option, is_some, List, [], ◌∷◌, ltb, true, if◌then◌else◌, false,
}
use congeries_core.Prelude.Eq.{◌==◌, string_eq}
use congeries_core.Runtime.Errors.{Result, ok, err, value_error}
use congeries_core.Runtime.Schema.{SchemaRef}
use congeries_core.Runtime.Scope.{ScopeRef}
use congeries_core.Checkpoint.Model.{ApprovalOutcome, CheckpointReference}
use congeries_core.Policy.Access.{ActionRef, ResourceRef}

-- `WorkflowNodeType` by its values; a definition may name any other type.
abbrev pub agent_type : String
agent_type = "agent"

abbrev pub approval_type : String
approval_type = "approval"

abbrev pub evaluation_type : String
evaluation_type = "evaluation"

pub record WorkflowPermission : Type 0 where
  pub action : ActionRef
  pub resource : ResourceRef

pub data WorkflowInputSource : Type 0 where
  workflow_input node_output : WorkflowInputSource

abbrev pub is_workflow_input : WorkflowInputSource → Bool
is_workflow_input workflow_input = true
is_workflow_input node_output = false

pub record WorkflowInputBinding : Type 0 where
  pub source : WorkflowInputSource
  pub source_node_id : Option String

-- `WorkflowInputBinding.__post_init__`: the source is a node's output exactly if a node is named.
unfoldable pub check_binding : WorkflowInputBinding → Result WorkflowInputBinding
check_binding b =
    if (if is_workflow_input b.source
      then is_some b.source_node_id
      else not (is_some b.source_node_id))
    then err (value_error "node output binding requires exactly one source node")
    else ok b

pub record WorkflowDependency : Type 0 where
  pub source_node_id : String
  pub target_node_id : String
  pub carries_output : Bool

unfoldable pub check_dependency : WorkflowDependency → Result WorkflowDependency
check_dependency d =
    if d.source_node_id == d.target_node_id
    then err (value_error "Workflow dependency cannot be a self edge")
    else ok d

pub record WorkflowOutputBinding : Type 0 where
  pub source_node_id : String
  pub required : Bool

-- The one failure mode is FAIL_FAST.
pub record ExecutionPolicy : Type 0 where
  pub max_concurrency : ℕ
  pub compensation_enabled : Bool
  pub max_attempts : ℕ

unfoldable pub check_execution_policy : ExecutionPolicy → Result ExecutionPolicy
check_execution_policy p =
    if ltb p.max_concurrency 1 || ltb p.max_attempts 1
    then err (value_error "Workflow policy limits must be positive")
    else ok p

pub data WorkflowNodeConfig (J : Type 0) : Type 0 where
  agent_config : (agent_id definition_id model_binding_ref : String) → WorkflowNodeConfig J
  approval_config :
      (prompt_ref : CheckpointReference) (allowed_outcomes : List ApprovalOutcome)
      (expires_at : Option ℕ)
      → WorkflowNodeConfig J
  evaluation_config :
      (policy_ref quality_evaluator_id quality_profile_ref : String) → WorkflowNodeConfig J
  unsupported_config : J → WorkflowNodeConfig J

pub record WorkflowNode (J : Type 0) : Type 0 where
  pub node_id : String
  pub node_type : String
  pub contract_version : String
  pub input_schema : Option SchemaRef
  pub input_bindings : List WorkflowInputBinding
  pub output_schema : Option SchemaRef
  pub scope : ScopeRef
  pub permissions : List WorkflowPermission
  pub timeout_seconds : Option ℕ
  pub retry_limit : ℕ
  pub side_effecting : Bool
  pub idempotency_required : Bool
  pub checkpoint : Bool
  pub config : WorkflowNodeConfig J

pub record WorkflowDefinition (J : Type 0) : Type 0 where
  pub workflow_id : String
  pub definition_id : String
  pub version : String
  pub input_schema : SchemaRef
  pub nodes : List (WorkflowNode J)
  pub dependencies : List WorkflowDependency
  pub output_schema : SchemaRef
  pub output_binding : WorkflowOutputBinding
  pub execution_policy : ExecutionPolicy
  pub contract_version : String

-- `WORKFLOW_NODE_EXECUTE_ACTION`
abbrev pub node_execute_action : ActionRef
node_execute_action = record { namespace = "core"; name = "workflow.node.execute"; version = "1" }

-- `EVALUATION_RESULT_SCHEMA`
abbrev pub evaluation_result_schema : SchemaRef
evaluation_result_schema = record { namespace = "core"; name = "evaluation_result"; version = "1" }

abbrev pub policy_evaluate_action : ActionRef
policy_evaluate_action = record {
  namespace = "core";
  name = "evaluation.policy.evaluate";
  version = "1";
}

abbrev pub quality_capabilities_action : ActionRef
quality_capabilities_action = record {
  namespace = "core";
  name = "evaluation.quality.capabilities";
  version = "1";
}

abbrev pub quality_evaluate_action : ActionRef
quality_evaluate_action = record {
  namespace = "core";
  name = "evaluation.quality.evaluate";
  version = "1";
}

abbrev pub evaluation_actions : List ActionRef
evaluation_actions =
    policy_evaluate_action ∷ quality_capabilities_action ∷ quality_evaluate_action ∷ []
