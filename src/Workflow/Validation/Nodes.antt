-- ===== src/Workflow/Validation/Nodes.antt =====
-- src/congeries_core/workflow/validation.py: `WorkflowValidator` with its `_validate_policy`,
-- `_require_schema` and `_validate_node`.
use congeries_core.Prelude.{
  String, Bool, not, ◌&&◌, ◌||◌, Option, none, some, is_some, List, [], ◌∷◌, length, any, all,
  nat_beq, if◌then◌else◌,
}
use congeries_core.Prelude.Eq.{◌==◌, string_eq, pair_eq, option_eq}
use congeries_core.Prelude.Dict.{contains}
use congeries_core.Runtime.Errors.{
  Result, ok, err, ◌>>◌, raise_if, core_error, unsupported_capability, version_mismatch,
}
use congeries_core.Runtime.Schema.{SchemaRef, SchemaRegistry, schema_key, has_schema}
use congeries_core.Runtime.Scope.{require_narrower_than}
use congeries_core.Policy.Access.{ActionRef, ActionRegistry, same_action, is_registered}
use congeries_core.Workflow.Definition.{
  WorkflowNode, WorkflowNodeConfig, agent_config, approval_config, evaluation_config,
  WorkflowPermission, ExecutionPolicy, agent_type, approval_type, evaluation_type,
  node_execute_action, evaluation_result_schema, evaluation_actions, policy_evaluate_action,
  quality_capabilities_action, quality_evaluate_action,
}
use congeries_core.Workflow.Validation.Order.{invalid}

-- `for x in xs: body(x)`, of a body that returns nothing.
abbrev pub each {ℓ} : {A : Type ℓ} → (A → Result (Unit {0})) → List A → Result (Unit {0})
each body [] = ok tt
each body (x ∷ rest) = body x >> each body rest

abbrev pub optional_key : Option SchemaRef → Option (String × (String × String))
optional_key none = none
optional_key (some schema) = some (schema_key schema)

-- `==` on schemas that may be missing.
unfoldable pub same_schema : Option SchemaRef → Option SchemaRef → Bool
same_schema a b = optional_key a == optional_key b

pub record WorkflowValidator (J : Type 0) : Type 0 where
  pub schemas : SchemaRegistry J
  pub actions : ActionRegistry
  pub supported : List (String × String)

abbrev pub default_nodes : List (String × String)
default_nodes = (agent_type, "1") ∷ (approval_type, "1") ∷ (evaluation_type, "1") ∷ []

-- `supported_nodes or frozenset(...)`: an empty set is false.
abbrev pub supported_or : Option (List (String × String)) → List (String × String)
supported_or none = default_nodes
supported_or (some []) = default_nodes
supported_or (some (pair ∷ rest)) = pair ∷ rest

unfoldable pub new_validator :
    {J : Type 0}
    → SchemaRegistry J
    → ActionRegistry
    → Option (List (String × String))
    → WorkflowValidator J
new_validator schemas actions supported_nodes = record {
  schemas = schemas;
  actions = actions;
  supported = supported_or supported_nodes;
}

unfoldable pub validate_policy : ExecutionPolicy → Result (Unit {0})
validate_policy policy =
    raise_if
      (not (nat_beq policy.max_concurrency 1)
        || policy.compensation_enabled
        || not (nat_beq policy.max_attempts 1))
      (core_error unsupported_capability "workflow_policy_unsupported"
        "the v0.2 direct runtime supports one-at-a-time fail-fast execution")

-- The action, kind and id that a permission must name for each of `evaluation_actions()`:
-- `expected_resources`, read at the name of the action.
abbrev pub expected_resources : String → String → List (ActionRef × (String × String))
expected_resources policy quality =
    (policy_evaluate_action, ("evaluation_policy", policy))
    ∷ (quality_capabilities_action, ("quality_evaluator", quality))
    ∷ (quality_evaluate_action, ("quality_evaluator", quality))
    ∷ []

module _ {J : Type 0} (v : WorkflowValidator J) where
  unfoldable pub require_schema : SchemaRef → String → Result (Unit {0})
  require_schema schema code =
      raise_if (not (has_schema v.schemas schema))
        (core_error version_mismatch code "Workflow references an unregistered schema")

  -- The schema of a node, if it has one.
  abbrev pub require_optional : Option SchemaRef → String → Result (Unit {0})
  require_optional none code = ok tt
  require_optional (some schema) code = require_schema schema code

  -- `node.config` is the last argument here.
  unfoldable pub validate_agent : WorkflowNode J → WorkflowNodeConfig J → Result (Unit {0})
  validate_agent node (agent_config agent definition model) =
      raise_if
        (not (is_some node.input_schema)
          || not (is_some node.output_schema)
          || not (nat_beq (length node.input_bindings) 1))
        (invalid "workflow_agent_contract_incomplete"
          "AgentNode requires one input binding and input/output schemas")
  validate_agent node config =
      err (invalid "workflow_agent_config_invalid" "AgentNode requires AgentNodeConfig")

  unfoldable pub validate_approval : WorkflowNode J → WorkflowNodeConfig J → Result (Unit {0})
  validate_approval node (approval_config prompt outcomes expiry) = do
    raise_if
        (not (nat_beq (length node.input_bindings) 0)
          || is_some node.input_schema
          || is_some node.output_schema)
        (invalid "workflow_approval_contract_invalid"
          "ApprovalNode does not accept or produce a value in v0.2")
    require_narrower_than prompt.scope node.scope
  validate_approval node config =
      err (invalid "workflow_approval_config_invalid" "ApprovalNode requires ApprovalNodeConfig")

  abbrev pub declares : List WorkflowPermission → ActionRef → Bool
  declares permissions action =
      any (λ (p : WorkflowPermission). same_action p.action action) permissions

  abbrev pub grants_resource : List WorkflowPermission → ActionRef × (String × String) → Bool
  grants_resource permissions expected =
      any
        (λ (p : WorkflowPermission).
          same_action p.action expected.0
          && p.resource.namespace == "core"
          && p.resource.kind == expected.1.0
          && p.resource.id == expected.1.1)
        permissions

  abbrev pub require_resource :
      List WorkflowPermission → ActionRef × (String × String) → Result (Unit {0})
  require_resource permissions expected = raise_if (not (grants_resource permissions expected)) (
      invalid "workflow_evaluation_permission_resource_invalid"
        "Evaluation permission resource does not match node config")

  unfoldable pub validate_evaluation : WorkflowNode J → WorkflowNodeConfig J → Result (Unit {0})
  validate_evaluation node (evaluation_config policy quality profile) = do
    raise_if
        (not (is_some node.input_schema)
          || not (same_schema node.output_schema (some evaluation_result_schema))
          || not (nat_beq (length node.input_bindings) 1))
        (invalid "workflow_evaluation_contract_incomplete"
          "EvaluationNode requires one input and the fixed result schema")
    raise_if (not node.idempotency_required)
        (invalid "workflow_evaluation_idempotency_required" "EvaluationNode requires idempotency")
    raise_if (not (all (declares node.permissions) evaluation_actions)) (
        invalid "workflow_evaluation_permission_missing"
          "EvaluationNode must declare every Evaluation action")
    each (require_resource node.permissions) (expected_resources policy quality)
  validate_evaluation node config =
      err (
        invalid "workflow_evaluation_config_invalid" "EvaluationNode requires EvaluationNodeConfig")

  unfoldable pub validate_kind : WorkflowNode J → Result (Unit {0})
  unfolding validate_agent validate_approval validate_evaluation
  validate_kind node =
      if node.node_type == agent_type
      then validate_agent node node.config
      else if node.node_type == approval_type
      then validate_approval node node.config
      else if node.node_type == evaluation_type
      then validate_evaluation node node.config
      else ok tt

  abbrev pub require_registered : WorkflowPermission → Result (Unit {0})
  require_registered p = raise_if (not (is_registered v.actions p.action)) (
      invalid "workflow_permission_not_evaluable"
        "Workflow node declares an unregistered permission action")

  unfoldable pub validate_node : WorkflowNode J → Result (Unit {0})
  unfolding validate_kind require_schema
  validate_node node = do
    raise_if (not (contains v.supported (node.node_type, node.contract_version))) (
        core_error unsupported_capability "workflow_node_contract_unsupported"
          "Workflow node type or contract version is unsupported")
    raise_if (not (nat_beq node.retry_limit 0)) (
        core_error unsupported_capability "workflow_node_retry_unsupported"
          "the v0.2 direct runtime does not schedule node retries")
    raise_if (node.side_effecting && not node.idempotency_required) (
        invalid "workflow_node_idempotency_required"
          "side-effecting Workflow nodes require idempotency")
    raise_if (not node.checkpoint) (
        invalid "workflow_node_checkpoint_required"
          "the v0.2 direct runtime requires stable node checkpoints")
    raise_if (not (declares node.permissions node_execute_action)) (
        invalid "workflow_node_execute_permission_missing"
          "Workflow node does not declare the execute permission")
    each require_registered node.permissions
    require_optional node.input_schema "workflow_node_input_schema_missing"
    require_optional node.output_schema "workflow_node_output_schema_missing"
    validate_kind node
