-- ===== src/Workflow/Validation.antt =====
-- src/congeries_core/workflow/validation.py: `WorkflowValidator.validate`. Its steps are the modules
-- below, in the order of the source.
pub mod Nodes
pub mod Order
pub mod Reachability
pub mod Bindings
pub mod Entries
pub mod Steps
pub mod Accepted
pub mod Whole
pub mod Driving
use congeries_core.Prelude.{String, Bool, not, ◌&&◌, List, [], ◌∷◌, map, if◌then◌else◌}
use congeries_core.Prelude.Eq.{string_eq, pair_eq}
use congeries_core.Prelude.Dict.{Dict, contains}
use congeries_core.Prelude.Bags.{has_duplicates}
use congeries_core.Runtime.Errors.{Result, ok, ◌>>=◌, ◌>>◌, raise_if}
use congeries_core.Workflow.Definition.{WorkflowNode, WorkflowDependency, WorkflowDefinition}
use congeries_core.Workflow.Scheduler.{ids, by_id}
use congeries_core.Workflow.Validation.Nodes.{
  WorkflowValidator, validate_policy, require_schema, validate_node, each,
}
use congeries_core.Workflow.Validation.Order.{topological_order, invalid}
use congeries_core.Workflow.Validation.Bindings.{
  edge_of, validate_bindings, validate_required_output,
}

pub record ValidatedWorkflow (J : Type 0) : Type 0 where
  pub definition : WorkflowDefinition J
  pub topological_order : List String

-- The body of the loop over the dependencies.
abbrev pub validate_ends : List String → WorkflowDependency → Result (Unit {0})
validate_ends nodes d =
    raise_if (not (contains nodes d.source_node_id && contains nodes d.target_node_id))
      (invalid "workflow_dependency_node_missing" "Workflow dependency references a missing node")

module _ {J : Type 0} where
  -- A node under its id.
  abbrev pub entry_of : WorkflowNode J → String × WorkflowNode J
  entry_of node = (node.node_id, node)

  abbrev pub id_of : WorkflowNode J → String
  id_of node = node.node_id

  -- `{node.node_id: node for node in definition.nodes}`
  unfoldable pub nodes_of : WorkflowDefinition J → Dict String (WorkflowNode J)
  unfolding by_id
  nodes_of d = by_id (map entry_of d.nodes) []

  unfoldable pub validate :
      WorkflowValidator J → WorkflowDefinition J → Result (ValidatedWorkflow J)
  unfolding nodes_of validate_policy require_schema validate_node topological_order
      validate_bindings validate_required_output
  validate v d = do
    validate_policy d.execution_policy
    require_schema v d.input_schema "workflow_input_schema_missing"
    require_schema v d.output_schema "workflow_output_schema_missing"
    raise_if (has_duplicates (map id_of d.nodes))
        (invalid "workflow_duplicate_node" "Workflow node ids must be unique")
    each (validate_node v) d.nodes
    raise_if (has_duplicates (map edge_of d.dependencies))
        (invalid "workflow_duplicate_dependency" "Workflow dependencies must be unique")
    each (validate_ends (ids (nodes_of d))) d.dependencies
    order ← topological_order d.dependencies (ids (nodes_of d))
    validate_bindings d (nodes_of d)
    validate_required_output d (nodes_of d)
    ok (record { definition = d; topological_order = order })
