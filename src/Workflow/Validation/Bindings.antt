-- ===== src/Workflow/Validation/Bindings.antt =====
-- src/congeries_core/workflow/validation.py: `_validate_bindings` and `_validate_required_output`.
use congeries_core.Prelude.{
  String, Bool, false, not, Option, none, some, List, [], ◌∷◌, any, if◌then◌else◌,
}
use congeries_core.Prelude.Eq.{◌==◌, string_eq, pair_eq, option_eq}
use congeries_core.Prelude.Dict.{Dict, get, put, contains}
use congeries_core.Runtime.Errors.{
  Result, ok, err, ◌>>=◌, ◌>>◌, raise_if, core_error, unsupported_capability,
}
use congeries_core.Workflow.Definition.{
  WorkflowNode, WorkflowDependency, WorkflowInputBinding, WorkflowDefinition, is_workflow_input,
}
use congeries_core.Workflow.Scheduler.{ids}
use congeries_core.Workflow.Validation.Order.{item, invalid}
use congeries_core.Workflow.Validation.Nodes.{each, same_schema}
use congeries_core.Workflow.Validation.Reachability.{reachable_from}

abbrev pub edge_of : WorkflowDependency → String × String
edge_of d = (d.source_node_id, d.target_node_id)

-- `{(item.source_node_id, item.target_node_id): item for item in dependencies}`
unfoldable pub by_edge :
    List WorkflowDependency
    → Dict (String × String) WorkflowDependency
    → Dict (String × String) WorkflowDependency
by_edge [] edges = edges
by_edge (d ∷ rest) edges = by_edge rest (put edges (edge_of d) d)

-- `dependency is not None and dependency.carries_output`
abbrev pub is_carrying : Option WorkflowDependency → Bool
is_carrying none = false
is_carrying (some d) = d.carries_output

module _ {J : Type 0} where
  -- The binding's source, looked up in the nodes.
  abbrev pub validate_source :
      WorkflowDefinition J → WorkflowNode J → String → Option (WorkflowNode J) → Result (Unit {0})
  validate_source d node id none =
      err (
        invalid "workflow_binding_source_missing"
          "Workflow input binding references a missing node")
  validate_source d node id (some source) = do
    raise_if (not (is_carrying (get (by_edge d.dependencies []) (id, node.node_id)))) (
        invalid "workflow_output_dependency_missing"
          "node output binding requires an output-carrying dependency")
    raise_if (not (same_schema source.output_schema node.input_schema)) (
        invalid "workflow_node_schema_incompatible"
          "producer and consumer schemas must match exactly")

  abbrev pub validate_source_id :
      WorkflowDefinition J
      → Dict String (WorkflowNode J)
      → WorkflowNode J
      → Option String
      → Result (Unit {0})
  validate_source_id d nodes node none =
      err (
        invalid "workflow_binding_source_missing"
          "Workflow input binding references a missing node")
  validate_source_id d nodes node (some id) = validate_source d node id (get nodes id)

  unfoldable pub validate_binding :
      WorkflowDefinition J
      → Dict String (WorkflowNode J)
      → WorkflowNode J
      → WorkflowInputBinding
      → Result (Unit {0})
  unfolding by_edge
  validate_binding d nodes node binding =
      if is_workflow_input binding.source
      then raise_if (not (same_schema node.input_schema (some d.input_schema))) (
          invalid "workflow_input_schema_incompatible"
            "Workflow input and node input schemas must match exactly")
      else validate_source_id d nodes node binding.source_node_id

  abbrev pub binds : String → WorkflowNode J → Bool
  binds id node =
      any (λ (b : WorkflowInputBinding). b.source_node_id == some id) node.input_bindings

  -- The body of the loop over the dependencies.
  unfoldable pub validate_bound :
      Dict String (WorkflowNode J) → WorkflowDependency → Result (Unit {0})
  validate_bound nodes d =
      if not d.carries_output
      then ok tt
      else (item nodes d.target_node_id >>= λ target.
          raise_if (not (binds d.source_node_id target)) (
            invalid "workflow_output_dependency_unbound"
              "output-carrying dependency has no matching input binding"))

  unfoldable pub validate_bindings :
      WorkflowDefinition J → Dict String (WorkflowNode J) → Result (Unit {0})
  unfolding validate_binding validate_bound
  validate_bindings d nodes = do
    each (λ (node : WorkflowNode J). each (validate_binding d nodes node) node.input_bindings)
        d.nodes
    each (validate_bound nodes) d.dependencies

  abbrev pub reads_input : WorkflowNode J → Bool
  reads_input node =
      any (λ (b : WorkflowInputBinding). is_workflow_input b.source) node.input_bindings

  -- The nodes that read the Workflow input.
  unfoldable pub input_nodes : List (WorkflowNode J) → List String
  input_nodes [] = []
  input_nodes (node ∷ rest) =
      let later = input_nodes rest in if reads_input node then node.node_id ∷ later else later

  abbrev pub validate_output :
      WorkflowDefinition J → List String → Option (WorkflowNode J) → Result (Unit {0})
  validate_output d nodes none =
      err
        (invalid "workflow_output_node_missing" "Workflow output binding references a missing node")
  validate_output d nodes (some source) = do
    raise_if (not d.output_binding.required) (
        core_error unsupported_capability "workflow_optional_output_unsupported"
          "the v0.2 direct runtime requires its final output")
    raise_if (not (same_schema source.output_schema (some d.output_schema))) (
        invalid "workflow_output_schema_incompatible"
          "Workflow and source node output schemas must match exactly")
    raise_if
        (not (
          contains (reachable_from d.dependencies nodes (input_nodes d.nodes))
            d.output_binding.source_node_id))
        (invalid "workflow_required_output_unreachable"
          "required Workflow output is unreachable from Workflow input")

  unfoldable pub validate_required_output :
      WorkflowDefinition J → Dict String (WorkflowNode J) → Result (Unit {0})
  unfolding reachable_from input_nodes
  validate_required_output d nodes =
      validate_output d (ids nodes) (get nodes d.output_binding.source_node_id)
