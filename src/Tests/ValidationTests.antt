-- ===== src/Tests/ValidationTests.antt =====
-- Tests of workflow/validation.py.
use congeries_core.Prelude.{
  ℕ, String, ◌≡◌, ◌↔◌, refl, true, false, some, none, List, [], ◌∷◌, map, length,
}
use congeries_core.Prelude.Eq.{string_eq, pair_eq, ◌==◌}
use congeries_core.Prelude.Dict.{contains, is_subset, get, put, add}
use congeries_core.Runtime.Errors.{ok, err}
use congeries_core.Runtime.Outcome.{Outcome, IsCore}
use congeries_core.Runtime.Schema.{SchemaRef, has_schema}
use congeries_core.Runtime.Scope.{root}
use congeries_core.Policy.Access.{is_registered, same_action}
use congeries_core.Workflow.Definition.{
  WorkflowNode, WorkflowDefinition, WorkflowDependency, WorkflowInputBinding, WorkflowPermission,
  workflow_input, node_output, agent_config, node_execute_action,
}
use congeries_core.Workflow.Scheduler.{DeterministicScheduler, new_scheduler, by_id}
use congeries_core.Workflow.Scheduler.Completion.{drive}
use congeries_core.Workflow.Validation.{ValidatedWorkflow, entry_of, id_of, validate, nodes_of}
use congeries_core.Workflow.Validation.Nodes.{
  WorkflowValidator, default_nodes, validate_policy, require_schema, validate_node, validate_kind,
  validate_agent, same_schema,
}
use congeries_core.Workflow.Validation.Order.{
  topological_order, link, for_each, free_ids, take_all, take_node, release_all, release_one,
  sort_ids, insert_id,
}
use congeries_core.Workflow.Validation.Order.Linking.{Known}
use congeries_core.Workflow.Validation.Order.Sorted
use congeries_core.Workflow.Validation.Order.Sorted.{IsTopological, Grows, cycle_error}
use congeries_core.Workflow.Validation.Reachability.{reachable_from, passes, one_pass}
use congeries_core.Workflow.Validation.Reachability.Closure
use congeries_core.Workflow.Validation.Reachability.Closure.{Reaches}
use congeries_core.Workflow.Validation.Bindings.{
  validate_bindings, validate_binding, validate_bound, validate_required_output, input_nodes,
  by_edge,
}
use congeries_core.Workflow.Validation.Accepted.{Accepted}
use congeries_core.Workflow.Validation.Whole
use congeries_core.Workflow.Validation.Driving

abbrev text_schema : SchemaRef
text_schema = record { namespace = "core"; name = "text"; version = "1" }

abbrev execute : WorkflowPermission
execute = record {
  action = node_execute_action;
  resource = record { namespace = "core"; kind = "node"; id = "n"; owning_extension = none };
}

abbrev agent_node : String → WorkflowInputBinding → WorkflowNode ℕ
agent_node id binding = record {
  node_id = id;
  node_type = "agent";
  contract_version = "1";
  input_schema = some text_schema;
  input_bindings = binding ∷ [];
  output_schema = some text_schema;
  scope = root "core" "run" "r";
  permissions = execute ∷ [];
  timeout_seconds = none;
  retry_limit = 0;
  side_effecting = false;
  idempotency_required = false;
  checkpoint = true;
  config = agent_config "agent" "definition" "model";
}

abbrev draft_to_review : WorkflowDependency
draft_to_review = record {
  source_node_id = "draft";
  target_node_id = "review";
  carries_output = true;
}

abbrev review_to_draft : WorkflowDependency
review_to_draft = record {
  source_node_id = "review";
  target_node_id = "draft";
  carries_output = false;
}

-- The nodes are listed against their order.
abbrev writing : WorkflowDefinition ℕ
writing = record {
  workflow_id = "w";
  definition_id = "d";
  version = "1";
  input_schema = text_schema;
  nodes =
      agent_node "review" (record { source = node_output; source_node_id = some "draft" })
      ∷ agent_node "draft" (record { source = workflow_input; source_node_id = none })
      ∷ [];
  dependencies = draft_to_review ∷ [];
  output_schema = text_schema;
  output_binding = record { source_node_id = "review"; required = true };
  execution_policy = record { max_concurrency = 1; compensation_enabled = false; max_attempts = 1 };
  contract_version = "1";
}

abbrev validator : WorkflowValidator ℕ
validator = record {
  schemas = (("core", ("text", "1")), λ value. ok tt) ∷ [];
  actions = (("core", ("workflow.node.execute", "1")), node_execute_action) ∷ [];
  supported = default_nodes;
}

abbrev two_ids : List String
two_ids = "review" ∷ "draft" ∷ []

sorts : topological_order (draft_to_review ∷ []) two_ids ≡ ok ("draft" ∷ "review" ∷ [])
unfolding topological_order link for_each free_ids take_all take_node release_all release_one
    sort_ids insert_id get put ◌==◌
sorts = refl

finds_cycle : topological_order (draft_to_review ∷ review_to_draft ∷ []) two_ids ≡ err cycle_error
unfolding topological_order link for_each free_ids take_all take_node release_all release_one
    sort_ids insert_id get put ◌==◌
finds_cycle = refl

accepts :
    validate validator writing
    ≡ ok (record { definition = writing; topological_order = "draft" ∷ "review" ∷ [] })
unfolding validate nodes_of by_id validate_policy require_schema has_schema validate_node
    validate_kind validate_agent is_registered same_action contains topological_order link for_each
    free_ids take_all take_node release_all release_one sort_ids insert_id validate_bindings
    validate_binding validate_bound by_edge same_schema validate_required_output reachable_from
    passes one_pass input_nodes add get put ◌==◌
accepts = refl

two_known : Known two_ids (draft_to_review ∷ [])
unfolding contains ◌==◌
two_known = refl

topological_order-IsTopological_example :
    Outcome
      (λ e. (e ≡ cycle_error) × ((rank : String → ℕ) → ¬ Grows (draft_to_review ∷ []) rank))
      (IsTopological two_ids (draft_to_review ∷ []))
      (topological_order (draft_to_review ∷ []) two_ids)
unfolding contains ◌==◌
topological_order-IsTopological_example =
    Sorted.topological_order-IsTopological two_ids (draft_to_review ∷ []) refl two_known

reachable_from_iff_example :
    (contains (reachable_from (draft_to_review ∷ []) two_ids ("draft" ∷ [])) "review" ≡ true)
    ↔ Reaches (draft_to_review ∷ []) ("draft" ∷ []) "review"
unfolding contains ◌==◌
reachable_from_iff_example =
    Closure.reachable_from_iff two_ids (draft_to_review ∷ []) ("draft" ∷ []) "review" refl two_known

validate-Accepted_example :
    Outcome IsCore
      (λ (w : ValidatedWorkflow ℕ). (w.definition ≡ writing) × Accepted writing w.topological_order)
      (validate validator writing)
validate-Accepted_example = Whole.validate-Accepted validator writing

validate-drives_example :
    (s : DeterministicScheduler (WorkflowNode ℕ)) × (new_scheduler
        (map entry_of writing.nodes)
        writing.dependencies
        []
      ≡ ok s)
    × (after : DeterministicScheduler (WorkflowNode ℕ)) × (drive (length writing.nodes) s
        ≡ ok after)
    × (is_subset (map id_of writing.nodes) after.completed ≡ true)
validate-drives_example =
    Driving.validate-drives validator writing
      (record { definition = writing; topological_order = "draft" ∷ "review" ∷ [] }) accepts
