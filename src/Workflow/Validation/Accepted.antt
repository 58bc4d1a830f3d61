-- ===== src/Workflow/Validation/Accepted.antt =====
-- What `validate` promises of a definition that it accepts.
use congeries_core.Prelude.{
  String, ◌≡◌, ◌<◌, refl, sym, ap, ◌∙◌, true, false, not, ◌&&◌, Option, none, some, List, [], ◌∷◌,
  map, All, arith, inl, inr, Option-cases,
}
use congeries_core.Prelude.Eq.{string_eq, pair_eq, option_eq}
use congeries_core.Prelude.Dict.{get, contains}
use congeries_core.Prelude.Bags.{has_duplicates, position}
use congeries_core.Runtime.Errors.{raise_if-ok}
use congeries_core.Runtime.Outcome.{
  raise_if-IsCore, Outcome, answers, raises, IsCore, structured, Outcome-if, Outcome-ok,
  Outcome-bind, Outcome-map,
}
use congeries_core.Workflow.Definition.{
  WorkflowNode, WorkflowDependency, WorkflowDefinition, WorkflowInputBinding, is_workflow_input,
}
use congeries_core.Workflow.Scheduler.{ids}
use congeries_core.Workflow.Validation.{id_of, nodes_of}
use congeries_core.Workflow.Validation.Nodes.{each, same_schema}
use congeries_core.Workflow.Validation.Order.Linking.{Known, get_some_iff}
use congeries_core.Workflow.Validation.Order.Sorted.{IsTopological}
use congeries_core.Workflow.Validation.Reachability.{reachable_from}
use congeries_core.Workflow.Validation.Reachability.Closure.{Reaches, reachable_from_iff}
use congeries_core.Workflow.Validation.Steps.{IsDone, guard-IsDone, IsDone-then, each-All}
use congeries_core.Workflow.Validation.Entries.{ids-nodes_of, carrying_known}
use congeries_core.Workflow.Validation.Bindings.{
  by_edge, is_carrying, validate_source, validate_source_id, validate_binding, validate_bound,
  validate_bindings, input_nodes, validate_output, binds,
}

module _ {J : Type 0} (d : WorkflowDefinition J) (order : List String) where
  -- What feeds an input of a node: the Workflow input, with its schema, or the output of a node that
  -- comes before, with its schema.
  pub record FedBy (node : WorkflowNode J) (id : String) : Type 0 where
    pub source : WorkflowNode J
    pub found : get (nodes_of d) id ≡ some source
    pub schema : same_schema source.output_schema node.input_schema ≡ true
    pub before : position order id < position order node.node_id

  pub data Fed (node : WorkflowNode J) (binding : WorkflowInputBinding) : Type 0 where
    by_input :
        is_workflow_input binding.source ≡ true
        → same_schema node.input_schema (some d.input_schema) ≡ true
        → Fed node binding
    by_node :
        (id : String)
        → is_workflow_input binding.source ≡ false
        → binding.source_node_id ≡ some id
        → FedBy node id
        → Fed node binding

  -- The output is there, has its schema, and depends on the Workflow input.
  pub record OutputFrom (id : String) : Type 0 where
    pub source : WorkflowNode J
    pub found : get (nodes_of d) id ≡ some source
    pub schema : same_schema source.output_schema (some d.output_schema) ≡ true
    pub reached : Reaches d.dependencies (input_nodes d.nodes) id

  pub record Accepted : Type 0 where
    pub once : has_duplicates (map id_of d.nodes) ≡ false
    pub known : Known (map id_of d.nodes) d.dependencies
    pub topological : IsTopological (map id_of d.nodes) d.dependencies order
    pub inputs : All (λ (node : WorkflowNode J). All (Fed node) node.input_bindings) d.nodes
    pub output : OutputFrom d.output_binding.source_node_id

module _ {J : Type 0} (d : WorkflowDefinition J) (order : List String)
    (once : has_duplicates (map id_of d.nodes) ≡ false)
    (known : Known (map id_of d.nodes) d.dependencies)
    (topological : IsTopological (map id_of d.nodes) d.dependencies order) where
  validate_source-FedBy :
      (node : WorkflowNode J) (id : String) (there : Option (WorkflowNode J))
      → get (nodes_of d) id ≡ there
      → Outcome IsCore (λ _. FedBy d order node id) (validate_source d node id there)
  validate_source-FedBy node id none e = raises structured
  validate_source-FedBy node id (some source) e =
      Outcome-bind _
        (raise_if-IsCore (not (is_carrying (get (by_edge d.dependencies []) (id, node.node_id))))
          structured)
        (λ u1 carried.
          Outcome-map
            (raise_if-IsCore (not (same_schema source.output_schema node.input_schema)) structured)
            (λ u2 same. record {
              source = source;
              found = e;
              schema = ground (arith, same);
              before = topological.sorted node.node_id id (
                  carrying_known d.dependencies id node.node_id
                    (ground (arith, raise_if-ok _ _ carried)));
            }))

  validate_source_id-Fed :
      (node : WorkflowNode J) (binding : WorkflowInputBinding) (id : Option String)
      → is_workflow_input binding.source ≡ false
      → binding.source_node_id ≡ id
      → Outcome IsCore (λ _. Fed d order node binding) (validate_source_id d (nodes_of d) node id)
  validate_source_id-Fed node binding none other e = raises structured
  validate_source_id-Fed node binding (some id) other e =
      Outcome-map (validate_source-FedBy node id (get (nodes_of d) id) refl)
        (λ u fed. by_node id other e fed)

  validate_binding-Fed :
      (node : WorkflowNode J) (binding : WorkflowInputBinding)
      → Outcome IsCore
          (λ _. Fed d order node binding)
          (validate_binding d (nodes_of d) node binding)
  unfolding validate_binding
  validate_binding-Fed node binding =
      Outcome-if (is_workflow_input binding.source)
        (λ input.
          Outcome-map
            (raise_if-IsCore (not (same_schema node.input_schema (some d.input_schema))) structured)
            (λ u same. by_input input (ground (arith, same))))
        (λ other. validate_source_id-Fed node binding binding.source_node_id other refl)

  -- The lookup of the target cannot fail.
  validate_bound-IsDone :
      (e : WorkflowDependency)
      → (contains (map id_of d.nodes) e.source_node_id
          && contains (map id_of d.nodes) e.target_node_id)
        ≡ true
      → IsDone (validate_bound (nodes_of d) e)
  unfolding validate_bound
  validate_bound-IsDone e ends =
      Outcome-if (not e.carries_output) (λ _. answers tt)
        (λ _. elim (Option-cases (get (nodes_of d) e.target_node_id)) [
          | inl absent ↦
              let held = get_some_iff (nodes_of d) e.target_node_id in
              let inside = ap (λ l. contains l e.target_node_id) (ids-nodes_of d once) in
              ground (arith, held, inside, absent, ends)
          | inr (target, found) ↦
              rw found (guard-IsDone (not (binds e.source_node_id target)) structured)
        ])

  all_bound-IsDone :
      (dependencies : List WorkflowDependency)
      → Known (map id_of d.nodes) dependencies
      → IsDone (each (validate_bound (nodes_of d)) dependencies)
  all_bound-IsDone [] k = answers tt
  all_bound-IsDone (e ∷ rest) k =
      IsDone-then (validate_bound-IsDone e (ground arith)) (all_bound-IsDone rest (ground arith))

  pub validate_bindings-Fed :
      Outcome IsCore
        (λ _. All (λ (node : WorkflowNode J). All (Fed d order node) node.input_bindings) d.nodes)
        (validate_bindings d (nodes_of d))
  unfolding validate_bindings
  validate_bindings-Fed =
      Outcome-bind _
        (each-All _ d.nodes (λ node. each-All _ node.input_bindings (validate_binding-Fed node)))
        (λ u e. Outcome-map (all_bound-IsDone d.dependencies known) (λ u2 t.
          Outcome-ok
            (each-All _ d.nodes
              (λ node. each-All _ node.input_bindings (validate_binding-Fed node)))
            e))

  pub validate_output-OutputFrom :
      (there : Option (WorkflowNode J))
      → get (nodes_of d) d.output_binding.source_node_id ≡ there
      → Outcome IsCore
          (λ _. OutputFrom d order d.output_binding.source_node_id)
          (validate_output d (ids (nodes_of d)) there)
  validate_output-OutputFrom none e = raises structured
  validate_output-OutputFrom (some source) e =
      Outcome-bind _ (raise_if-IsCore (not d.output_binding.required) structured) (λ u1 required.
        Outcome-bind _
          (raise_if-IsCore (not (same_schema source.output_schema (some d.output_schema)))
            structured)
          (λ u2 same.
            Outcome-map
              (raise_if-IsCore
                (not (
                  contains (reachable_from d.dependencies (ids (nodes_of d)) (input_nodes d.nodes))
                    d.output_binding.source_node_id))
                structured)
              (λ u3 reached. record {
                source = source;
                found = e;
                schema = ground (arith, raise_if-ok _ _ same);
                reached =
                    (reachable_from_iff (map id_of d.nodes) d.dependencies (input_nodes d.nodes)
                        d.output_binding.source_node_id once known).0
                      (ap
                          (λ l.
                            contains (reachable_from d.dependencies l (input_nodes d.nodes))
                              d.output_binding.source_node_id)
                          (sym (ids-nodes_of d once))
                        ∙ ground (arith, reached));
              })))
