-- ===== src/Workflow/Validation/Whole.antt =====
-- All steps of `validate` together.
use congeries_core.Prelude.{
  String, ◌≡◌, refl, sym, subst, false, not, ◌&&◌, List, [], ◌∷◌, map, All, arith,
}
use congeries_core.Prelude.Eq.{string_eq, pair_eq, option_eq}
use congeries_core.Prelude.Dict.{get, contains}
use congeries_core.Prelude.Bags.{has_duplicates}
use congeries_core.Runtime.Errors.{ok, ◌>>=◌, ◌>>◌, raise_if, raise_if-ok}
use congeries_core.Runtime.Outcome.{
  raise_if-IsCore, Outcome, answers, IsCore, structured, Outcome-ok, Outcome-bind, Outcome-map,
  Outcome-error,
}
use congeries_core.Workflow.Definition.{WorkflowDependency, WorkflowDefinition}
use congeries_core.Workflow.Scheduler.{ids}
use congeries_core.Workflow.Validation.{ValidatedWorkflow, id_of, nodes_of, validate_ends, validate}
use congeries_core.Workflow.Validation.Nodes.{
  WorkflowValidator, validate_policy, require_schema, validate_node, each,
}
use congeries_core.Workflow.Validation.Order.{topological_order}
use congeries_core.Workflow.Validation.Order.Linking.{Known}
use congeries_core.Workflow.Validation.Order.Sorted.{IsTopological, topological_order-IsTopological}
use congeries_core.Workflow.Validation.Steps.{
  guard-IsDone, each-All, each-IsDone, validate_node-IsDone,
}
use congeries_core.Workflow.Validation.Accepted.{
  Accepted, validate_bindings-Fed, validate_output-OutputFrom,
}
use congeries_core.Workflow.Validation.Entries.{ids-nodes_of}
use congeries_core.Workflow.Validation.Bindings.{
  edge_of, validate_bindings, validate_required_output,
}

module _ {J : Type 0} (d : WorkflowDefinition J)
    (once : has_duplicates (map id_of d.nodes) ≡ false) where
  all_known :
      (nodes : List String) (dependencies : List WorkflowDependency)
      → All
          (λ (e : WorkflowDependency).
            not (contains nodes e.source_node_id && contains nodes e.target_node_id) ≡ false)
          dependencies
      → Known nodes dependencies
  all_known nodes [] h = refl
  all_known nodes (e ∷ rest) (first, later) = ground (arith, first, all_known nodes rest later)

  validate_ends-Known :
      Outcome IsCore
        (λ _. Known (map id_of d.nodes) d.dependencies)
        (each (validate_ends (ids (nodes_of d))) d.dependencies)
  validate_ends-Known =
      Outcome-map
        (each-All (validate_ends (ids (nodes_of d))) d.dependencies (λ e.
          raise_if-IsCore
            (not (
              contains (ids (nodes_of d)) e.source_node_id
              && contains (ids (nodes_of d)) e.target_node_id))
            structured))
        (λ u all.
          subst (λ l. Known l d.dependencies) (ids-nodes_of d once)
            (all_known (ids (nodes_of d)) d.dependencies all))

  order-IsTopological :
      Known (map id_of d.nodes) d.dependencies
      → Outcome IsCore
          (IsTopological (map id_of d.nodes) d.dependencies)
          (topological_order d.dependencies (ids (nodes_of d)))
  order-IsTopological known =
      subst
        (λ l.
          Outcome IsCore (IsTopological (map id_of d.nodes) d.dependencies)
            (topological_order d.dependencies l))
        (sym (ids-nodes_of d once))
        (Outcome-error
          (topological_order-IsTopological (map id_of d.nodes) d.dependencies once known)
          (λ e cycle. subst IsCore (sym cycle.0) structured))

  -- From the topological order on.
  ending-Accepted :
      Known (map id_of d.nodes) d.dependencies
      → Outcome IsCore
          (λ (w : ValidatedWorkflow J). (w.definition ≡ d) × Accepted d w.topological_order)
          (topological_order d.dependencies (ids (nodes_of d)) >>= λ order.
            validate_bindings d (nodes_of d)
            >> (validate_required_output d (nodes_of d)
                >> ok (record { definition = d; topological_order = order })))
  unfolding validate_required_output
  ending-Accepted known = Outcome-bind _ (order-IsTopological known) (λ order e.
      let topological = Outcome-ok (order-IsTopological known) e in
      let fed = validate_bindings-Fed d order once known topological in
      Outcome-bind (validate_bindings d (nodes_of d)) fed (λ u1 b.
        let output =
          validate_output-OutputFrom d order once known topological
            (get (nodes_of d) d.output_binding.source_node_id) refl in
        Outcome-bind _ output (λ u2 o. answers (
          refl,
          record {
            once = once;
            known = known;
            topological = topological;
            inputs = Outcome-ok fed b;
            output = Outcome-ok output o;
          },
        ))))

-- Whatever the definition: `validate` raises structured errors only (the lookups in its dictionaries
-- never fail), and what it accepts has distinct nodes, dependencies between them, a topological
-- order, inputs that are fed by the Workflow input or by a node that comes before, with the same
-- schema, and an output with its schema that depends on the Workflow input.
pub validate-Accepted :
    {J : Type 0} (v : WorkflowValidator J) (d : WorkflowDefinition J)
    → Outcome IsCore
        (λ (w : ValidatedWorkflow J). (w.definition ≡ d) × Accepted d w.topological_order)
        (validate v d)
unfolding validate validate_policy require_schema
validate-Accepted v d =
    Outcome-bind (validate_policy d.execution_policy) (guard-IsDone _ structured) (λ u1 e1.
      Outcome-bind (require_schema v d.input_schema "workflow_input_schema_missing")
        (guard-IsDone _ structured)
        (λ u2 e2.
          Outcome-bind (require_schema v d.output_schema "workflow_output_schema_missing")
            (guard-IsDone _ structured)
            (λ u3 e3.
              Outcome-bind (raise_if (has_duplicates (map id_of d.nodes)) _)
                (raise_if-IsCore (has_duplicates (map id_of d.nodes)) structured)
                (λ u4 e4.
                  Outcome-bind (each (validate_node v) d.nodes)
                    (each-IsDone (validate_node v) d.nodes (validate_node-IsDone v))
                    (λ u5 e5.
                      Outcome-bind (raise_if (has_duplicates (map edge_of d.dependencies)) _)
                        (guard-IsDone (has_duplicates (map edge_of d.dependencies)) structured)
                        (λ u6 e6.
                          let once = raise_if-ok _ _ e4 in
                          Outcome-bind (each (validate_ends (ids (nodes_of d))) d.dependencies)
                            (validate_ends-Known d once)
                            (λ u7 e7.
                              ending-Accepted d once
                                (Outcome-ok (validate_ends-Known d once) e7))))))))
