-- ===== src/Workflow/Validation/Driving.antt =====
-- A Workflow that was validated runs to its end under the scheduler.
use congeries_core.Prelude.{
  String, ◌≡◌, ◌≤◌, refl, sym, ap, ◌∙◌, true, List, [], ◌∷◌, map, length, arith, suc,
}
use congeries_core.Prelude.Eq.{string_eq}
use congeries_core.Prelude.Dict.{Dict, contains, is_subset}
use congeries_core.Prelude.Bags.{position}
use congeries_core.Runtime.Errors.{ok}
use congeries_core.Runtime.Outcome.{Outcome-ok}
use congeries_core.Workflow.Definition.{WorkflowNode, WorkflowDefinition}
use congeries_core.Workflow.Scheduler.{DeterministicScheduler, ids, new_scheduler}
use congeries_core.Workflow.Scheduler.Progress.{Acyclic, open_count}
use congeries_core.Workflow.Scheduler.Completion.{drive, drive-completes}
use congeries_core.Workflow.Validation.{ValidatedWorkflow, entry_of, id_of, nodes_of, validate}
use congeries_core.Workflow.Validation.Nodes.{WorkflowValidator}
use congeries_core.Workflow.Validation.Order.Loop.{source_known}
use congeries_core.Workflow.Validation.Entries.{ids-nodes_of}
use congeries_core.Workflow.Validation.Accepted.{Accepted}
use congeries_core.Workflow.Validation.Whole.{validate-Accepted}

module _ {J : Type 0} where
  -- The scheduler of a definition, before any node is completed.
  abbrev started : WorkflowDefinition J → DeterministicScheduler (WorkflowNode J)
  started d = record { nodes = nodes_of d; completed = []; dependencies = d.dependencies }

  started_lem :
      (d : WorkflowDefinition J)
      → new_scheduler (map entry_of d.nodes) d.dependencies [] ≡ ok (started d)
  unfolding new_scheduler nodes_of is_subset
  started_lem d = refl

  open_count_bound :
      (nodes : Dict String (WorkflowNode J)) (completed : List String)
      → open_count nodes completed ≤ length (ids nodes)
  open_count_bound [] completed = omega arith
  open_count_bound ((id, node) ∷ rest) completed = ground (arith, open_count_bound rest completed)

  length-ids : (nodes : List (WorkflowNode J)) → length (map id_of nodes) ≡ length nodes
  length-ids [] = refl
  length-ids (node ∷ rest) = ap suc (length-ids rest)

  -- The positions in the topological order are a rank.
  started-Acyclic :
      (d : WorkflowDefinition J) (order : List String)
      → Accepted d order
      → Acyclic (started d) (position order)
  started-Acyclic d order a = record {
    grows = λ id source above. a.topological.sorted id source above;
    known = λ id source above.
        ap (λ l. contains l source) (ids-nodes_of d a.once)
        ∙ (source_known (map id_of d.nodes) d.dependencies id source a.known above).1;
  }

  -- The nodes and dependencies of a definition that `validate` accepts make a scheduler, and driven
  -- as often as there are nodes it raises nothing and completes every node of the definition.
  pub validate-drives :
      (v : WorkflowValidator J) (d : WorkflowDefinition J) (w : ValidatedWorkflow J)
      → validate v d ≡ ok w
      → (s : DeterministicScheduler (WorkflowNode J)) × (new_scheduler
            (map entry_of d.nodes)
            d.dependencies
            []
          ≡ ok s)
        × (after : DeterministicScheduler (WorkflowNode J)) × (drive (length d.nodes) s ≡ ok after)
        × (is_subset (map id_of d.nodes) after.completed ≡ true)
  validate-drives v d w e =
      let (same, a) = Outcome-ok (validate-Accepted v d) e in
      let keys = ids-nodes_of d a.once in
      let (after, runs, all) =
        drive-completes (length d.nodes) (started d) (position w.topological_order)
          (started-Acyclic d w.topological_order a)
          (omega (arith, open_count_bound (nodes_of d) [], ap length keys, length-ids d.nodes)) in
      (
        started d,
        started_lem d,
        after,
        runs,
        ap (λ l. is_subset l after.completed) (sym keys) ∙ all,
      )
