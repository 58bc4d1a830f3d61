-- ===== src/Tests/WorkflowTests.antt =====
-- Tests of workflow/scheduler.py.
use congeries_core.Prelude.{
  ℕ, ◌<◌, String, ◌≡◌, refl, sym, true, false, some, [], ◌∷◌, arith, if◌then◌else◌, Bool-cases, inl,
  inr,
}
use congeries_core.Prelude.Eq.{◌==◌, string_eq, ==_iff}
use congeries_core.Prelude.Dict.{contains, add, is_subset}
use congeries_core.Runtime.Errors.{ok}
use congeries_core.Workflow.Definition.{WorkflowDependency}
use congeries_core.Workflow.Scheduler.{
  DeterministicScheduler, sources_of, ids, is_ready, next, mark_completed, ready, select,
  sort_entries, insert_sorted,
}
use congeries_core.Workflow.Scheduler.Progress
use congeries_core.Workflow.Scheduler.Progress.{Acyclic, InOrder}
use congeries_core.Workflow.Scheduler.Completion
use congeries_core.Workflow.Scheduler.Completion.{drive}

abbrev edge : WorkflowDependency
edge = record { source_node_id = "a"; target_node_id = "b"; carries_output = false }

abbrev two_nodes : DeterministicScheduler ℕ
two_nodes = record { nodes = ("b", 2) ∷ ("a", 1) ∷ []; completed = []; dependencies = edge ∷ [] }

abbrev rank : String → ℕ
rank id = if id == "b" then 1 else 0

offers_a : next two_nodes ≡ some ("a", 1)
unfolding next ready select sort_entries insert_sorted is_ready sources_of contains is_subset ◌==◌
offers_a = refl

marks_a : mark_completed two_nodes "a" ≡ ok (record two_nodes { completed = "a" ∷ [] })
unfolding mark_completed ready select sort_entries insert_sorted is_ready sources_of contains
    is_subset add ◌==◌
marks_a = refl

one_source :
    (id source : String)
    → contains (sources_of two_nodes.dependencies id) source ≡ true
    → (id ≡ "b") × (source ≡ "a")
unfolding sources_of contains
one_source id source h = elim (Bool-cases ("b" == id)) [
  | inl hit ↦
      (sym ((==_iff "b" id).0 hit), sym ((==_iff "a" source).0 (ground (arith, rw hit at h))))
  | inr miss ↦ cc (rw miss at h)
]

two_nodes-grows :
    (id source : String)
    → contains (sources_of two_nodes.dependencies id) source ≡ true
    → rank source < rank id
unfolding ◌==◌
two_nodes-grows id source h =
    let (target, first) = one_source id source h in rw (target, first) (omega arith)

two_nodes-known :
    (id source : String)
    → contains (sources_of two_nodes.dependencies id) source ≡ true
    → contains (ids two_nodes.nodes) source ≡ true
unfolding contains ◌==◌
two_nodes-known id source h = rw ((one_source id source h).1) refl

two_nodes-Acyclic : Acyclic two_nodes rank
two_nodes-Acyclic = record { grows = two_nodes-grows; known = two_nodes-known }

nothing_done : InOrder two_nodes
unfolding contains
nothing_done id h = cc

mark_completed-InOrder_example : InOrder (record two_nodes { completed = "a" ∷ [] })
mark_completed-InOrder_example =
    Progress.mark_completed-InOrder two_nodes "a" (record two_nodes { completed = "a" ∷ [] })
      nothing_done marks_a

drive-completes_example :
    (after : DeterministicScheduler ℕ) × (drive 2 two_nodes ≡ ok after)
    × (is_subset (ids two_nodes.nodes) after.completed ≡ true)
unfolding contains
drive-completes_example =
    Completion.drive-completes 2 two_nodes rank two_nodes-Acyclic (omega arith)
