-- ===== src/Workflow/Scheduler.antt =====
-- src/congeries_core/workflow/scheduler.py: `DeterministicScheduler`. A node is a type `N`, with its
-- id, which is the key it stands under in `_nodes`; `_dependencies` has for each node the sources of
-- its dependencies, which are computed here where they are read.
pub mod Progress
pub mod Completion
use Prim.Native.String.{compare as text_compare}
use Prim.Native.Nat.{Ordering}
use congeries_core.Prelude.{
  ℕ, String, Bool, true, false, not, ◌&&◌, Option, none, some, List, [], ◌∷◌, length, nat_beq,
  if◌then◌else◌,
}
use congeries_core.Workflow.Definition.{WorkflowDependency}
use congeries_core.Prelude.Eq.{◌==◌, string_eq}
use congeries_core.Prelude.Dict.{Dict, put, contains, add, is_subset}
use congeries_core.Runtime.Errors.{Result, ok, err, core_error, conflict, value_error}

pub record DeterministicScheduler (N : Type 0) : Type 0 where
  pub nodes : Dict String N
  pub completed : List String
  pub dependencies : List WorkflowDependency

-- An entry of `_dependencies`.
unfoldable pub sources_of : List WorkflowDependency → String → List String
sources_of [] id = []
sources_of (d ∷ rest) id =
    let sources = sources_of rest id in
    if d.target_node_id == id then d.source_node_id ∷ sources else sources

-- Whether one id comes before another in `sorted`.
abbrev pub comes_first : String → String → Bool
comes_first a b = elim (text_compare a b) [ Ordering.gt ↦ false | _ ↦ true ]

-- `set(completed)`, after the ids that are in it already.
abbrev pub as_set : List String → List String → List String
as_set [] found = found
as_set (id ∷ rest) found = as_set rest (add found id)

module _ {N : Type 0} where
  abbrev pub ids : Dict String N → List String
  ids [] = []
  ids ((id, node) ∷ rest) = id ∷ ids rest

  -- `{item.node_id: item for item in nodes}`
  unfoldable pub by_id : List (String × N) → Dict String N → Dict String N
  by_id [] nodes = nodes
  by_id ((id, node) ∷ rest) nodes = by_id rest (put nodes id node)

  unfoldable pub insert_sorted : String × N → Dict String N → Dict String N
  insert_sorted entry [] = entry ∷ []
  insert_sorted entry (next ∷ rest) =
      let later = insert_sorted entry rest in
      if comes_first entry.0 next.0 then entry ∷ next ∷ rest else next ∷ later

  -- `sorted(self._nodes, key=...)`, with the nodes.
  unfoldable pub sort_entries : Dict String N → Dict String N
  unfolding insert_sorted
  sort_entries [] = []
  sort_entries (entry ∷ rest) = insert_sorted entry (sort_entries rest)

  -- The constructor.
  unfoldable pub new_scheduler :
      List (String × N) → List WorkflowDependency → List String → Result (DeterministicScheduler N)
  unfolding by_id
  new_scheduler nodes dependencies completed =
      let done_before = as_set completed [] in
      if is_subset done_before (ids (by_id nodes []))
      then ok
          (record { nodes = by_id nodes []; completed = done_before; dependencies = dependencies })
      else err (value_error "scheduler completed set contains an unknown node")

  unfoldable pub is_ready : DeterministicScheduler N → String → Bool
  unfolding sources_of
  is_ready s id =
      not (contains s.completed id) && is_subset (sources_of s.dependencies id) s.completed

  unfoldable pub select : (String → Bool) → Dict String N → Dict String N
  select test [] = []
  select test ((id, node) ∷ rest) =
      let selected = select test rest in if test id then (id, node) ∷ selected else selected

  unfoldable pub ready : DeterministicScheduler N → Dict String N
  unfolding select is_ready sort_entries
  ready s = select (is_ready s) (sort_entries s.nodes)

  abbrev pub first_of : Dict String N → Option (String × N)
  first_of [] = none
  first_of (entry ∷ rest) = some entry

  unfoldable pub next : DeterministicScheduler N → Option (String × N)
  unfolding ready
  next s = first_of (ready s)

  unfoldable pub mark_completed :
      DeterministicScheduler N → String → Result (DeterministicScheduler N)
  unfolding ready
  mark_completed s id =
      if contains s.completed id
      then ok s
      else if not (contains (ids (ready s)) id)
      then err (
          core_error conflict "workflow_node_not_ready"
            "Workflow node dependencies are not stably completed")
      else ok (record s { completed = add s.completed id })

  abbrev pub is_pending : DeterministicScheduler N → String → Bool
  is_pending s id = not (contains s.completed id)

  unfoldable pub pending_nodes : DeterministicScheduler N → List String
  unfolding select sort_entries
  pending_nodes s = ids (select (is_pending s) (sort_entries s.nodes))

  unfoldable pub done : DeterministicScheduler N → Bool
  done s = nat_beq (length s.completed) (length s.nodes)
