-- ===== src/Workflow/Validation/Order/Graph.antt =====
-- The edges that a dictionary of counts and one of targets stand for.
use congeries_core.Prelude.{
  ℕ, ◌+◌, ◌≤◌, String, ◌≡◌, refl, ap, ◌∙◌, true, false, not, ◌&&◌, ◌||◌, List, [], ◌∷◌, ◌++◌, arith,
  if◌then◌else◌, Bool-cases, inl, inr,
}
use congeries_core.Prelude.Eq.{◌==◌, string_eq, ==_iff, ==_refl}
use congeries_core.Prelude.Dict.{contains}
use congeries_core.Prelude.Bags.{
  has_duplicates, times, contains_same, contains-append, contains_alone,
}
use congeries_core.Workflow.Definition.{WorkflowDependency}
use congeries_core.Workflow.Scheduler.{sources_of, comes_first}
use congeries_core.Workflow.Validation.Order.{insert_id, sort_ids}

-- The targets of the dependencies of a node, in their order.
abbrev pub targets_of : List WorkflowDependency → String → List String
targets_of [] id = []
targets_of (d ∷ rest) id =
    let targets = targets_of rest id in
    if d.source_node_id == id then d.target_node_id ∷ targets else targets

-- How many dependencies of a target have a source that was not taken.
abbrev pub pending : List WorkflowDependency → List String → String → ℕ
pending [] taken id = 0
pending (d ∷ rest) taken id =
    (if d.target_node_id == id && not (contains taken d.source_node_id) then 1 else 0)
    + pending rest taken id

-- Taking a node settles just its dependencies.
pub pending-take :
    (dependencies : List WorkflowDependency) (taken : List String) (current id : String)
    → contains taken current ≡ false
    → pending dependencies taken id
      ≡ pending dependencies (taken ++ current ∷ []) id + times (targets_of dependencies current) id
pending-take [] taken current id new = omega arith
pending-take (d ∷ rest) taken current id new = ground (
  arith,
  pending-take rest taken current id new,
  contains-append taken (current ∷ []) d.source_node_id,
  contains_alone current d.source_node_id,
  ==_iff current d.source_node_id,
  ==_iff d.source_node_id current,
)

pub pending-zero :
    (dependencies : List WorkflowDependency) (taken : List String) (id source : String)
    → pending dependencies taken id ≡ 0
    → contains (sources_of dependencies id) source ≡ true
    → contains taken source ≡ true
unfolding sources_of contains
pending-zero [] taken id source none_left h = cc
pending-zero (d ∷ rest) taken id source none_left h = ground (
  arith,
  pending-zero rest taken id source,
  ==_iff d.source_node_id source,
  contains_same taken d.source_node_id source,
)

-- What waits has a source that was not taken.
pub pending-some :
    (dependencies : List WorkflowDependency) (taken : List String) (id : String)
    → 1 ≤ pending dependencies taken id
    → (source : String) × (contains (sources_of dependencies id) source ≡ true)
      × (contains taken source ≡ false)
unfolding sources_of contains
pending-some [] taken id some_left = absurd (omega arith)
pending-some (d ∷ rest) taken id some_left =
    elim (Bool-cases (d.target_node_id == id && not (contains taken d.source_node_id))) [
      | inl here ↦ (d.source_node_id, ground (arith, ==_refl d.source_node_id), ground arith)
      | inr elsewhere ↦
          let (source, above, new) =
            pending-some rest taken id (omega (arith, rw elsewhere at some_left)) in
          (source, ground (arith, above), new)
    ]

contains-insert_id :
    (k : String) (ids : List String) (id : String)
    → contains (insert_id k ids) id ≡ (k == id || contains ids id)
unfolding insert_id contains
contains-insert_id k [] id = refl
contains-insert_id k (j ∷ rest) id = elim (Bool-cases (comes_first k j)) [
  | inl before ↦ rw before refl
  | inr after ↦ rw after (ground (arith, contains-insert_id k rest id))
]

pub contains-sort_ids :
    (ids : List String) (id : String) → contains (sort_ids ids) id ≡ contains ids id
unfolding sort_ids contains
contains-sort_ids [] id = refl
contains-sort_ids (k ∷ rest) id =
    contains-insert_id k (sort_ids rest) id ∙ ap (λ b. k == id || b) (contains-sort_ids rest id)

times-insert_id :
    (k : String) (ids : List String) (id : String)
    → times (insert_id k ids) id ≡ (if k == id then 1 else 0) + times ids id
unfolding insert_id
times-insert_id k [] id = refl
times-insert_id k (j ∷ rest) id = elim (Bool-cases (comes_first k j)) [
  | inl before ↦ rw before refl
  | inr after ↦ rw after (omega (arith, times-insert_id k rest id))
]

pub times-sort_ids : (ids : List String) (id : String) → times (sort_ids ids) id ≡ times ids id
unfolding sort_ids
times-sort_ids [] id = refl
times-sort_ids (k ∷ rest) id =
    omega (arith, times-insert_id k (sort_ids rest) id, times-sort_ids rest id)

has_duplicates-insert_id :
    (k : String) (ids : List String)
    → has_duplicates (insert_id k ids) ≡ (contains ids k || has_duplicates ids)
unfolding insert_id contains
has_duplicates-insert_id k [] = refl
has_duplicates-insert_id k (j ∷ rest) = elim (Bool-cases (comes_first k j)) [
  | inl before ↦ rw before refl
  | inr after ↦ rw after (
      ground (
        arith,
        has_duplicates-insert_id k rest,
        contains-insert_id k rest j,
        ==_iff k j,
        ==_iff j k,
      ))
]

pub has_duplicates-sort_ids :
    (ids : List String) → has_duplicates (sort_ids ids) ≡ has_duplicates ids
unfolding sort_ids
has_duplicates-sort_ids [] = refl
has_duplicates-sort_ids (k ∷ rest) = ground (
  arith,
  has_duplicates-insert_id k (sort_ids rest),
  has_duplicates-sort_ids rest,
  contains-sort_ids rest k,
)
