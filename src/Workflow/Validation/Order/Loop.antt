-- ===== src/Workflow/Validation/Order/Loop.antt =====
-- The outer loop ends with nothing ready.
use congeries_core.Prelude.{
  ℕ, zero, suc, ◌≤◌, String, ◌≡◌, refl, sym, ap, ◌∙◌, true, false, List, [], ◌∷◌, ◌++◌, arith, inl,
  inr, ◌⊎◌,
}
use congeries_core.Prelude.Eq.{string_eq}
use congeries_core.Prelude.Dict.{Dict, contains}
use congeries_core.Prelude.Bags.{
  has_duplicates, missing_count, missing_count-append, all_of_members, contains_same,
}
use congeries_core.Runtime.Errors.{ok}
use congeries_core.Workflow.Definition.{WorkflowDependency}
use congeries_core.Workflow.Scheduler.{sources_of}
use congeries_core.Workflow.Validation.Order.{sort_ids, Sorting, take_node, take_all, pop_or_end}
use congeries_core.Workflow.Validation.Order.Graph.{targets_of, contains-sort_ids}
use congeries_core.Workflow.Validation.Order.Linking.{Holds, Known}
use congeries_core.Workflow.Validation.Order.Rounds.{Consistent, release_all-Consistent}
use congeries_core.Workflow.Validation.Order.Taking.{taking, taking-Consistent, current_free}

List-cases : (l : List String) → (l ≡ []) ⊎ ((x : String) × (rest : List String) × (l ≡ x ∷ rest))
List-cases [] = inl refl
List-cases (x ∷ rest) = inr (x, rest, refl)

target_known :
    (nodes : List String) (dependencies : List WorkflowDependency) (source id : String)
    → Known nodes dependencies
    → contains (targets_of dependencies source) id ≡ true
    → contains nodes id ≡ true
unfolding contains
target_known nodes [] source id known h = cc
target_known nodes (d ∷ rest) source id known h =
    ground (arith, target_known nodes rest source id, contains_same nodes d.target_node_id id)

-- Both ends of the dependency that a source stands for.
pub source_known :
    (nodes : List String) (dependencies : List WorkflowDependency) (id source : String)
    → Known nodes dependencies
    → contains (sources_of dependencies id) source ≡ true
    → (contains nodes id ≡ true) × (contains nodes source ≡ true)
unfolding contains sources_of
source_known nodes [] id source known h = cc
source_known nodes (d ∷ rest) id source known h = ground (
  arith,
  source_known nodes rest id source,
  contains_same nodes d.target_node_id id,
  contains_same nodes d.source_node_id source,
)

module _ (nodes : List String) (dependencies : List WorkflowDependency)
    (outgoing : Dict String (List String)) (once : has_duplicates nodes ≡ false)
    (known : Known nodes dependencies)
    (targets : Holds nodes outgoing (targets_of dependencies)) where
  take_node-Consistent :
      (s : Sorting) (current : String) (rest : List String)
      → s.ready ≡ current ∷ rest
      → Consistent nodes dependencies [] s
      → (after : Sorting) × (take_node outgoing s current rest ≡ ok after)
        × Consistent nodes dependencies [] after
        × (after.order ≡ s.order ++ current ∷ [])
  unfolding take_node
  take_node-Consistent s current rest first c =
      let free = current_free nodes dependencies s current rest first c in
      let (after, e, c', kept) =
        release_all-Consistent nodes dependencies (sort_ids (targets_of dependencies current))
          (taking nodes dependencies s current rest)
          (all_of_members (contains nodes) (sort_ids (targets_of dependencies current)) (λ id there.
            target_known nodes dependencies current id known
              (sym (contains-sort_ids (targets_of dependencies current) id) ∙ there)))
          (taking-Consistent nodes dependencies s current rest first c once) in
      (after, rw (targets current free.0) e, c', kept)

  -- Rounds for the nodes that were not taken are enough to come to the end of the loop.
  pub take_all_ends :
      (rounds : ℕ) (s : Sorting)
      → Consistent nodes dependencies [] s
      → missing_count nodes s.order ≤ rounds
      → (after : Sorting) × (take_all outgoing rounds s ≡ ok after)
        × Consistent nodes dependencies [] after
        × (after.ready ≡ [])
  unfolding take_all
  take_all_ends zero s c enough = elim (List-cases s.ready) [
    | inl empty ↦ (s, refl, c, empty)
    | inr (current, rest, first) ↦
        let free = current_free nodes dependencies s current rest first c in
        absurd (omega (arith, missing_count-append nodes s.order current once free.0 free.1))
  ]
  take_all_ends (suc rounds) s c enough = elim (List-cases s.ready) [
    | inl empty ↦ (s, ap (pop_or_end s _) empty, c, empty)
    | inr (current, rest, first) ↦
        let free = current_free nodes dependencies s current rest first c in
        let (next, e, c', grown) = take_node-Consistent s current rest first c in
        let (after, runs, done, empty) = take_all_ends rounds next c' (
          omega (
            arith,
            missing_count-append nodes s.order current once free.0 free.1,
            ap (missing_count nodes) grown,
          )) in
        (after, ap (pop_or_end s _) first ∙ rw e runs, done, empty)
  ]
