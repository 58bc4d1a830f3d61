-- ===== src/Workflow/Validation/Entries.antt =====
-- The dictionary of the nodes of a definition, whose keys are their ids.
use congeries_core.Prelude.{
  String, ◌≡◌, refl, sym, ap, ◌∙◌, Bool, true, false, ◌||◌, some, List, [], ◌∷◌, ◌++◌, map, arith,
  is_some, Option, none,
}
use mathlib.Core.List.{append_assoc, append-nil}
use congeries_core.Prelude.Eq.{◌==◌, string_eq, pair_eq, ==_iff}
use congeries_core.Prelude.Dict.{Dict, get, put, contains, get-put}
use congeries_core.Prelude.Bags.{has_duplicates, contains-append}
use congeries_core.Workflow.Definition.{WorkflowNode, WorkflowDependency, WorkflowDefinition}
use congeries_core.Workflow.Scheduler.{ids, by_id, sources_of}
use congeries_core.Workflow.Validation.{entry_of, id_of, nodes_of}
use congeries_core.Workflow.Validation.Bindings.{by_edge, is_carrying, edge_of}

no_duplicate_middle :
    (xs : List String) (k : String) (ys : List String)
    → has_duplicates (xs ++ k ∷ ys) ≡ false
    → contains xs k ≡ false
unfolding contains
no_duplicate_middle [] k ys once = refl
no_duplicate_middle (x ∷ xs) k ys once =
    ground
      (arith, no_duplicate_middle xs k ys, contains-append xs (k ∷ ys) x, ==_iff x k, ==_iff k x)

module _ {J : Type 0} where
  ids-put_new :
      (nodes : Dict String (WorkflowNode J)) (k : String) (node : WorkflowNode J)
      → contains (ids nodes) k ≡ false
      → ids (put nodes k node) ≡ ids nodes ++ k ∷ []
  unfolding put contains
  ids-put_new [] k node new = refl
  ids-put_new ((j, old) ∷ rest) k node new =
      let (apart, later) = both (j == k) (contains (ids rest) k) new in
      rw apart (ap (λ l. j ∷ l) (ids-put_new rest k node later))
    where
      both : (a b : Bool) → (a || b) ≡ false → (a ≡ false) × (b ≡ false)
      both a b h = ground arith

  ids-by_id :
      (added : List (WorkflowNode J)) (nodes : Dict String (WorkflowNode J))
      → has_duplicates (ids nodes ++ map id_of added) ≡ false
      → ids (by_id (map entry_of added) nodes) ≡ ids nodes ++ map id_of added
  unfolding by_id
  ids-by_id [] nodes once = sym (append-nil (ids nodes))
  ids-by_id (node ∷ rest) nodes once =
      let new =
        ids-put_new nodes node.node_id node
          (no_duplicate_middle (ids nodes) node.node_id (map id_of rest) once) in
      let same : ids (put nodes node.node_id node) ++ map id_of rest
          ≡ ids nodes ++ node.node_id ∷ map id_of rest =
        ap (λ l. l ++ map id_of rest) new
        ∙ append_assoc (ids nodes) (node.node_id ∷ []) (map id_of rest) in
      ids-by_id rest (put nodes node.node_id node) (ap has_duplicates same ∙ once) ∙ same

  -- The keys of the dictionary are the ids, in the order of the definition.
  pub ids-nodes_of :
      (d : WorkflowDefinition J)
      → has_duplicates (map id_of d.nodes) ≡ false
      → ids (nodes_of d) ≡ map id_of d.nodes
  unfolding nodes_of
  ids-nodes_of d once = ids-by_id d.nodes [] once

-- A dependency that the dictionary of edges has is one of the definition.
by_edge-known :
    (dependencies : List WorkflowDependency) (edges : Dict (String × String) WorkflowDependency)
    (source target : String)
    → is_some (get (by_edge dependencies edges) (source, target)) ≡ true
    → (contains (sources_of dependencies target) source || is_some (get edges (source, target)))
      ≡ true
unfolding by_edge sources_of contains
by_edge-known [] edges source target h = h
by_edge-known (d ∷ rest) edges source target h = ground (
  arith,
  by_edge-known rest (put edges (edge_of d) d) source target h,
  get-put edges (edge_of d) (source, target) d,
  ==_iff (edge_of d) (source, target),
  ==_iff d.source_node_id source,
  ==_iff d.target_node_id target,
)

pub carrying_known :
    (dependencies : List WorkflowDependency) (source target : String)
    → is_carrying (get (by_edge dependencies []) (source, target)) ≡ true
    → contains (sources_of dependencies target) source ≡ true
unfolding get
carrying_known dependencies source target h = ground (
  arith,
  by_edge-known dependencies [] source target,
  there (get (by_edge dependencies []) (source, target)) h,
)
  where
    there : (o : Option WorkflowDependency) → is_carrying o ≡ true → is_some o ≡ true
    there none h = cc
    there (some d) h = refl
