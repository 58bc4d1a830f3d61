-- ===== src/Workflow/Validation/Order/Sorted.antt =====
-- What the loop took is a topological order, unless there is a cycle.
use congeries_core.Prelude.{
  ℕ, zero, suc, ◌+◌, ◌<◌, String, ◌≡◌, refl, sym, ap, ◌∙◌, true, false, not, ◌&&◌, some, List, [],
  length, arith, nat_beq, Bool-cases, inl, inr, Option, is_some, none,
}
use congeries_core.Prelude.Eq.{string_eq}
use congeries_core.Prelude.Dict.{Dict, get, contains}
use congeries_core.Prelude.Bags.{
  has_duplicates, missing_count-nil, none_missing, nothing_missing, position, nothing_missing,
}
use congeries_core.Runtime.Errors.{Raised, ok}
use congeries_core.Runtime.Outcome.{Outcome, answers, raises}
use congeries_core.Workflow.Definition.{WorkflowDependency}
use congeries_core.Workflow.Scheduler.{sources_of, ids}
use congeries_core.Workflow.Validation.Order.{
  sort_ids, invalid, for_each, free_ids, Sorting, take_all, topological_order,
}
use congeries_core.Workflow.Validation.Order.Graph.{
  pending, pending-some, contains-sort_ids, has_duplicates-sort_ids,
}
use congeries_core.Workflow.Validation.Order.Linking.{
  Holds, Holds-eq, Known, Linked, link-Linked, contains-free_ids, has_duplicates-free_ids,
  ids-for_each, get-for_each, get_some_iff, is_zero,
}
use congeries_core.Workflow.Validation.Order.Rounds.{Consistent, waits}
use congeries_core.Workflow.Validation.Order.Loop.{take_all_ends, source_known}

-- A topological order: every node once, after all its sources.
pub record IsTopological (nodes : List String) (dependencies : List WorkflowDependency)
    (order : List String) : Type 0 where
  pub once : has_duplicates order ≡ false
  pub complete : (id : String) → contains order id ≡ contains nodes id
  pub sorted :
      (id source : String)
      → contains (sources_of dependencies id) source ≡ true
      → position order source < position order id

-- A rank that grows along every dependency, so that there is no cycle.
abbrev pub Grows : List WorkflowDependency → (String → ℕ) → Type 0
Grows dependencies rank =
    (id source : String)
    → contains (sources_of dependencies id) source ≡ true
    → rank source < rank id

abbrev pub cycle_error : Raised
cycle_error = invalid "workflow_cycle" "Workflow dependencies contain a cycle"

module _ (nodes : List String) (dependencies : List WorkflowDependency)
    (once : has_duplicates nodes ≡ false) (known : Known nodes dependencies) where
  -- At the end, what was not taken waits for something that was not taken.
  left_behind :
      (s : Sorting) (rank : String → ℕ) (bound : ℕ) (id : String)
      → Consistent nodes dependencies [] s
      → s.ready ≡ []
      → Grows dependencies rank
      → rank id < bound
      → contains nodes id ≡ true
      → contains s.order id ≡ true
  unfolding contains
  left_behind s rank zero id c empty grows low inside = absurd (omega (arith, low))
  left_behind s rank (suc bound) id c empty grows low inside =
      elim (Bool-cases (contains s.order id)) [
        | inl taken ↦ taken
        | inr new ↦
            let stays : false ≡ (
                contains nodes id
                && not (contains s.order id)
                && nat_beq (waits nodes dependencies [] s id) 0) =
              sym (ap (λ l. contains l id) empty) ∙ c.frees id in
            let (source, above, waiting) =
              pending-some dependencies s.order id (ground (arith, stays, inside, new)) in
            let found =
              left_behind s rank bound source c empty grows (omega (arith, grows id source above))
                (source_known nodes dependencies id source known above).1 in
            absurd (cc (found, waiting))
      ]

  abbrev before_loop : Dict String ℕ → Sorting
  before_loop incoming = record {
    incoming = incoming;
    ready = sort_ids (free_ids incoming);
    order = [];
  }

  start-frees :
      (incoming : Dict String ℕ)
      → Holds nodes incoming (pending dependencies [])
      → ids incoming ≡ nodes
      → (id : String)
      → contains (sort_ids (free_ids incoming)) id
        ≡ (contains nodes id && true && nat_beq (pending dependencies [] id + 0) 0)
  start-frees incoming counts keys id =
      contains-sort_ids (free_ids incoming) id
      ∙ contains-free_ids incoming id (ap has_duplicates keys ∙ once)
      ∙ elim (Bool-cases (contains nodes id)) [
        | inl inside ↦ rw (inside, counts id inside) (ground arith)
        | inr outside ↦ rw outside (
            unheld (get incoming id)
              (get_some_iff incoming id ∙ ap (λ l. contains l id) keys ∙ outside))
      ]
    where
      unheld : (o : Option ℕ) → is_some o ≡ false → is_zero o ≡ false
      unheld none h = refl
      unheld (some n) h = cc

  start-Consistent :
      (incoming : Dict String ℕ)
      → Holds nodes incoming (pending dependencies [])
      → ids incoming ≡ nodes
      → Consistent nodes dependencies [] (before_loop incoming)
  unfolding contains
  start-Consistent incoming counts keys = record {
    counts = Holds-eq nodes incoming _ _ counts (λ id. omega arith);
    frees = λ id. start-frees incoming counts keys id;
    settled = λ id h. cc;
    known = λ id h. cc;
    ready_once =
        has_duplicates-sort_ids (free_ids incoming)
        ∙ has_duplicates-free_ids incoming (ap has_duplicates keys ∙ once);
    order_once = refl;
    size = omega (arith, missing_count-nil nodes);
    sorted = λ id source h. cc;
  }

  -- The loop from its start, after the dependencies were gone through.
  loop_ends :
      (after : Dict String ℕ × Dict String (List String))
      → Linked nodes dependencies (for_each 0 nodes) (λ id. 0) (λ id. []) after
      → (s : Sorting) × (take_all after.1 (length nodes) (before_loop after.0) ≡ ok s)
        × Consistent nodes dependencies [] s
        × (s.ready ≡ [])
  loop_ends after linked =
      take_all_ends nodes dependencies after.1 once known linked.targets (length nodes)
        (before_loop after.0)
        (start-Consistent after.0 (Holds-eq nodes after.0 _ _ linked.counts (λ id. omega arith))
          (linked.keys ∙ ids-for_each 0 nodes))
        (omega (arith, missing_count-nil nodes))

  -- What the loop took is the answer, if it took all nodes.
  end-IsTopological :
      (s : Sorting)
      → Consistent nodes dependencies [] s
      → length s.order ≡ length nodes
      → IsTopological nodes dependencies s.order
  end-IsTopological s c full =
      let all_taken = λ (id : String) (inside : contains nodes id ≡ true).
        none_missing nodes s.order id (omega (arith, c.size, full)) inside in
      record {
        once = c.order_once;
        complete = λ id. ground (arith, all_taken id, c.known id);
        sorted = λ id source above.
            c.sorted id source
              (all_taken id (source_known nodes dependencies id source known above).0) above;
      }

  end_cycle :
      (s : Sorting) (rank : String → ℕ)
      → Consistent nodes dependencies [] s
      → s.ready ≡ []
      → Grows dependencies rank
      → length s.order ≡ length nodes
  end_cycle s rank c empty grows = omega (
    arith,
    c.size,
    nothing_missing nodes s.order
        (λ id inside. left_behind s rank (suc (rank id)) id c empty grows (omega arith) inside),
  )

  -- For nodes without duplicates and dependencies between them: `_topological_order` answers every
  -- node once, after all sources of its dependencies, or raises `workflow_cycle`, and then there is
  -- no rank that grows along all dependencies. It raises nothing else, no KeyError either.
  pub topological_order-IsTopological :
      Outcome
        (λ e. (e ≡ cycle_error) × ((rank : String → ℕ) → ¬ Grows dependencies rank))
        (IsTopological nodes dependencies)
        (topological_order dependencies nodes)
  unfolding topological_order
  topological_order-IsTopological =
      let (after, e, linked) =
        link-Linked nodes dependencies (for_each 0 nodes) (for_each [] nodes) (λ id. 0) (λ id. [])
          known (λ id inside. get-for_each 0 nodes id inside)
          (λ id inside. get-for_each [] nodes id inside) in
      let (s, runs, c, empty) = loop_ends after linked in
      rw (e, runs)
        (elim (Bool-cases (nat_beq (length s.order) (length nodes))) [
          | inl full ↦ rw full (answers (end-IsTopological s c (ground arith)))
          | inr short ↦
              rw short (raises (refl, λ rank grows. ground (arith, end_cycle s rank c empty grows)))
        ])
