-- ===== src/Workflow/Validation/Order/Rounds.antt =====
-- The rounds of the loop: the counts fall with what is taken, and every round takes a new node.
use congeries_core.Prelude.{
  ℕ, ◌+◌, ◌<◌, String, ◌≡◌, refl, ap, ◌∙◌, true, false, not, ◌&&◌, List, [], ◌∷◌, ◌++◌, length,
  arith, if◌then◌else◌, nat_beq, Bool-cases, inl, inr, all,
}
use congeries_core.Prelude.Eq.{◌==◌, string_eq, ==_iff, ==_refl}
use congeries_core.Prelude.Dict.{put, contains}
use congeries_core.Prelude.Bags.{
  has_duplicates, times, contains_same, contains-append, contains_alone, has_duplicates-append,
  missing_count, position,
}
use congeries_core.Runtime.Errors.{ok}
use congeries_core.Workflow.Definition.{WorkflowDependency}
use congeries_core.Workflow.Scheduler.{sources_of}
use congeries_core.Workflow.Validation.Order.{sort_ids, Sorting, release_one, release_all}
use congeries_core.Workflow.Validation.Order.Graph.{
  pending, contains-sort_ids, has_duplicates-sort_ids,
}
use congeries_core.Workflow.Validation.Order.Linking.{Holds, Holds-put, Holds-eq}

module _ (nodes : List String) (dependencies : List WorkflowDependency) where
  -- What still keeps a node back while the targets of the node just taken are gone through.
  abbrev pub waits : List String → Sorting → String → ℕ
  waits targets s id = pending dependencies s.order id + times targets id

  -- The state of the loops. `targets` are the targets of the last node that were not gone through.
  pub record Consistent (targets : List String) (s : Sorting) : Type 0 where
    pub counts : Holds nodes s.incoming (waits targets s)
    pub frees :
        (id : String)
        → contains s.ready id
          ≡ (contains nodes id && not (contains s.order id) && nat_beq (waits targets s id) 0)
    pub settled : (id : String) → contains s.order id ≡ true → waits targets s id ≡ 0
    pub known : (id : String) → contains s.order id ≡ true → contains nodes id ≡ true
    pub ready_once : has_duplicates s.ready ≡ false
    pub order_once : has_duplicates s.order ≡ false
    pub size : length s.order + missing_count nodes s.order ≡ length nodes
    pub sorted :
        (id source : String)
        → contains s.order id ≡ true
        → contains (sources_of dependencies id) source ≡ true
        → position s.order source < position s.order id

  -- One target is gone through.
  abbrev released : Sorting → String → ℕ → Sorting
  released s target left = record s {
    incoming = put s.incoming target left;
    ready = if nat_beq left 0 then sort_ids (s.ready ++ target ∷ []) else s.ready;
  }

  released-frees :
      (target : String) (rest : List String) (s : Sorting)
      → contains nodes target ≡ true
      → Consistent (target ∷ rest) s
      → (id : String)
      → contains (released s target (waits rest s target)).ready id
        ≡ (contains nodes id && not (contains s.order id) && nat_beq (waits rest s id) 0)
  released-frees target rest s inside c id = elim (Bool-cases (target == id)) [
    | inl hit ↦
        let e : target ≡ id = (==_iff target id).0 hit in
        ground (
          arith,
          c.frees id,
          c.settled id,
          contains_same nodes target id hit,
          ap (waits rest s) e,
          contains-sort_ids (s.ready ++ target ∷ []) id,
          contains-append s.ready (target ∷ []) id,
          contains_alone target id,
        )
    | inr miss ↦ ground (
      arith,
      c.frees id,
      contains-sort_ids (s.ready ++ target ∷ []) id,
      contains-append s.ready (target ∷ []) id,
      contains_alone target id,
    )
  ]

  released-once :
      (target : String) (rest : List String) (s : Sorting)
      → Consistent (target ∷ rest) s
      → has_duplicates (released s target (waits rest s target)).ready ≡ false
  released-once target rest s c = ground (
    arith,
    c.ready_once,
    c.frees target,
    ==_refl target,
    has_duplicates-sort_ids (s.ready ++ target ∷ []),
    has_duplicates-append s.ready target,
  )

  released-Consistent :
      (target : String) (rest : List String) (s : Sorting)
      → contains nodes target ≡ true
      → Consistent (target ∷ rest) s
      → Consistent rest (released s target (waits rest s target))
  released-Consistent target rest s inside c = record {
    counts =
        Holds-eq nodes _ _ _ (Holds-put nodes s.incoming _ target (waits rest s target) c.counts)
          (λ id. elim (Bool-cases (target == id)) [
            | inl hit ↦ rw hit (ap (waits rest s) ((==_iff target id).0 hit))
            | inr miss ↦ rw miss (omega arith)
          ]);
    frees = released-frees target rest s inside c;
    settled = λ id taken. omega (arith, c.settled id taken);
    known = c.known;
    ready_once = released-once target rest s c;
    order_once = c.order_once;
    size = c.size;
    sorted = c.sorted;
  }

  release_one-Consistent :
      (target : String) (rest : List String) (s : Sorting)
      → contains nodes target ≡ true
      → Consistent (target ∷ rest) s
      → (after : Sorting) × (release_one s target ≡ ok after)
        × Consistent rest after
        × (after.order ≡ s.order)
  unfolding release_one
  release_one-Consistent target rest s inside c =
      let e = c.counts target inside in
      let left = waits rest s target in
      (
        released s target left,
        rw (e, ==_refl target) (ground arith),
        released-Consistent target rest s inside c,
        refl,
      )

  pub release_all-Consistent :
      (targets : List String) (s : Sorting)
      → all (contains nodes) targets ≡ true
      → Consistent targets s
      → (after : Sorting) × (release_all targets s ≡ ok after)
        × Consistent [] after
        × (after.order ≡ s.order)
  unfolding release_all
  release_all-Consistent [] s inside c = (s, refl, c, refl)
  release_all-Consistent (target ∷ rest) s inside c =
      let (next, e, c', same) = release_one-Consistent target rest s (ground arith) c in
      let (after, runs, done, kept) = release_all-Consistent rest next (ground arith) c' in
      (after, rw e runs, done, kept ∙ same)
