-- ===== src/Workflow/Validation/Order/Taking.antt =====
-- A round of the outer loop: the first ready node is taken.
use congeries_core.Prelude.{
  ◌<◌, String, ◌≡◌, refl, sym, ap, subst, ◌∙◌, true, false, not, ◌&&◌, ◌||◌, List, [], ◌∷◌, ◌++◌,
  arith, nat_beq, Bool-cases, inl, inr, length-append,
}
use congeries_core.Prelude.Eq.{◌==◌, string_eq, ==_iff, ==_refl}
use congeries_core.Prelude.Dict.{contains}
use congeries_core.Prelude.Bags.{
  has_duplicates, contains_same, contains-append, contains_alone, has_duplicates-append,
  missing_count-append, position, position-inside, position-end,
}
use congeries_core.Workflow.Definition.{WorkflowDependency}
use congeries_core.Workflow.Scheduler.{sources_of}
use congeries_core.Workflow.Validation.Order.{sort_ids, Sorting}
use congeries_core.Workflow.Validation.Order.Graph.{
  targets_of, pending, pending-take, pending-zero, times-sort_ids,
}
use congeries_core.Workflow.Validation.Order.Rounds.{Consistent, waits}
use congeries_core.Workflow.Validation.Order.Linking.{Holds-eq}

module _ (nodes : List String) (dependencies : List WorkflowDependency) where
  -- A ready node that is taken: its targets are to be gone through.
  abbrev pub taking : Sorting → String → List String → Sorting
  taking s current rest = record s { ready = rest; order = s.order ++ current ∷ [] }

  module _ (s : Sorting) (current : String) (rest : List String) (first : s.ready ≡ current ∷ rest)
      (c : Consistent nodes dependencies [] s) where
    -- It is a node, was not taken and waits for nothing.
    pub current_free :
        (contains nodes current ≡ true)
        × (contains s.order current ≡ false)
        × (pending dependencies s.order current ≡ 0)
    unfolding contains
    current_free =
        let there : contains s.ready current ≡ true =
          ap (λ l. contains l current) first ∙ rw (==_refl current) refl in
        ground (arith, there, c.frees current)

    waits-taking :
        (id : String)
        → waits nodes dependencies
            (sort_ids (targets_of dependencies current))
            (taking s current rest)
            id
          ≡ waits nodes dependencies [] s id
    waits-taking id = omega (
      arith,
      pending-take dependencies s.order current id current_free.1,
      times-sort_ids (targets_of dependencies current) id,
    )

    taking-frees :
        (id : String)
        → contains rest id ≡ (
            contains nodes id
            && not (contains (s.order ++ current ∷ []) id)
            && nat_beq (waits nodes dependencies [] s id) 0)
    unfolding contains
    taking-frees id =
        let there : (current == id || contains rest id) ≡ contains s.ready id =
          sym (ap (λ l. contains l id) first) in
        let once : (contains rest current || has_duplicates rest) ≡ false =
          sym (ap has_duplicates first) ∙ c.ready_once in
        elim (Bool-cases (current == id)) [
          | inl hit ↦ ground (
            arith,
            once,
            contains_same rest current id hit,
            contains-append s.order (current ∷ []) id,
            contains_alone current id,
          )
          | inr miss ↦ ground (
            arith,
            there,
            c.frees id,
            contains-append s.order (current ∷ []) id,
            contains_alone current id,
          )
        ]

    taking-sorted :
        (id source : String)
        → contains (s.order ++ current ∷ []) id ≡ true
        → contains (sources_of dependencies id) source ≡ true
        → position (s.order ++ current ∷ []) source < position (s.order ++ current ∷ []) id
    taking-sorted id source taken above = elim (Bool-cases (contains s.order id)) [
      | inl before ↦
          let inside =
            pending-zero dependencies s.order id source (omega (arith, c.settled id before))
              above in
          omega (
            arith,
            c.sorted id source before above,
            position-inside s.order (current ∷ []) id before,
            position-inside s.order (current ∷ []) source inside,
          )
      | inr new ↦
          let e : current ≡ id = (==_iff current id).0 (
            ground (arith, contains-append s.order (current ∷ []) id, contains_alone current id)) in
          subst
            (λ x.
              contains (sources_of dependencies x) source ≡ true
              → position (s.order ++ current ∷ []) source < position (s.order ++ current ∷ []) x)
            e
            (λ up. omega (
              arith,
              position-end s.order current current_free.1,
              position-inside s.order (current ∷ []) source
                  (pending-zero dependencies s.order current source current_free.2 up),
            ))
            above
    ]

    taking-known :
        (id : String) → contains (s.order ++ current ∷ []) id ≡ true → contains nodes id ≡ true
    taking-known id taken = ground (
      arith,
      c.known id,
      contains-append s.order (current ∷ []) id,
      contains_alone current id,
      contains_same nodes current id,
      current_free.0,
    )

    taking-settled :
        (id : String)
        → contains (s.order ++ current ∷ []) id ≡ true
        → waits nodes dependencies [] s id ≡ 0
    taking-settled id taken = elim (Bool-cases (current == id)) [
      | inl hit ↦
          ap (waits nodes dependencies [] s) (sym ((==_iff current id).0 hit))
          ∙ omega (arith, current_free.2)
      | inr miss ↦
          c.settled id
            (ground (arith, contains-append s.order (current ∷ []) id, contains_alone current id))
    ]

    pub taking-Consistent :
        has_duplicates nodes ≡ false
        → Consistent nodes dependencies
            (sort_ids (targets_of dependencies current))
            (taking s current rest)
    taking-Consistent once = record {
      counts = Holds-eq nodes s.incoming _ _ c.counts (λ id. sym (waits-taking id));
      frees = λ id.
          taking-frees id
          ∙ ap
              (λ n. contains nodes id && not (contains (s.order ++ current ∷ []) id) && nat_beq n 0)
              (sym (waits-taking id));
      settled = λ id taken. waits-taking id ∙ taking-settled id taken;
      known = taking-known;
      ready_once = ground (arith, sym (ap has_duplicates first) ∙ c.ready_once);
      order_once = has_duplicates-append s.order current ∙ rw (current_free.1, c.order_once) refl;
      size = omega (
        arith,
        c.size,
        length-append s.order (current ∷ []),
        missing_count-append nodes s.order current once current_free.0 current_free.1,
      );
      sorted = taking-sorted;
    }
