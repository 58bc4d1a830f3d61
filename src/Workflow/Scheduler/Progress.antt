-- ===== src/Workflow/Scheduler/Progress.antt =====
-- The scheduler respects the dependencies and does not get stuck.
use congeries_core.Prelude.{
  ℕ, zero, suc, ◌+◌, ◌≤◌, ◌<◌, String, ◌≡◌, refl, sym, ap, ◌∙◌, inl, inr, Bool, true, false, not,
  ◌&&◌, ◌||◌, some, List, [], ◌∷◌, arith, if◌then◌else◌, Bool-cases,
}
use congeries_core.Prelude.Eq.{◌==◌, string_eq, ==_iff, ==_refl}
use congeries_core.Prelude.Dict.{Dict, contains, add, is_subset, is_subset_iff, contains-add}
use congeries_core.Runtime.Errors.{ok}
use congeries_core.Runtime.Outcome.{Outcome, answers, raises, Any, Outcome-if, Outcome-ok}
use congeries_core.Workflow.Scheduler.{
  DeterministicScheduler, sources_of, ids, insert_sorted, sort_entries, is_ready, select, ready,
  first_of, next, mark_completed, comes_first,
}

missing :
    (xs ys : List String)
    → is_subset xs ys ≡ false
    → (x : String) × (contains xs x ≡ true) × (contains ys x ≡ false)
unfolding is_subset contains
missing [] ys h = cc
missing (x ∷ xs) ys h = elim (Bool-cases (contains ys x)) [
  | inl there ↦
      let (y, inside, outside) = missing xs ys (rw there at h) in
      (y, ground (arith, inside), outside)
  | inr absent ↦ (x, ground (arith, ==_refl x), absent)
]

subset_add :
    (xs ys : List String) (y : String) → is_subset xs ys ≡ true → is_subset xs (add ys y) ≡ true
subset_add xs ys y h =
    (is_subset_iff xs (add ys y)).1
      (λ x inside. contains-add ys y x ∙ rw ((is_subset_iff xs ys).0 h x inside) (ground arith))

module _ {N : Type 0} where
  contains-insert_sorted :
      (entry : String × N) (nodes : Dict String N) (id : String)
      → contains (ids (insert_sorted entry nodes)) id ≡ (entry.0 == id || contains (ids nodes) id)
  unfolding insert_sorted contains
  contains-insert_sorted entry [] id = refl
  contains-insert_sorted entry (first ∷ rest) id = elim (Bool-cases (comes_first entry.0 first.0)) [
    | inl before ↦ rw before refl
    | inr after ↦ rw after (ground (arith, contains-insert_sorted entry rest id))
  ]

  contains-sort_entries :
      (nodes : Dict String N) (id : String)
      → contains (ids (sort_entries nodes)) id ≡ contains (ids nodes) id
  unfolding sort_entries contains
  contains-sort_entries [] id = refl
  contains-sort_entries ((k, n) ∷ rest) id =
      contains-insert_sorted (k, n) (sort_entries rest) id
      ∙ ap (λ b. k == id || b) (contains-sort_entries rest id)

  contains-select :
      (test : String → Bool) (nodes : Dict String N) (id : String)
      → contains (ids (select test nodes)) id ≡ (contains (ids nodes) id && test id)
  unfolding select contains
  contains-select test [] id = refl
  contains-select test ((k, n) ∷ rest) id =
      let same = λ (h : (k == id) ≡ true). ap test ((==_iff k id).0 h) in
      elim (Bool-cases (test k)) [
        | inl passes ↦ rw passes (ground (arith, contains-select test rest id, same, passes))
        | inr fails ↦ rw fails (ground (arith, contains-select test rest id, same, fails))
      ]

  -- The ready nodes are the nodes that pass the test.
  pub contains-ready :
      (s : DeterministicScheduler N) (id : String)
      → contains (ids (ready s)) id ≡ (contains (ids s.nodes) id && is_ready s id)
  unfolding ready
  contains-ready s id =
      contains-select (is_ready s) (sort_entries s.nodes) id
      ∙ ap (λ b. b && is_ready s id) (contains-sort_entries s.nodes id)

  -- The graph has no cycle and no loose end: along a dependency a rank grows, and its source is one of
  -- the nodes.
  pub record Acyclic (s : DeterministicScheduler N) (rank : String → ℕ) : Type 0 where
    pub grows :
        (id source : String)
        → contains (sources_of s.dependencies id) source ≡ true
        → rank source < rank id
    pub known :
        (id source : String)
        → contains (sources_of s.dependencies id) source ≡ true
        → contains (ids s.nodes) source ≡ true

  -- Below every node that is not completed there is one that is ready.
  ready_below :
      (bound : ℕ) (s : DeterministicScheduler N) (rank : String → ℕ) (id : String)
      → Acyclic s rank
      → rank id < bound
      → contains (ids s.nodes) id ≡ true
      → contains s.completed id ≡ false
      → (other : String) × (contains (ids (ready s)) other ≡ true)
  unfolding is_ready
  ready_below zero s rank id acyclic low known open_node = absurd (omega (arith, low))
  ready_below (suc bound) s rank id acyclic low known open_node =
      elim (Bool-cases (is_subset (sources_of s.dependencies id) s.completed)) [
        | inl free ↦ (id, contains-ready s id ∙ rw (known, open_node, free) refl)
        | inr waits ↦
            let (source, above, open_source) = missing _ s.completed waits in
            ready_below bound s rank source acyclic
              (omega (arith, acyclic.grows id source above, low)) (acyclic.known id source above)
              open_source
      ]

  first_there :
      (nodes : Dict String N) (id : String)
      → contains (ids nodes) id ≡ true
      → (entry : String × N) × (first_of nodes ≡ some entry) × (contains (ids nodes) entry.0 ≡ true)
  unfolding contains
  first_there [] id h = cc
  first_there (entry ∷ rest) id h = (entry, refl, rw (==_refl entry.0) refl)

  pub mark_ready :
      (s : DeterministicScheduler N) (id : String)
      → is_ready s id ≡ true
      → contains (ids (ready s)) id ≡ true
      → mark_completed s id ≡ ok (record s { completed = add s.completed id })
  unfolding mark_completed is_ready
  mark_ready s id passes there = elim (Bool-cases (contains s.completed id)) [
    | inl before ↦ cc (rw before at passes)
    | inr new ↦ rw (new, there) refl
  ]

  -- While a node of an acyclic Workflow is not completed, `next` offers a node, which is a node of the
  -- Workflow, is not completed, has all its sources completed, and `mark_completed` accepts it.
  pub next-progresses :
      (s : DeterministicScheduler N) (rank : String → ℕ) (id : String)
      → Acyclic s rank
      → contains (ids s.nodes) id ≡ true
      → contains s.completed id ≡ false
      → (entry : String × N) × (next s ≡ some entry)
        × (contains (ids s.nodes) entry.0 ≡ true)
        × (is_ready s entry.0 ≡ true)
        × (mark_completed s entry.0 ≡ ok (record s { completed = add s.completed entry.0 }))
  unfolding next
  next-progresses s rank id acyclic known open_node =
      let (other, there) =
        ready_below (suc (rank id)) s rank id acyclic (omega arith) known open_node in
      let (entry, first, inside) = first_there (ready s) other there in
      let both : (contains (ids s.nodes) entry.0 && is_ready s entry.0) ≡ true =
        sym (contains-ready s entry.0) ∙ inside in
      (
        entry,
        first,
        ground (arith, both),
        ground (arith, both),
        mark_ready s entry.0 (ground (arith, both)) inside,
      )

  -- Every completed node comes after the sources of its dependencies.
  abbrev pub InOrder : DeterministicScheduler N → Type 0
  InOrder s =
      (id : String)
      → contains s.completed id ≡ true
      → is_subset (sources_of s.dependencies id) s.completed ≡ true

  mark_completed-Outcome :
      (s : DeterministicScheduler N) (id : String)
      → InOrder s
      → Outcome Any InOrder (mark_completed s id)
  unfolding mark_completed is_ready
  mark_completed-Outcome s id ordered =
      Outcome-if (contains s.completed id) (λ _. answers ordered)
        (λ _.
          Outcome-if (not (contains (ids (ready s)) id)) (λ _. raises tt)
            (λ there.
              let both : (contains (ids s.nodes) id && is_ready s id) ≡ true =
                sym (contains-ready s id) ∙ ground (arith, there) in
              answers (λ other done.
                subset_add (sources_of s.dependencies other) s.completed id
                  (elim (Bool-cases (id == other)) [
                    | inl hit ↦
                        ap (λ k. is_subset (sources_of s.dependencies k) s.completed)
                          (sym ((==_iff id other).0 hit))
                        ∙ ground (arith, both)
                    | inr miss ↦ ordered other (ground (arith, contains-add s.completed id other))
                  ]))))

  -- Whatever node is reported as completed: when the report is accepted, every completed node still
  -- has all its sources completed, if that held before.
  pub mark_completed-InOrder :
      (s : DeterministicScheduler N) (id : String) (after : DeterministicScheduler N)
      → InOrder s
      → mark_completed s id ≡ ok after
      → InOrder after
  mark_completed-InOrder s id after ordered = Outcome-ok (mark_completed-Outcome s id ordered)

  -- How many nodes are not completed.
  abbrev pub open_count : Dict String N → List String → ℕ
  open_count [] completed = 0
  open_count ((id, node) ∷ rest) completed =
      (if contains completed id then 0 else 1) + open_count rest completed

  open_count-add_le :
      (nodes : Dict String N) (completed : List String) (x : String)
      → open_count nodes (add completed x) ≤ open_count nodes completed
  open_count-add_le [] completed x = omega arith
  open_count-add_le ((id, node) ∷ rest) completed x =
      ground (arith, contains-add completed x id, open_count-add_le rest completed x)

  pub open_count-add :
      (nodes : Dict String N) (completed : List String) (x : String)
      → contains (ids nodes) x ≡ true
      → contains completed x ≡ false
      → open_count nodes (add completed x) < open_count nodes completed
  unfolding contains
  open_count-add [] completed x h new = cc
  open_count-add ((id, node) ∷ rest) completed x h new = elim (Bool-cases (id == x)) [
    | inl hit ↦
        let same : id ≡ x = (==_iff id x).0 hit in
        ground (
          arith,
          contains-add completed x id,
          open_count-add_le rest completed x,
          ap (contains completed) same,
          (==_iff x id).1 (sym same),
        )
    | inr miss ↦
        ground
          (arith, contains-add completed x id, open_count-add rest completed x (rw miss at h) new)
  ]
