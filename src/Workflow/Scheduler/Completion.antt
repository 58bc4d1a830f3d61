-- ===== src/Workflow/Scheduler/Completion.antt =====
-- A Workflow that is driven to its end.
use congeries_core.Prelude.{
  ℕ, zero, suc, ◌≤◌, String, ◌≡◌, refl, ◌&&◌, sym, ap, ◌∙◌, true, false, Option, none, some, List,
  [], ◌∷◌, arith, Bool-cases, Option-cases, inl, inr,
}
use congeries_core.Prelude.Eq.{◌==◌, string_eq, ==_iff, ==_refl}
use congeries_core.Prelude.Dict.{Dict, contains, add, is_subset, is_subset_iff}
use congeries_core.Runtime.Errors.{Result, ok, ◌>>=◌}
use congeries_core.Workflow.Scheduler.{
  DeterministicScheduler, ids, first_of, is_ready, ready, next, mark_completed,
}
use congeries_core.Workflow.Scheduler.Progress.{
  Acyclic, contains-ready, mark_ready, next-progresses, open_count, open_count-add,
}

module _ {N : Type 0} where
  -- The loop around the scheduler: as long as `next` offers a node, report it as completed.
  abbrev pub report :
      DeterministicScheduler N
      → (DeterministicScheduler N → Result (DeterministicScheduler N))
      → Option (String × N)
      → Result (DeterministicScheduler N)
  report s rest none = ok s
  report s rest (some entry) = mark_completed s entry.0 >>= rest

  unfoldable pub drive : ℕ → DeterministicScheduler N → Result (DeterministicScheduler N)
  drive zero s = ok s
  drive (suc n) s = report s (drive n) (next s)

  none_open :
      (nodes : Dict String N) (completed : List String) (id : String)
      → open_count nodes completed ≤ 0
      → contains (ids nodes) id ≡ true
      → contains completed id ≡ true
  unfolding contains
  none_open [] completed id low h = cc
  none_open ((k, node) ∷ rest) completed id low h =
      let same = λ (e : (k == id) ≡ true). ap (contains completed) ((==_iff k id).0 e) in
      elim (Bool-cases (k == id)) [
        | inl hit ↦ sym (same hit) ∙ ground arith
        | inr miss ↦ none_open rest completed id (ground arith) (rw miss at h)
      ]

  first_in :
      (nodes : Dict String N) (entry : String × N)
      → first_of nodes ≡ some entry
      → contains (ids nodes) entry.0 ≡ true
  unfolding contains
  first_in [] entry h = cc
  first_in (first ∷ rest) entry h =
      rw (ap (λ (o : Option (String × N)). id_or first o) h) (rw (==_refl entry.0) refl)
    where
      id_or : String × N → Option (String × N) → String
      id_or d none = d.0
      id_or d (some e) = e.0

  -- What `next` offers is accepted and was not completed.
  offered :
      (s : DeterministicScheduler N) (entry : String × N)
      → next s ≡ some entry
      → (mark_completed s entry.0 ≡ ok (record s { completed = add s.completed entry.0 }))
        × (contains s.completed entry.0 ≡ false)
        × (contains (ids s.nodes) entry.0 ≡ true)
  unfolding next is_ready
  offered s entry e =
      let inside = first_in (ready s) entry e in
      let both : (contains (ids s.nodes) entry.0 && is_ready s entry.0) ≡ true =
        sym (contains-ready s entry.0) ∙ inside in
      (
        mark_ready s entry.0 (ground (arith, both)) inside,
        ground (arith, both),
        ground (arith, both),
      )

  -- However the nodes of an acyclic Workflow are listed: driven at least as often as there are nodes
  -- that are not completed, the scheduler raises nothing and completes every node.
  pub drive-completes :
      (n : ℕ) (s : DeterministicScheduler N) (rank : String → ℕ)
      → Acyclic s rank
      → open_count s.nodes s.completed ≤ n
      → (after : DeterministicScheduler N) × (drive n s ≡ ok after)
        × (is_subset (ids s.nodes) after.completed ≡ true)
  unfolding drive
  drive-completes zero s rank acyclic enough = (
    s,
    refl,
    (is_subset_iff (ids s.nodes) s.completed).1
        (λ id known. none_open s.nodes s.completed id enough known),
  )
  drive-completes (suc n) s rank acyclic enough = elim (Option-cases (next s)) [
    | inl e ↦ (
      s,
      rw e refl,
      (is_subset_iff (ids s.nodes) s.completed).1 (λ id known. all_done e id known),
    )
    | inr (entry, e) ↦
        let (marked, new, inside) = offered s entry e in
        let after = record s { completed = add s.completed entry.0 } in
        let fewer = open_count-add s.nodes s.completed entry.0 inside new in
        let (final, runs, all) =
          drive-completes n after rank (record { grows = acyclic.grows; known = acyclic.known })
            (omega (arith, enough, fewer)) in
        (final, rw (e, marked) runs, all)
  ]
    where
      all_done :
          next s ≡ none
          → (id : String) → contains (ids s.nodes) id ≡ true
          → contains s.completed id ≡ true
      all_done e id known = elim (Bool-cases (contains s.completed id)) [
        | inl finished ↦ finished
        | inr open_node ↦ cc (e, (next-progresses s rank id acyclic known open_node).1)
      ]
