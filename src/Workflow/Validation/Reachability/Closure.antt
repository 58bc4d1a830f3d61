-- ===== src/Workflow/Validation/Reachability/Closure.antt =====
-- The passes end with all nodes that a walk reaches, and no others.
use congeries_core.Prelude.{
  ℕ, zero, suc, ◌≤◌, ◌<◌, String, ◌≡◌, refl, ◌∙◌, ◌↔◌, Bool, true, false, not, ◌&&◌, List, [], ◌∷◌,
  length, arith, if◌then◌else◌, Bool-cases, inl, inr, subst,
}
use congeries_core.Prelude.Eq.{string_eq, ==_iff, ==_refl}
use congeries_core.Prelude.Dict.{contains, add, contains-add}
use congeries_core.Prelude.Bags.{
  has_duplicates, missing_count, missing_count-add, missing_count_bound, contains_same,
}
use congeries_core.Workflow.Definition.{WorkflowDependency}
use congeries_core.Workflow.Scheduler.{sources_of}
use congeries_core.Workflow.Validation.Order.Linking.{Known}
use congeries_core.Workflow.Validation.Reachability.{one_pass, passes, reachable_from}

-- The walks along dependencies from a set of nodes.
pub data Reaches (dependencies : List WorkflowDependency) (start : List String)
    : String → Type 0 where
  begin : {id : String} → contains start id ≡ true → Reaches dependencies start id
  along :
      {source id : String}
      → Reaches dependencies start source
      → contains (sources_of dependencies id) source ≡ true
      → Reaches dependencies start id

-- A set that no dependency leads out of.
abbrev Closed : List WorkflowDependency → List String → Type 0
Closed dependencies reachable =
    (id source : String)
    → contains (sources_of dependencies id) source ≡ true
    → contains reachable source ≡ true
    → contains reachable id ≡ true

-- What a pass does to a set within the nodes, for the dependencies that it went through.
record Passed (nodes : List String) (dependencies : List WorkflowDependency) (before : List String)
    (changed : Bool) (after : List String × Bool) : Type 0 where
  grows : (id : String) → contains before id ≡ true → contains after.0 id ≡ true
  fewer : missing_count nodes after.0 ≤ missing_count nodes before
  strict :
      changed ≡ false → after.1 ≡ true → missing_count nodes after.0 < missing_count nodes before
  keeps : changed ≡ true → after.1 ≡ true
  still : after.1 ≡ false → after.0 ≡ before
  closed : after.1 ≡ false → Closed dependencies before

one_pass-Passed :
    (nodes : List String) (dependencies : List WorkflowDependency) (reachable : List String)
    (changed : Bool)
    → has_duplicates nodes ≡ false
    → Known nodes dependencies
    → Passed nodes dependencies reachable changed (one_pass dependencies reachable changed)
unfolding one_pass sources_of contains
one_pass-Passed nodes [] reachable changed once known = record {
  grows = λ id h. h;
  fewer = omega arith;
  strict = λ no yes. cc;
  keeps = λ h. h;
  still = λ h. refl;
  closed = λ h id source above. cc;
}
one_pass-Passed nodes (d ∷ rest) reachable changed once known =
    elim (Bool-cases
      (contains reachable d.source_node_id && not (contains reachable d.target_node_id))) [
        | inl new ↦
            let later =
              one_pass-Passed nodes rest (add reachable d.target_node_id) true once
                (ground arith) in
            let less =
              missing_count-add nodes reachable d.target_node_id once (ground arith)
                (ground arith) in
            rw new (record {
              grows = λ id h.
                  later.grows id (contains-add reachable d.target_node_id id ∙ rw h (ground arith));
              fewer = omega (arith, later.fewer, less);
              strict = λ no yes. omega (arith, later.fewer, less);
              keeps = λ h. later.keeps refl;
              still = λ h. cc (later.keeps refl, h);
              closed = λ h. cc (later.keeps refl, h);
            })
        | inr old ↦
            let later = one_pass-Passed nodes rest reachable changed once (ground arith) in
            rw old (record {
              grows = later.grows;
              fewer = later.fewer;
              strict = later.strict;
              keeps = later.keeps;
              still = later.still;
              closed = λ h id source above inside. ground (
                arith,
                above,
                later.closed h id source,
                contains_same reachable d.source_node_id source,
                contains_same reachable d.target_node_id id,
              );
            })
      ]

-- A pass adds only what a walk reaches.
one_pass_sound :
    (dependencies rest : List WorkflowDependency) (start reachable : List String) (changed : Bool)
    → ((id source : String)
        → contains (sources_of rest id) source ≡ true
        → contains (sources_of dependencies id) source ≡ true)
    → ((id : String) → contains reachable id ≡ true → Reaches dependencies start id)
    → (id : String) → contains (one_pass rest reachable changed).0 id ≡ true
    → Reaches dependencies start id
unfolding one_pass sources_of contains
one_pass_sound dependencies [] start reachable changed edges walked id h = walked id h
one_pass_sound dependencies (d ∷ rest) start reachable changed edges walked id h =
    let later_edges = λ (j source : String) (above : contains (sources_of rest j) source ≡ true).
      edges j source (ground (arith, above)) in
    let new = contains reachable d.source_node_id && not (contains reachable d.target_node_id) in
    one_pass_sound dependencies rest start
      (if new then add reachable d.target_node_id else reachable) (if new then true else changed)
      later_edges
      (λ j there. elim (Bool-cases (contains reachable j)) [
        | inl old ↦ walked j old
        | inr added ↦
            subst (Reaches dependencies start)
              ((==_iff d.target_node_id j).0
                (ground (arith, there, contains-add reachable d.target_node_id j)))
              (along (walked d.source_node_id (ground (arith, there))) (
                edges d.target_node_id d.source_node_id
                  (ground (arith, ==_refl d.target_node_id, ==_refl d.source_node_id))))
      ])
      id h

-- What the rounds come to: the start and all that walks reach from there.
record Reached (dependencies : List WorkflowDependency) (before after : List String) : Type 0 where
  grows : (id : String) → contains before id ≡ true → contains after id ≡ true
  closed : Closed dependencies after
  sound : (id : String) → contains after id ≡ true → Reaches dependencies before id

Reaches_trans :
    (dependencies : List WorkflowDependency) (start middle : List String)
    → ((id : String) → contains middle id ≡ true → Reaches dependencies start id)
    → {id : String} → Reaches dependencies middle id
    → Reaches dependencies start id
Reaches_trans dependencies start middle walked (begin h) = walked _ h
Reaches_trans dependencies start middle walked (along path above) =
    along (Reaches_trans dependencies start middle walked path) above

passes-Reached :
    (nodes : List String) (dependencies : List WorkflowDependency) (rounds : ℕ)
    (reachable : List String)
    → has_duplicates nodes ≡ false
    → Known nodes dependencies
    → missing_count nodes reachable < rounds
    → Reached dependencies reachable (passes dependencies rounds reachable)
unfolding passes
passes-Reached nodes dependencies zero reachable once known enough = absurd (omega arith)
passes-Reached nodes dependencies (suc rounds) reachable once known enough =
    let p = one_pass-Passed nodes dependencies reachable false once known in
    let after = one_pass dependencies reachable false in
    elim (Bool-cases after.1) [
      | inl more ↦
          let r =
            passes-Reached nodes dependencies rounds after.0 once known
              (omega (arith, p.strict refl more)) in
          rw more (record {
            grows = λ id h. r.grows id (p.grows id h);
            closed = r.closed;
            sound = λ id h.
                Reaches_trans dependencies reachable after.0
                  (λ j there.
                    one_pass_sound dependencies dependencies reachable reachable false
                      (λ i source above. above) (λ i inside. begin inside) j there)
                  (r.sound id h);
          })
      | inr stop ↦
          rw (stop, p.still stop)
            (record { grows = λ id h. h; closed = p.closed stop; sound = λ id h. begin h })
    ]

follows :
    {dependencies : List WorkflowDependency} {before after : List String} {id : String}
    → Reached dependencies before after
    → Reaches dependencies before id
    → contains after id ≡ true
follows r (begin h) = r.grows _ h
follows r (along path above) = r.closed _ _ above (follows r path)

-- For nodes without duplicates and dependencies between them: what the loop collects are exactly the
-- nodes to which dependencies lead from those it started with.
pub reachable_from_iff :
    (nodes : List String) (dependencies : List WorkflowDependency) (start : List String)
    (id : String)
    → has_duplicates nodes ≡ false
    → Known nodes dependencies
    → (contains (reachable_from dependencies nodes start) id ≡ true) ↔ Reaches dependencies start id
unfolding reachable_from
reachable_from_iff nodes dependencies start id once known =
    let r =
      passes-Reached nodes dependencies (suc (length nodes)) start once known
        (omega (arith, missing_count_bound nodes start)) in
    (r.sound id, follows r)
