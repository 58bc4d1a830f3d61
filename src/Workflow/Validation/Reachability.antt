-- ===== src/Workflow/Validation/Reachability.antt =====
-- src/congeries_core/workflow/validation.py: the `while changed` loop of
-- `WorkflowValidator._validate_required_output`.
pub mod Closure
use congeries_core.Prelude.{
  ℕ, zero, suc, String, Bool, true, false, not, ◌&&◌, List, [], ◌∷◌, length, if◌then◌else◌,
}
use congeries_core.Prelude.Eq.{string_eq}
use congeries_core.Prelude.Dict.{contains, add}
use congeries_core.Workflow.Definition.{WorkflowDependency}

-- One pass over the dependencies: the set so far, and `changed`.
unfoldable pub one_pass : List WorkflowDependency → List String → Bool → List String × Bool
one_pass [] reachable changed = (reachable, changed)
one_pass (d ∷ rest) reachable changed =
    let new = contains reachable d.source_node_id && not (contains reachable d.target_node_id) in
    one_pass rest (if new then add reachable d.target_node_id else reachable)
      (if new then true else changed)

-- A pass that changes something reaches a new node, so one round more than nodes is enough.
unfoldable pub passes : List WorkflowDependency → ℕ → List String → List String
unfolding one_pass
passes dependencies zero reachable = reachable
passes dependencies (suc rounds) reachable =
    let after = one_pass dependencies reachable false in
    let later = passes dependencies rounds after.0 in if after.1 then later else after.0

unfoldable pub reachable_from : List WorkflowDependency → List String → List String → List String
unfolding passes
reachable_from dependencies nodes start = passes dependencies (suc (length nodes)) start
