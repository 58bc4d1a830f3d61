-- ===== src/Runtime/Run/Machine/Markers.antt =====
-- src/congeries_core/runtime/run.py: `commit_checkpoint`.
use congeries_core.Prelude.{ℕ, String, not, ◌&&◌, ◌||◌, Option, none, some, or_else, if◌then◌else◌}
use congeries_core.Prelude.Eq.{◌==◌, string_eq, option_eq}
use congeries_core.Runtime.Errors.{
  Result, ok, err, core_error, retry_error, conflict, invalid_request, ◌>>◌, Raised,
}
use congeries_core.Runtime.Run.{Run, workflow_run, terminal, RunClass, agent_run, base}
use congeries_core.Runtime.Run.Machine.{RunTransition, unchanged, check_version, touch, moved}

-- `graph_version or run.graph_version`: an empty text counts as absent.
abbrev pub graph_or : Option String → String → String
graph_or none graph = graph
graph_or (some g) graph = if g == "" then graph else g

unfoldable pub commit_marker :
    Run
    → ℕ
    → String
    → String
    → Option String
    → String
    → Option String
    → Option String
    → Option String
    → Result RunTransition
commit_marker run now id graph marker checkpoint expected_previous definition target_graph =
    let to_definition = or_else definition run.definition_id in
    let to_graph = graph_or target_graph graph in
    if marker == some checkpoint && (run.definition_id == to_definition && graph == to_graph)
    then ok (unchanged run "checkpoint_commit_idempotent")
    else if not (marker == expected_previous)
    then err (
        retry_error conflict "stale_checkpoint_marker"
          "WorkflowRun checkpoint marker does not match the expected reference")
    else moved run
        (record (touch run now) {
          definition_id = to_definition;
          class = workflow_run id to_graph (some checkpoint);
        })
        (if not (to_definition == run.definition_id) || not (to_graph == graph)
          then "checkpoint_migration_commit"
          else "checkpoint_commit")

abbrev pub only_workflow : Raised
only_workflow =
    core_error invalid_request "checkpoint_requires_workflow_run"
      "only WorkflowRun may commit a checkpoint"

-- `isinstance(run, WorkflowRun)`
unfoldable pub commit_on :
    RunClass
    → Run
    → ℕ
    → String
    → Option String
    → Option String
    → Option String
    → Result RunTransition
commit_on base run now checkpoint previous definition graph = err only_workflow
commit_on (agent_run id binding) run now checkpoint previous definition graph = err only_workflow
commit_on (workflow_run id graph marker) run now checkpoint previous definition target_graph =
    if terminal run.status
    then err (
        core_error conflict "terminal_checkpoint_commit"
          "terminal WorkflowRun cannot advance its checkpoint marker")
    else commit_marker run now id graph marker checkpoint previous definition target_graph

unfoldable pub commit_checkpoint :
    Run → ℕ → ℕ → String → Option String → Option String → Option String → Result RunTransition
unfolding commit_on
commit_checkpoint run expected now checkpoint previous definition graph = do
  check_version run expected
  commit_on run.class run now checkpoint previous definition graph
