-- ===== src/Runtime/Run/Create.antt =====
-- src/congeries_core/runtime/run.py: `create_root_agent_run`, `create_root_workflow_run` and
-- `create_child_agent_run`. `RunId.new()` draws a UUID: the id that it drew is an argument.
use congeries_core.Prelude.{ℕ, String, Option, none, some, [], or_else}
use congeries_core.Runtime.Errors.{Result, core_error, conflict, raise_if, ◌>>◌}
use congeries_core.Runtime.Scope.{ScopeRef, require_narrower_than}
use congeries_core.Runtime.Run.{
  Run, RunKind, agent, workflow, RunClass, agent_run, workflow_run, created, terminal,
  AuditFailureMode, SessionRef, check_run,
}

-- The fields that the factories leave at their defaults.
abbrev pub new_run :
    String
    → RunKind
    → String
    → String
    → Option String
    → String
    → Option SessionRef
    → ScopeRef
    → ℕ
    → AuditFailureMode
    → RunClass
    → Run
new_run id kind definition root parent workspace session scope now mode class = record {
  run_id = id;
  kind = kind;
  definition_id = definition;
  root_run_id = root;
  parent_run_id = parent;
  workspace_id = workspace;
  session_ref = session;
  scope = scope;
  status = created;
  attempt = 1;
  state_version = 0;
  created_at = now;
  started_at = none;
  updated_at = some now;
  ended_at = none;
  error_summary = none;
  continuation_status = none;
  attempt_history = [];
  audit_failure_mode = mode;
  class = class;
}

module _ (new_id : String) where
  unfoldable pub create_root_agent_run :
      (definition agent_id binding workspace : String) (scope : ScopeRef) (now : ℕ)
      (session : Option SessionRef) (policy : Option AuditFailureMode)
      → Result Run
  create_root_agent_run definition agent_id binding workspace scope now session policy = check_run (
      new_run new_id agent definition new_id none workspace session scope now
        (or_else policy AuditFailureMode.pause) (agent_run agent_id binding))

  unfoldable pub create_root_workflow_run :
      (definition workflow_id graph workspace : String) (scope : ScopeRef) (now : ℕ)
      (session : Option SessionRef) (policy : Option AuditFailureMode)
      → Result Run
  create_root_workflow_run definition workflow_id graph workspace scope now session policy =
      check_run (
        new_run new_id workflow definition new_id none workspace session scope now
          (or_else policy AuditFailureMode.pause) (workflow_run workflow_id graph none))

  -- The argument `parent` is a WorkflowRun by its type: the source does not check it.
  unfoldable pub create_child_agent_run :
      (parent : Run) (definition agent_id binding : String) (scope : ScopeRef) (now : ℕ)
      → Result Run
  create_child_agent_run parent definition agent_id binding scope now = do
    raise_if (terminal parent.status) (
        core_error conflict "terminal_parent"
          "a terminal WorkflowRun cannot create a child AgentRun")
    require_narrower_than scope parent.scope
    check_run (
        new_run new_id agent definition parent.root_run_id (some parent.run_id) parent.workspace_id
          parent.session_ref scope now parent.audit_failure_mode (agent_run agent_id binding))
