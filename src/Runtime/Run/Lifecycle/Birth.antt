-- ===== src/Runtime/Run/Lifecycle/Birth.antt =====
-- A Run that a factory built starts a sound history.
use congeries_core.Prelude.{
  ℕ, String, ◌≡◌, ◌≢◌, refl, true, false, Option, none, some, arith, or_else,
}
use congeries_core.Prelude.Eq.{string_eq, ==_refl, ==_ne}
use congeries_core.Runtime.Errors.{ok}
use congeries_core.Runtime.Scope.{ScopeRef, require_narrower_than, is_equal_or_descendant_of}
use congeries_core.Runtime.Run.{
  Run, terminal, AuditFailureMode, SessionRef, check_identity, check_end, check_continuation,
  check_class, agent, workflow, RunKind, agent_run, RunClass, workflow_run,
}
use congeries_core.Runtime.Run.Create.{
  new_run, create_root_agent_run, create_root_workflow_run, create_child_agent_run,
}
use congeries_core.Runtime.Run.Soundness.{IsSound, IsSound-check}

module _ (id : String) (kind : RunKind) (definition root : String) (parent : Option String)
    (workspace : String) (session : Option SessionRef) (scope : ScopeRef) (now : ℕ)
    (mode : AuditFailureMode) (class : RunClass) where
  new_run-IsSound :
      check_identity id root parent ≡ ok tt
      → check_class kind class ≡ ok tt
      → IsSound (new_run id kind definition root parent workspace session scope now mode class) now
  unfolding check_end check_continuation
  new_run-IsSound i c = record {
    positive = omega arith;
    identity = i;
    end = refl;
    phase = omega arith;
    continued = refl;
    class = c;
    begun = omega arith;
  }

root_identity : (id : String) → check_identity id id none ≡ ok tt
unfolding check_identity
root_identity id = rw (==_refl id)

-- A root AgentRun is always built, is sound at the time of its creation and is its own root.
pub create_root_agent_run-IsSound :
    (id definition agent_id binding workspace : String) (scope : ScopeRef) (now : ℕ)
    (session : Option SessionRef) (policy : Option AuditFailureMode)
    → (r : Run) × (create_root_agent_run id definition agent_id binding workspace scope now session
          policy
        ≡ ok r)
      × IsSound r now
      × (r.root_run_id ≡ r.run_id)
unfolding create_root_agent_run check_class
create_root_agent_run-IsSound id definition agent_id binding workspace scope now session policy =
    let s =
      new_run-IsSound id agent definition id none workspace session scope now
        (or_else policy AuditFailureMode.pause) (agent_run agent_id binding) (root_identity id)
        refl in
    (_, IsSound-check s, s, refl)

-- A root WorkflowRun is built unless its graph version is empty, and is sound.
pub create_root_workflow_run-IsSound :
    (id definition workflow_id graph workspace : String) (scope : ScopeRef) (now : ℕ)
    (session : Option SessionRef) (policy : Option AuditFailureMode)
    → graph ≢ ""
    → (r : Run) × (create_root_workflow_run id definition workflow_id graph workspace scope now
          session policy
        ≡ ok r)
      × IsSound r now
      × (r.root_run_id ≡ r.run_id)
unfolding create_root_workflow_run check_class
create_root_workflow_run-IsSound id definition workflow_id graph workspace scope now session policy
      ne =
    let s =
      new_run-IsSound id workflow definition id none workspace session scope now
        (or_else policy AuditFailureMode.pause) (workflow_run workflow_id graph none)
        (root_identity id) (rw (==_ne graph "" ne)) in
    (_, IsSound-check s, s, refl)

-- What a child shares with the Run that created it.
pub record IsChild (child parent : Run) : Type 0 where
  pub root : child.root_run_id ≡ parent.root_run_id
  pub parent_id : child.parent_run_id ≡ some parent.run_id
  pub workspace : child.workspace_id ≡ parent.workspace_id
  pub session : child.session_ref ≡ parent.session_ref
  pub policy : child.audit_failure_mode ≡ parent.audit_failure_mode
  pub narrower : is_equal_or_descendant_of child.scope parent.scope ≡ true

-- A child with a fresh id is built below a parent that has not ended, within its scope. It
-- is sound, and stays in the execution tree, workspace and session of the parent.
pub create_child_agent_run-IsSound :
    (id : String) (parent : Run) (definition agent_id binding : String) (scope : ScopeRef) (now : ℕ)
    → parent.run_id ≢ id
    → terminal parent.status ≡ false
    → is_equal_or_descendant_of scope parent.scope ≡ true
    → (r : Run) × (create_child_agent_run id parent definition agent_id binding scope now ≡ ok r)
      × IsSound r now
      × IsChild r parent
unfolding create_child_agent_run check_class check_identity require_narrower_than
create_child_agent_run-IsSound id parent definition agent_id binding scope now fresh live narrow =
    let s =
      new_run-IsSound id agent definition parent.root_run_id (some parent.run_id)
        parent.workspace_id parent.session_ref scope now parent.audit_failure_mode
        (agent_run agent_id binding) (rw (==_ne parent.run_id id fresh)) refl in
    (
      _,
      rw (live, narrow) (IsSound-check s),
      s,
      record {
        root = refl;
        parent_id = refl;
        workspace = refl;
        session = refl;
        policy = refl;
        narrower = narrow;
      },
    )
