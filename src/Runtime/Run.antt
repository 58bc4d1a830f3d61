-- ===== src/Runtime/Run.antt =====
-- src/congeries_core/runtime/run.py: the Run envelope and its attempt records.
-- A datetime is its instant as a number: `require_utc` keeps the instant and only refuses a value
-- without a time zone, and no such value is modelled. An id is its text. A version is a ℕ, so the
-- check that it is not negative is in the type.
pub mod Attempts
pub mod Machine
pub mod Operations
pub mod Create
pub mod History
pub mod Soundness
pub mod Lifecycle
use congeries_core.Prelude.{
  ℕ, ◌+◌, String, Bool, true, false, not, ◌&&◌, ◌||◌, Option, none, some, List, [], is_some,
  if◌then◌else◌, ltb,
}
use congeries_core.Prelude.Eq.{◌==◌, string_eq}
use congeries_core.Runtime.Errors.{Result, ok, err, ErrorDetail, value_error, raise_if, ◌>>=◌, ◌>>◌}
use congeries_core.Runtime.Scope.{ScopeRef}
use Attempts.{AttemptRecord, check_history}

pub data RunKind : Type 0 where
  agent workflow : RunKind

pub data RunStatus : Type 0 where
  created starting context_loading running waiting_approval paused retrying recovering : RunStatus
  succeeded failed cancelled : RunStatus

abbrev pub terminal : RunStatus → Bool
terminal succeeded = true
terminal failed = true
terminal cancelled = true
terminal created = false
terminal starting = false
terminal context_loading = false
terminal running = false
terminal waiting_approval = false
terminal paused = false
terminal retrying = false
terminal recovering = false

unfoldable pub status_value : RunStatus → String
status_value created = "created"
status_value starting = "starting"
status_value context_loading = "context_loading"
status_value running = "running"
status_value waiting_approval = "waiting_approval"
status_value paused = "paused"
status_value retrying = "retrying"
status_value recovering = "recovering"
status_value succeeded = "succeeded"
status_value failed = "failed"
status_value cancelled = "cancelled"

-- `is`, on statuses.
abbrev pub status_code : RunStatus → ℕ
status_code created = 0
status_code starting = 1
status_code context_loading = 2
status_code running = 3
status_code waiting_approval = 4
status_code paused = 5
status_code retrying = 6
status_code recovering = 7
status_code succeeded = 8
status_code failed = 9
status_code cancelled = 10

pub data AuditFailureMode : Type 0 where
  pause fail : AuditFailureMode

pub record SessionRef : Type 0 where
  pub namespace : String
  pub session_id : String

-- The classes `Run`, `AgentRun` and `WorkflowRun`, with the fields that a subclass adds.
pub data RunClass : Type 0 where
  base : RunClass
  agent_run : (agent_id model_binding_ref : String) → RunClass
  workflow_run :
      (workflow_id graph_version : String) (latest_checkpoint_ref : Option String) → RunClass

-- `control_policy` is its one field.
pub record Run : Type 0 where
  pub run_id : String
  pub kind : RunKind
  pub definition_id : String
  pub root_run_id : String
  pub parent_run_id : Option String
  pub workspace_id : String
  pub session_ref : Option SessionRef
  pub scope : ScopeRef
  pub status : RunStatus
  pub attempt : ℕ
  pub state_version : ℕ
  pub created_at : ℕ
  pub started_at : Option ℕ
  pub updated_at : Option ℕ
  pub ended_at : Option ℕ
  pub error_summary : Option Attempts.ErrorSummary
  pub continuation_status : Option RunStatus
  pub attempt_history : List AttemptRecord
  pub audit_failure_mode : AuditFailureMode
  pub class : RunClass

-- The checks of `Run.__post_init__`, in its order, by the fields that they read.
unfoldable pub check_identity : String → String → Option String → Result (Unit {0})
check_identity run_id root none =
    raise_if (not (root == run_id)) (value_error "root Run must reference itself as root_run_id")
check_identity run_id root (some parent) =
    raise_if (parent == run_id) (value_error "Run cannot be its own parent")

unfoldable pub check_end : RunStatus → Option ℕ → Result (Unit {0})
check_end status ended =
    raise_if (terminal status && not (is_some ended)) (value_error "terminal Run requires ended_at")
    >> raise_if (not (terminal status) && is_some ended)
        (value_error "non-terminal Run cannot have ended_at")

-- The phases that a paused (`true`) or retrying Run may continue with.
abbrev pub resumable : Bool → RunStatus → Bool
resumable p starting = true
resumable p context_loading = true
resumable p running = true
resumable p waiting_approval = p
resumable p recovering = p
resumable p created = false
resumable p paused = false
resumable p retrying = false
resumable p succeeded = false
resumable p failed = false
resumable p cancelled = false

abbrev required_continuation : Bool → Option RunStatus → Result (Unit {0})
required_continuation p none =
    err (value_error "paused or retrying Run requires continuation_status")
required_continuation p (some s) =
    raise_if (not (resumable p s)) (value_error "continuation_status is not a resumable phase")

abbrev no_continuation : Option RunStatus → Result (Unit {0})
no_continuation c =
    raise_if (is_some c) (value_error "continuation_status is valid only while paused or retrying")

unfoldable pub check_continuation : RunStatus → Option RunStatus → Result (Unit {0})
check_continuation paused c = required_continuation true c
check_continuation retrying c = required_continuation false c
check_continuation created c = no_continuation c
check_continuation starting c = no_continuation c
check_continuation context_loading c = no_continuation c
check_continuation running c = no_continuation c
check_continuation waiting_approval c = no_continuation c
check_continuation recovering c = no_continuation c
check_continuation succeeded c = no_continuation c
check_continuation failed c = no_continuation c
check_continuation cancelled c = no_continuation c

-- `AgentRun.__post_init__`, `WorkflowRun.__post_init__`
unfoldable pub check_class : RunKind → RunClass → Result (Unit {0})
check_class kind base = ok tt
check_class agent (agent_run id binding) = ok tt
check_class workflow (agent_run id binding) = err (value_error "AgentRun kind must be agent")
check_class agent (workflow_run id graph marker) =
    err (value_error "WorkflowRun kind must be workflow")
check_class workflow (workflow_run id graph marker) =
    raise_if (graph == "") (value_error "WorkflowRun graph_version is required")

unfoldable pub check_run : Run → Result Run
check_run r = do
  raise_if (ltb r.attempt 1) (value_error "run attempt must be positive")
  check_identity r.run_id r.root_run_id r.parent_run_id
  check_end r.status r.ended_at
  check_history r.attempt_history r.attempt
  check_continuation r.status r.continuation_status
  check_class r.kind r.class
  ok r
