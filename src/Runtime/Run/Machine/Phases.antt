-- ===== src/Runtime/Run/Machine/Phases.antt =====
-- src/congeries_core/runtime/run.py: `start`, `advance`, `pause`, `resume`, `redispatch_retry`.
use Prim.Native.String.{◌++◌ as text_append}
use congeries_core.Prelude.{
  ℕ, String, Bool, true, false, not, ◌&&◌, Option, none, some, or_else, if◌then◌else◌,
}
use congeries_core.Prelude.Eq.{string_eq, option_eq}
use congeries_core.Runtime.Errors.{Result, ok, err, ◌>>=◌, ◌>>◌}
use congeries_core.Runtime.Run.{
  Run, RunStatus, created, starting, context_loading, running, waiting_approval, paused, retrying,
  recovering, succeeded, failed, cancelled,
}
use congeries_core.Runtime.Run.Machine.{
  RunTransition, unchanged, advances, status_beq, check_version, illegal, touch, moved,
  open_attempt,
}

unfoldable pub start : Run → ℕ → ℕ → Result RunTransition
start run expected now = do
  check_version run expected
  if status_beq run.status starting
      then ok (unchanged run "start_idempotent")
      else if not (status_beq run.status created)
      then err (illegal run starting)
      else do
        history ← open_attempt run.attempt_history run.attempt now
        moved run
            (record (touch run now) {
              status = starting;
              started_at = some (or_else run.started_at now);
              attempt_history = history;
            })
            "start"

unfoldable pub advance : Run → RunStatus → ℕ → ℕ → String → Result RunTransition
advance run target expected now reason = do
  check_version run expected
  if status_beq run.status target
      then ok (unchanged run (text_append reason "_idempotent"))
      else if not (advances run.status target)
      then err (illegal run target)
      else if status_beq run.status recovering && status_beq target running
      then (do
        history ← open_attempt run.attempt_history run.attempt now
        moved run (record (touch run now) { status = target; attempt_history = history }) reason)
      else moved run (record (touch run now) { status = target }) reason

abbrev pub pausable : RunStatus → Bool
pausable starting = true
pausable context_loading = true
pausable running = true
pausable waiting_approval = true
pausable retrying = true
pausable recovering = true
pausable created = false
pausable paused = false
pausable succeeded = false
pausable failed = false
pausable cancelled = false

-- The `continuation` that `pause` computes.
abbrev pub paused_from : RunStatus → Option RunStatus → Option RunStatus
paused_from status continuation =
    if status_beq status recovering
    then some recovering
    else if not (status_beq status retrying)
    then some status
    else continuation

unfoldable pub pause : Run → ℕ → ℕ → Result RunTransition
pause run expected now = do
  check_version run expected
  if status_beq run.status paused
      then ok (unchanged run "pause_idempotent")
      else if not (pausable run.status)
      then err (illegal run paused)
      else moved run
          (record (touch run now) {
            status = paused;
            continuation_status = paused_from run.status run.continuation_status;
          })
          "pause"

-- The common end of `resume` and `redispatch_retry`: back to the phase that was recorded.
unfoldable pub continue_with : Run → Option RunStatus → ℕ → String → Result RunTransition
continue_with run none now reason = err (illegal run running)
continue_with run (some phase) now reason =
    open_attempt run.attempt_history run.attempt now >>= λ history.
    moved run
      (record (touch run now) {
        status = phase;
        continuation_status = none;
        attempt_history = history;
      })
      reason

unfoldable pub resume : Run → ℕ → ℕ → Result RunTransition
unfolding continue_with
resume run expected now = do
  check_version run expected
  if not (status_beq run.status paused)
      then err (illegal run running)
      else continue_with run run.continuation_status now "resume"

unfoldable pub redispatch_retry : Run → ℕ → ℕ → Result RunTransition
unfolding continue_with
redispatch_retry run expected now = do
  check_version run expected
  if not (status_beq run.status retrying)
      then err (illegal run running)
      else continue_with run run.continuation_status now "retry_redispatch"
