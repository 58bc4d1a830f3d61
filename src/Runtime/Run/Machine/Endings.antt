-- ===== src/Runtime/Run/Machine/Endings.antt =====
-- src/congeries_core/runtime/run.py: the methods that close an attempt, `retry`, `recover`,
-- `complete`, `fail` and `cancel`.
use congeries_core.Prelude.{
  ℕ, ◌+◌, String, Bool, not, ◌||◌, Option, none, some, List, [], ◌∷◌, ◌++◌, get_last?, or_option,
  if◌then◌else◌,
}
use congeries_core.Prelude.Eq.{◌==◌, string_eq, option_eq}
use congeries_core.Runtime.Errors.{
  Result, ok, err, ErrorDetail, core_error, conflict, invalid_request, ◌>>=◌, ◌>>◌,
}
use congeries_core.Runtime.Run.{
  Run, RunClass, base, agent_run, workflow_run, RunStatus, created, starting, context_loading,
  running, retrying, recovering, succeeded, failed, cancelled, terminal,
}
use congeries_core.Runtime.Run.Attempts.{
  AttemptOutcome, AttemptRecord, error_summary, is_open, new_attempt,
}
use congeries_core.Runtime.Run.Machine.{
  RunTransition, unchanged, status_beq, check_version, illegal, touch, moved, close_attempt,
}

abbrev pub retriable : RunStatus → Bool
retriable status =
    status_beq status starting || status_beq status context_loading || status_beq status running

unfoldable pub retry : Run → ℕ → ℕ → ErrorDetail → Result RunTransition
retry run expected now error = do
  check_version run expected
  if not error.retryable
      then err (core_error invalid_request "non_retryable_error" "retry requires a retryable error")
      else if not (retriable run.status)
      then err (illegal run retrying)
      else do
        summary ← error_summary error run.attempt now
        history ←
            close_attempt run.attempt_history run.attempt run.started_at
              AttemptOutcome.retryable_failure now (some summary)
        moved run
            (record (touch run now) {
              status = retrying;
              attempt = run.attempt + 1;
              continuation_status = some run.status;
              error_summary = some summary;
              attempt_history = history;
            })
            "retry"

-- The checkpoint that `recover` starts from: a Workflow must have one.
abbrev pub recovery_source : RunClass → Option String → Result (Option String)
recovery_source base given = ok given
recovery_source (agent_run id binding) given = ok given
recovery_source (workflow_run id graph marker) given = elim (or_option given marker) [
  | none ↦ err (
      core_error invalid_request "missing_recovery_checkpoint"
        "Workflow recovery requires a committed checkpoint marker")
  | some source ↦ ok (some source)
]

abbrev pub open_source : List AttemptRecord → Option String
open_source history = elim (get_last? history) [
  | none ↦ none
  | some r ↦ if is_open r then r.checkpoint_ref else none
]

unfoldable pub recover : Run → ℕ → ℕ → Option String → Result RunTransition
recover run expected now checkpoint = do
  check_version run expected
  source ← recovery_source run.class checkpoint
  if status_beq run.status recovering
      then (if open_source run.attempt_history == source
          then ok (unchanged run "recover_idempotent")
          else err (
              core_error conflict "recovery_source_conflict"
                "Run is already recovering from a different checkpoint"))
      else if terminal run.status || status_beq run.status created
      then err (illegal run recovering)
      else do
        history ←
            close_attempt run.attempt_history run.attempt run.started_at AttemptOutcome.interrupted
              now none
        opened ← new_attempt (run.attempt + 1) now source
        moved run
            (record (touch run now) {
              status = recovering;
              attempt = run.attempt + 1;
              continuation_status = none;
              attempt_history = history ++ opened ∷ [];
            })
            "recover"

unfoldable pub complete : Run → ℕ → ℕ → Result RunTransition
complete run expected now = do
  check_version run expected
  if status_beq run.status succeeded
      then ok (unchanged run "complete_idempotent")
      else if not (status_beq run.status running)
      then err (illegal run succeeded)
      else do
        history ←
            close_attempt run.attempt_history run.attempt run.started_at AttemptOutcome.succeeded
              now none
        moved run
            (record (touch run now) {
              status = succeeded;
              ended_at = some now;
              attempt_history = history;
            })
            "complete"

unfoldable pub fail : Run → ℕ → ℕ → ErrorDetail → Result RunTransition
fail run expected now error = do
  check_version run expected
  if status_beq run.status failed
      then ok (unchanged run "fail_idempotent")
      else if terminal run.status
      then err (illegal run failed)
      else do
        summary ← error_summary error run.attempt now
        history ←
            close_attempt run.attempt_history run.attempt run.started_at
              AttemptOutcome.final_failure now (some summary)
        moved run
            (record (touch run now) {
              status = failed;
              ended_at = some now;
              continuation_status = none;
              error_summary = some summary;
              attempt_history = history;
            })
            "fail"

unfoldable pub cancel : Run → ℕ → ℕ → Result RunTransition
cancel run expected now = do
  check_version run expected
  if status_beq run.status cancelled
      then ok (unchanged run "cancel_idempotent")
      else if terminal run.status
      then err (illegal run cancelled)
      else do
        history ←
            close_attempt run.attempt_history run.attempt run.started_at AttemptOutcome.cancelled
              now none
        moved run
            (record (touch run now) {
              status = cancelled;
              ended_at = some now;
              continuation_status = none;
              attempt_history = history;
            })
            "cancel"
