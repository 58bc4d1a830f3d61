-- ===== src/Runtime/Run/Machine.antt =====
-- src/congeries_core/runtime/run.py: what the methods of `RunStateMachine` share.
-- `replace` builds the new Run through `__post_init__`, so every change ends in `check_run`.
pub mod Phases
pub mod Endings
pub mod Markers
use Prim.Native.String.{◌++◌ as text_append}
use congeries_core.Prelude.{
  ℕ, ◌+◌, String, Bool, true, false, not, ◌&&◌, ◌||◌, Option, none, some, List, [], ◌∷◌, ◌++◌,
  get_last?, drop_last, is_some, or_else, or_option, nat_beq, if◌then◌else◌,
}
use congeries_core.Prelude.Eq.{◌==◌, string_eq, option_eq}
use congeries_core.Runtime.Errors.{
  Raised, Result, ok, err, ErrorDetail, core_error, retry_error, value_error, conflict,
  invalid_request, raise_if, ◌>>=◌, ◌>>◌,
}
use congeries_core.Runtime.Run.{
  Run, RunClass, base, agent_run, workflow_run, RunStatus, created, starting, context_loading,
  running, waiting_approval, paused, retrying, recovering, succeeded, failed, cancelled, terminal,
  status_value, check_run, status_code,
}
use congeries_core.Runtime.Run.Attempts.{
  AttemptOutcome, AttemptRecord, ErrorSummary, error_summary, is_open, new_attempt, close,
}

-- `RunTransition`. Callers ask whether `current is previous`: the constructor says so.
pub data RunTransition : Type 0 where
  unchanged : (run : Run) (reason : String) → RunTransition
  changed : (previous current : Run) (reason : String) → RunTransition

abbrev pub current : RunTransition → Run
current (unchanged run reason) = run
current (changed previous run reason) = run

abbrev pub previous : RunTransition → Run
previous (unchanged run reason) = run
previous (changed run next reason) = run

-- The table `_ADVANCE`.
abbrev pub advances : RunStatus → RunStatus → Bool
advances created starting = true
advances starting context_loading = true
advances context_loading running = true
advances running waiting_approval = true
advances running recovering = true
advances waiting_approval running = true
advances recovering running = true
advances _ _ = false

abbrev pub status_beq : RunStatus → RunStatus → Bool
status_beq a b = nat_beq (status_code a) (status_code b)

unfoldable pub check_version : Run → ℕ → Result (Unit {0})
check_version run expected = raise_if (not (nat_beq run.state_version expected)) (
    retry_error conflict "stale_state_version"
      "Run state version does not match the expected version")

-- `_illegal`
unfoldable pub illegal : Run → RunStatus → Raised
illegal run target = core_error conflict "illegal_run_transition" (
    text_append "cannot transition Run from "
      (text_append (status_value run.status) (text_append " to " (status_value target))))

abbrev pub touch : Run → ℕ → Run
touch run now = record run { state_version = run.state_version + 1; updated_at = some now }

-- What `_replace` returns, and the transition around it.
unfoldable pub moved : Run → Run → String → Result RunTransition
moved run next reason = check_run next >>= λ r. ok (changed run r reason)

abbrev pub last_open : List AttemptRecord → Bool
last_open history = elim (get_last? history) [ none ↦ false | some r ↦ is_open r ]

-- `_open_attempt`
unfoldable pub open_attempt : List AttemptRecord → ℕ → ℕ → Result (List AttemptRecord)
open_attempt history attempt now =
    if last_open history
    then ok history
    else new_attempt attempt now none >>= λ r. ok (history ++ r ∷ [])

-- `(*history[:-1], history[-1].close(outcome, now, error))`
unfoldable pub close_last :
    List AttemptRecord → AttemptOutcome → ℕ → Option ErrorSummary → Result (List AttemptRecord)
close_last history outcome now error = elim (get_last? history) [
  | none ↦ err (value_error "history[-1] of an empty history")
  | some r ↦ close r outcome now error >>= λ c. ok (drop_last history ++ c ∷ [])
]

-- `_close_attempt`: an attempt that is not open yet is opened as of the start of the Run.
unfoldable pub close_attempt :
    List AttemptRecord
    → ℕ
    → Option ℕ
    → AttemptOutcome
    → ℕ
    → Option ErrorSummary
    → Result (List AttemptRecord)
close_attempt history attempt started outcome now error =
    if last_open history
    then close_last history outcome now error
    else new_attempt attempt (or_else started now) none >>= λ r.
        close_last (history ++ r ∷ []) outcome now error
