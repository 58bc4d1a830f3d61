-- ===== src/Tests/Samples.antt =====
-- Small Runs, stores and Plugins for the tests.
use congeries_core.Plugin.Model.{CapabilityKey, PluginRef}
use congeries_core.Prelude.{refl, inr, true, none, some, [], ◌∷◌, arith}
use congeries_core.Prelude.Eq.{◌==◌, string_eq}
use congeries_core.Runtime.Errors.{ErrorDetail, timeout}
use congeries_core.Runtime.Scope.{ScopeRef, root, child}
use congeries_core.Runtime.Run.{
  Run, workflow, workflow_run, cancelled, starting, AuditFailureMode, check_identity, check_end,
  check_continuation, check_class,
}
use congeries_core.Runtime.Run.Attempts.{AttemptRecord, AttemptOutcome}
use congeries_core.Runtime.Run.Create.{new_run}
use congeries_core.Runtime.Run.Machine.{touch}
use congeries_core.Runtime.Run.Soundness.{IsSound}

abbrev pub workspace : ScopeRef
workspace = root "core" "workspace" "w"

abbrev pub inner : ScopeRef
inner = child "core" "run" "r" workspace

abbrev pub fresh_run : Run
fresh_run =
    new_run "r" workflow "d" "r" none "w" none workspace 1 AuditFailureMode.pause
      (workflow_run "wf" "v1" none)

abbrev pub first_attempt : AttemptRecord
first_attempt = record {
  attempt = 1;
  started_at = 5;
  ended_at = none;
  outcome = none;
  checkpoint_ref = none;
  error = none;
}

abbrev pub started_run : Run
started_run = record (touch fresh_run 5) {
  status = starting;
  started_at = some 5;
  attempt_history = first_attempt ∷ [];
}

abbrev pub cancelled_run : Run
cancelled_run = record (touch started_run 7) {
  status = cancelled;
  ended_at = some 7;
  attempt_history =
      record first_attempt { ended_at = some 7; outcome = some AttemptOutcome.cancelled } ∷ [];
}

abbrev pub lost : ErrorDetail
lost = record {
  category = timeout;
  code = "lost";
  message = "lost contact";
  retryable = true;
  cause_id = none;
  metadata = [];
}

pub fresh_run-IsSound : IsSound fresh_run 1
unfolding check_identity check_end check_continuation check_class ◌==◌
fresh_run-IsSound = record {
  positive = omega arith;
  identity = refl;
  end = refl;
  phase = omega arith;
  continued = refl;
  class = refl;
  begun = omega arith;
}

pub started_run-IsSound : IsSound started_run 5
unfolding check_identity check_end check_continuation check_class ◌==◌
started_run-IsSound = record {
  positive = omega arith;
  identity = refl;
  end = refl;
  phase = inr (record {
    before = [];
    last = first_attempt;
    split = refl;
    settled = omega arith;
    is_running = refl;
    number = refl;
    began = omega arith;
  });
  continued = refl;
  class = refl;
  begun = omega arith;
}

pub cancelled_run-IsSound : IsSound cancelled_run 7
unfolding check_identity check_end check_continuation check_class ◌==◌
cancelled_run-IsSound = record {
  positive = omega arith;
  identity = refl;
  end = refl;
  phase = (omega arith, refl, omega arith);
  continued = refl;
  class = refl;
  begun = omega arith;
}

abbrev pub demo : PluginRef
demo = record {
  name = "demo";
  version = record { major = 1; minor = 0; patch = 0; prerelease = []; build = [] };
}

abbrev pub tool : CapabilityKey
tool = ("tool", ("demo.echo", "1.0.0"))
