-- ===== src/Runtime/Run/Lifecycle/Closings.antt =====
-- The methods that close an attempt, and the checkpoint marker, make a step, or none.
use congeries_core.Prelude.{
  ℕ, ◌+◌, String, refl, ap, not, ◌&&◌, ◌||◌, Option, none, some, or_else, not-false,
}
use congeries_core.Prelude.Eq.{◌==◌, string_eq, option_eq}
use congeries_core.Runtime.Errors.{ErrorDetail}
use congeries_core.Runtime.Run.{
  Run, RunClass, base, agent_run, workflow_run, created, running, recovering, succeeded, failed,
  cancelled, terminal,
}
use congeries_core.Runtime.Run.Attempts.{AttemptOutcome, error_summary, new_attempt}
use congeries_core.Runtime.Run.Machine.{check_version, status_beq, close_attempt}
use congeries_core.Runtime.Run.Machine.Endings
use congeries_core.Runtime.Run.Machine.Endings.{retriable, recovery_source, open_source}
use congeries_core.Runtime.Run.Machine.Markers
use congeries_core.Runtime.Run.Machine.Markers.{commit_marker, commit_on, graph_or}
use congeries_core.Runtime.Run.Operations.{
  complete, cancel, retry, fail, recover, commit_checkpoint,
}
use congeries_core.Runtime.Run.Soundness.{status_beq-eq}
use congeries_core.Runtime.Run.Lifecycle.Legal.{retriable-legal, live-legal, recover-legal}
use congeries_core.Runtime.Run.Lifecycle.Steps.{
  legal, StepOf, Leads, leads, raises, Leads-if, Leads-bind, Leads-moved,
}
use congeries_core.Runtime.Run.Lifecycle.Methods.{unchanged_identity}

pub retry-Step :
    (run : Run) (v now : ℕ) (error : ErrorDetail)
    → Leads (StepOf (retry error) now run) (Endings.retry run v now error)
unfolding Endings.retry
retry-Step run v now error = Leads-bind (check_version run v) (λ _ _.
    Leads-if (not error.retryable) (λ _. raises)
      (λ _.
        Leads-if (not (retriable run.status)) (λ _. raises)
          (λ h.
            let facts = retriable-legal run.status (not-false _ h) in
            Leads-bind (error_summary error run.attempt now) (λ summary _.
              Leads-bind
                (close_attempt run.attempt_history run.attempt run.started_at
                  AttemptOutcome.retryable_failure now (some summary))
                (λ history _. Leads-moved run _ _ (
                  refl,
                  record {
                    live = facts.0;
                    version = refl;
                    stamped = refl;
                    reached = refl;
                    edge = facts.1;
                    attempt = refl;
                    identity = unchanged_identity run;
                  },
                ))))))

pub recover-Step :
    (run : Run) (v now : ℕ) (checkpoint : Option String)
    → Leads (StepOf (recover checkpoint) now run) (Endings.recover run v now checkpoint)
unfolding Endings.recover
recover-Step run v now checkpoint = Leads-bind (check_version run v) (λ _ _.
    Leads-bind (recovery_source run.class checkpoint) (λ source _.
      Leads-if (status_beq run.status recovering)
        (λ _. Leads-if (open_source run.attempt_history == source) (λ _. leads refl) (λ _. raises))
        (λ other.
          Leads-if (terminal run.status || status_beq run.status created) (λ _. raises)
            (λ h.
              let facts = recover-legal run.status other h in
              Leads-bind
                (close_attempt run.attempt_history run.attempt run.started_at
                  AttemptOutcome.interrupted now none)
                (λ history _. Leads-bind (new_attempt (run.attempt + 1) now source) (λ opened _.
                  Leads-moved run _ _ (
                    refl,
                    record {
                      live = facts.0;
                      version = refl;
                      stamped = refl;
                      reached = refl;
                      edge = facts.1;
                      attempt = refl;
                      identity = unchanged_identity run;
                    },
                  )))))))

pub complete-Step :
    (run : Run) (v now : ℕ) → Leads (StepOf complete now run) (Endings.complete run v now)
unfolding Endings.complete
complete-Step run v now = Leads-bind (check_version run v) (λ _ _.
    Leads-if (status_beq run.status succeeded) (λ _. leads refl)
      (λ _.
        Leads-if (not (status_beq run.status running)) (λ _. raises)
          (λ h.
            let is = status_beq-eq run.status running (not-false _ h) in
            Leads-bind
              (close_attempt run.attempt_history run.attempt run.started_at AttemptOutcome.succeeded
                now none)
              (λ history _. Leads-moved run _ _ (
                refl,
                record {
                  live = ap terminal is;
                  version = refl;
                  stamped = refl;
                  reached = refl;
                  edge = (ap (λ a. legal a succeeded) is);
                  attempt = refl;
                  identity = unchanged_identity run;
                },
              )))))

pub fail-Step :
    (run : Run) (v now : ℕ) (error : ErrorDetail)
    → Leads (StepOf (fail error) now run) (Endings.fail run v now error)
unfolding Endings.fail
fail-Step run v now error = Leads-bind (check_version run v) (λ _ _.
    Leads-if (status_beq run.status failed) (λ _. leads refl)
      (λ _.
        Leads-if (terminal run.status) (λ _. raises)
          (λ live. Leads-bind (error_summary error run.attempt now) (λ summary _.
            Leads-bind
              (close_attempt run.attempt_history run.attempt run.started_at
                AttemptOutcome.final_failure now (some summary))
              (λ history _. Leads-moved run _ _ (
                refl,
                record {
                  live = live;
                  version = refl;
                  stamped = refl;
                  reached = refl;
                  edge = (live-legal run.status live).0;
                  attempt = refl;
                  identity = unchanged_identity run;
                },
              ))))))

pub cancel-Step : (run : Run) (v now : ℕ) → Leads (StepOf cancel now run) (Endings.cancel run v now)
unfolding Endings.cancel
cancel-Step run v now = Leads-bind (check_version run v) (λ _ _.
    Leads-if (status_beq run.status cancelled) (λ _. leads refl)
      (λ _.
        Leads-if (terminal run.status) (λ _. raises)
          (λ live.
            Leads-bind
              (close_attempt run.attempt_history run.attempt run.started_at AttemptOutcome.cancelled
                now none)
              (λ history _. Leads-moved run _ _ (
                refl,
                record {
                  live = live;
                  version = refl;
                  stamped = refl;
                  reached = refl;
                  edge = (live-legal run.status live).1;
                  attempt = refl;
                  identity = unchanged_identity run;
                },
              )))))

commit_on-Step :
    (class : RunClass) (run : Run) (now : ℕ) (c : String) (p d g : Option String)
    → Leads (StepOf (commit_checkpoint c p d g) now run) (commit_on class run now c p d g)
unfolding commit_on commit_marker
commit_on-Step base run now c p d g = raises
commit_on-Step (agent_run id binding) run now c p d g = raises
commit_on-Step (workflow_run id graph marker) run now c p d g =
    Leads-if (terminal run.status) (λ _. raises)
      (λ live.
        Leads-if
          (marker == some c
            && (run.definition_id == or_else d run.definition_id && graph == graph_or g graph))
          (λ _. leads refl)
          (λ _.
            Leads-if (not (marker == p)) (λ _. raises)
              (λ _. Leads-moved run _ _ (
                refl,
                record {
                  live = live;
                  version = refl;
                  stamped = refl;
                  reached = refl;
                  edge = refl;
                  attempt = refl;
                  identity = unchanged_identity run;
                },
              ))))

pub commit_checkpoint-Step :
    (run : Run) (v now : ℕ) (c : String) (p d g : Option String)
    → Leads
        (StepOf (commit_checkpoint c p d g) now run)
        (Markers.commit_checkpoint run v now c p d g)
unfolding Markers.commit_checkpoint
commit_checkpoint-Step run v now c p d g =
    Leads-bind (check_version run v) (λ _ _. commit_on-Step run.class run now c p d g)
