-- ===== src/Runtime/Run/Lifecycle/Methods.antt =====
-- Each method of the state machine makes a step, or none.
use congeries_core.Runtime.Run.Soundness.Pauses.{paused-resumable, retrying-resumable}
use congeries_core.Prelude.{
  ℕ, String, ◌≡◌, refl, ap, subst, ◌∙◌, true, false, not, ◌&&◌, Option, none, some, not-false,
}
use congeries_core.Prelude.Eq.{string_eq, option_eq}
use congeries_core.Runtime.Errors.{ok}
use congeries_core.Runtime.Run.{
  Run, RunStatus, created, starting, running, paused, retrying, recovering, terminal,
  check_continuation,
}
use congeries_core.Runtime.Run.Machine.{check_version, status_beq, advances, open_attempt}
use congeries_core.Runtime.Run.Machine.Phases
use congeries_core.Runtime.Run.Machine.Phases.{pausable, continue_with}
use congeries_core.Runtime.Run.Operations.{
  Operation, start, pause, resume, redispatch_retry, advance,
}
use congeries_core.Runtime.Run.Soundness.{IsSound, status_beq-eq}
use congeries_core.Runtime.Run.Lifecycle.Legal.{
  advances-legal, pausable-legal, paused-legal, retrying-legal,
}
use congeries_core.Runtime.Run.Lifecycle.Steps.{
  legal, begins_attempt, SameIdentity, StepOf, Leads, leads, raises, Leads-if, Leads-bind,
  Leads-moved, is_marker, target_of,
}

pub unchanged_identity : (run : Run) → SameIdentity run run
unchanged_identity run = (refl, refl, refl, refl, refl, refl, refl, refl)

pub start-Step : (run : Run) (v now : ℕ) → Leads (StepOf start now run) (Phases.start run v now)
unfolding Phases.start
start-Step run v now = Leads-bind (check_version run v) (λ _ _.
    Leads-if (status_beq run.status starting) (λ _. leads refl)
      (λ _.
        Leads-if (not (status_beq run.status created)) (λ _. raises)
          (λ h.
            let is = status_beq-eq run.status created (not-false _ h) in
            Leads-bind (open_attempt run.attempt_history run.attempt now) (λ history _.
              Leads-moved run _ _ (
                refl,
                record {
                  live = ap terminal is;
                  version = refl;
                  stamped = refl;
                  reached = refl;
                  edge = (ap (λ a. legal a starting) is);
                  attempt = refl;
                  identity = unchanged_identity run;
                },
              )))))

pub advance-Step :
    (run : Run) (target : RunStatus) (v now : ℕ) (reason : String)
    → Leads (StepOf (advance target reason) now run) (Phases.advance run target v now reason)
unfolding Phases.advance
advance-Step run target v now reason = Leads-bind (check_version run v) (λ _ _.
    Leads-if (status_beq run.status target) (λ _. leads refl)
      (λ _.
        Leads-if (not (advances run.status target)) (λ _. raises)
          (λ h.
            let facts = advances-legal run.status target (not-false _ h) in
            Leads-if (status_beq run.status recovering && status_beq target running)
              (λ _. Leads-bind (open_attempt run.attempt_history run.attempt now) (λ history _.
                Leads-moved run _ _ (
                  refl,
                  record {
                    live = facts.0;
                    version = refl;
                    stamped = refl;
                    reached = refl;
                    edge = facts.1;
                    attempt = refl;
                    identity = unchanged_identity run;
                  },
                )))
              (λ _. Leads-moved run _ _ (
                refl,
                record {
                  live = facts.0;
                  version = refl;
                  stamped = refl;
                  reached = refl;
                  edge = facts.1;
                  attempt = refl;
                  identity = unchanged_identity run;
                },
              )))))

pub pause-Step : (run : Run) (v now : ℕ) → Leads (StepOf pause now run) (Phases.pause run v now)
unfolding Phases.pause
pause-Step run v now = Leads-bind (check_version run v) (λ _ _.
    Leads-if (status_beq run.status paused) (λ _. leads refl)
      (λ _.
        Leads-if (not (pausable run.status)) (λ _. raises)
          (λ h.
            let facts = pausable-legal run.status (not-false _ h) in
            Leads-moved run _ _ (
              refl,
              record {
                live = facts.0;
                version = refl;
                stamped = refl;
                reached = refl;
                edge = facts.1;
                attempt = refl;
                identity = unchanged_identity run;
              },
            ))))

-- The phase that `resume` and `redispatch_retry` go back to is a legal one.
continue_with-Step :
    (op : Operation) (run : Run) (c : Option RunStatus) (now : ℕ) (reason : String)
    → begins_attempt op ≡ false
    → is_marker op ≡ false
    → target_of op run ≡ c
    → terminal run.status ≡ false
    → ((phase : RunStatus) → c ≡ some phase → legal run.status phase ≡ true)
    → Leads (StepOf op now run) (continue_with run c now reason)
unfolding continue_with
continue_with-Step op run none now reason old proper goes live edge = raises
continue_with-Step op run (some phase) now reason old proper goes live edge =
    Leads-bind (open_attempt run.attempt_history run.attempt now) (λ history _.
      Leads-moved run _ _ (
        refl,
        record {
          live = live;
          version = refl;
          stamped = refl;
          reached = goes;
          edge = rw proper (edge phase refl);
          attempt = rw old;
          identity = unchanged_identity run;
        },
      ))

pub resume-Step :
    (run : Run) (v now : ℕ)
    → IsSound run now
    → Leads (StepOf resume now run) (Phases.resume run v now)
unfolding Phases.resume
resume-Step run v now s = Leads-bind (check_version run v) (λ _ _.
    Leads-if (not (status_beq run.status paused)) (λ _. raises)
      (λ h.
        let is = status_beq-eq run.status paused (not-false _ h) in
        continue_with-Step resume run run.continuation_status now "resume" refl refl refl
          (ap terminal is)
          (λ phase e.
            ap (λ a. legal a phase) is
            ∙ paused-legal phase (
                paused-resumable run.continuation_status
                  (subst (λ a. check_continuation a run.continuation_status ≡ ok tt) is s.continued)
                  phase e))))

pub redispatch_retry-Step :
    (run : Run) (v now : ℕ)
    → IsSound run now
    → Leads (StepOf redispatch_retry now run) (Phases.redispatch_retry run v now)
unfolding Phases.redispatch_retry
redispatch_retry-Step run v now s = Leads-bind (check_version run v) (λ _ _.
    Leads-if (not (status_beq run.status retrying)) (λ _. raises)
      (λ h.
        let is = status_beq-eq run.status retrying (not-false _ h) in
        continue_with-Step redispatch_retry run run.continuation_status now "retry_redispatch" refl
          refl refl (ap terminal is)
          (λ phase e.
            ap (λ a. legal a phase) is
            ∙ retrying-legal phase (
                retrying-resumable run.continuation_status
                  (subst (λ a. check_continuation a run.continuation_status ≡ ok tt) is s.continued)
                  phase e))))
