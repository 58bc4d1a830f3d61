-- ===== src/Runtime/Run/Soundness/Pauses.antt =====
-- `pause`, `resume` and `redispatch_retry` keep a Run sound.
use congeries_core.Prelude.{
  none, ℕ, ◌≡◌, refl, subst, Bool, true, false, not, Option, String, some, arith, not-false,
}
use congeries_core.Runtime.Errors.{ok}
use congeries_core.Runtime.Run.{
  succeeded, failed, cancelled, Run, RunStatus, created, starting, context_loading, running,
  waiting_approval, recovering, terminal, check_continuation, retrying, paused, resumable,
}
use congeries_core.Runtime.Run.Machine.{status_beq, illegal}
use congeries_core.Runtime.Run.Machine.Phases.{
  pause, resume, pausable, redispatch_retry, continue_with, paused_from,
}
use congeries_core.Runtime.Run.Soundness.{IsSound, status_beq-eq, is_active, is_plain, none-plain}
use congeries_core.Runtime.Run.Soundness.Rules.{
  Kept, answered, refused, is_status, Kept-if, Kept-bind, Kept-moved, Kept-version,
}
use congeries_core.Runtime.Run.Soundness.Phases.{opened, carried, end_live}

pause-continued :
    (a : RunStatus) (c : Option RunStatus)
    → pausable a ≡ true
    → check_continuation a c ≡ ok tt
    → check_continuation paused (paused_from a c) ≡ ok tt
unfolding check_continuation
pause-continued starting c p h = refl
pause-continued retrying none p h = cc
pause-continued retrying (some starting) p h = refl
pause-continued retrying (some context_loading) p h = refl
pause-continued retrying (some running) p h = refl
pause-continued retrying (some _) p h = cc
pause-continued created c p h = cc
pause-continued paused c p h = cc
pause-continued succeeded c p h = cc
pause-continued failed c p h = cc
pause-continued cancelled c p h = cc
pause-continued _ c p h = refl

pausable-live : (a : RunStatus) → pausable a ≡ true → terminal a ≡ false
pausable-live succeeded h = cc
pausable-live failed h = cc
pausable-live cancelled h = cc
pausable-live _ h = refl

pub pause-Kept :
    (run : Run) (expected now : ℕ) → IsSound run now → Kept now (pause run expected now)
unfolding pause illegal
pause-Kept run expected now s = Kept-version run expected (
    Kept-if (status_beq run.status paused) (λ _. answered s)
      (λ _.
        Kept-if (not (pausable run.status)) (λ _. refused)
          (λ h.
            let may = not-false (pausable run.status) h in
            let live = pausable-live run.status may in
            Kept-moved run _ _ (record {
              positive = s.positive;
              identity = s.identity;
              end = end_live run now s paused live refl refl;
              phase = carried run now s paused live refl refl;
              continued = pause-continued run.status run.continuation_status may s.continued;
              class = s.class;
              begun = s.begun;
            }))))

resumable-facts :
    (p : Bool) (a : RunStatus)
    → resumable p a ≡ true
    → (is_active a ≡ true) × (terminal a ≡ false) × (is_plain a ≡ true)
resumable-facts p starting h = (refl, refl, refl)
resumable-facts p context_loading h = (refl, refl, refl)
resumable-facts p running h = (refl, refl, refl)
resumable-facts p waiting_approval h = (refl, refl, refl)
resumable-facts p recovering h = (refl, refl, refl)
resumable-facts p _ h = cc

continue_with-Kept :
    (run : Run) (c : Option RunStatus) (p : Bool) (now : ℕ) (reason : String)
    → IsSound run now
    → terminal run.status ≡ false
    → ((phase : RunStatus) → c ≡ some phase → resumable p phase ≡ true)
    → Kept now (continue_with run c now reason)
unfolding continue_with illegal
continue_with-Kept run none p now reason s live r = refused
continue_with-Kept run (some phase) p now reason s live r =
    let facts = resumable-facts p phase (r phase refl) in
    let (history, e, f) = opened run now s phase live facts.0 facts.1 in
    Kept-bind _ e (
      Kept-moved run _ _ (record {
        positive = s.positive;
        identity = s.identity;
        end = end_live run now s phase live facts.0 facts.1;
        phase = f;
        continued = none-plain phase facts.2;
        class = s.class;
        begun = s.begun;
      }))

pub paused-resumable :
    (c : Option RunStatus)
    → check_continuation paused c ≡ ok tt
    → (phase : RunStatus) → c ≡ some phase
    → resumable true phase ≡ true
unfolding check_continuation
paused-resumable c h phase e = ground arith

pub retrying-resumable :
    (c : Option RunStatus)
    → check_continuation retrying c ≡ ok tt
    → (phase : RunStatus) → c ≡ some phase
    → resumable false phase ≡ true
unfolding check_continuation
retrying-resumable c h phase e = ground arith

pub resume-Kept :
    (run : Run) (expected now : ℕ) → IsSound run now → Kept now (resume run expected now)
unfolding resume illegal
resume-Kept run expected now s = Kept-version run expected (
    Kept-if (not (status_beq run.status paused)) (λ _. refused)
      (λ h.
        let is = not-false (status_beq run.status paused) h in
        continue_with-Kept run run.continuation_status true now "resume" s
          (is_status run.status paused terminal is refl)
          (paused-resumable run.continuation_status (
            subst (λ a. check_continuation a run.continuation_status ≡ ok tt)
              (status_beq-eq run.status paused is) s.continued))))

pub redispatch_retry-Kept :
    (run : Run) (expected now : ℕ) → IsSound run now → Kept now (redispatch_retry run expected now)
unfolding redispatch_retry illegal
redispatch_retry-Kept run expected now s = Kept-version run expected (
    Kept-if (not (status_beq run.status retrying)) (λ _. refused)
      (λ h.
        let is = not-false (status_beq run.status retrying) h in
        continue_with-Kept run run.continuation_status false now "retry_redispatch" s
          (is_status run.status retrying terminal is refl)
          (retrying-resumable run.continuation_status (
            subst (λ a. check_continuation a run.continuation_status ≡ ok tt)
              (status_beq-eq run.status retrying is) s.continued))))
