-- ===== src/Runtime/Run/Lifecycle.antt =====
-- What holds of every operation of the state machine.
pub mod Steps
pub mod Legal
pub mod Methods
pub mod Closings
pub mod Reach
pub mod Birth
use congeries_core.Runtime.Run.Soundness.Pauses.{pause-Kept, resume-Kept, redispatch_retry-Kept}
use congeries_core.Prelude.{
  ℕ, suc, ◌+◌, ◌≤◌, ◌<◌, String, ◌≡◌, refl, sym, ap, subst, ◌⊎◌, inl, inr, Bool, true, false,
  Option, none, some, List, arith, Bool-cases, nat_beq, nat_beq_iff,
}
use congeries_core.Runtime.Errors.{Result, ok, err, core, retry_error, conflict, ◌>>=◌, ◌>>◌}
use congeries_core.Runtime.Run.{Run, RunStatus, terminal, check_run}
use congeries_core.Runtime.Run.Machine.{
  RunTransition, unchanged, changed, current, previous, check_version,
}
use congeries_core.Runtime.Run.Machine.Phases
use congeries_core.Runtime.Run.Machine.Endings
use congeries_core.Runtime.Run.Machine.Markers
use congeries_core.Runtime.Run.Operations.{
  Operation, start, pause, resume, redispatch_retry, complete, cancel, advance, retry, fail,
  recover, commit_checkpoint, apply,
}
use congeries_core.Runtime.Run.Soundness.{IsSound, IsSound-later, IsSound-check}
use congeries_core.Runtime.Run.Soundness.Rules.{Kept, answered, refused}
use congeries_core.Runtime.Run.Soundness.Phases.{start-Kept, advance-Kept}
use congeries_core.Runtime.Run.Soundness.Endings.{
  retry-Kept, recover-Kept, complete-Kept, fail-Kept, cancel-Kept,
}
use congeries_core.Runtime.Run.Soundness.Markers.{commit_checkpoint-Kept}

-- Every operation on a sound Run returns a sound Run or raises a `CoreError`; no constructor on
-- its way refuses the values it is given.
pub apply-Kept :
    (op : Operation) (run : Run) (expected now : ℕ)
    → IsSound run now
    → Kept now (apply op run expected now)
unfolding apply
apply-Kept start run v now s = start-Kept run v now s
apply-Kept pause run v now s = pause-Kept run v now s
apply-Kept resume run v now s = resume-Kept run v now s
apply-Kept redispatch_retry run v now s = redispatch_retry-Kept run v now s
apply-Kept complete run v now s = complete-Kept run v now s
apply-Kept cancel run v now s = cancel-Kept run v now s
apply-Kept (advance target reason) run v now s = advance-Kept run target v now reason s
apply-Kept (retry error) run v now s = retry-Kept run v now error s
apply-Kept (fail error) run v now s = fail-Kept run v now error s
apply-Kept (recover checkpoint) run v now s = recover-Kept run v now checkpoint s
apply-Kept (commit_checkpoint c p d g) run v now s = commit_checkpoint-Kept run v now c p d g s

-- Opens every method, for the proofs below.
every_method : Unit {0}
unfolding Phases.start Phases.advance Phases.pause Phases.resume Phases.redispatch_retry
    Endings.retry Endings.recover Endings.complete Endings.fail Endings.cancel
    Markers.commit_checkpoint
every_method = tt

-- With another version than the Run's own, every operation raises the retryable conflict.
pub apply-stale :
    (op : Operation) (run : Run) (expected now : ℕ)
    → nat_beq run.state_version expected ≡ false
    → apply op run expected now
      ≡ err (
          retry_error conflict "stale_state_version"
            "Run state version does not match the expected version")
unfolding apply check_version every_method
apply-stale start run v now h = rw h
apply-stale _ run v now h = rw h
