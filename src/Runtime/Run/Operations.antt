-- ===== src/Runtime/Run/Operations.antt =====
-- src/congeries_core/runtime/run.py: the methods of `RunStateMachine` as one family.
use congeries_core.Prelude.{ℕ, String, Option}
use congeries_core.Runtime.Errors.{Result, ErrorDetail}
use congeries_core.Runtime.Run.{Run, RunStatus}
use congeries_core.Runtime.Run.Machine.{RunTransition}
use congeries_core.Runtime.Run.Machine.Phases
use congeries_core.Runtime.Run.Machine.Endings
use congeries_core.Runtime.Run.Machine.Markers

-- The methods as one family, with the arguments that differ.
pub data Operation : Type 0 where
  start pause resume redispatch_retry complete cancel : Operation
  advance : (target : RunStatus) (reason : String) → Operation
  retry fail : (error : ErrorDetail) → Operation
  recover : (checkpoint : Option String) → Operation
  commit_checkpoint :
      (checkpoint : String) (expected_previous definition graph : Option String) → Operation

unfoldable pub apply : Operation → Run → ℕ → ℕ → Result RunTransition
apply start run v now = Phases.start run v now
apply pause run v now = Phases.pause run v now
apply resume run v now = Phases.resume run v now
apply redispatch_retry run v now = Phases.redispatch_retry run v now
apply complete run v now = Endings.complete run v now
apply cancel run v now = Endings.cancel run v now
apply (advance target reason) run v now = Phases.advance run target v now reason
apply (retry error) run v now = Endings.retry run v now error
apply (fail error) run v now = Endings.fail run v now error
apply (recover checkpoint) run v now = Endings.recover run v now checkpoint
apply (commit_checkpoint c p d g) run v now = Markers.commit_checkpoint run v now c p d g
