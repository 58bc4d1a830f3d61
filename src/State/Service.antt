-- ===== src/State/Service.antt =====
-- src/congeries_core/state/service.py: `RunService`, over the in-memory repository. The publisher is
-- a protocol: `publish` says whether it raises. The clock's answers are arguments.
-- Here one call runs from its read to its last write; Interleaving has calls that overlap.
pub mod Effects
pub mod Interleaving
pub mod Audit
use congeries_core.Prelude.{
  ℕ, String, Bool, true, false, Option, none, some, List, [], ◌∷◌, ◌++◌, if◌then◌else◌,
}
use congeries_core.Runtime.Errors.{Result, ok, err, ErrorDetail}
use congeries_core.Runtime.Run.{Run, RunStatus, paused, AuditFailureMode, terminal}
use congeries_core.Runtime.Run.Machine.{RunTransition, unchanged, changed, status_beq}
use congeries_core.Runtime.Run.Operations
use congeries_core.Runtime.Run.Operations.{Operation, apply}
use congeries_core.State.Repository.{Runs, add_run, get_run, compare_and_set}

pub record RunService : Type 0 where
  pub runs : Runs
  pub published : List RunTransition

abbrev pub Call : Type 0
Call = RunService → Result Run × RunService

-- `create`
unfoldable pub create : Run → Call
create run s = elim (add_run s.runs run) [
  | ok runs ↦ (ok run, record s { runs = runs })
  | err e ↦ (err e, s)
]

-- `get`
unfoldable pub get_call : String → Call
get_call id s = (get_run s.runs id, s)

module _ (publish : RunTransition → Result (Unit {0})) where
  -- What a raise of the publisher leaves behind is committed already.
  announce : Run → Result (Unit {0}) → RunService → Result Run × RunService
  announce committed (ok u) s = (ok committed, s)
  announce committed (err e) s = (err e, s)

  commit : Run → Run → String → ℕ → Call
  unfolding announce
  commit previous next reason expected s = elim (compare_and_set s.runs next expected) [
    | ok runs ↦
        announce next (publish (changed previous next reason))
          (record { runs = runs; published = s.published ++ changed previous next reason ∷ [] })
    | err e ↦ (err e, s)
  ]

  finish : Result RunTransition → ℕ → Call
  unfolding commit
  finish (ok (unchanged run reason)) expected s = (ok run, s)
  finish (ok (changed previous next reason)) expected s = commit previous next reason expected s
  finish (err e) expected s = (err e, s)

  with_run : Result Run → (Run → Call) → Call
  with_run (ok run) k s = k run s
  with_run (err e) k s = (err e, s)

  -- `_apply`, and so `start`, `advance`, …, `cancel`, which only choose the mutation.
  unfoldable pub apply_call : String → ℕ → Operation → ℕ → Call
  unfolding finish with_run
  apply_call id expected op now s =
      with_run (get_run s.runs id) (λ previous. finish (apply op previous expected now) expected) s

  -- A Run that has not ended, by its `audit_failure_mode`.
  stop_live : AuditFailureMode → ErrorDetail → String → ℕ → Run → Call
  unfolding apply_call
  stop_live AuditFailureMode.fail error id now run s =
      apply_call id run.state_version (Operations.fail error) now s
  stop_live AuditFailureMode.pause error id now run s =
      if status_beq run.status paused
      then (ok run, s)
      else apply_call id run.state_version Operations.pause now s

  stop_run : ErrorDetail → String → ℕ → Run → Call
  unfolding stop_live
  stop_run error id now run s =
      if terminal run.status
      then (ok run, s)
      else stop_live run.audit_failure_mode error id now run s

  unfoldable pub handle_audit_failure : String → ErrorDetail → ℕ → Call
  unfolding stop_run with_run
  handle_audit_failure id error now s = with_run (get_run s.runs id) (stop_run error id now) s
