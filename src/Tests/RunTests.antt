-- ===== src/Tests/RunTests.antt =====
-- Tests of runtime/scope.py and runtime/run.py.
use congeries_core.Prelude.{◌≡◌, ◌↔◌, refl, true, none, arith}
use mathlib.Core.Bool.{false≢true}
use congeries_core.Runtime.Run.Machine.Endings
use congeries_core.Runtime.Run.Attempts
use congeries_core.Prelude.Eq.{==_iff, ◌==◌, string_eq}
use congeries_core.Runtime.Errors.{ok}
use congeries_core.Runtime.Scope.{is_equal_or_descendant_of, key}
use congeries_core.Runtime.Scope.Laws
use congeries_core.Runtime.Scope.Laws.{OnChain, here, above, Within}
use congeries_core.Runtime.Run.{
  Run, check_run, check_identity, check_end, check_continuation, check_class,
}
use congeries_core.Runtime.Run.Create.{create_root_agent_run, create_child_agent_run}
use congeries_core.Runtime.Run.Attempts.{check_history, sorted_set, new_attempt, insert_unique}
use congeries_core.Runtime.Run.Machine.{
  changed, current, check_version, open_attempt, moved, unchanged, close_attempt, close_last,
}
use congeries_core.Runtime.Run.Machine.Phases
use congeries_core.Runtime.Run.Operations
use congeries_core.Runtime.Run.Operations.{apply}
use congeries_core.Runtime.Run.Soundness.{IsSound, IsSound-later}
use congeries_core.Runtime.Run.Soundness.Rules.{Kept}
use congeries_core.Runtime.Run.Lifecycle
use congeries_core.Runtime.Run.Lifecycle.Steps.{StepOf}
use congeries_core.Runtime.Run.Lifecycle.Reach
use congeries_core.Runtime.Run.Lifecycle.Reach.{Descent}
use congeries_core.Runtime.Run.Lifecycle.Birth
use congeries_core.Runtime.Run.Lifecycle.Birth.{IsChild}
use congeries_core.Tests.Samples.{
  workspace, inner, fresh_run, started_run, cancelled_run, lost, fresh_run-IsSound,
  started_run-IsSound, cancelled_run-IsSound,
}

pub starts_fresh : apply Operations.start fresh_run 0 5 ≡ ok (changed fresh_run started_run "start")
unfolding apply Phases.start check_version open_attempt moved check_run check_history ◌==◌
    sorted_set new_attempt insert_unique check_identity check_end check_continuation check_class
starts_fresh = refl

pub cancels_started :
    apply Operations.cancel started_run 1 7 ≡ ok (changed started_run cancelled_run "cancel")
unfolding apply Endings.cancel check_version close_attempt close_last Attempts.close moved check_run
    check_history ◌==◌ sorted_set new_attempt insert_unique check_identity check_end
    check_continuation check_class
cancels_started = refl

cancels_again :
    apply Operations.cancel cancelled_run 2 9 ≡ ok (unchanged cancelled_run "cancel_idempotent")
unfolding apply Endings.cancel check_version
cancels_again = refl

apply-Kept_example : Kept 5 (apply (Operations.retry lost) started_run 1 5)
apply-Kept_example =
    Lifecycle.apply-Kept (Operations.retry lost) started_run 1 5 started_run-IsSound

apply-Step_example :
    StepOf Operations.cancel 7 started_run (changed started_run cancelled_run "cancel")
apply-Step_example =
    Reach.apply-Step Operations.cancel started_run 1 7 (changed started_run cancelled_run "cancel")
      (IsSound-later 7 started_run-IsSound (omega arith)) cancels_started

abbrev one_life : Reach.Reach fresh_run 1 cancelled_run 7 2
one_life =
    Reach.next Operations.cancel 1 7 "cancel" started_run
      (Reach.next Operations.start 0 5 "start" fresh_run Reach.here (omega arith) starts_fresh)
      (omega arith) cancels_started

Reach-Descent_example : Descent fresh_run cancelled_run 2
Reach-Descent_example = Reach.Reach-Descent fresh_run-IsSound one_life

Reach_ends_example : cancelled_run ≡ cancelled_run
Reach_ends_example = Reach.Reach_ends cancelled_run-IsSound refl Reach.here

terminal_is_final_example : current (unchanged cancelled_run "cancel_idempotent") ≡ cancelled_run
terminal_is_final_example =
    Reach.terminal_is_final Operations.cancel cancelled_run 2 9
      (unchanged cancelled_run "cancel_idempotent")
      (IsSound-later 9 cancelled_run-IsSound (omega arith)) refl cancels_again

create_root_agent_run-IsSound_example :
    (r : Run) × (create_root_agent_run "a" "d" "agent" "b" "w" workspace 3 none none ≡ ok r)
    × IsSound r 3
    × (r.root_run_id ≡ r.run_id)
create_root_agent_run-IsSound_example =
    Birth.create_root_agent_run-IsSound "a" "d" "agent" "b" "w" workspace 3 none none

create_child_agent_run-IsSound_example :
    (r : Run) × (create_child_agent_run "c" started_run "d" "agent" "b" inner 6 ≡ ok r)
    × IsSound r 6
    × IsChild r started_run
unfolding is_equal_or_descendant_of key ◌==◌
create_child_agent_run-IsSound_example =
    Birth.create_child_agent_run-IsSound "c" started_run "d" "agent" "b" inner 6
      (λ e. false≢true ((==_iff started_run.run_id "c").1 e)) refl refl

is_equal_or_descendant_of_iff_example :
    (is_equal_or_descendant_of inner workspace ≡ true) ↔ Within inner workspace
is_equal_or_descendant_of_iff_example = Laws.is_equal_or_descendant_of_iff inner workspace
