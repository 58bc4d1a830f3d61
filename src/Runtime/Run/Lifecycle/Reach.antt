-- ===== src/Runtime/Run/Lifecycle/Reach.antt =====
-- A Run along every sequence of committed operations, with a clock that does not run backwards.
use congeries_core.Prelude.{ℕ, suc, ◌+◌, ◌≤◌, String, ◌≡◌, refl, sym, ap, subst, ◌∙◌, true, arith}
use mathlib.Core.Bool.{false≢true}
use congeries_core.Runtime.Errors.{ok_injective, Result, ok}
use congeries_core.Runtime.Run.{Run, terminal}
use congeries_core.Runtime.Run.Machine.{RunTransition, unchanged, changed, current}
use congeries_core.Runtime.Run.Operations.{
  Operation, start, pause, resume, redispatch_retry, complete, cancel, advance, retry, fail,
  recover, commit_checkpoint, apply,
}
use congeries_core.Runtime.Run.Soundness.{IsSound, IsSound-later}
use congeries_core.Runtime.Run.Soundness.Rules.{Kept, answered, refused}
use congeries_core.Runtime.Run.Lifecycle.{apply-Kept}
use congeries_core.Runtime.Run.Lifecycle.Steps.{Leads, leads, raises, Step, StepOf, SameIdentity}
use congeries_core.Runtime.Run.Lifecycle.Methods.{
  start-Step, advance-Step, pause-Step, resume-Step, redispatch_retry-Step, unchanged_identity,
}
use congeries_core.Runtime.Run.Lifecycle.Closings.{
  retry-Step, recover-Step, complete-Step, fail-Step, cancel-Step, commit_checkpoint-Step,
}

apply-Leads :
    (op : Operation) (run : Run) (v now : ℕ)
    → IsSound run now
    → Leads (StepOf op now run) (apply op run v now)
unfolding apply
apply-Leads start run v now s = start-Step run v now
apply-Leads pause run v now s = pause-Step run v now
apply-Leads resume run v now s = resume-Step run v now s
apply-Leads redispatch_retry run v now s = redispatch_retry-Step run v now s
apply-Leads complete run v now s = complete-Step run v now
apply-Leads cancel run v now s = cancel-Step run v now
apply-Leads (advance target reason) run v now s = advance-Step run target v now reason
apply-Leads (retry error) run v now s = retry-Step run v now error
apply-Leads (fail error) run v now s = fail-Step run v now error
apply-Leads (recover checkpoint) run v now s = recover-Step run v now checkpoint
apply-Leads (commit_checkpoint c p d g) run v now s = commit_checkpoint-Step run v now c p d g

pub Leads-ok :
    {Q : RunTransition → Type 0} {m : Result RunTransition} {t : RunTransition}
    → Leads Q m
    → m ≡ ok t
    → Q t
Leads-ok {Q} (leads q) e = subst Q (ok_injective e) q
Leads-ok raises e = cc

pub Kept-ok :
    {now : ℕ} {m : Result RunTransition} {t : RunTransition}
    → Kept now m
    → m ≡ ok t
    → IsSound (current t) now
Kept-ok {now} (answered s) e = subst (λ t. IsSound (current t) now) (ok_injective e) s
Kept-ok refused e = cc

-- Whatever the operation answers is the Run itself, or one legal step away from it.
pub apply-Step :
    (op : Operation) (run : Run) (v now : ℕ) (t : RunTransition)
    → IsSound run now
    → apply op run v now ≡ ok t
    → StepOf op now run t
apply-Step op run v now t s e = Leads-ok (apply-Leads op run v now s) e

-- A sound Run that has ended never changes again: any operation on it that returns answers that Run.
pub terminal_is_final :
    (op : Operation) (run : Run) (v now : ℕ) (t : RunTransition)
    → IsSound run now
    → terminal run.status ≡ true
    → apply op run v now ≡ ok t
    → current t ≡ run
terminal_is_final op run v now (unchanged r reason) s over e =
    apply-Step op run v now (unchanged r reason) s e
terminal_is_final op run v now (changed p c reason) s over e =
    absurd (false≢true (sym (apply-Step op run v now (changed p c reason) s e).1.live ∙ over))

-- One history: the operations that were committed, and the times at which they were.
pub data Reach (run : Run) (since : ℕ) : Run → ℕ → ℕ → Type 0 where
  here : Reach run since run since 0
  next :
      {r c : Run} {t n : ℕ} (op : Operation) (v now : ℕ) (reason : String) (before : Run)
      → Reach run since r t n
      → t ≤ now
      → apply op r v now ≡ ok (changed before c reason)
      → Reach run since c now (suc n)

-- A sound Run stays sound along every history of committed changes, at times that never run back.
pub Reach-IsSound :
    {run : Run} {since : ℕ} {r : Run} {t n : ℕ}
    → IsSound run since
    → Reach run since r t n
    → IsSound r t
Reach-IsSound s here = s
Reach-IsSound s (next {r = r} op v now reason before path le e) =
    Kept-ok (apply-Kept op r v now (IsSound-later now (Reach-IsSound s path) le)) e

-- What holds between the Run at the start and at the end of a history of `n` changes.
pub record Descent (run r : Run) (n : ℕ) : Type 0 where
  pub version : r.state_version ≡ run.state_version + n
  pub attempts : run.attempt ≤ r.attempt
  pub bounded : r.attempt ≤ run.attempt + n
  pub identity : SameIdentity run r

same_trans : (a b c : Run) → SameIdentity a b → SameIdentity b c → SameIdentity a c
same_trans a b c p q =
    (p.0 ∙ q.0, p.1 ∙ q.1, p.2 ∙ q.2, p.3 ∙ q.3, p.4 ∙ q.4, p.5 ∙ q.5, p.6 ∙ q.6, p.7 ∙ q.7)

Step-Descent :
    {run r c : Run} {n now : ℕ} (op : Operation)
    → Descent run r n
    → Step op now r c
    → Descent run c (suc n)
Step-Descent {run} {r} {c} {n} op d s = record {
  version = omega (arith, d.version, s.version);
  attempts = ground (arith, d.attempts, s.attempt);
  bounded = ground (arith, d.bounded, s.attempt);
  identity = same_trans run r c d.identity s.identity;
}

-- The version counts the committed changes, the attempt number never falls and grows by at most
-- one at each of them, and the identity of the Run stays.
pub Reach-Descent :
    {run : Run} {since : ℕ} {r : Run} {t n : ℕ}
    → IsSound run since
    → Reach run since r t n
    → Descent run r n
Reach-Descent {run} s here = record {
  version = omega arith;
  attempts = omega arith;
  bounded = omega arith;
  identity = unchanged_identity run;
}
Reach-Descent s (next {r = r} {c = c} op v now reason before path le e) =
    Step-Descent op (Reach-Descent s path)
      (apply-Step op r v now (changed before c reason) (IsSound-later now (Reach-IsSound s path) le)
        e).1

-- A Run that has ended is the last of its history.
pub Reach_ends :
    {run : Run} {since : ℕ} {r : Run} {t n : ℕ}
    → IsSound run since
    → terminal run.status ≡ true
    → Reach run since r t n
    → r ≡ run
Reach_ends s over here = refl
Reach_ends s over (next {r = r} {c = c} op v now reason before path le e) =
    let last =
      (apply-Step op r v now (changed before c reason) (IsSound-later now (Reach-IsSound s path) le)
        e).1 in
    absurd (
      false≢true
        (sym last.live ∙ (ap (λ (x : Run). terminal x.status) (Reach_ends s over path) ∙ over)))
