-- ===== src/Runtime/Run/Soundness/Endings.antt =====
-- `retry`, `recover`, `complete`, `fail` and `cancel` keep a Run sound.
use congeries_core.Prelude.{
  ℕ, suc, ◌+◌, ◌≤◌, String, ◌≡◌, refl, sym, subst, inr, Bool, true, false, not, ◌||◌, Option, none,
  some, List, arith, not-false,
}
use congeries_core.Prelude.Eq.{◌==◌, string_eq, option_eq}
use congeries_core.Runtime.Errors.{Result, ok, ErrorDetail, ◌>>=◌}
use congeries_core.Runtime.Run.{
  Run, RunClass, base, agent_run, workflow_run, RunStatus, created, starting, context_loading,
  running, retrying, recovering, succeeded, failed, cancelled, terminal, check_end,
  check_continuation,
}
use congeries_core.Runtime.Run.Attempts.{AttemptRecord, AttemptOutcome, ErrorSummary, error_summary}
use congeries_core.Runtime.Run.Machine.{status_beq, close_attempt, illegal}
use congeries_core.Runtime.Run.Machine.Endings.{
  retry, recover, complete, fail, cancel, retriable, recovery_source, open_source,
}
use congeries_core.Runtime.Run.History.{Settled}
use congeries_core.Runtime.Run.History.Changes.{close_attempt-Active, new_attempt_lem, fresh-Flight}
use congeries_core.Runtime.Run.Soundness.{
  IsSound, Phase-Active, is_plain, plain-none, none-plain, live-end,
}
use congeries_core.Runtime.Run.Soundness.Rules.{
  Kept, answered, refused, is_status, Kept-if, Kept-bind, Kept-moved, Kept-version,
}

-- A Run that has not ended can close its current attempt with any outcome.
module _ (run : Run) (now : ℕ) (s : IsSound run now) (live : terminal run.status ≡ false)
    (outcome : AttemptOutcome) (error : Option ErrorSummary) where
  closed :
      (h : List AttemptRecord) × (close_attempt run.attempt_history run.attempt run.started_at
          outcome now error
        ≡ ok h)
      × Settled 0 h (suc run.attempt)
  closed =
      close_attempt-Active run.attempt_history run.attempt now run.started_at outcome error
        (Phase-Active run.status run.attempt_history run.attempt now live s.phase) s.begun

end_now : (a : RunStatus) (now : ℕ) → terminal a ≡ true → check_end a (some now) ≡ ok tt
unfolding check_end
end_now a now t = rw t

error_summary_lem :
    (d : ErrorDetail) (n now : ℕ)
    → 1 ≤ n
    → error_summary d n now ≡ ok (record { detail = d; attempt = n; occurred_at = now })
unfolding error_summary
error_summary_lem d n now p = ground arith

retriable-facts :
    (a : RunStatus)
    → retriable a ≡ true
    → (terminal a ≡ false) × (check_continuation retrying (some a) ≡ ok tt)
unfolding check_continuation
retriable-facts starting h = (refl, refl)
retriable-facts context_loading h = (refl, refl)
retriable-facts running h = (refl, refl)
retriable-facts _ h = cc

settled_suc : (h : List AttemptRecord) (n : ℕ) → Settled 0 h (suc n) → Settled 0 h (n + 1)
settled_suc h n s = subst (Settled 0 h) (omega arith) s

pub retry-Kept :
    (run : Run) (expected now : ℕ) (error : ErrorDetail)
    → IsSound run now
    → Kept now (retry run expected now error)
unfolding retry illegal
retry-Kept run expected now error s = Kept-version run expected (
    Kept-if (not error.retryable) (λ _. refused)
      (λ _.
        Kept-if (not (retriable run.status)) (λ _. refused)
          (λ h.
            let facts = retriable-facts run.status (not-false (retriable run.status) h) in
            let summary : ErrorSummary = record {
              detail = error;
              attempt = run.attempt;
              occurred_at = now;
            } in
            let (history, e, p) =
              closed run now s facts.0 AttemptOutcome.retryable_failure (some summary) in
            Kept-bind _ (error_summary_lem error run.attempt now s.positive) (
              Kept-bind _ e (
                Kept-moved run _ _ (record {
                  positive = omega arith;
                  identity = s.identity;
                  end = live-end run.status retrying run.ended_at facts.0 refl s.end;
                  phase = settled_suc history run.attempt p;
                  continued = facts.1;
                  class = s.class;
                  begun = s.begun;
                }))))))

pub complete-Kept :
    (run : Run) (expected now : ℕ) → IsSound run now → Kept now (complete run expected now)
unfolding complete illegal
complete-Kept run expected now s = Kept-version run expected (
    Kept-if (status_beq run.status succeeded) (λ _. answered s)
      (λ _.
        Kept-if (not (status_beq run.status running)) (λ _. refused)
          (λ h.
            let is = not-false (status_beq run.status running) h in
            let (history, e, p) =
              closed run now s (is_status run.status running terminal is refl)
                AttemptOutcome.succeeded none in
            Kept-bind _ e (
              Kept-moved run _ _ (record {
                positive = s.positive;
                identity = s.identity;
                end = end_now succeeded now refl;
                phase = p;
                continued =
                    subst (λ c. check_continuation succeeded c ≡ ok tt)
                      (sym (
                        plain-none run.status run.continuation_status
                          (is_status run.status running is_plain is refl) s.continued))
                      (none-plain succeeded refl);
                class = s.class;
                begun = s.begun;
              })))))

pub fail-Kept :
    (run : Run) (expected now : ℕ) (error : ErrorDetail)
    → IsSound run now
    → Kept now (fail run expected now error)
unfolding fail illegal
fail-Kept run expected now error s = Kept-version run expected (
    Kept-if (status_beq run.status failed) (λ _. answered s)
      (λ _.
        Kept-if (terminal run.status) (λ _. refused)
          (λ live.
            let summary : ErrorSummary = record {
              detail = error;
              attempt = run.attempt;
              occurred_at = now;
            } in
            let (history, e, p) =
              closed run now s live AttemptOutcome.final_failure (some summary) in
            Kept-bind _ (error_summary_lem error run.attempt now s.positive) (
              Kept-bind _ e (
                Kept-moved run _ _ (record {
                  positive = s.positive;
                  identity = s.identity;
                  end = end_now failed now refl;
                  phase = p;
                  continued = none-plain failed refl;
                  class = s.class;
                  begun = s.begun;
                }))))))

pub cancel-Kept :
    (run : Run) (expected now : ℕ) → IsSound run now → Kept now (cancel run expected now)
unfolding cancel illegal
cancel-Kept run expected now s = Kept-version run expected (
    Kept-if (status_beq run.status cancelled) (λ _. answered s)
      (λ _.
        Kept-if (terminal run.status) (λ _. refused)
          (λ live.
            let (history, e, p) = closed run now s live AttemptOutcome.cancelled none in
            Kept-bind _ e (
              Kept-moved run _ _ (record {
                positive = s.positive;
                identity = s.identity;
                end = end_now cancelled now refl;
                phase = p;
                continued = none-plain cancelled refl;
                class = s.class;
                begun = s.begun;
              })))))

-- The source of a recovery is there, or the method has refused.
Kept-source :
    {now : ℕ} (class : RunClass) (given : Option String) {f : Option String → Result _}
    → ((source : Option String) → Kept now (f source))
    → Kept now (recovery_source class given >>= f)
Kept-source base given k = k given
Kept-source (agent_run id binding) given k = k given
Kept-source (workflow_run id graph none) none k = refused
Kept-source (workflow_run id graph (some marker)) none k = k (some marker)
Kept-source (workflow_run id graph marker) (some given) k = k (some given)

or-false : (a b : Bool) → (a || b) ≡ false → a ≡ false
or-false true b h = cc
or-false false b h = refl

pub recover-Kept :
    (run : Run) (expected now : ℕ) (checkpoint : Option String)
    → IsSound run now
    → Kept now (recover run expected now checkpoint)
unfolding recover illegal
recover-Kept run expected now checkpoint s = Kept-version run expected (
    Kept-source run.class checkpoint (λ source.
      Kept-if (status_beq run.status recovering)
        (λ _. Kept-if (open_source run.attempt_history == source) (λ _. answered s) (λ _. refused))
        (λ _.
          Kept-if (terminal run.status || status_beq run.status created) (λ _. refused)
            (λ h.
              let live = or-false (terminal run.status) (status_beq run.status created) h in
              let (history, e, p) = closed run now s live AttemptOutcome.interrupted none in
              let settled = settled_suc history run.attempt p in
              Kept-bind _ e (
                Kept-bind _ (new_attempt_lem (run.attempt + 1) now source (omega arith)) (
                  Kept-moved run _ _ (record {
                    positive = omega arith;
                    identity = s.identity;
                    end = live-end run.status recovering run.ended_at live refl s.end;
                    phase = inr (fresh-Flight history (run.attempt + 1) now source settled);
                    continued = none-plain recovering refl;
                    class = s.class;
                    begun = s.begun;
                  })))))))
