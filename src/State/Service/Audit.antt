-- ===== src/State/Service/Audit.antt =====
-- `RunService.handle_audit_failure`: a Run whose audit failed does not go on.
use congeries_core.State.Repository.Laws.{compare_and_set_lem}
use congeries_core.State.Service.Effects.{StoreSound}
use congeries_core.Prelude.{
  ◌++◌, ◌∷◌, [], ℕ, String, ◌≡◌, refl, ap, subst, ◌⊎◌, inl, inr, true, not, some, Bool-cases, false,
  sym, ◌∙◌,
}
use congeries_core.Prelude.Eq.{string_eq}
use congeries_core.Prelude.Dict.{get, put, get-put_self}
use congeries_core.Runtime.Errors.{Result, ok, err, ErrorDetail, ok_injective, Result-cases}
use congeries_core.Runtime.Run.{Run, paused, failed, terminal, AuditFailureMode, RunStatus}
use congeries_core.Runtime.Run.Attempts.{AttemptOutcome, error_summary}
use congeries_core.Runtime.Run.Machine.{
  RunTransition, unchanged, changed, current, check_version, status_beq, close_attempt,
}
use congeries_core.Runtime.Run.Machine.Phases
use congeries_core.Runtime.Run.Machine.Phases.{pausable}
use congeries_core.Runtime.Run.Machine.Endings
use congeries_core.Runtime.Run.Operations
use congeries_core.Runtime.Run.Operations.{Operation, apply}
use congeries_core.Runtime.Run.Soundness.{status_beq-eq, IsSound}
use congeries_core.Runtime.Run.Lifecycle.Steps.{
  Leads, leads, raises, Leads-if, Leads-bind, Leads-moved,
}
use congeries_core.Runtime.Run.Lifecycle.Reach.{Leads-ok, apply-Step}
use congeries_core.State.Repository.{get_run, compare_and_set, Runs}
use congeries_core.State.Service.{
  RunService, apply_call, commit, finish, with_run, announce, stop_run, stop_live,
  handle_audit_failure,
}

-- What the failure mode of a Run makes of it.
abbrev pub stopped_as : AuditFailureMode → RunStatus
stopped_as AuditFailureMode.fail = failed
stopped_as AuditFailureMode.pause = paused

-- A Run that had ended is left as it was; any other one has failed or is paused, by its mode.
abbrev pub Stopped : Run → Run → Type 0
Stopped old r =
    ((terminal old.status ≡ true) × (r ≡ old))
    ⊎ ((terminal old.status ≡ false) × (r.status ≡ stopped_as old.audit_failure_mode))

fail-stops :
    (run : Run) (v now : ℕ) (error : ErrorDetail)
    → Leads (λ t. (current t).status ≡ failed) (Endings.fail run v now error)
unfolding Endings.fail
fail-stops run v now error = Leads-bind (check_version run v) (λ _ _.
    Leads-if (status_beq run.status failed) (λ h. leads (status_beq-eq run.status failed h))
      (λ _.
        Leads-if (terminal run.status) (λ _. raises)
          (λ _. Leads-bind (error_summary error run.attempt now) (λ summary _.
            Leads-bind
              (close_attempt run.attempt_history run.attempt run.started_at
                AttemptOutcome.final_failure now (some summary))
              (λ history _. Leads-moved run _ _ refl)))))

pause-stops :
    (run : Run) (v now : ℕ) → Leads (λ t. (current t).status ≡ paused) (Phases.pause run v now)
unfolding Phases.pause
pause-stops run v now = Leads-bind (check_version run v) (λ _ _.
    Leads-if (status_beq run.status paused) (λ h. leads (status_beq-eq run.status paused h))
      (λ _. Leads-if (not (pausable run.status)) (λ _. raises) (λ _. Leads-moved run _ _ refl)))

fail-applied :
    (run : Run) (v now : ℕ) (error : ErrorDetail)
    → Leads (λ t. (current t).status ≡ failed) (apply (Operations.fail error) run v now)
unfolding apply
fail-applied = fail-stops

pause-applied :
    (run : Run) (v now : ℕ)
    → Leads (λ t. (current t).status ≡ paused) (apply Operations.pause run v now)
unfolding apply
pause-applied = pause-stops

module _ (publish : RunTransition → Result (Unit {0})) where
  announced :
      (run r : Run) (said : Result (Unit {0})) (s : RunService)
      → (announce publish run said s).0 ≡ ok r
      → (run ≡ r) × ((announce publish run said s).1 ≡ s)
  unfolding announce
  announced run r (ok u) s h = (ok_injective h, refl)
  announced run r (err e) s h = cc

  -- What `_apply` answers after a write is what is stored now.
  commit-answer :
      (id : String) (p c : Run) (reason : String) (expected : ℕ) (s : RunService) (r : Run)
      → c.run_id ≡ id
      → (commit publish p c reason expected s).0 ≡ ok r
      → (c ≡ r) × (get (commit publish p c reason expected s).1.runs id ≡ some c)
  unfolding commit
  commit-answer id p c reason expected s r named h =
      elim (Result-cases (compare_and_set s.runs c expected)) [
        | inl (runs, e) ↦
            let after : RunService = record {
              runs = runs;
              published = s.published ++ changed p c reason ∷ [];
            } in
            let (said, still) =
              announced c r (publish (changed p c reason)) after (rw (e, commit) at h) in
            rw (e, commit)
              (
                said,
                ap (λ (x : RunService). get x.runs id) still
                    ∙ (ap (λ (d : Runs). get d id) (compare_and_set_lem s.runs c expected e).4
                        ∙ (ap (λ k. get (put s.runs k c) id) named ∙ get-put_self s.runs id c)),
              )
        | inr (x, e) ↦ cc (rw (e, commit) at h)
      ]

  -- The answer of a call is what the state machine answers, and what is stored afterwards.
  abbrev Answers : (Run → Type 0) → String → Run → Result Run × RunService → Type 0
  Answers Q id r answer = Q r × (get answer.1.runs id ≡ some r)

  finish-answer :
      (Q : Run → Type 0) (id : String) (op : Operation) (expected now : ℕ) (s : RunService)
      (old : Run) (m : Result RunTransition) (r : Run)
      → apply op old expected now ≡ m
      → get s.runs id ≡ some old
      → IsSound old now
      → old.run_id ≡ id
      → Leads (λ t. Q (current t)) m
      → (finish publish m expected s).0 ≡ ok r
      → Answers Q id r (finish publish m expected s)
  unfolding finish
  finish-answer Q id op expected now s old (err e) r run stored sound named q h = cc
  finish-answer Q id op expected now s old (ok (unchanged same reason)) r run stored sound named q
        h =
      let is : same ≡ old = apply-Step op old expected now (unchanged same reason) sound run in
      (subst Q (ok_injective h) (Leads-ok q refl), stored ∙ ap some (sym is ∙ ok_injective h))
  finish-answer Q id op expected now s old (ok (changed p c reason)) r run stored sound named q h =
      let step = (apply-Step op old expected now (changed p c reason) sound run).1 in
      let (is, there) = commit-answer id p c reason expected s r (sym step.identity.0 ∙ named) h in
      (subst Q is (Leads-ok q refl), there ∙ ap some is)

  apply_call-answer :
      (Q : Run → Type 0) (id : String) (expected : ℕ) (op : Operation) (now : ℕ) (s : RunService)
      (old r : Run)
      → StoreSound s now
      → get s.runs id ≡ some old
      → Leads (λ t. Q (current t)) (apply op old expected now)
      → (apply_call publish id expected op now s).0 ≡ ok r
      → Answers Q id r (apply_call publish id expected op now s)
  unfolding apply_call get_run with_run
  apply_call-answer Q id expected op now s old r sound stored q h =
      let facts = sound.at id old stored in
      rw stored (
        finish-answer Q id op expected now s old (apply op old expected now) r refl stored facts.0
          facts.1 q (rw stored at h))

  stop_live-Stopped :
      (mode : AuditFailureMode) (error : ErrorDetail) (id : String) (now : ℕ) (run : Run)
      (s : RunService) (r : Run)
      → StoreSound s now
      → get s.runs id ≡ some run
      → (stop_live publish mode error id now run s).0 ≡ ok r
      → Answers (λ x. x.status ≡ stopped_as mode) id r (stop_live publish mode error id now run s)
  unfolding stop_live
  stop_live-Stopped AuditFailureMode.fail error id now run s r sound stored h =
      apply_call-answer (λ x. x.status ≡ failed) id run.state_version (Operations.fail error) now s
        run r sound stored (fail-applied run run.state_version now error) h
  stop_live-Stopped AuditFailureMode.pause error id now run s r sound stored h =
      elim (Bool-cases (status_beq run.status paused)) [
        | inl is ↦
            let same : run ≡ r = ok_injective (rw is at h) in
            rw is (
              ap (λ (x : Run). x.status) (sym same) ∙ status_beq-eq run.status paused is,
              stored ∙ ap some same,
            )
        | inr other ↦ rw other (
            apply_call-answer (λ x. x.status ≡ paused) id run.state_version Operations.pause now s
              run r sound stored (pause-applied run run.state_version now) (rw other at h))
      ]

  -- When the handling of an audit failure answers, what it answers is the Run that is stored under
  -- the id now: a Run that had ended is as it was, and any other one has failed or is paused, as its
  -- failure mode says.
  pub handle_audit_failure-Stopped :
      (id : String) (error : ErrorDetail) (now : ℕ) (s : RunService) (old r : Run)
      → StoreSound s now
      → get s.runs id ≡ some old
      → (handle_audit_failure publish id error now s).0 ≡ ok r
      → Stopped old r × (get (handle_audit_failure publish id error now s).1.runs id ≡ some r)
  unfolding handle_audit_failure with_run get_run stop_run
  handle_audit_failure-Stopped id error now s old r sound stored h =
      elim (Bool-cases (terminal old.status)) [
        | inl over ↦
            let same : old ≡ r = ok_injective (rw (stored, over) at h) in
            rw (stored, over) (inl (refl, sym same), stored ∙ ap some same)
        | inr live ↦
            let (q, there) =
              stop_live-Stopped old.audit_failure_mode error id now old s r sound stored
                (rw (stored, live) at h) in
            rw (stored, live) (inr (refl, q), there)
      ]
