-- ===== src/Runtime/Run/Soundness/Phases.antt =====
-- `start` and `advance` keep a Run sound.
use congeries_core.Prelude.{
  ◌&&◌, ℕ, ◌≡◌, refl, sym, subst, inr, true, false, not, Option, List, String, not-false,
}
use congeries_core.Runtime.Errors.{ok}
use congeries_core.Runtime.Run.{
  Run, RunStatus, created, starting, context_loading, running, waiting_approval, recovering,
  terminal, check_end, check_continuation,
}
use congeries_core.Runtime.Run.Attempts.{AttemptRecord}
use congeries_core.Runtime.Run.Machine.{status_beq, advances, open_attempt, illegal}
use congeries_core.Runtime.Run.Machine.Phases.{start, advance}
use congeries_core.Runtime.Run.History.Changes.{open_attempt-Active}
use congeries_core.Runtime.Run.Soundness.{
  IsSound, Phase, Phase-Active, Active-Phase, is_active, is_plain, plain-none, none-plain, live-end,
}
use congeries_core.Runtime.Run.Soundness.Rules.{
  Kept, answered, refused, is_status, Kept-if, Kept-bind, Kept-moved, Kept-version,
}

-- A Run that has not ended goes on with an attempt under way, in any active status.
module _ (run : Run) (now : ℕ) (s : IsSound run now) (target : RunStatus)
    (live : terminal run.status ≡ false) (active : is_active target ≡ true)
    (still : terminal target ≡ false) where
  pub opened :
      (h : List AttemptRecord) × (open_attempt run.attempt_history run.attempt now ≡ ok h)
      × Phase target h run.attempt now
  opened =
      let (h, e, f) =
        open_attempt-Active run.attempt_history run.attempt now
          (Phase-Active run.status run.attempt_history run.attempt now live s.phase) in
      (h, e, Active-Phase target h run.attempt now active (inr f))

  pub carried : Phase target run.attempt_history run.attempt now
  carried =
      Active-Phase target run.attempt_history run.attempt now active
        (Phase-Active run.status run.attempt_history run.attempt now live s.phase)

  pub end_live : check_end target run.ended_at ≡ ok tt
  end_live = live-end run.status target run.ended_at live still s.end

pub plain_keep :
    (a b : RunStatus) (c : Option RunStatus)
    → is_plain a ≡ true
    → is_plain b ≡ true
    → check_continuation a c ≡ ok tt
    → check_continuation b c ≡ ok tt
plain_keep a b c p q h =
    subst (λ d. check_continuation b d ≡ ok tt) (sym (plain-none a c p h)) (none-plain b q)

pub start-Kept :
    (run : Run) (expected now : ℕ) → IsSound run now → Kept now (start run expected now)
unfolding start illegal
start-Kept run expected now s = Kept-version run expected (
    Kept-if (status_beq run.status starting) (λ _. answered s)
      (λ _.
        Kept-if (not (status_beq run.status created)) (λ _. refused)
          (λ h.
            let is = not-false (status_beq run.status created) h in
            let live = is_status run.status created terminal {v = false} is refl in
            let (history, e, p) = opened run now s starting live refl refl in
            Kept-bind _ e (
              Kept-moved run _ _ (record {
                positive = s.positive;
                identity = s.identity;
                end = end_live run now s starting live refl refl;
                phase = p;
                continued =
                    plain_keep run.status starting _
                      (is_status run.status created is_plain {v = true} is refl) refl s.continued;
                class = s.class;
                begun = s.begun;
              })))))

advances-facts :
    (a b : RunStatus)
    → advances a b ≡ true
    → (terminal a ≡ false)
      × (is_plain a ≡ true)
      × (is_active b ≡ true)
      × (terminal b ≡ false)
      × (is_plain b ≡ true)
advances-facts created starting h = (refl, refl, refl, refl, refl)
advances-facts starting context_loading h = (refl, refl, refl, refl, refl)
advances-facts context_loading running h = (refl, refl, refl, refl, refl)
advances-facts running waiting_approval h = (refl, refl, refl, refl, refl)
advances-facts running recovering h = (refl, refl, refl, refl, refl)
advances-facts waiting_approval running h = (refl, refl, refl, refl, refl)
advances-facts recovering running h = (refl, refl, refl, refl, refl)
advances-facts _ _ h = cc

pub advance-Kept :
    (run : Run) (target : RunStatus) (expected now : ℕ) (reason : String)
    → IsSound run now
    → Kept now (advance run target expected now reason)
unfolding advance illegal
advance-Kept run target expected now reason s = Kept-version run expected (
    Kept-if (status_beq run.status target) (λ _. answered s)
      (λ _.
        Kept-if (not (advances run.status target)) (λ _. refused)
          (λ h.
            let facts =
              advances-facts run.status target (not-false (advances run.status target) h) in
            let (history, e, p) = opened run now s target facts.0 facts.2 facts.3 in
            let end = end_live run now s target facts.0 facts.2 facts.3 in
            let continued = plain_keep run.status target _ facts.1 facts.4 s.continued in
            Kept-if (status_beq run.status recovering && status_beq target running)
              (λ _. Kept-bind _ e (
                Kept-moved run _ _ (record {
                  positive = s.positive;
                  identity = s.identity;
                  end = end;
                  phase = p;
                  continued = continued;
                  class = s.class;
                  begun = s.begun;
                })))
              (λ _. Kept-moved run _ _ (record {
                positive = s.positive;
                identity = s.identity;
                end = end;
                phase = carried run now s target facts.0 facts.2 facts.3;
                continued = continued;
                class = s.class;
                begun = s.begun;
              })))))
