-- ===== src/State/Service/Effects.antt =====
-- What one call of the service commits and publishes.
use congeries_core.Prelude.{
  ℕ, String, ◌≡◌, refl, sym, ap, subst, ◌∙◌, ◌⊎◌, inl, inr, Option, none, some, [], ◌∷◌, ◌++◌,
  nat_beq, Bool-cases, nat_beq_iff,
}
use congeries_core.Prelude.Eq.{string_eq}
use congeries_core.Prelude.Dict.{get, put, get-put_cases}
use congeries_core.Runtime.Errors.{Result, ok, err, Result-cases}
use congeries_core.Runtime.Run.{Run}
use congeries_core.Runtime.Run.Machine.{RunTransition, unchanged, changed}
use congeries_core.Runtime.Run.Operations.{Operation, apply}
use congeries_core.Runtime.Run.Soundness.{IsSound}
use congeries_core.Runtime.Run.Lifecycle.{apply-Kept, apply-stale}
use congeries_core.Runtime.Run.Lifecycle.Steps.{Step}
use congeries_core.Runtime.Run.Lifecycle.Reach.{apply-Step, Kept-ok}
use congeries_core.State.Repository.{Runs, get_run, compare_and_set, found}
use congeries_core.State.Repository.Laws.{compare_and_set_lem, compare_and_set-ok}
use congeries_core.State.Service.{RunService, apply_call, commit, finish, with_run, announce}

-- Every stored Run is sound and stands under its own id.
pub record StoreSound (s : RunService) (now : ℕ) : Type 0 where
  pub at : (id : String) (r : Run) → get s.runs id ≡ some r → IsSound r now × (r.run_id ≡ id)

-- Nothing was committed and nothing published.
abbrev pub Untouched : RunService → RunService → Type 0
Untouched s after = (after.runs ≡ s.runs) × (after.published ≡ s.published)

-- One legal step of one Run was committed, and just that step was published.
pub record Committed (op : Operation) (id : String) (now : ℕ) (s after : RunService) : Type 0 where
  pub old : Run
  pub new : Run
  pub reason : String
  pub stored : get s.runs id ≡ some old
  pub step : Step op now old new
  pub sound : IsSound new now
  pub written : after.runs ≡ put s.runs id new
  pub event : after.published ≡ s.published ++ changed old new reason ∷ []

module _ (publish : RunTransition → Result (Unit {0})) where
  announce-state :
      (run : Run) (r : Result (Unit {0})) (s : RunService) → (announce publish run r s).1 ≡ s
  unfolding announce
  announce-state run (ok u) s = refl
  announce-state run (err e) s = refl

  commit-Effect :
      (id : String) (op : Operation) (expected now : ℕ) (s : RunService) (old p c : Run)
      (reason : String)
      → get s.runs id ≡ some old
      → p ≡ old
      → Step op now old c
      → IsSound c now
      → old.run_id ≡ id
      → Untouched s (commit publish p c reason expected s).1
        ⊎ Committed op id now s (commit publish p c reason expected s).1
  unfolding commit
  commit-Effect id op expected now s old p c reason stored same step sound named =
      elim (Result-cases (compare_and_set s.runs c expected)) [
        | inl (runs, e) ↦
            rw (e, commit)
              (rw announce-state (
                inr (record {
                  old = old;
                  new = c;
                  reason = reason;
                  stored = stored;
                  step = step;
                  sound = sound;
                  written =
                      (compare_and_set_lem s.runs c expected e).4
                      ∙ ap (λ k. put s.runs k c) (sym step.identity.0 ∙ named);
                  event = ap (λ x. s.published ++ changed x c reason ∷ []) same;
                })))
        | inr (x, e) ↦ rw (e, commit) (inl (refl, refl))
      ]

  finish-Effect :
      (id : String) (op : Operation) (expected now : ℕ) (s : RunService) (old : Run)
      (m : Result RunTransition)
      → apply op old expected now ≡ m
      → get s.runs id ≡ some old
      → IsSound old now
      → old.run_id ≡ id
      → Untouched s (finish publish m expected s).1
        ⊎ Committed op id now s (finish publish m expected s).1
  unfolding finish
  finish-Effect id op expected now s old (err e) run stored sound named = inl (refl, refl)
  finish-Effect id op expected now s old (ok (unchanged r reason)) run stored sound named =
      inl (refl, refl)
  finish-Effect id op expected now s old (ok (changed p c reason)) run stored sound named =
      let (same, step) = apply-Step op old expected now (changed p c reason) sound run in
      let sound' = Kept-ok (apply-Kept op old expected now sound) run in
      commit-Effect id op expected now s old p c reason stored same step sound' named

  with_run-Effect :
      (id : String) (op : Operation) (expected now : ℕ) (s : RunService) (r : Option Run)
      → get s.runs id ≡ r
      → StoreSound s now
      → Untouched s
          (with_run publish
            (found r)
            (λ old. finish publish (apply op old expected now) expected)
            s).1
        ⊎ Committed op id now s
            (with_run publish
              (found r)
              (λ old. finish publish (apply op old expected now) expected)
              s).1
  unfolding with_run
  with_run-Effect id op expected now s none e sound = inl (refl, refl)
  with_run-Effect id op expected now s (some old) e sound =
      let facts = sound.at id old e in
      finish-Effect id op expected now s old (apply op old expected now) refl e facts.0 facts.1

  -- One call of the service changes nothing and publishes nothing, or it commits one legal step of
  -- the Run that it names and publishes exactly that step. Whether the publisher raises makes no
  -- difference to what is stored.
  pub apply_call-Effect :
      (id : String) (expected : ℕ) (op : Operation) (now : ℕ) (s : RunService)
      → StoreSound s now
      → Untouched s (apply_call publish id expected op now s).1
        ⊎ Committed op id now s (apply_call publish id expected op now s).1
  unfolding apply_call get_run
  apply_call-Effect id expected op now s sound =
      with_run-Effect id op expected now s (get s.runs id) refl sound

  -- So every stored Run stays sound, under its own id.
  pub apply_call-StoreSound :
      (id : String) (expected : ℕ) (op : Operation) (now : ℕ) (s : RunService)
      → StoreSound s now
      → StoreSound (apply_call publish id expected op now s).1 now
  apply_call-StoreSound id expected op now s sound =
      kept (apply_call-Effect id expected op now s sound)
    where
      written :
          {after : RunService}
          → Committed op id now s after
          → (k : String) (r : Run) → get after.runs k ≡ some r
          → IsSound r now × (r.run_id ≡ k)
      written c k r e =
          elim (get-put_cases s.runs id k c.new r
            (ap (λ (d : Runs). get d k) (sym c.written) ∙ e)) [
              | inl hit ↦
                  subst (λ x. IsSound x now × (x.run_id ≡ k)) hit.1
                    (c.sound, sym c.step.identity.0 ∙ ((sound.at id c.old c.stored).1 ∙ hit.0))
              | inr miss ↦ sound.at k r miss.1
            ]

      kept :
          {after : RunService}
          → Untouched s after ⊎ Committed op id now s after
          → StoreSound after now
      kept (inl u) = record { at = λ k r e. sound.at k r (rw u.0 at e) }
      kept (inr c) = record { at = written c }

-- A stale write is refused by the state machine, so an accepted one has the current version.
pub apply-version :
    (op : Operation) (run : Run) (v now : ℕ) {t : RunTransition}
    → apply op run v now ≡ ok t
    → run.state_version ≡ v
apply-version op run v now e = elim (Bool-cases (nat_beq run.state_version v)) [
  | inl same ↦ (nat_beq_iff run.state_version v).0 same
  | inr stale ↦ cc (e, apply-stale op run v now stale)
]

module _ (publish : RunTransition → Result (Unit {0})) where
  commit-ok :
      (before new : Run) (reason : String) (expected : ℕ) (s : RunService) (runs : Runs)
      → compare_and_set s.runs new expected ≡ ok runs
      → publish (changed before new reason) ≡ ok tt
      → commit publish before new reason expected s ≡ (
        ok new,
        record { runs = runs; published = s.published ++ changed before new reason ∷ [] },
      )
  unfolding commit announce
  commit-ok before new reason expected s runs cas quiet = rw (cas, commit) (rw (quiet, announce))

  -- In a call that nothing overlaps the compare-and-set never fails: when the state machine accepts
  -- the operation and the publisher does not raise, the new Run is stored and returned.
  pub apply_call-succeeds :
      (id : String) (expected : ℕ) (op : Operation) (now : ℕ) (s : RunService)
      (old before new : Run) (reason : String)
      → StoreSound s now
      → get s.runs id ≡ some old
      → apply op old expected now ≡ ok (changed before new reason)
      → publish (changed before new reason) ≡ ok tt
      → apply_call publish id expected op now s ≡ (
        ok new,
        record {
          runs = put s.runs id new;
          published = s.published ++ changed before new reason ∷ [];
        },
      )
  unfolding apply_call finish with_run get_run
  apply_call-succeeds id expected op now s old before new reason sound stored accepted quiet =
      let step =
        (apply-Step op old expected now (changed before new reason) (sound.at id old stored).0
          accepted).1 in
      let version = apply-version op old expected now accepted in
      let named : new.run_id ≡ id = sym step.identity.0 ∙ (sound.at id old stored).1 in
      let cas : compare_and_set s.runs new expected ≡ ok (put s.runs id new) =
        compare_and_set-ok s.runs old new id expected stored named version step.version in
      rw stored (rw accepted (commit-ok before new reason expected s _ cas quiet))
