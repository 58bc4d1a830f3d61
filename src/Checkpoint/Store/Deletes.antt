-- ===== src/Checkpoint/Store/Deletes.antt =====
-- `delete` on every branch.
use congeries_core.Prelude.{
  String, ◌≡◌, refl, sym, ap, subst, ◌∙◌, Bool, not, ◌||◌, Option, none, some, is_some, arith,
  if◌then◌else◌, Bool-cases, inl, inr,
}
use congeries_core.Prelude.Eq.{◌==◌, string_eq, nat_eq, pair_eq, option_eq, list_eq, ==_iff}
use congeries_core.Prelude.Dict.{get, get-remove, some_injective}
use congeries_core.Runtime.Outcome.{
  raise_if-IsCore, Outcome, answers, raises, IsCore, structured, Outcome-if, Outcome-bind,
}
use congeries_core.Runtime.Scope.{ScopeRef, key}
use congeries_core.Checkpoint.Model.{Checkpoint}
use congeries_core.Checkpoint.Store.{
  InMemoryCheckpointStore, DeleteCheckpointRequest, delete_with, delete,
}
use congeries_core.Checkpoint.Store.Checks.{narrower-IsCore}
use congeries_core.Checkpoint.Store.Consistency.{IsConsistent, removed-IsConsistent}

module _ (canonical_digest : Checkpoint → String) where
  -- What `delete` did.
  pub record Deleted (s : InMemoryCheckpointStore) (r : DeleteCheckpointRequest)
      (answer : Bool × InMemoryCheckpointStore) : Type 0 where
    pub flag : answer.0 ≡ is_some (get s.checkpoints r.checkpoint_ref)
    pub others :
        (ref : String)
        → get answer.1.checkpoints ref
          ≡ (if r.checkpoint_ref == ref then none else get s.checkpoints ref)
    pub owner :
        (c : Checkpoint)
        → get s.checkpoints r.checkpoint_ref ≡ some c
        → (c.run_id ≡ r.run_id) × (key c.scope ≡ key r.scope)

  delete_with-Outcome :
      (s : InMemoryCheckpointStore) (r : DeleteCheckpointRequest) (there : Option Checkpoint)
      → IsConsistent canonical_digest s
      → get s.checkpoints r.checkpoint_ref ≡ there
      → Outcome IsCore
          (λ answer. IsConsistent canonical_digest answer.1 × Deleted s r answer)
          (delete_with s r there)
  unfolding delete_with
  delete_with-Outcome s r none k e = answers (
    k,
    record {
      flag = ap is_some (sym e);
      others = λ ref. elim (Bool-cases (r.checkpoint_ref == ref)) [
        | inl hit ↦ rw hit (ap (get s.checkpoints) (sym ((==_iff r.checkpoint_ref ref).0 hit)) ∙ e)
        | inr miss ↦ rw miss refl
      ];
      owner = λ c h. cc (e, h);
    },
  )
  delete_with-Outcome s r (some c) k e =
      Outcome-if (not (c.run_id == r.run_id) || not (key c.scope == key r.scope))
        (λ _. raises structured)
        (λ mine. answers (
          removed-IsConsistent canonical_digest s r.checkpoint_ref c k e,
          record {
            flag = ap is_some (sym e);
            others = λ ref. get-remove s.checkpoints r.checkpoint_ref ref;
            owner = λ d h.
                subst (λ (x : Checkpoint). (x.run_id ≡ r.run_id) × (key x.scope ≡ key r.scope))
                  (some_injective (sym e ∙ h))
                  (
                    (==_iff c.run_id r.run_id).0 (ground (arith, mine)),
                    (==_iff (key c.scope) (key r.scope)).0 (ground (arith, mine)),
                  );
          },
        ))

  -- On a consistent store `delete` raises structured errors only and keeps it consistent. What it
  -- accepts takes away the named checkpoint and no other, if it is there, which then is one of the
  -- Run and scope of the request, and says whether it was there.
  pub delete-Outcome :
      (s : InMemoryCheckpointStore) (r : DeleteCheckpointRequest) (scope : ScopeRef)
      → IsConsistent canonical_digest s
      → Outcome IsCore
          (λ answer. IsConsistent canonical_digest answer.1 × Deleted s r answer)
          (delete s r scope)
  unfolding delete
  delete-Outcome s r scope k =
      Outcome-bind _ (raise_if-IsCore (not (r.provider_id == s.provider_id)) structured) (λ u1 p.
        Outcome-bind _ (narrower-IsCore r.scope scope)
          (λ u2 n. delete_with-Outcome s r (get s.checkpoints r.checkpoint_ref) k refl))
