-- ===== src/Checkpoint/Store/Saves.antt =====
-- `save` on every branch, and `load` after it.
use congeries_core.Prelude.{
  not-false, ℕ, ◌<◌, ◌+◌, String, ◌≡◌, ◌⊎◌, refl, true, false, not, Option, none, some, is_some,
  arith, inl, inr, nat_beq,
}
use congeries_core.Prelude.Eq.{◌==◌, string_eq, nat_eq, pair_eq, option_eq, list_eq, ==_iff}
use congeries_core.Prelude.Dict.{get, get-put_self}
use congeries_core.Runtime.Errors.{ok, raise_if, raise_if-ok}
use congeries_core.Runtime.Outcome.{
  Outcome-after, Any, raise_if-IsCore, Outcome, answers, raises, IsCore, structured, Outcome-if,
  Outcome-bind, Outcome-ok,
}
use congeries_core.Runtime.Scope.{ScopeRef, require_narrower_than}
use congeries_core.Checkpoint.Model.{Checkpoint, verify_integrity}
use congeries_core.Checkpoint.Store.{
  InMemoryCheckpointStore, stored, save_with, save, load, check_predecessor, highest, sequences_of,
}
use congeries_core.Checkpoint.Store.Checks.{
  Continues, narrower-IsCore, numbered_below, check_predecessor-Continues,
}
use congeries_core.Checkpoint.Store.Consistency.{IsConsistent, stored-IsConsistent}

-- What `save` added, and the conditions that it found.
pub record Added (s : InMemoryCheckpointStore) (c : Checkpoint) (after : InMemoryCheckpointStore)
    : Type 0 where
  pub new : get s.checkpoints c.checkpoint_id ≡ none
  pub free : get s.sequences (c.run_id, c.sequence) ≡ none
  pub latest : (n : ℕ) (ref : String) → get s.sequences (c.run_id, n) ≡ some ref → n < c.sequence
  pub continues : (ref : String) → c.previous_checkpoint_ref ≡ some ref → Continues s c ref
  pub written : after ≡ stored s c

-- What `save` found under the reference, which it left alone.
pub record Repeated (s : InMemoryCheckpointStore) (c : Checkpoint) (after : InMemoryCheckpointStore)
    : Type 0 where
  pub existing : Checkpoint
  pub found : get s.checkpoints c.checkpoint_id ≡ some existing
  pub same : existing.integrity.digest ≡ c.integrity.digest
  pub unchanged : after ≡ s

free_none : (o : Option String) → is_some o ≡ false → o ≡ none
free_none none h = refl
free_none (some ref) h = cc

module _ (canonical_digest : Checkpoint → String) where
  save_with-Outcome :
      (s : InMemoryCheckpointStore) (c : Checkpoint) (there : Option Checkpoint)
      → IsConsistent canonical_digest s
      → (canonical_digest c == c.integrity.digest) ≡ true
      → get s.checkpoints c.checkpoint_id ≡ there
      → Outcome IsCore
          (λ after. IsConsistent canonical_digest after × (Added s c after ⊎ Repeated s c after))
          (save_with s c there)
  unfolding save_with
  save_with-Outcome s c (some existing) k intact e =
      Outcome-if (existing.integrity.digest == c.integrity.digest)
        (λ same. answers (
          k,
          inr (record {
            existing = existing;
            found = e;
            same = (==_iff existing.integrity.digest c.integrity.digest).0 same;
            unchanged = refl;
          }),
        ))
        (λ _. raises structured)
  save_with-Outcome s c none k intact e =
      Outcome-bind _ (raise_if-IsCore (is_some (get s.sequences (c.run_id, c.sequence))) structured)
        (λ u1 f.
          let free = free_none _ (raise_if-ok _ _ f) in
          Outcome-bind _
            (raise_if-IsCore
              (not (nat_beq c.sequence (highest (sequences_of s.sequences c.run_id) + 1)))
              structured)
            (λ u2 q.
              let next : c.sequence ≡ highest (sequences_of s.sequences c.run_id) + 1 =
                ground (arith, raise_if-ok _ _ q) in
              let chain = check_predecessor-Continues s c c.previous_checkpoint_ref refl in
              Outcome-bind (check_predecessor s c c.previous_checkpoint_ref) chain (λ u3 p.
                answers (
                  stored-IsConsistent canonical_digest s c k e free (omega (arith, next)) intact,
                  inl (record {
                    new = e;
                    free = free;
                    latest =
                        λ n ref h. omega (arith, next, numbered_below s.sequences c.run_id n ref h);
                    continues = Outcome-ok chain p;
                    written = refl;
                  }),
                ))))

  -- On a consistent store `save` raises structured errors only and keeps it consistent. What it
  -- accepts was there already with the same digest, and nothing changes, or is added under a new
  -- reference, with a number above all numbers of its Run and with the side effects of the
  -- predecessor that it names, which is a checkpoint of the same Run.
  pub save-Outcome :
      (s : InMemoryCheckpointStore) (c : Checkpoint) (scope : ScopeRef)
      → IsConsistent canonical_digest s
      → Outcome IsCore
          (λ after. IsConsistent canonical_digest after × (Added s c after ⊎ Repeated s c after))
          (save canonical_digest s c scope)
  unfolding save verify_integrity
  save-Outcome s c scope k =
      Outcome-bind _ (raise_if-IsCore (not (canonical_digest c == c.integrity.digest)) structured)
        (λ u1 i. Outcome-bind _ (narrower-IsCore c.scope scope) (λ u2 n.
          save_with-Outcome s c (get s.checkpoints c.checkpoint_id) k
            (not-false _ (raise_if-ok _ _ i)) refl))

  load_added :
      (s : InMemoryCheckpointStore) (c : Checkpoint) (scope : ScopeRef)
      → get s.checkpoints c.checkpoint_id ≡ none
      → Outcome Any
          (λ after. load canonical_digest after c.checkpoint_id scope ≡ ok c)
          (save canonical_digest s c scope)
  unfolding save load save_with
  load_added s c scope new = Outcome-after (verify_integrity canonical_digest c) (λ u1 intact.
      Outcome-after (require_narrower_than c.scope scope) (λ u2 narrower. rw new (
        Outcome-after (raise_if (is_some (get s.sequences (c.run_id, c.sequence))) _) (λ u3 f.
          Outcome-after
            (raise_if (not (nat_beq c.sequence (highest (sequences_of s.sequences c.run_id) + 1)))
              _)
            (λ u4 q. Outcome-after (check_predecessor s c c.previous_checkpoint_ref) (λ u5 p.
              answers
                (rw (get-put_self s.checkpoints c.checkpoint_id c, narrower, intact) refl)))))))

  -- What `save` accepts under a new reference, `load` answers in the same scope.
  pub load-save :
      (s : InMemoryCheckpointStore) (c : Checkpoint) (scope : ScopeRef)
      (after : InMemoryCheckpointStore)
      → get s.checkpoints c.checkpoint_id ≡ none
      → save canonical_digest s c scope ≡ ok after
      → load canonical_digest after c.checkpoint_id scope ≡ ok c
  load-save s c scope after new = Outcome-ok (load_added s c scope new)
