-- ===== src/Checkpoint/Store/Checks.antt =====
-- What the checks of `save` find.
use congeries_core.Prelude.{
  not-false, ℕ, ◌≤◌, String, ◌≡◌, refl, sym, ap, subst, ◌∙◌, Bool, false, not, Option, none, some,
  [], ◌∷◌, arith, if◌then◌else◌, Bool-cases, inl, inr, any,
}
use congeries_core.Prelude.Eq.{◌==◌, string_eq, nat_eq, pair_eq, option_eq, list_eq, ==_iff}
use congeries_core.Prelude.Dict.{Dict, get, some_injective}
use congeries_core.Runtime.Errors.{raise_if-ok}
use congeries_core.Runtime.Outcome.{
  raise_if-IsCore, Outcome, answers, raises, IsCore, structured, Outcome-if, Outcome-bind,
  Outcome-map,
}
use congeries_core.Runtime.Scope.{ScopeRef, require_narrower_than, is_equal_or_descendant_of}
use congeries_core.Checkpoint.Model.{Checkpoint, SideEffectRecord, effect_data}
use congeries_core.Checkpoint.Store.{
  InMemoryCheckpointStore, check_effects, check_predecessor, by_key, is_changed, optional_data,
  highest, sequences_of,
}

pub narrower-IsCore : (a b : ScopeRef) → Outcome IsCore (λ _. Unit {0}) (require_narrower_than a b)
unfolding require_narrower_than
narrower-IsCore a b =
    Outcome-if (is_equal_or_descendant_of a b) (λ _. answers tt) (λ _. raises structured)

no_entry :
    (test : String × SideEffectRecord → Bool) (d : Dict String SideEffectRecord) (k : String)
    (e : SideEffectRecord)
    → any test d ≡ false
    → get d k ≡ some e
    → test (k, e) ≡ false
unfolding get
no_entry test [] k e none_of there = cc
no_entry test ((j, v) ∷ rest) k e none_of there = elim (Bool-cases (j == k)) [
  | inl hit ↦
      subst (λ (p : String × SideEffectRecord). test p ≡ false)
        (entry_path ((==_iff j k).0 hit)
          (some_injective (ap (λ b. if b then some v else get rest k) (sym hit) ∙ there)))
        (ground arith)
  | inr miss ↦
      no_entry test rest k e (ground arith)
        (ap (λ b. if b then some v else get rest k) (sym miss) ∙ there)
]
  where
    entry_path :
        {a b : String} {x y : SideEffectRecord}
        → a ≡ b
        → x ≡ y
        → ◌≡◌ {A = String × SideEffectRecord} (a, x) (b, y)
    entry_path p q = cc

pub numbered_below :
    (sequences : Dict (String × ℕ) String) (run : String) (n : ℕ) (ref : String)
    → get sequences (run, n) ≡ some ref
    → n ≤ highest (sequences_of sequences run)
unfolding get highest sequences_of
numbered_below [] run n ref h = cc
numbered_below (((owner, m), r) ∷ rest) run n ref h = ground (
  arith,
  numbered_below rest run n ref,
  ==_iff {A = String × ℕ} (owner, m) (run, n),
  ==_iff owner run,
)

-- The side effects of the predecessor are all there, unchanged.
pub record Continues (s : InMemoryCheckpointStore) (c : Checkpoint) (ref : String) : Type 0 where
  pub previous : Checkpoint
  pub found : get s.checkpoints ref ≡ some previous
  pub owner : previous.run_id ≡ c.run_id
  pub effects :
      (key : String) (e : SideEffectRecord)
      → get (by_key previous.side_effects []) key ≡ some e
      → optional_data (get (by_key c.side_effects []) key) ≡ some (effect_data e)

check_effects-Continues :
    (s : InMemoryCheckpointStore) (c : Checkpoint) (ref : String) (there : Option Checkpoint)
    → get s.checkpoints ref ≡ there
    → Outcome IsCore (λ _. Continues s c ref) (check_effects c there)
unfolding check_effects is_changed
check_effects-Continues s c ref none e = raises structured
check_effects-Continues s c ref (some previous) e =
    Outcome-bind _ (raise_if-IsCore (not (previous.run_id == c.run_id)) structured) (λ u o.
      Outcome-map
        (raise_if-IsCore
          (any (is_changed (by_key c.side_effects [])) (by_key previous.side_effects []))
          structured)
        (λ u2 kept. record {
          previous = previous;
          found = e;
          owner = (==_iff previous.run_id c.run_id).0 (not-false _ (raise_if-ok _ _ o));
          effects = λ k effect there.
              (==_iff (optional_data (get (by_key c.side_effects []) k))
                  (some (effect_data effect))).0
                (not-false _ (
                  no_entry (is_changed (by_key c.side_effects [])) (by_key previous.side_effects [])
                    k effect kept there));
        }))

pub check_predecessor-Continues :
    (s : InMemoryCheckpointStore) (c : Checkpoint) (previous : Option String)
    → c.previous_checkpoint_ref ≡ previous
    → Outcome IsCore
        (λ _. (ref : String) → c.previous_checkpoint_ref ≡ some ref → Continues s c ref)
        (check_predecessor s c previous)
unfolding check_predecessor
check_predecessor-Continues s c none e = answers (λ ref h. cc)
check_predecessor-Continues s c (some ref) e =
    Outcome-map (check_effects-Continues s c ref (get s.checkpoints ref) refl)
      (λ u continues other h. subst (Continues s c) (some_injective (sym e ∙ h)) continues)
