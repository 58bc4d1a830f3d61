-- ===== src/Checkpoint/Store/Consistency.antt =====
-- The two dictionaries of the store agree, and every operation keeps them so.
use congeries_core.Prelude.{
  ℕ, ◌≤◌, String, ◌≡◌, refl, sym, ap, subst, ◌∙◌, true, false, none, some, arith, inl, inr,
}
use mathlib.Core.Bool.{false≢true}
use congeries_core.Prelude.Eq.{◌==◌, string_eq, nat_eq, pair_eq, ==_iff}
use congeries_core.Prelude.Dict.{
  get, put, remove, get-put_cases, get-put_self, get-put_new, get-remove_cases, get-remove_apart,
  contains,
}
use congeries_core.Prelude.Bags.{has_duplicates}
use congeries_core.Prelude.Keys.{keys, has_duplicates-put, has_duplicates-remove}
use congeries_core.Checkpoint.Model.{Checkpoint}
use congeries_core.Checkpoint.Store.{InMemoryCheckpointStore, stored, new_store}

pub pair_path : {a b : String} {m n : ℕ} → a ≡ b → m ≡ n → ◌≡◌ {A = String × ℕ} (a, m) (b, n)
pair_path p q = cc

module _ (canonical_digest : Checkpoint → String) where
  -- What the store knows of a checkpoint.
  pub record Tracked (s : InMemoryCheckpointStore) (ref : String) (c : Checkpoint) : Type 0 where
    pub named : c.checkpoint_id ≡ ref
    pub numbered : get s.sequences (c.run_id, c.sequence) ≡ some ref
    pub positive : 1 ≤ c.sequence
    pub intact : (canonical_digest c == c.integrity.digest) ≡ true

  -- The checkpoint that a Run has under a number.
  pub record Numbered (s : InMemoryCheckpointStore) (run : String) (n : ℕ) (ref : String)
      : Type 0 where
    pub checkpoint : Checkpoint
    pub found : get s.checkpoints ref ≡ some checkpoint
    pub owner : checkpoint.run_id ≡ run
    pub number : checkpoint.sequence ≡ n

  pub record IsConsistent (s : InMemoryCheckpointStore) : Type 0 where
    pub tracks : (ref : String) (c : Checkpoint) → get s.checkpoints ref ≡ some c → Tracked s ref c
    pub numbers :
        (run : String) (n : ℕ) (ref : String)
        → get s.sequences (run, n) ≡ some ref
        → Numbered s run n ref
    pub once : has_duplicates (keys s.checkpoints) ≡ false

  pub new_store-IsConsistent : (provider : String) → IsConsistent (new_store provider)
  unfolding new_store get contains
  new_store-IsConsistent provider = record {
    tracks = λ ref c h. cc;
    numbers = λ run n ref h. cc;
    once = refl;
  }

  stored-tracks :
      (s : InMemoryCheckpointStore) (c : Checkpoint)
      → IsConsistent s
      → get s.sequences (c.run_id, c.sequence) ≡ none
      → 1 ≤ c.sequence
      → (canonical_digest c == c.integrity.digest) ≡ true
      → (ref : String) (other : Checkpoint)
      → get (put s.checkpoints c.checkpoint_id c) ref ≡ some other
      → Tracked (stored s c) ref other
  stored-tracks s c k free pos intact ref other h =
      elim (get-put_cases s.checkpoints c.checkpoint_id ref c other h) [
        | inl (is, same) ↦ subst (Tracked (stored s c) ref) same (record {
          named = is;
          numbered = get-put_self s.sequences (c.run_id, c.sequence) c.checkpoint_id ∙ ap some is;
          positive = pos;
          intact = intact;
        })
        | inr (apart, before) ↦
            let t = k.tracks ref other before in
            record {
              named = t.named;
              numbered =
                  get-put_new s.sequences (c.run_id, c.sequence) (other.run_id, other.sequence)
                    c.checkpoint_id ref free t.numbered;
              positive = t.positive;
              intact = t.intact;
            }
      ]

  stored-numbers :
      (s : InMemoryCheckpointStore) (c : Checkpoint)
      → IsConsistent s
      → get s.checkpoints c.checkpoint_id ≡ none
      → (run : String) (n : ℕ) (ref : String)
      → get (put s.sequences (c.run_id, c.sequence) c.checkpoint_id) (run, n) ≡ some ref
      → Numbered (stored s c) run n ref
  stored-numbers s c k new run n ref h =
      elim (get-put_cases s.sequences (c.run_id, c.sequence) (run, n) c.checkpoint_id ref h) [
        | inl (is, same) ↦ record {
          checkpoint = c;
          found =
              ap (get (put s.checkpoints c.checkpoint_id c)) (sym same)
              ∙ get-put_self s.checkpoints c.checkpoint_id c;
          owner = ap (λ (p : String × ℕ). p.0) is;
          number = ap (λ (p : String × ℕ). p.1) is;
        }
        | inr (apart, before) ↦
            let old = k.numbers run n ref before in
            record {
              checkpoint = old.checkpoint;
              found = get-put_new s.checkpoints c.checkpoint_id ref c old.checkpoint new old.found;
              owner = old.owner;
              number = old.number;
            }
      ]

  pub stored-IsConsistent :
      (s : InMemoryCheckpointStore) (c : Checkpoint)
      → IsConsistent s
      → get s.checkpoints c.checkpoint_id ≡ none
      → get s.sequences (c.run_id, c.sequence) ≡ none
      → 1 ≤ c.sequence
      → (canonical_digest c == c.integrity.digest) ≡ true
      → IsConsistent (stored s c)
  stored-IsConsistent s c k new free pos intact = record {
    tracks = stored-tracks s c k free pos intact;
    numbers = stored-numbers s c k new;
    once = has_duplicates-put s.checkpoints c.checkpoint_id c k.once;
  }

  -- Both entries of a checkpoint go together.
  pub removed-IsConsistent :
      (s : InMemoryCheckpointStore) (ref : String) (c : Checkpoint)
      → IsConsistent s
      → get s.checkpoints ref ≡ some c
      → IsConsistent (record s {
        checkpoints = remove s.checkpoints ref;
        sequences = remove s.sequences (c.run_id, c.sequence);
      })
  removed-IsConsistent s ref c k there =
      let gone = k.tracks ref c there in
      record {
        tracks = λ other d h.
            let (apart, before) = get-remove_cases s.checkpoints ref other d h in
            let t = k.tracks other d before in
            record {
              named = t.named;
              numbered =
                  get-remove_apart s.sequences (c.run_id, c.sequence) (d.run_id, d.sequence) ref
                    other gone.numbered t.numbered
                    (λ same. ground (arith, apart, ==_iff ref other, same));
              positive = t.positive;
              intact = t.intact;
            };
        numbers = λ run n other h.
            let (apart, before) =
              get-remove_cases s.sequences (c.run_id, c.sequence) (run, n) other h in
            let old = k.numbers run n other before in
            record {
              checkpoint = old.checkpoint;
              found =
                  get-remove_apart s.checkpoints ref other c old.checkpoint there old.found (λ same.
                    false≢true (
                      sym apart
                      ∙ (==_iff (c.run_id, c.sequence) (run, n)).1 (
                          pair_path (ap (λ (x : Checkpoint). x.run_id) same ∙ old.owner)
                            (ap (λ (x : Checkpoint). x.sequence) same ∙ old.number))));
              owner = old.owner;
              number = old.number;
            };
        once = has_duplicates-remove s.checkpoints ref k.once;
      }
