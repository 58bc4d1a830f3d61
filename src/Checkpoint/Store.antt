-- ===== src/Checkpoint/Store.antt =====
-- src/congeries_core/checkpoint/store.py: `InMemoryCheckpointStore`. Each method under the lock is
-- one function from the store; of the call context it reads the scope. `canonical_digest` is the
-- hash of checkpoints. The answer of `save` is the reference that it was given, so only the new store
-- is returned.
pub mod Consistency
pub mod Checks
pub mod Saves
pub mod Deletes
pub mod Listing
pub mod Latest
pub mod Cuts
pub mod Pages
use congeries_core.Prelude.{
  ℕ, ◌+◌, String, Bool, true, false, not, ◌&&◌, ◌||◌, Option, none, some, is_some, List, [], ◌∷◌,
  any, ltb, nat_beq, if◌then◌else◌,
}
use congeries_core.Prelude.Eq.{◌==◌, string_eq, nat_eq, pair_eq, option_eq, list_eq}
use congeries_core.Prelude.Dict.{Dict, get, put, remove}
use congeries_core.Runtime.Errors.{
  Result, ok, err, ◌>>=◌, ◌>>◌, raise_if, core_error, retry_error, conflict, invalid_request,
  denied,
}
use congeries_core.Runtime.Scope.{ScopeRef, key, require_narrower_than}
use congeries_core.Checkpoint.Model.{
  Checkpoint, SideEffectRecord, EffectData, effect_data, verify_integrity,
}

pub record InMemoryCheckpointStore : Type 0 where
  pub provider_id : String
  pub checkpoints : Dict String Checkpoint
  pub sequences : Dict (String × ℕ) String

unfoldable pub new_store : String → InMemoryCheckpointStore
new_store provider = record { provider_id = provider; checkpoints = []; sequences = [] }

-- `run_sequences`
unfoldable pub sequences_of : Dict (String × ℕ) String → String → List ℕ
sequences_of [] run = []
sequences_of (((owner, n), ref) ∷ rest) run =
    let later = sequences_of rest run in if owner == run then n ∷ later else later

-- `max(run_sequences, default=0)`
unfoldable pub highest : List ℕ → ℕ
highest [] = 0
highest (n ∷ rest) = let later = highest rest in if ltb later n then n else later

-- `{item.idempotency_key: item for item in side_effects}`
unfoldable pub by_key :
    List SideEffectRecord → Dict String SideEffectRecord → Dict String SideEffectRecord
by_key [] effects = effects
by_key (e ∷ rest) effects = by_key rest (put effects e.idempotency_key e)

abbrev pub optional_data : Option SideEffectRecord → Option EffectData
optional_data none = none
optional_data (some e) = some (effect_data e)

-- `current_effects.get(key) != value`
unfoldable pub is_changed : Dict String SideEffectRecord → String × SideEffectRecord → Bool
is_changed current entry = not (optional_data (get current entry.0) == some (effect_data entry.1))

-- The checks against the predecessor that the checkpoint names.
unfoldable pub check_effects : Checkpoint → Option Checkpoint → Result (Unit {0})
unfolding is_changed by_key
check_effects c none = err (
    core_error conflict "invalid_checkpoint_predecessor"
      "checkpoint predecessor is missing or belongs to another Run")
check_effects c (some previous) = do
  raise_if (not (previous.run_id == c.run_id)) (
      core_error conflict "invalid_checkpoint_predecessor"
        "checkpoint predecessor is missing or belongs to another Run")
  raise_if (any (is_changed (by_key c.side_effects [])) (by_key previous.side_effects [])) (
      core_error conflict "checkpoint_idempotency_conflict"
        "checkpoint changed or removed a durable side-effect record")

unfoldable pub check_predecessor :
    InMemoryCheckpointStore → Checkpoint → Option String → Result (Unit {0})
unfolding check_effects
check_predecessor s c none = ok tt
check_predecessor s c (some ref) = check_effects c (get s.checkpoints ref)

-- The two writes.
abbrev pub stored : InMemoryCheckpointStore → Checkpoint → InMemoryCheckpointStore
stored s c = record s {
  checkpoints = put s.checkpoints c.checkpoint_id c;
  sequences = put s.sequences (c.run_id, c.sequence) c.checkpoint_id;
}

-- `save` once the reference was looked up.
unfoldable pub save_with :
    InMemoryCheckpointStore → Checkpoint → Option Checkpoint → Result InMemoryCheckpointStore
unfolding check_predecessor highest sequences_of
save_with s c (some existing) =
    if existing.integrity.digest == c.integrity.digest
    then ok s
    else err (
        core_error conflict "checkpoint_identity_conflict"
          "checkpoint reference already exists with different content")
save_with s c none = do
  raise_if (is_some (get s.sequences (c.run_id, c.sequence))) (
      retry_error conflict "checkpoint_sequence_conflict" "checkpoint sequence is already occupied")
  raise_if (not (nat_beq c.sequence (highest (sequences_of s.sequences c.run_id) + 1))) (
      retry_error conflict "stale_checkpoint_sequence"
        "checkpoint sequence is not the next Store sequence")
  check_predecessor s c c.previous_checkpoint_ref
  ok (stored s c)

pub record DeleteCheckpointRequest : Type 0 where
  pub provider_id : String
  pub run_id : String
  pub checkpoint_ref : String
  pub scope : ScopeRef

abbrev pub not_found : Option Checkpoint → Result Checkpoint
not_found none = err (core_error invalid_request "checkpoint_not_found" "checkpoint does not exist")
not_found (some c) = ok c

-- `delete` once the reference was looked up; the flag says whether something was deleted.
unfoldable pub delete_with :
    InMemoryCheckpointStore
    → DeleteCheckpointRequest
    → Option Checkpoint
    → Result (Bool × InMemoryCheckpointStore)
delete_with s r none = ok (false, s)
delete_with s r (some c) =
    if not (c.run_id == r.run_id) || not (key c.scope == key r.scope)
    then err (
        core_error denied "checkpoint_identity_mismatch"
          "checkpoint delete identity does not match stored ownership")
    else ok (
      true,
      record s {
        checkpoints = remove s.checkpoints r.checkpoint_ref;
        sequences = remove s.sequences (c.run_id, c.sequence);
      },
    )

unfoldable pub delete :
    InMemoryCheckpointStore
    → DeleteCheckpointRequest
    → ScopeRef
    → Result (Bool × InMemoryCheckpointStore)
unfolding delete_with
delete s r scope = do
  raise_if (not (r.provider_id == s.provider_id)) (
      core_error invalid_request "checkpoint_provider_mismatch"
        "delete provider does not match Store")
  require_narrower_than r.scope scope
  delete_with s r (get s.checkpoints r.checkpoint_ref)

module _ (canonical_digest : Checkpoint → String) where
  unfoldable pub save :
      InMemoryCheckpointStore → Checkpoint → ScopeRef → Result InMemoryCheckpointStore
  unfolding save_with
  save s c scope = do
    verify_integrity canonical_digest c
    require_narrower_than c.scope scope
    save_with s c (get s.checkpoints c.checkpoint_id)

  unfoldable pub load : InMemoryCheckpointStore → String → ScopeRef → Result Checkpoint
  load s ref scope = do
    c ← not_found (get s.checkpoints ref)
    require_narrower_than c.scope scope
    verify_integrity canonical_digest c
    ok c
