-- ===== src/Tests/CheckpointTests.antt =====
-- Tests of checkpoint/store.py.
use congeries_core.Prelude.{
  ℕ, String, ◌≡◌, ◌⊎◌, refl, some, none, Option, List, [], ◌∷◌, length, arith, suc,
}
use congeries_core.Prelude.Eq.{◌==◌, string_eq, pair_eq, nat_eq, option_eq}
use congeries_core.Prelude.Dict.{get, put}
use congeries_core.Runtime.Errors.{ok}
use congeries_core.Runtime.Outcome.{Outcome, IsCore}
use congeries_core.Runtime.Scope.{
  ScopeRef, root, key, require_narrower_than, is_equal_or_descendant_of,
}
use congeries_core.Checkpoint.Model.{
  Checkpoint, SideEffectRecord, SideEffectOutcome, verify_integrity, scope_path,
}
use congeries_core.Checkpoint.Store.{
  InMemoryCheckpointStore, DeleteCheckpointRequest, new_store, save, load, delete, save_with,
  check_predecessor, check_effects, is_changed, by_key, highest, sequences_of, stored,
}
use congeries_core.Checkpoint.Store.Consistency
use congeries_core.Checkpoint.Store.Consistency.{IsConsistent}
use congeries_core.Checkpoint.Store.Saves
use congeries_core.Checkpoint.Store.Saves.{Added, Repeated}
use congeries_core.Checkpoint.Store.Deletes
use congeries_core.Checkpoint.Store.Deletes.{Deleted}
use congeries_core.Checkpoint.Store.Listing.{
  CheckpointQuery, listed, is_listed, sort_latest, insert_latest, list_page, validate_cursor,
}
use congeries_core.Checkpoint.Store.Latest.{Descending}
use congeries_core.Checkpoint.Store.Pages
use congeries_core.Checkpoint.Store.Pages.{all_pages, whole, Walked}

abbrev run_scope : ScopeRef
run_scope = root "core" "run" "r"

abbrev sent : SideEffectRecord
sent = record {
  operation_ref = record {
    namespace = "core";
    kind = "tool";
    id = "mail";
    owning_extension = none;
  };
  idempotency_key = "k";
  request_fingerprint = "f";
  result_ref = none;
  outcome = SideEffectOutcome.failed;
}

abbrev checkpoint : String → ℕ → Option String → List SideEffectRecord → Checkpoint
checkpoint id n previous effects = record {
  checkpoint_id = id;
  run_id = "r";
  workflow_id = "w";
  definition_id = "d";
  graph_version = "1";
  scope = run_scope;
  sequence = n;
  attempt = 1;
  previous_checkpoint_ref = previous;
  node_states = [];
  pending_nodes = [];
  external_refs = [];
  side_effects = effects;
  approvals = [];
  created_at = n;
  integrity = record { algorithm = "sha256"; digest = id };
  contract_version = "1";
}

abbrev first : Checkpoint
first = checkpoint "c1" 1 none (sent ∷ [])

abbrev second : Checkpoint
second = checkpoint "c2" 2 (some "c1") (sent ∷ [])

-- A digest that tells these checkpoints apart.
abbrev digest : Checkpoint → String
digest c = c.checkpoint_id

abbrev empty : InMemoryCheckpointStore
empty = record { provider_id = "memory"; checkpoints = []; sequences = [] }

empty-IsConsistent : IsConsistent digest empty
unfolding new_store
empty-IsConsistent = Consistency.new_store-IsConsistent digest "memory"

saves : save digest empty first run_scope ≡ ok (stored empty first)
unfolding save save_with verify_integrity require_narrower_than is_equal_or_descendant_of key get
    put highest sequences_of check_predecessor ◌==◌
saves = refl

saves_next :
    save digest (stored empty first) second run_scope ≡ ok (stored (stored empty first) second)
unfolding save save_with verify_integrity require_narrower_than is_equal_or_descendant_of key get
    put highest sequences_of check_predecessor check_effects is_changed by_key scope_path ◌==◌
saves_next = refl

save-Outcome_example :
    Outcome IsCore
      (λ after. IsConsistent digest after × (Added empty first after ⊎ Repeated empty first after))
      (save digest empty first run_scope)
save-Outcome_example = Saves.save-Outcome digest empty first run_scope empty-IsConsistent

load-save_example : load digest (stored empty first) first.checkpoint_id run_scope ≡ ok first
unfolding get
load-save_example = Saves.load-save digest empty first run_scope (stored empty first) refl saves

abbrev request : DeleteCheckpointRequest
request = record { provider_id = "memory"; run_id = "r"; checkpoint_ref = "c1"; scope = run_scope }

delete-Outcome_example :
    Outcome IsCore
      (λ answer. IsConsistent digest answer.1 × Deleted digest empty request answer)
      (delete empty request run_scope)
delete-Outcome_example = Deletes.delete-Outcome digest empty request run_scope empty-IsConsistent

abbrev query : CheckpointQuery
query = record {
  provider_id = "memory";
  run_id = "r";
  scope = run_scope;
  graph_version = none;
  limit = 1;
  cursor = none;
}

abbrev no_print : String → String → ScopeRef → Option String → ℕ → String
no_print provider run scope version limit = "fingerprint"

lists :
    all_pages no_print 3 (stored (stored empty first) second) run_scope query
    ≡ ok ((second ∷ []) ∷ (first ∷ []) ∷ [])
unfolding all_pages list_page validate_cursor listed is_listed sort_latest insert_latest
    require_narrower_than is_equal_or_descendant_of key put ◌==◌
lists = refl

same_scope : require_narrower_than run_scope run_scope ≡ ok tt
unfolding require_narrower_than is_equal_or_descendant_of key ◌==◌
same_scope = refl

all_pages-Walked_example :
    Walked no_print query.limit (whole no_print empty query) (
      all_pages no_print
        (suc (length (whole no_print empty query)))
        empty
        run_scope
        (record query { cursor = none }))
    × Descending (whole no_print empty query)
all_pages-Walked_example =
    Pages.all_pages-Walked no_print empty query run_scope refl same_scope digest empty-IsConsistent
      (omega arith)
