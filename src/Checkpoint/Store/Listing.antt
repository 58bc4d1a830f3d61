-- ===== src/Checkpoint/Store/Listing.antt =====
-- src/congeries_core/checkpoint/store.py: `InMemoryCheckpointStore.list` and its cursors.
-- `fingerprint` is the hash of the fields of a query that its cursors bind.
use congeries_core.Prelude.{
  ℕ, String, Bool, true, not, ◌&&◌, ◌||◌, Option, none, some, List, [], ◌∷◌, length, take,
  get_last?, ltb, leb, nat_beq, if◌then◌else◌,
}
use congeries_core.Prelude.Eq.{◌==◌, string_eq, nat_eq, pair_eq, option_eq, list_eq}
use congeries_core.Prelude.Dict.{Dict}
use congeries_core.Runtime.Errors.{
  Result, ok, ◌>>◌, raise_if, core_error, conflict, invalid_request,
}
use congeries_core.Runtime.Scope.{ScopeRef, key, require_narrower_than}
use congeries_core.Checkpoint.Model.{Checkpoint}
use congeries_core.Checkpoint.Store.{InMemoryCheckpointStore}

pub record CheckpointCursor : Type 0 where
  pub provider_id : String
  pub run_id : String
  pub scope : ScopeRef
  pub graph_version : Option String
  pub limit : ℕ
  pub query_fingerprint : String
  pub next_sequence : ℕ

pub record CheckpointQuery : Type 0 where
  pub provider_id : String
  pub run_id : String
  pub scope : ScopeRef
  pub graph_version : Option String
  pub limit : ℕ
  pub cursor : Option CheckpointCursor

pub record CheckpointPage : Type 0 where
  pub items : List Checkpoint
  pub next_cursor : Option CheckpointCursor

-- `query.graph_version is None or item.graph_version == query.graph_version`
abbrev pub has_version : Option String → String → Bool
has_version none version = true
has_version (some wanted) version = version == wanted

-- `before_sequence is None or item.sequence < before_sequence`
abbrev pub is_before : Option ℕ → ℕ → Bool
is_before none n = true
is_before (some bound) n = ltb n bound

unfoldable pub is_listed : CheckpointQuery → Option ℕ → Checkpoint → Bool
is_listed q before c =
    c.run_id == q.run_id
    && key c.scope == key q.scope
    && has_version q.graph_version c.graph_version
    && is_before before c.sequence

unfoldable pub listed : (Checkpoint → Bool) → Dict String Checkpoint → List Checkpoint
listed test [] = []
listed test ((ref, c) ∷ rest) = let later = listed test rest in if test c then c ∷ later else later

unfoldable pub insert_latest : Checkpoint → List Checkpoint → List Checkpoint
insert_latest c [] = c ∷ []
insert_latest c (next ∷ rest) =
    let later = insert_latest c rest in
    if leb next.sequence c.sequence then c ∷ next ∷ rest else next ∷ later

-- `items.sort(key=lambda item: item.sequence, reverse=True)`
unfoldable pub sort_latest : List Checkpoint → List Checkpoint
unfolding insert_latest
sort_latest [] = []
sort_latest (c ∷ rest) = insert_latest c (sort_latest rest)

abbrev pub next_of : Option CheckpointCursor → Option ℕ
next_of none = none
next_of (some cursor) = some cursor.next_sequence

module _ (fingerprint : String → String → ScopeRef → Option String → ℕ → String) where
  -- `query_fingerprint`, which leaves the cursor out.
  abbrev pub query_fingerprint : CheckpointQuery → String
  query_fingerprint q = fingerprint q.provider_id q.run_id q.scope q.graph_version q.limit

  unfoldable pub validate_cursor :
      InMemoryCheckpointStore → CheckpointQuery → Option CheckpointCursor → Result (Unit {0})
  validate_cursor s q none = ok tt
  validate_cursor s q (some cursor) =
      raise_if
        (not (cursor.provider_id == s.provider_id)
          || not (cursor.run_id == q.run_id)
          || not (key cursor.scope == key q.scope)
          || not (cursor.graph_version == q.graph_version)
          || not (nat_beq cursor.limit q.limit)
          || not (cursor.query_fingerprint == query_fingerprint q))
        (core_error conflict "checkpoint_cursor_drift"
          "checkpoint cursor does not match the effective query")

  -- `selected[-1].sequence`, of a page that is not empty.
  abbrev pub cursor_after :
      InMemoryCheckpointStore → CheckpointQuery → Option Checkpoint → Option CheckpointCursor
  cursor_after s q none = none
  cursor_after s q (some c) = some (record {
    provider_id = s.provider_id;
    run_id = q.run_id;
    scope = q.scope;
    graph_version = q.graph_version;
    limit = q.limit;
    query_fingerprint = query_fingerprint q;
    next_sequence = c.sequence;
  })

  abbrev pub page_of : InMemoryCheckpointStore → CheckpointQuery → List Checkpoint → CheckpointPage
  page_of s q items = record {
    items = take q.limit items;
    next_cursor =
        if ltb q.limit (length items)
        then cursor_after s q (get_last? (take q.limit items))
        else none;
  }

  -- `list`
  unfoldable pub list_page :
      InMemoryCheckpointStore → CheckpointQuery → ScopeRef → Result CheckpointPage
  unfolding validate_cursor sort_latest listed is_listed
  list_page s q scope = do
    raise_if (not (q.provider_id == s.provider_id)) (
        core_error invalid_request "checkpoint_provider_mismatch"
          "checkpoint query provider does not match Store")
    require_narrower_than q.scope scope
    validate_cursor s q q.cursor
    ok (page_of s q (sort_latest (listed (is_listed q (next_of q.cursor)) s.checkpoints)))
