-- ===== src/Workflow/Validation/Order.antt =====
-- src/congeries_core/workflow/validation.py: `WorkflowValidator._topological_order`. Its argument
-- `nodes` is a dictionary of which only the keys are read. A count is never 0 where one is taken off
-- it (Order/Rounds), so that the subtraction of natural numbers is Python's.
pub mod Graph
pub mod Linking
pub mod Rounds
pub mod Taking
pub mod Loop
pub mod Sorted
use congeries_core.Prelude.{
  ℕ, zero, suc, ◌+◌, ◌-◌, String, Option, none, some, List, [], ◌∷◌, ◌++◌, length, nat_beq, not,
  if◌then◌else◌,
}
use congeries_core.Prelude.Eq.{string_eq}
use congeries_core.Prelude.Dict.{Dict, get, put}
use congeries_core.Runtime.Errors.{
  Raised, Result, ok, err, ◌>>=◌, ◌>>◌, raise_if, core_error, invalid_request, key_error,
}
use congeries_core.Workflow.Definition.{WorkflowDependency}
use congeries_core.Workflow.Scheduler.{comes_first}

abbrev pub found_or : {V : Type 0} → String → Option V → Result V
found_or k none = err (key_error k)
found_or k (some v) = ok v

-- `d[key]`
abbrev pub item : {V : Type 0} → Dict String V → String → Result V
item d k = found_or k (get d k)

-- `self._invalid(code, message)`
abbrev pub invalid : String → String → Raised
invalid code message = core_error invalid_request code message

unfoldable pub insert_id : String → List String → List String
insert_id k [] = k ∷ []
insert_id k (j ∷ rest) =
    let later = insert_id k rest in if comes_first k j then k ∷ j ∷ rest else j ∷ later

-- `sorted(ids, key=lambda item: item.value)`
unfoldable pub sort_ids : List String → List String
unfolding insert_id
sort_ids [] = []
sort_ids (k ∷ rest) = insert_id k (sort_ids rest)

-- `{node_id: value for node_id in nodes}`
unfoldable pub for_each : {V : Type 0} → V → List String → Dict String V
for_each v [] = []
for_each v (id ∷ rest) = (id, v) ∷ for_each v rest

-- The loop over the dependencies, which fills `incoming` and `outgoing`.
unfoldable pub link :
    List WorkflowDependency
    → Dict String ℕ
    → Dict String (List String)
    → Result (Dict String ℕ × Dict String (List String))
link [] incoming outgoing = ok (incoming, outgoing)
link (d ∷ rest) incoming outgoing = do
  count ← item incoming d.target_node_id
  targets ← item outgoing d.source_node_id
  link rest (put incoming d.target_node_id (count + 1))
      (put outgoing d.source_node_id (targets ++ d.target_node_id ∷ []))

-- `node_id for node_id, count in incoming.items() if count == 0`
unfoldable pub free_ids : Dict String ℕ → List String
free_ids [] = []
free_ids ((id, count) ∷ rest) =
    let later = free_ids rest in if nat_beq count 0 then id ∷ later else later

-- The variables of the `while` loop.
pub record Sorting : Type 0 where
  pub incoming : Dict String ℕ
  pub ready : List String
  pub order : List String

-- The body of the inner loop.
unfoldable pub release_one : Sorting → String → Result Sorting
unfolding sort_ids
release_one s target = do
  count ← item s.incoming target
  ok (record s {
    incoming = put s.incoming target (count - 1);
    ready = if nat_beq count 1 then sort_ids (s.ready ++ target ∷ []) else s.ready;
  })

unfoldable pub release_all : List String → Sorting → Result Sorting
unfolding release_one
release_all [] s = ok s
release_all (target ∷ rest) s = release_one s target >>= release_all rest

-- The body of the outer loop, after `current` was popped.
unfoldable pub take_node :
    Dict String (List String) → Sorting → String → List String → Result Sorting
unfolding release_all sort_ids
take_node outgoing s current rest = do
  targets ← item outgoing current
  release_all (sort_ids targets) (record s { ready = rest; order = s.order ++ current ∷ [] })

-- `while ready: current = ready.pop(0)`
abbrev pub pop_or_end :
    Sorting → (String → List String → Result Sorting) → List String → Result Sorting
pop_or_end s body [] = ok s
pop_or_end s body (current ∷ rest) = body current rest

-- The outer loop. A round takes a node that was not taken, so the number of nodes is enough rounds.
unfoldable pub take_all : Dict String (List String) → ℕ → Sorting → Result Sorting
unfolding take_node
take_all outgoing zero s = ok s
take_all outgoing (suc rounds) s =
    pop_or_end s (λ current rest. take_node outgoing s current rest >>= take_all outgoing rounds)
      s.ready

unfoldable pub topological_order : List WorkflowDependency → List String → Result (List String)
unfolding link for_each free_ids take_all sort_ids
topological_order dependencies nodes = do
  linked ← link dependencies (for_each 0 nodes) (for_each [] nodes)
  s ←
      take_all linked.1 (length nodes)
        (record { incoming = linked.0; ready = sort_ids (free_ids linked.0); order = [] })
  raise_if (not (nat_beq (length s.order) (length nodes)))
      (invalid "workflow_cycle" "Workflow dependencies contain a cycle")
  ok s.order
