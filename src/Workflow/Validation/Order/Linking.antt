-- ===== src/Workflow/Validation/Order/Linking.antt =====
-- The loop that fills the counts and the targets, and the nodes without a source.
use congeries_core.Prelude.{
  ℕ, ◌+◌, String, ◌≡◌, refl, sym, ap, ◌∙◌, Bool, true, false, ◌&&◌, Option, none, some, is_some,
  List, [], ◌∷◌, ◌++◌, all, arith, if◌then◌else◌, nat_beq, Bool-cases, inl, inr,
}
use mathlib.Core.List.{append_assoc, append-nil}
use congeries_core.Prelude.Eq.{◌==◌, string_eq, ==_iff}
use congeries_core.Prelude.Dict.{Dict, get, put, get-put, contains}
use congeries_core.Prelude.Bags.{has_duplicates, contains_same}
use congeries_core.Runtime.Errors.{ok}
use congeries_core.Workflow.Definition.{WorkflowDependency}
use congeries_core.Workflow.Scheduler.{ids}
use congeries_core.Workflow.Validation.Order.{for_each, link, free_ids}
use congeries_core.Workflow.Validation.Order.Graph.{targets_of, pending}

pub ids-for_each : {V : Type 0} (v : V) (nodes : List String) → ids (for_each v nodes) ≡ nodes
unfolding for_each
ids-for_each v [] = refl
ids-for_each v (id ∷ rest) = ap (λ l. id ∷ l) (ids-for_each v rest)

pub get-for_each :
    {V : Type 0} (v : V) (nodes : List String) (id : String)
    → contains nodes id ≡ true
    → get (for_each v nodes) id ≡ some v
unfolding for_each get contains
get-for_each v [] id h = cc
get-for_each v (k ∷ rest) id h = ground (arith, get-for_each v rest id)

module _ {V : Type 0} where
  pub get_some_iff : (d : Dict String V) (id : String) → is_some (get d id) ≡ contains (ids d) id
  unfolding get contains
  get_some_iff [] id = refl
  get_some_iff ((k, v) ∷ rest) id = ground (arith, get_some_iff rest id)

  -- A write to a known key keeps the keys.
  ids-put :
      (d : Dict String V) (id : String) (old new : V)
      → get d id ≡ some old
      → ids (put d id new) ≡ ids d
  unfolding get put
  ids-put [] id old new h = cc
  ids-put ((k, v) ∷ rest) id old new h = elim (Bool-cases (k == id)) [
    | inl hit ↦ rw hit (ap (λ j. j ∷ ids rest) (sym ((==_iff k id).0 hit)))
    | inr miss ↦ rw miss (ap (λ l. k ∷ l) (ids-put rest id old new (rw miss at h)))
  ]

  -- What the nodes have in a dictionary.
  abbrev pub Holds : List String → Dict String V → (String → V) → Type 0
  Holds nodes d f = (id : String) → contains nodes id ≡ true → get d id ≡ some (f id)

  pub Holds-put :
      (nodes : List String) (d : Dict String V) (f : String → V) (k : String) (v : V)
      → Holds nodes d f
      → Holds nodes (put d k v) (λ id. if k == id then v else f id)
  Holds-put nodes d f k v h id inside =
      get-put d k id v
      ∙ elim (Bool-cases (k == id)) [ inl hit ↦ rw hit refl | inr miss ↦ rw miss (h id inside) ]

  pub Holds-eq :
      (nodes : List String) (d : Dict String V) (f g : String → V)
      → Holds nodes d f
      → ((id : String) → f id ≡ g id)
      → Holds nodes d g
  Holds-eq nodes d f g h same id inside = h id inside ∙ ap some (same id)

-- Both ends of every dependency are nodes.
abbrev pub Known : List String → List WorkflowDependency → Type 0
Known nodes dependencies =
    all
      (λ (d : WorkflowDependency).
        contains nodes d.source_node_id && contains nodes d.target_node_id)
      dependencies
    ≡ true

-- What the loop leaves, over what it found.
pub record Linked (nodes : List String) (dependencies : List WorkflowDependency)
    (before : Dict String ℕ) (f : String → ℕ) (g : String → List String)
    (after : Dict String ℕ × Dict String (List String)) : Type 0 where
  pub counts : Holds nodes after.0 (λ id. f id + pending dependencies [] id)
  pub targets : Holds nodes after.1 (λ id. g id ++ targets_of dependencies id)
  pub keys : ids after.0 ≡ ids before

one_more :
    (d : WorkflowDependency) (rest : List WorkflowDependency) (f : String → ℕ) (id : String)
    → (if d.target_node_id == id then f d.target_node_id + 1 else f id) + pending rest [] id
      ≡ f id + pending (d ∷ rest) [] id
unfolding contains
one_more d rest f id = elim (Bool-cases (d.target_node_id == id)) [
  | inl hit ↦ let same = ap f ((==_iff d.target_node_id id).0 hit) in rw hit (omega (arith, same))
  | inr miss ↦ rw miss (omega arith)
]

one_further :
    (d : WorkflowDependency) (rest : List WorkflowDependency) (g : String → List String)
    (id : String)
    → (if d.source_node_id == id then g d.source_node_id ++ d.target_node_id ∷ [] else g id)
        ++ targets_of rest id
      ≡ g id ++ targets_of (d ∷ rest) id
one_further d rest g id = elim (Bool-cases (d.source_node_id == id)) [
  | inl hit ↦ rw hit (
      append_assoc (g d.source_node_id) (d.target_node_id ∷ []) (targets_of rest id)
      ∙ ap (λ l. l ++ d.target_node_id ∷ targets_of rest id)
          (ap g ((==_iff d.source_node_id id).0 hit)))
  | inr miss ↦ rw miss refl
]

pub link-Linked :
    (nodes : List String) (dependencies : List WorkflowDependency) (incoming : Dict String ℕ)
    (outgoing : Dict String (List String)) (f : String → ℕ) (g : String → List String)
    → Known nodes dependencies
    → Holds nodes incoming f
    → Holds nodes outgoing g
    → (after : Dict String ℕ × Dict String (List String)) × (link dependencies incoming outgoing
        ≡ ok after)
      × Linked nodes dependencies incoming f g after
unfolding link
link-Linked nodes [] incoming outgoing f g known counts targets = (
  (incoming, outgoing),
  refl,
  record {
    counts = Holds-eq nodes incoming f _ counts (λ id. omega arith);
    targets = Holds-eq nodes outgoing g _ targets (λ id. sym (append-nil (g id)));
    keys = refl;
  },
)
link-Linked nodes (d ∷ rest) incoming outgoing f g known counts targets =
    let target_count = counts d.target_node_id (ground arith) in
    let source_targets = targets d.source_node_id (ground arith) in
    let (after, e, linked) =
      link-Linked nodes rest (put incoming d.target_node_id (f d.target_node_id + 1))
        (put outgoing d.source_node_id (g d.source_node_id ++ d.target_node_id ∷ []))
        (λ id. if d.target_node_id == id then f d.target_node_id + 1 else f id)
        (λ id. if d.source_node_id == id then g d.source_node_id ++ d.target_node_id ∷ [] else g id)
        (ground arith) (Holds-put nodes incoming f d.target_node_id _ counts)
        (Holds-put nodes outgoing g d.source_node_id _ targets) in
    (
      after,
      rw (target_count, source_targets) e,
      record {
        counts = Holds-eq nodes after.0 _ _ linked.counts (λ id. one_more d rest f id);
        targets = Holds-eq nodes after.1 _ _ linked.targets (λ id. one_further d rest g id);
        keys = linked.keys ∙ ids-put incoming d.target_node_id _ _ target_count;
      },
    )

abbrev pub is_zero : Option ℕ → Bool
is_zero none = false
is_zero (some n) = nat_beq n 0

contains-free_le :
    (incoming : Dict String ℕ) (id : String)
    → contains (ids incoming) id ≡ false
    → contains (free_ids incoming) id ≡ false
unfolding free_ids contains
contains-free_le [] id h = refl
contains-free_le ((k, n) ∷ rest) id h = ground (arith, contains-free_le rest id)

pub contains-free_ids :
    (incoming : Dict String ℕ) (id : String)
    → has_duplicates (ids incoming) ≡ false
    → contains (free_ids incoming) id ≡ is_zero (get incoming id)
unfolding free_ids get contains
contains-free_ids [] id once = refl
contains-free_ids ((k, n) ∷ rest) id once = elim (Bool-cases (k == id)) [
  | inl hit ↦ ground (arith, contains-free_le rest id, contains_same (ids rest) k id hit)
  | inr miss ↦ ground (arith, contains-free_ids rest id)
]

pub has_duplicates-free_ids :
    (incoming : Dict String ℕ)
    → has_duplicates (ids incoming) ≡ false
    → has_duplicates (free_ids incoming) ≡ false
unfolding free_ids contains
has_duplicates-free_ids [] once = refl
has_duplicates-free_ids ((k, n) ∷ rest) once =
    ground (arith, has_duplicates-free_ids rest, contains-free_le rest k)
