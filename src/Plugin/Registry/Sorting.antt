-- ===== src/Plugin/Registry/Sorting.antt =====
-- The sorted capabilities of a plan are its capabilities.
use congeries_core.Prelude.{
  ℕ, String, ◌≡◌, refl, ◌||◌, List, [], ◌∷◌, arith, Bool-cases, inl, inr, All,
}
use congeries_core.Prelude.Eq.{◌==◌, string_eq, pair_eq, ==_iff}
use congeries_core.Prelude.Bags.{has_duplicates}
use congeries_core.Prelude.Dict.{contains}
use congeries_core.Plugin.Model.{PluginRef, CapabilityKey}
use congeries_core.Plugin.Registry.{keys_of, insert_capability, sort_capabilities, key_first}

module _ {D I : Type 0} (key_of : D → CapabilityKey)
    (registration_id : PluginRef → List CapabilityKey → ℕ → String) where
  contains-insert :
      (c : D × I) (others : List (D × I)) (k : CapabilityKey)
      → contains
          (keys_of key_of registration_id (insert_capability key_of registration_id c others))
          k
        ≡ (key_of c.0 == k || contains (keys_of key_of registration_id others) k)
  unfolding insert_capability keys_of contains
  contains-insert c [] k = refl
  contains-insert c (next ∷ rest) k = ground (arith, contains-insert c rest k)

  has_duplicates-insert :
      (c : D × I) (others : List (D × I))
      → has_duplicates
          (keys_of key_of registration_id (insert_capability key_of registration_id c others))
        ≡ (contains (keys_of key_of registration_id others) (key_of c.0)
            || has_duplicates (keys_of key_of registration_id others))
  unfolding insert_capability keys_of contains
  has_duplicates-insert c [] = refl
  has_duplicates-insert c (next ∷ rest) = ground (
    arith,
    ==_iff (key_of c.0) (key_of next.0),
    ==_iff (key_of next.0) (key_of c.0),
    contains-insert c rest (key_of next.0),
    has_duplicates-insert c rest,
  )

  pub contains-sort :
      (cs : List (D × I)) (k : CapabilityKey)
      → contains (keys_of key_of registration_id (sort_capabilities key_of registration_id cs)) k
        ≡ contains (keys_of key_of registration_id cs) k
  unfolding sort_capabilities keys_of contains
  contains-sort [] k = refl
  contains-sort (c ∷ rest) k = ground (
    arith,
    contains-insert c (sort_capabilities key_of registration_id rest) k,
    contains-sort rest k,
  )

  -- Sorting neither makes nor hides a duplicate.
  pub has_duplicates-sort :
      (cs : List (D × I))
      → has_duplicates
          (keys_of key_of registration_id (sort_capabilities key_of registration_id cs))
        ≡ has_duplicates (keys_of key_of registration_id cs)
  unfolding sort_capabilities keys_of contains
  has_duplicates-sort [] = refl
  has_duplicates-sort (c ∷ rest) = ground (
    arith,
    has_duplicates-insert c (sort_capabilities key_of registration_id rest),
    contains-sort rest (key_of c.0),
    has_duplicates-sort rest,
  )

  All-insert :
      (P : D × I → Type 0) (c : D × I) (others : List (D × I))
      → All P (insert_capability key_of registration_id c others)
      → P c × All P others
  unfolding insert_capability
  All-insert P c [] all = all
  All-insert P c (next ∷ rest) all = elim (Bool-cases (key_first (key_of c.0) (key_of next.0))) [
    | inl first ↦ rw first at all
    | inr after ↦
        let found : P next × All P (insert_capability key_of registration_id c rest) =
          rw after at all in
        let (head, tail) = All-insert P c rest found.1 in (head, (found.0, tail))
  ]

  -- What holds of all sorted capabilities holds of all capabilities.
  pub All-sort :
      (P : D × I → Type 0) (cs : List (D × I))
      → All P (sort_capabilities key_of registration_id cs)
      → All P cs
  unfolding sort_capabilities
  All-sort P [] all = tt
  All-sort P (c ∷ rest) all =
      let (head, tail) = All-insert P c (sort_capabilities key_of registration_id rest) all in
      (head, All-sort P rest tail)
