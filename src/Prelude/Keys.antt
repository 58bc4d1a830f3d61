-- ===== src/Prelude/Keys.antt =====
-- The keys of a dictionary and its entries.
use congeries_core.Prelude.{All, ◌∙◌}
use mathlib.Core.Path.{◌≡◌, refl, ap}
use mathlib.Core.Bool.{false, ◌||◌}
use mathlib.Core.Logic.{inl, inr}
use mathlib.Core.List.{List, [], ◌∷◌}
use mathlib.Core.Option.{some}
use native.Mathlib.Omega.{arith}
use congeries_core.Prelude.Tests.{if◌then◌else◌, Bool-cases}
use congeries_core.Prelude.Eq.{Eq, ◌==◌, ==_iff, ==_refl}
use congeries_core.Prelude.Dict.{Dict, put, remove, contains, get}
use congeries_core.Prelude.Bags.{has_duplicates}

module _ {ℓ κ} {K : Type ℓ} {V : Type κ} where
  abbrev pub keys : Dict K V → List K
  keys [] = []
  keys ((k, v) ∷ rest) = k ∷ keys rest

module _ {ℓ κ} {K : Type ℓ} {V : Type κ} ⦃e : Eq K⦄ where
  contains-keys_put :
      (d : Dict K V) (k j : K) (v : V)
      → contains (keys (put d k v)) j ≡ (k == j || contains (keys d) j)
  unfolding put contains
  contains-keys_put [] k j v = refl
  contains-keys_put ((i, w) ∷ rest) k j v =
      ground (arith, contains-keys_put rest k j v, ==_iff i k, ==_iff i j, ==_iff k j)

  pub has_duplicates-put :
      (d : Dict K V) (k : K) (v : V)
      → has_duplicates (keys d) ≡ false
      → has_duplicates (keys (put d k v)) ≡ false
  unfolding put contains
  has_duplicates-put [] k v once = refl
  has_duplicates-put ((i, w) ∷ rest) k v once = elim (Bool-cases (i == k)) [
    | inl hit ↦
        let same = ap (contains (keys rest)) ((==_iff i k).0 hit) in
        rw hit (ground (arith, once, same))
    | inr miss ↦ rw miss (
        ground (
          arith,
          has_duplicates-put rest k v,
          contains-keys_put rest k i v,
          ==_iff i k,
          ==_iff k i,
        ))
  ]

  contains-keys_remove :
      (d : Dict K V) (k j : K)
      → contains (keys d) j ≡ false
      → contains (keys (remove d k)) j ≡ false
  unfolding remove contains
  contains-keys_remove [] k j h = refl
  contains-keys_remove ((i, w) ∷ rest) k j h = ground (arith, contains-keys_remove rest k j)

  pub has_duplicates-remove :
      (d : Dict K V) (k : K)
      → has_duplicates (keys d) ≡ false
      → has_duplicates (keys (remove d k)) ≡ false
  unfolding remove contains
  has_duplicates-remove [] k once = refl
  has_duplicates-remove ((i, w) ∷ rest) k once =
      ground (arith, has_duplicates-remove rest k, contains-keys_remove rest k i)

  key_apart :
      (d : Dict K V) (k j : K) (v : V)
      → contains (keys d) k ≡ false
      → get d j ≡ some v
      → (k == j) ≡ false
  unfolding get contains
  key_apart [] k j v new there = cc
  key_apart ((i, w) ∷ rest) k j v new there =
      ground (arith, key_apart rest k j v, ==_iff i j, ==_iff k j, ==_iff i k)

  -- What holds of all that can be looked up holds of all entries.
  pub All-entries {μ} :
      (P : K → V → Type μ) (d : Dict K V)
      → has_duplicates (keys d) ≡ false
      → ((k : K) (v : V) → get d k ≡ some v → P k v)
      → All (λ (entry : K × V). P entry.0 entry.1) d
  unfolding get
  All-entries P [] once h = tt
  All-entries P ((k, v) ∷ rest) once h = (
    h k v (ap (λ b. if b then some v else get rest k) (==_refl k)),
    All-entries P rest (ground arith) (λ j w there. h j w (
        ap (λ b. if b then some v else get rest j) (key_apart rest k j w (ground arith) there)
        ∙ there)),
  )
