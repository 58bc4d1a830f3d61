-- ===== src/Prelude/Dict.antt =====
-- Python's `dict` and `set`, in insertion order, over keys with an equality.
use congeries_core.Prelude.{Bool-cases, inl, inr}
use mathlib.Core.Path.{◌≡◌, refl, sym, ap, ◌∙◌}
use mathlib.Core.Logic.{◌↔◌, ◌⊎◌, ◌≢◌}
use mathlib.Core.Bool.{Bool, true, false, ◌||◌}
use mathlib.Core.Option.{Option, none, some}
use mathlib.Core.List.{List, [], ◌∷◌}
use native.Mathlib.Omega.{arith}
use congeries_core.Prelude.Tests.{if◌then◌else◌}
use congeries_core.Prelude.Eq.{Eq, ◌==◌, ==_iff, ==_refl}

abbrev pub Dict {ℓ κ} : Type ℓ → Type κ → Type (ℓ ⊔ κ)
Dict K V = List (K × V)

module _ {ℓ κ} {K : Type ℓ} {V : Type κ} ⦃e : Eq K⦄ where
  -- d.get(k)
  unfoldable pub get : Dict K V → K → Option V
  get [] k = none
  get ((j, v) ∷ d) k = if j == k then some v else get d k

  -- d[k] = v: a known key keeps its place, a new one goes to the end.
  unfoldable pub put : Dict K V → K → V → Dict K V
  put [] k v = (k, v) ∷ []
  put ((j, w) ∷ d) k v = if j == k then (k, v) ∷ d else (j, w) ∷ put d k v

  -- del d[k], d.pop(k, None)
  unfoldable pub remove : Dict K V → K → Dict K V
  remove [] k = []
  remove ((j, v) ∷ d) k = let rest = remove d k in if j == k then rest else (j, v) ∷ rest

  pub get-put :
      (entries : Dict K V) (key other : K) (value : V)
      → get (put entries key value) other ≡ (if key == other then some value else get entries other)
  unfolding get put
  get-put [] key other value = refl
  get-put ((at, w) ∷ rest) key other value =
      ground (arith, ==_iff key other, ==_iff at key, ==_iff at other, get-put rest key other value)

  pub get-remove :
      (entries : Dict K V) (key other : K)
      → get (remove entries key) other ≡ (if key == other then none else get entries other)
  unfolding get remove
  get-remove [] key other = ground arith
  get-remove ((at, w) ∷ rest) key other =
      ground (arith, ==_iff key other, ==_iff at key, ==_iff at other, get-remove rest key other)

pub some_injective {ℓ} : {A : Type ℓ} {a b : A} → some a ≡ some b → a ≡ b
some_injective e = cc

module _ {ℓ κ} {K : Type ℓ} {V : Type κ} ⦃e : Eq K⦄ where
  -- What is read after a write is the value written, or was there before.
  pub get-put_cases :
      (d : Dict K V) (k j : K) (v w : V)
      → get (put d k v) j ≡ some w
      → ((k ≡ j) × (v ≡ w)) ⊎ ((k == j) ≡ false) × (get d j ≡ some w)
  get-put_cases d k j v w h = elim (Bool-cases (k == j)) [
    | inl is ↦ inl ((==_iff k j).0 is, ground (arith, get-put d k j v))
    | inr other ↦ inr (other, ground (arith, get-put d k j v))
  ]

  -- A new key hides no other.
  pub get-put_new :
      (d : Dict K V) (k j : K) (v w : V)
      → get d k ≡ none
      → get d j ≡ some w
      → get (put d k v) j ≡ some w
  get-put_new d k j v w new there = elim (Bool-cases (k == j)) [
    | inl hit ↦ cc (new, there, ap (get d) ((==_iff k j).0 hit))
    | inr miss ↦ get-put d k j v ∙ ap (λ b. if b then some v else get d j) miss ∙ there
  ]

  -- What is left after a deletion was there under another key.
  pub get-remove_cases :
      (d : Dict K V) (k j : K) (w : V)
      → get (remove d k) j ≡ some w
      → ((k == j) ≡ false) × (get d j ≡ some w)
  get-remove_cases d k j w h = elim (Bool-cases (k == j)) [
    | inl hit ↦ cc (h, get-remove d k j ∙ ap (λ b. if b then none else get d j) hit)
    | inr miss ↦ (miss, sym (get-remove d k j ∙ ap (λ b. if b then none else get d j) miss) ∙ h)
  ]

  -- Deleting a key leaves a key that has another value.
  pub get-remove_apart :
      (d : Dict K V) (k j : K) (v w : V)
      → get d k ≡ some v
      → get d j ≡ some w
      → v ≢ w
      → get (remove d k) j ≡ some w
  get-remove_apart d k j v w here there apart = elim (Bool-cases (k == j)) [
    | inl hit ↦ absurd (apart (some_injective (sym here ∙ ap (get d) ((==_iff k j).0 hit) ∙ there)))
    | inr miss ↦ get-remove d k j ∙ ap (λ b. if b then none else get d j) miss ∙ there
  ]

  pub get-put_self : (d : Dict K V) (k : K) (v : V) → get (put d k v) k ≡ some v
  get-put_self d k v = ground (arith, get-put d k k v, ==_refl k)

pub ruleset dict_laws = (get-put, get-remove)

module _ {ℓ} {A : Type ℓ} ⦃e : Eq A⦄ where
  -- `a in xs`
  unfoldable pub contains : List A → A → Bool
  contains [] sought = false
  contains (member ∷ rest) sought = member == sought || contains rest sought

  -- s.add(a)
  unfoldable pub add : List A → A → List A
  add xs a = if contains xs a then xs else a ∷ xs

  -- xs <= ys, `xs.issubset(ys)`
  unfoldable pub is_subset : List A → List A → Bool
  is_subset [] ys = true
  is_subset (x ∷ xs) ys = if contains ys x then is_subset xs ys else false

  contains_of_eq : (xs : List A) (a b : A) → (a == b) ≡ true → contains xs b ≡ contains xs a
  contains_of_eq xs a b h = ap (contains xs) (sym ((==_iff a b).0 h))

  pub contains-add : (xs : List A) (a b : A) → contains (add xs a) b ≡ (a == b || contains xs b)
  unfolding add contains
  contains-add xs a b = ground (arith, contains_of_eq xs a b)

  is_subset→ :
      (xs ys : List A)
      → is_subset xs ys ≡ true
      → (a : A) → contains xs a ≡ true
      → contains ys a ≡ true
  unfolding is_subset contains
  is_subset→ [] ys h a m = cc
  is_subset→ (x ∷ xs) ys h a m =
      ground (arith, contains_of_eq ys x a, is_subset→ xs ys (ground arith) a)

  is_subset← :
      (xs ys : List A)
      → ((a : A) → contains xs a ≡ true → contains ys a ≡ true)
      → is_subset xs ys ≡ true
  unfolding is_subset contains
  is_subset← [] ys h = refl
  is_subset← (x ∷ xs) ys h =
      ground (arith, ==_refl x, h x, is_subset← xs ys (λ a m. ground (arith, h a)))

  -- The subset test is inclusion.
  pub is_subset_iff :
      (xs ys : List A)
      → (is_subset xs ys ≡ true) ↔ ((a : A) → contains xs a ≡ true → contains ys a ≡ true)
  is_subset_iff xs ys = (is_subset→ xs ys, is_subset← xs ys)
