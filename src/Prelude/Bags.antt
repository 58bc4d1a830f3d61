-- ===== src/Prelude/Bags.antt =====
-- Members of lists and how often they stand there: appending, duplicates, counts.
use mathlib.Core.Path.{◌≡◌, refl, sym, ap, ◌∙◌}
use mathlib.Core.Bool.{Bool, true, false, ◌||◌}
use mathlib.Core.Logic.{inl, inr}
use mathlib.Core.List.{List, [], ◌∷◌, ◌++◌}
use Prim.Native.Nat.{ℕ, suc, ◌+◌, ◌<◌, ◌≤◌}
use native.Mathlib.Omega.{arith}
use congeries_core.Prelude.Tests.{if◌then◌else◌, Bool-cases}
use congeries_core.Prelude.Lists.{length, all}
use congeries_core.Prelude.Eq.{Eq, ◌==◌, ==_iff, ==_refl}
use congeries_core.Prelude.Dict.{contains, add, contains-add}

module _ {ℓ} {A : Type ℓ} ⦃e : Eq A⦄ where
  -- `len(set(xs)) != len(xs)`
  abbrev pub has_duplicates : List A → Bool
  has_duplicates [] = false
  has_duplicates (k ∷ rest) = contains rest k || has_duplicates rest

  -- How often an item stands in a list.
  abbrev pub times : List A → A → ℕ
  times [] a = 0
  times (x ∷ xs) a = (if x == a then 1 else 0) + times xs a

  pub contains-append :
      (xs ys : List A) (a : A) → contains (xs ++ ys) a ≡ (contains xs a || contains ys a)
  unfolding contains
  contains-append [] ys a = refl
  contains-append (x ∷ xs) ys a = ground (arith, contains-append xs ys a)

  pub contains_alone : (x a : A) → contains (x ∷ []) a ≡ (x == a)
  unfolding contains
  contains_alone x a = ground arith

  pub contains_same : (xs : List A) (a b : A) → (a == b) ≡ true → contains xs a ≡ contains xs b
  contains_same xs a b h = ap (contains xs) ((==_iff a b).0 h)

  pub member_of_all :
      (test : A → Bool) (xs : List A) (a : A)
      → all test xs ≡ true
      → contains xs a ≡ true
      → test a ≡ true
  unfolding contains
  member_of_all test [] a h inside = cc
  member_of_all test (x ∷ rest) a h inside = elim (Bool-cases (x == a)) [
    | inl hit ↦ ap test (sym ((==_iff x a).0 hit)) ∙ ground arith
    | inr miss ↦ member_of_all test rest a (ground arith) (ground (arith, inside))
  ]

  pub all_of_members :
      (test : A → Bool) (xs : List A)
      → ((a : A) → contains xs a ≡ true → test a ≡ true)
      → all test xs ≡ true
  unfolding contains
  all_of_members test [] h = refl
  all_of_members test (x ∷ rest) h = ground (
    arith,
    h x (rw (==_refl x) refl),
    all_of_members test rest (λ a inside. h a (ground (arith, inside))),
  )

  pub times-append : (xs ys : List A) (a : A) → times (xs ++ ys) a ≡ times xs a + times ys a
  times-append [] ys a = omega arith
  times-append (x ∷ xs) ys a = omega (arith, times-append xs ys a)

  pub has_duplicates-append :
      (xs : List A) (a : A) → has_duplicates (xs ++ a ∷ []) ≡ (contains xs a || has_duplicates xs)
  unfolding contains
  has_duplicates-append [] a = refl
  has_duplicates-append (x ∷ xs) a = ground (
    arith,
    has_duplicates-append xs a,
    contains-append xs (a ∷ []) x,
    contains_alone a x,
    ==_iff x a,
    ==_iff a x,
  )

  -- How many items of the first list are not in the second.
  abbrev pub missing_count : List A → List A → ℕ
  missing_count [] ys = 0
  missing_count (x ∷ xs) ys = (if contains ys x then 0 else 1) + missing_count xs ys

  pub missing_count-nil : (xs : List A) → missing_count xs [] ≡ length xs
  unfolding contains
  missing_count-nil [] = refl
  missing_count-nil (x ∷ xs) = omega (arith, missing_count-nil xs)

  missing_count-outside :
      (xs ys : List A) (a : A)
      → contains xs a ≡ false
      → missing_count xs (ys ++ a ∷ []) ≡ missing_count xs ys
  unfolding contains
  missing_count-outside [] ys a h = refl
  missing_count-outside (x ∷ xs) ys a h = ground (
    arith,
    missing_count-outside xs ys a,
    contains-append ys (a ∷ []) x,
    contains_alone a x,
    ==_iff x a,
    ==_iff a x,
  )

  -- An item that was missing is missing no more.
  pub missing_count-append :
      (xs ys : List A) (a : A)
      → has_duplicates xs ≡ false
      → contains xs a ≡ true
      → contains ys a ≡ false
      → missing_count xs (ys ++ a ∷ []) + 1 ≡ missing_count xs ys
  unfolding contains
  missing_count-append [] ys a once inside new = cc
  missing_count-append (x ∷ xs) ys a once inside new = elim (Bool-cases (x == a)) [
    | inl hit ↦ ground (
      arith,
      contains-append ys (a ∷ []) x,
      contains_alone a x,
      ==_iff x a,
      ==_iff a x,
      contains_same xs x a hit,
      contains_same ys x a hit,
      missing_count-outside xs ys a,
    )
    | inr miss ↦ ground (
      arith,
      contains-append ys (a ∷ []) x,
      contains_alone a x,
      ==_iff x a,
      ==_iff a x,
      missing_count-append xs ys a,
    )
  ]

  pub none_missing :
      (xs ys : List A) (a : A)
      → missing_count xs ys ≡ 0
      → contains xs a ≡ true
      → contains ys a ≡ true
  unfolding contains
  none_missing [] ys a none_left h = cc
  none_missing (x ∷ xs) ys a none_left h = elim (Bool-cases (x == a)) [
    | inl hit ↦ ground (arith, contains_same ys x a hit)
    | inr miss ↦ ground (arith, none_missing xs ys a)
  ]

  pub nothing_missing :
      (xs ys : List A)
      → ((a : A) → contains xs a ≡ true → contains ys a ≡ true)
      → missing_count xs ys ≡ 0
  unfolding contains
  nothing_missing [] ys h = refl
  nothing_missing (x ∷ xs) ys h = ground (
    arith,
    h x (rw (==_refl x) refl),
    nothing_missing xs ys (λ a inside. h a (ground (arith, inside))),
  )

  missing_count-eq :
      (xs ys zs : List A)
      → ((a : A) → contains ys a ≡ contains zs a)
      → missing_count xs ys ≡ missing_count xs zs
  missing_count-eq [] ys zs same = refl
  missing_count-eq (x ∷ xs) ys zs same = ground (arith, same x, missing_count-eq xs ys zs same)

  -- The same of a set.
  pub missing_count-add :
      (xs ys : List A) (a : A)
      → has_duplicates xs ≡ false
      → contains xs a ≡ true
      → contains ys a ≡ false
      → missing_count xs (add ys a) + 1 ≡ missing_count xs ys
  missing_count-add xs ys a once inside new = omega (
    arith,
    missing_count-append xs ys a once inside new,
    missing_count-eq xs (add ys a) (ys ++ a ∷ []) (λ b.
        ground (arith, contains-add ys a b, contains-append ys (a ∷ []) b, contains_alone a b)),
  )

  pub missing_count_bound : (xs ys : List A) → missing_count xs ys ≤ length xs
  missing_count_bound [] ys = omega arith
  missing_count_bound (x ∷ xs) ys = ground (arith, missing_count_bound xs ys)

  -- Where an item stands first; behind the end if it is not there.
  abbrev pub position : List A → A → ℕ
  position [] a = 0
  position (x ∷ xs) a = if x == a then 0 else suc (position xs a)

  pub position-inside :
      (xs ys : List A) (a : A)
      → contains xs a ≡ true
      → (position (xs ++ ys) a ≡ position xs a) × (position xs a < length xs)
  unfolding contains
  position-inside [] ys a h = cc
  position-inside (x ∷ xs) ys a h = elim (Bool-cases (x == a)) [
    | inl hit ↦ ground arith
    | inr miss ↦ ground (arith, position-inside xs ys a)
  ]

  pub position-end :
      (xs : List A) (a : A) → contains xs a ≡ false → position (xs ++ a ∷ []) a ≡ length xs
  unfolding contains
  position-end [] a h = ground (arith, ==_refl a)
  position-end (x ∷ xs) a h = ground (arith, position-end xs a)
