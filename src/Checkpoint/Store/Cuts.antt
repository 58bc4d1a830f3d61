-- ===== src/Checkpoint/Store/Cuts.antt =====
-- Where a page ends in a descending list, and what is after it.
use congeries_core.Prelude.{
  ℕ, zero, suc, ◌≤◌, ◌<◌, ◌≡◌, refl, ap, subst, ◌∙◌, false, some, List, [], ◌∷◌, ◌++◌, take, drop,
  get_last?, length, take-drop, All, ltb, arith, if◌then◌else◌, Bool-cases, inl, inr, length-append,
}
use congeries_core.Prelude.Eq.{string_eq, nat_eq, pair_eq, option_eq}
use congeries_core.Prelude.Dict.{some_injective}
use congeries_core.Checkpoint.Model.{Checkpoint}
use congeries_core.Checkpoint.Store.Latest.{Descending, below}

pub last_of_all :
    (P : Checkpoint → Type 0) (n : ℕ) (xs : List Checkpoint) (c : Checkpoint)
    → All P xs
    → get_last? (take n xs) ≡ some c
    → P c
last_of_all P zero xs c all h = cc
last_of_all P (suc n) [] c all h = cc
last_of_all P (suc zero) (x ∷ xs) c (p, later) h = subst P (some_injective h) p
last_of_all P (suc (suc n)) (x ∷ []) c (p, later) h = subst P (some_injective h) p
last_of_all P (suc (suc n)) (x ∷ y ∷ ys) c (p, later) h = last_of_all P (suc n) (y ∷ ys) c later h

All-below :
    (n : ℕ) (xs : List Checkpoint) → All (λ (c : Checkpoint). c.sequence < n) xs → below n xs ≡ xs
unfolding below
All-below n [] all = refl
All-below n (x ∷ xs) (h, later) = ground (arith, All-below n xs later)

-- What is below the last checkpoint of a page are the checkpoints after the page.
after_page :
    (n : ℕ) (xs : List Checkpoint) (c : Checkpoint)
    → Descending xs
    → get_last? (take (suc n) xs) ≡ some c
    → below c.sequence xs ≡ drop (suc n) xs
unfolding below
after_page n [] c d h = cc
after_page zero (x ∷ xs) c (under, d) h =
    let e : x ≡ c = some_injective h in
    subst (λ (y : Checkpoint). below y.sequence (x ∷ xs) ≡ xs) e
      (ground (arith, All-below x.sequence xs under))
after_page (suc n) (x ∷ []) c (under, d) h =
    let e : x ≡ c = some_injective h in
    subst (λ (y : Checkpoint). below y.sequence (x ∷ []) ≡ []) e (ground arith)
after_page (suc n) (x ∷ y ∷ ys) c (under, d) h =
    let less =
      last_of_all (λ (z : Checkpoint). z.sequence < x.sequence) (suc n) (y ∷ ys) c under h in
    let rest = after_page n (y ∷ ys) c d h in
    ap (λ b. if b then x ∷ below c.sequence (y ∷ ys) else below c.sequence (y ∷ ys))
      (not_below x.sequence c.sequence less)
    ∙ rest
  where
    not_below : (m k : ℕ) → k < m → ltb m k ≡ false
    not_below m k h = ground arith

pub below-below : (m n : ℕ) (xs : List Checkpoint) → m ≤ n → below m (below n xs) ≡ below m xs
unfolding below
below-below m n [] le = refl
below-below m n (x ∷ xs) le = ground (arith, below-below m n xs)

below-All : (P : Checkpoint → Type 0) (n : ℕ) (xs : List Checkpoint) → All P xs → All P (below n xs)
unfolding below
below-All P n [] all = tt
below-All P n (x ∷ xs) (p, later) = elim (Bool-cases (ltb x.sequence n)) [
  | inl kept ↦ rw kept (p, below-All P n xs later)
  | inr dropped ↦ rw dropped (below-All P n xs later)
]

pub below-Descending : (n : ℕ) (xs : List Checkpoint) → Descending xs → Descending (below n xs)
unfolding below
below-Descending n [] d = tt
below-Descending n (x ∷ xs) (under, d) = elim (Bool-cases (ltb x.sequence n)) [
  | inl kept ↦ rw kept (below-All _ n xs under, below-Descending n xs d)
  | inr dropped ↦ rw dropped (below-Descending n xs d)
]

pub below_bound :
    (n : ℕ) (xs : List Checkpoint) → All (λ (c : Checkpoint). c.sequence < n) (below n xs)
unfolding below
below_bound n [] = tt
below_bound n (x ∷ xs) = elim (Bool-cases (ltb x.sequence n)) [
  | inl kept ↦ rw kept (ground (arith, kept), below_bound n xs)
  | inr dropped ↦ rw dropped (below_bound n xs)
]

pub last_there :
    (n : ℕ) (xs : List Checkpoint)
    → 1 ≤ n
    → n < length xs
    → (c : Checkpoint) × (get_last? (take n xs) ≡ some c)
last_there zero xs pos long = absurd (omega (arith, pos))
last_there (suc n) [] pos long = absurd (omega (arith, long))
last_there (suc zero) (x ∷ xs) pos long = (x, refl)
last_there (suc (suc n)) (x ∷ []) pos long = absurd (omega (arith, long))
last_there (suc (suc n)) (x ∷ y ∷ ys) pos long =
    last_there (suc n) (y ∷ ys) (omega arith) (omega (arith, long))

pub length-drop_lt :
    (n : ℕ) (xs : List Checkpoint) → 1 ≤ n → n < length xs → length (drop n xs) < length xs
length-drop_lt n xs pos long = omega (
  arith,
  ap length (take-drop n xs),
  length-append (take n xs) (drop n xs),
  length-take_full n xs (omega arith),
)
  where
    length-take_full : (n : ℕ) (xs : List Checkpoint) → n ≤ length xs → length (take n xs) ≡ n
    length-take_full zero xs h = refl
    length-take_full (suc n) [] h = absurd (omega (arith, h))
    length-take_full (suc n) (x ∷ xs) h = ap suc (length-take_full n xs (omega (arith, h)))

pub after_limit :
    (limit : ℕ) (xs : List Checkpoint) (c : Checkpoint)
    → 1 ≤ limit
    → Descending xs
    → get_last? (take limit xs) ≡ some c
    → below c.sequence xs ≡ drop limit xs
after_limit zero xs c pos d h = absurd (omega (arith, pos))
after_limit (suc n) xs c pos d h = after_page n xs c d h

pub take_whole : (n : ℕ) (xs : List Checkpoint) → length xs ≤ n → take n xs ++ [] ≡ xs
take_whole zero [] h = refl
take_whole (suc n) [] h = refl
take_whole zero (x ∷ xs) h = absurd (omega (arith, h))
take_whole (suc n) (x ∷ xs) h = ap (λ l. x ∷ l) (take_whole n xs (omega (arith, h)))
