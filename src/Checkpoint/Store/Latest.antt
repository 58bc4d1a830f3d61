-- ===== src/Checkpoint/Store/Latest.antt =====
-- The order in which `list` has the checkpoints: the latest first, without ties.
use congeries_core.Prelude.{
  ℕ, ◌<◌, String, ◌≡◌, ◌≢◌, refl, sym, ap, subst, ◌∙◌, true, false, Option, none, some, List, [],
  ◌∷◌, All, All-map, ltb, leb, arith, if◌then◌else◌, Bool-cases, inl, inr,
}
use congeries_core.Prelude.Eq.{string_eq, nat_eq, pair_eq, option_eq, ==_iff}
use congeries_core.Prelude.Dict.{Dict, get, contains, some_injective}
use congeries_core.Prelude.Bags.{has_duplicates}
use congeries_core.Prelude.Keys.{keys, All-entries}
use congeries_core.Checkpoint.Model.{Checkpoint}
use congeries_core.Checkpoint.Store.{InMemoryCheckpointStore}
use congeries_core.Checkpoint.Store.Listing.{
  CheckpointQuery, is_listed, listed, insert_latest, sort_latest,
}
use congeries_core.Checkpoint.Store.Consistency.{IsConsistent, Tracked, pair_path}

-- Every checkpoint has a smaller number than those before it.
abbrev pub Descending : List Checkpoint → Type 0
Descending [] = Unit
Descending (c ∷ rest) =
    All (λ (later : Checkpoint). later.sequence < c.sequence) rest × Descending rest

-- No two checkpoints have the same number.
abbrev Distinct : List Checkpoint → Type 0
Distinct [] = Unit
Distinct (c ∷ rest) = All (λ (other : Checkpoint). other.sequence ≢ c.sequence) rest × Distinct rest

All-insert_latest :
    (P : Checkpoint → Type 0) (c : Checkpoint) (xs : List Checkpoint)
    → P c
    → All P xs
    → All P (insert_latest c xs)
unfolding insert_latest
All-insert_latest P c [] p all = (p, tt)
All-insert_latest P c (y ∷ ys) p (q, later) = elim (Bool-cases (leb y.sequence c.sequence)) [
  | inl first ↦
      subst (All P) (ap (λ b. if b then c ∷ y ∷ ys else y ∷ insert_latest c ys) (sym first))
        (p, (q, later))
  | inr last ↦
      subst (All P) (ap (λ b. if b then c ∷ y ∷ ys else y ∷ insert_latest c ys) (sym last))
        (q, All-insert_latest P c ys p later)
]

pub All-sort_latest :
    (P : Checkpoint → Type 0) (xs : List Checkpoint) → All P xs → All P (sort_latest xs)
unfolding sort_latest
All-sort_latest P [] all = tt
All-sort_latest P (x ∷ xs) (p, later) =
    All-insert_latest P x (sort_latest xs) p (All-sort_latest P xs later)

insert_latest-Descending :
    (c : Checkpoint) (xs : List Checkpoint)
    → All (λ (other : Checkpoint). other.sequence ≢ c.sequence) xs
    → Descending xs
    → Descending (insert_latest c xs)
unfolding insert_latest
insert_latest-Descending c [] apart d = (tt, tt)
insert_latest-Descending c (y ∷ ys) (differs, others) (below, d) =
    elim (Bool-cases (leb y.sequence c.sequence)) [
      | inl first ↦
          let less : y.sequence < c.sequence = ground arith in
          subst Descending (ap (λ b. if b then c ∷ y ∷ ys else y ∷ insert_latest c ys) (sym first))
            ((less, All-map ys (λ z h. omega (arith, h, less)) below), (below, d))
      | inr last ↦
          subst Descending (ap (λ b. if b then c ∷ y ∷ ys else y ∷ insert_latest c ys) (sym last))
            (All-insert_latest _ c ys (ground arith) below, insert_latest-Descending c ys others d)
    ]

sort_latest-Descending : (xs : List Checkpoint) → Distinct xs → Descending (sort_latest xs)
unfolding sort_latest
sort_latest-Descending [] distinct = tt
sort_latest-Descending (x ∷ xs) (apart, distinct) =
    insert_latest-Descending x (sort_latest xs) (All-sort_latest _ xs apart)
      (sort_latest-Descending xs distinct)

-- `item.sequence < bound`, on a list.
unfoldable pub below : ℕ → List Checkpoint → List Checkpoint
below n [] = []
below n (c ∷ rest) = let later = below n rest in if ltb c.sequence n then c ∷ later else later

below-listed :
    (q : CheckpointQuery) (n : ℕ) (d : Dict String Checkpoint)
    → listed (is_listed q (some n)) d ≡ below n (listed (is_listed q none) d)
unfolding listed is_listed below
below-listed q n [] = refl
below-listed q n ((ref, c) ∷ rest) = ground (arith, below-listed q n rest)

below-insert_latest :
    (n : ℕ) (c : Checkpoint) (xs : List Checkpoint)
    → below n (insert_latest c xs)
      ≡ (if ltb c.sequence n then insert_latest c (below n xs) else below n xs)
unfolding below insert_latest
below-insert_latest n c [] = ground arith
below-insert_latest n c (y ∷ ys) = ground (arith, below-insert_latest n c ys)

below-sort_latest :
    (n : ℕ) (xs : List Checkpoint) → below n (sort_latest xs) ≡ sort_latest (below n xs)
unfolding below sort_latest
below-sort_latest n [] = refl
below-sort_latest n (x ∷ xs) =
    below-insert_latest n x (sort_latest xs) ∙ elim (Bool-cases (ltb x.sequence n)) [
      | inl kept ↦ rw kept (ap (insert_latest x) (below-sort_latest n xs))
      | inr dropped ↦ rw dropped (below-sort_latest n xs)
    ]

-- The bound of a cursor takes from the sorted list what is below it.
pub sort_latest-below :
    (q : CheckpointQuery) (n : ℕ) (d : Dict String Checkpoint)
    → sort_latest (listed (is_listed q (some n)) d)
      ≡ below n (sort_latest (listed (is_listed q none) d))
sort_latest-below q n d =
    ap sort_latest (below-listed q n d) ∙ sym (below-sort_latest n (listed (is_listed q none) d))

is_listed-run :
    (q : CheckpointQuery) (before : Option ℕ) (c : Checkpoint)
    → is_listed q before c ≡ true
    → c.run_id ≡ q.run_id
unfolding is_listed
is_listed-run q before c h = (==_iff c.run_id q.run_id).0 (ground (arith, h))

module _ (canonical_digest : Checkpoint → String) (s : InMemoryCheckpointStore)
    (q : CheckpointQuery) where
  abbrev AllTracked : Dict String Checkpoint → Type 0
  AllTracked d = All (λ (entry : String × Checkpoint). Tracked canonical_digest s entry.0 entry.1) d

  -- Two checkpoints of a Run under different references have different numbers.
  other_number :
      (ref : String) (c : Checkpoint) (d : Dict String Checkpoint)
      → Tracked canonical_digest s ref c
      → c.run_id ≡ q.run_id
      → contains (keys d) ref ≡ false
      → AllTracked d
      → All (λ (other : Checkpoint). other.sequence ≢ c.sequence) (listed (is_listed q none) d)
  unfolding listed contains
  other_number ref c [] t run new all = tt
  other_number ref c ((other, e) ∷ rest) t run new (u, later) =
      let rest_apart = other_number ref c rest t run (ground arith) later in
      elim (Bool-cases (is_listed q none e)) [
        | inl chosen ↦ rw chosen (
          (λ same.
              let twice : ◌≡◌ {A = Option String} (some other) (some ref) =
                sym u.numbered
                ∙ ap (get s.sequences) (pair_path (is_listed-run q none e chosen ∙ sym run) same)
                ∙ t.numbered in
              ground (arith, new, ==_iff other ref, some_injective twice)),
          rest_apart,
        )
        | inr left ↦ rw left rest_apart
      ]

  listed-Distinct :
      (d : Dict String Checkpoint)
      → has_duplicates (keys d) ≡ false
      → AllTracked d
      → Distinct (listed (is_listed q none) d)
  unfolding listed
  listed-Distinct [] once all = tt
  listed-Distinct ((ref, c) ∷ rest) once (t, later) = elim (Bool-cases (is_listed q none c)) [
    | inl chosen ↦ rw chosen (
      other_number ref c rest t (is_listed-run q none c chosen) (ground arith) later,
      listed-Distinct rest (ground arith) later,
    )
    | inr left ↦ rw left (listed-Distinct rest (ground arith) later)
  ]

  -- On a consistent store the order has no ties.
  pub latest-Descending :
      IsConsistent canonical_digest s
      → Descending (sort_latest (listed (is_listed q none) s.checkpoints))
  latest-Descending k = sort_latest-Descending _ (
      listed-Distinct s.checkpoints k.once
        (All-entries (Tracked canonical_digest s) s.checkpoints k.once k.tracks))
