-- ===== src/Runtime/Run/History.antt =====
-- Attempt histories in order, in the order that the state machine keeps.
pub mod Changes
use congeries_core.Prelude.{
  ℕ, zero, suc, ◌+◌, ◌-◌, ◌≤◌, ◌<◌, ◌≡◌, refl, sym, ap, ◌∙◌, ◌⊎◌, inl, inr, Bool, true, false, not,
  Option, none, some, List, [], ◌∷◌, ◌++◌, length, length-append, get_last?, drop_last, is_some,
  or_else, get_last?-append, drop_last-append, ltb, nat_beq, arith, Bool-cases, if◌then◌else◌,
}
use congeries_core.Runtime.Errors.{Result, ok, err, ◌>>=◌, ◌>>◌}
use congeries_core.Runtime.Run.Attempts.{
  AttemptOutcome, AttemptRecord, ErrorSummary, is_open, new_attempt, close, sorted_set,
  insert_unique, same_numbers, history_attempts, open_indices, check_history,
}
use congeries_core.Runtime.Run.Machine.{last_open, open_attempt, close_last, close_attempt}

-- All records are closed, and their attempts increase, strictly between the two bounds.
abbrev pub Settled : ℕ → List AttemptRecord → ℕ → Type 0
Settled lo [] n = lo < n
Settled lo (r ∷ rs) n = (lo < r.attempt) × (is_open r ≡ false) × Settled r.attempt rs n

-- The attempt `n` is under way: its record is the last one, and started no later than `now`.
pub record Flight (history : List AttemptRecord) (n now : ℕ) : Type 0 where
  pub before : List AttemptRecord
  pub last : AttemptRecord
  pub split : history ≡ before ++ last ∷ []
  pub settled : Settled 0 before n
  pub is_running : is_open last ≡ true
  pub number : last.attempt ≡ n
  pub began : last.started_at ≤ now

-- Attempts that increase strictly from above a bound.
abbrev pub Increasing : ℕ → List ℕ → Type 0
Increasing lo [] = Unit
Increasing lo (x ∷ xs) = (lo < x) × Increasing x xs

pub insert_unique-low : (x : ℕ) (xs : List ℕ) → Increasing x xs → insert_unique x xs ≡ x ∷ xs
unfolding insert_unique
insert_unique-low x [] h = refl
insert_unique-low x (y ∷ ys) h = ground arith

pub sorted_set-Increasing : (lo : ℕ) (xs : List ℕ) → Increasing lo xs → sorted_set xs ≡ xs
unfolding sorted_set
sorted_set-Increasing lo [] h = refl
sorted_set-Increasing lo (x ∷ xs) h =
    ap (insert_unique x) (sorted_set-Increasing x xs h.1) ∙ insert_unique-low x xs h.1

pub same_numbers_refl : (xs : List ℕ) → same_numbers xs xs ≡ true
same_numbers_refl [] = refl
same_numbers_refl (x ∷ xs) = ground (arith, same_numbers_refl xs)

pub settled-lt : (lo : ℕ) (h : List AttemptRecord) (n : ℕ) → Settled lo h n → lo < n
settled-lt lo [] n s = s
settled-lt lo (r ∷ rs) n s = omega (arith, settled-lt r.attempt rs n s.2)

pub settled-weaken :
    (lo : ℕ) (h : List AttemptRecord) (n m : ℕ) → Settled lo h n → n ≤ m → Settled lo h m
settled-weaken lo [] n m s le = omega arith
settled-weaken lo (r ∷ rs) n m s le = (s.0, s.1, settled-weaken r.attempt rs n m s.2 le)

pub settled-snoc :
    (lo : ℕ) (h : List AttemptRecord) (n : ℕ) (r : AttemptRecord)
    → Settled lo h n
    → is_open r ≡ false
    → r.attempt ≡ n
    → Settled lo (h ++ r ∷ []) (suc n)
settled-snoc lo [] n r s closed e = (omega arith, closed, omega arith)
settled-snoc lo (x ∷ xs) n r s closed e = (s.0, s.1, settled-snoc x.attempt xs n r s.2 closed e)

pub settled-Increasing :
    (lo : ℕ) (h : List AttemptRecord) (n : ℕ) → Settled lo h n → Increasing lo (history_attempts h)
settled-Increasing lo [] n s = tt
settled-Increasing lo (r ∷ rs) n s = (s.0, settled-Increasing r.attempt rs n s.2)

pub flight-Increasing :
    (lo : ℕ) (h : List AttemptRecord) (n : ℕ) (r : AttemptRecord)
    → Settled lo h n
    → r.attempt ≡ n
    → Increasing lo (history_attempts (h ++ r ∷ []))
flight-Increasing lo [] n r s e = (omega arith, tt)
flight-Increasing lo (x ∷ xs) n r s e = (s.0, flight-Increasing x.attempt xs n r s.2 e)

pub settled-open_indices :
    (i lo : ℕ) (h : List AttemptRecord) (n : ℕ) → Settled lo h n → open_indices i h ≡ []
settled-open_indices i lo [] n s = refl
settled-open_indices i lo (r ∷ rs) n s = rw s.1 (settled-open_indices (suc i) r.attempt rs n s.2)

pub flight-open_indices :
    (i lo : ℕ) (h : List AttemptRecord) (n : ℕ) (r : AttemptRecord)
    → Settled lo h n
    → is_open r ≡ true
    → open_indices i (h ++ r ∷ []) ≡ (i + length h) ∷ []
flight-open_indices i lo [] n r s e = rw e (ap (λ k. k ∷ []) (omega arith))
flight-open_indices i lo (x ∷ xs) n r s e =
    rw s.1 (flight-open_indices (suc i) x.attempt xs n r s.2 e ∙ ap (λ k. k ∷ []) (omega arith))

pub last-settled : (lo : ℕ) (h : List AttemptRecord) (n : ℕ) → Settled lo h n → last_open h ≡ false
last-settled lo [] n s = refl
last-settled lo (r ∷ []) n s = s.1
last-settled lo (r ∷ q ∷ rs) n s = last-settled r.attempt (q ∷ rs) n s.2

pub last_open-append :
    (h : List AttemptRecord) (r : AttemptRecord) → last_open (h ++ r ∷ []) ≡ is_open r
last_open-append h r = ap (λ o. elim o [ none ↦ false | some q ↦ is_open q ]) (get_last?-append h r)
