-- ===== src/Runtime/Run/History/Changes.antt =====
-- What the checks say of a history in order, and what opening and closing an attempt does to it.
use congeries_core.Prelude.{
  ℕ, suc, ◌-◌, ◌≤◌, ◌<◌, ◌≡◌, refl, ◌∙◌, drop_last-append, get_last?-append, true, false, Option,
  none, some, List, [], ◌∷◌, ◌++◌, length, length-append, get_last?, arith, String, Option-cases,
  inl, inr, or_else, get_last?-append, ◌⊎◌,
}
use congeries_core.Runtime.Errors.{ok}
use congeries_core.Runtime.Run.Attempts.{
  AttemptOutcome, AttemptRecord, ErrorSummary, is_open, new_attempt, close, sorted_set,
  same_numbers, history_attempts, open_indices, check_history, misplaced, exceeds,
}
use congeries_core.Runtime.Run.Machine.{open_attempt, close_last, close_attempt}
use congeries_core.Runtime.Run.History.{
  Settled, Flight, Increasing, sorted_set-Increasing, same_numbers_refl, settled-Increasing,
  flight-Increasing, settled-open_indices, flight-open_indices, settled-lt, settled-snoc,
  last-settled, last_open-append,
}

last_attempt_append :
    (h : List AttemptRecord) (r : AttemptRecord)
    → get_last? (history_attempts (h ++ r ∷ [])) ≡ some r.attempt
last_attempt_append [] r = refl
last_attempt_append (x ∷ []) r = refl
last_attempt_append (x ∷ y ∷ h) r = last_attempt_append (y ∷ h) r

settled-last :
    (lo : ℕ) (h : List AttemptRecord) (n : ℕ) {m : ℕ}
    → Settled lo h n
    → get_last? (history_attempts h) ≡ some m
    → m < n
settled-last lo [] n s e = cc
settled-last lo (r ∷ []) n s e = ground arith
settled-last lo (r ∷ q ∷ rs) n s e = settled-last r.attempt (q ∷ rs) n s.2 e

sorted_attempts : (lo : ℕ) (xs : List ℕ) → Increasing lo xs → same_numbers xs (sorted_set xs) ≡ true
sorted_attempts lo xs h = rw (sorted_set-Increasing lo xs h) (same_numbers_refl xs)

settled-exceeds :
    (h : List AttemptRecord) (n : ℕ)
    → Settled 0 h (suc n)
    → exceeds (get_last? (history_attempts h)) n ≡ false
settled-exceeds h n s = elim (Option-cases (get_last? (history_attempts h))) [
  | inl e ↦ rw e
  | inr (m, e) ↦ rw e (ground (arith, settled-last 0 h (suc n) s e))
]

-- A history with every attempt closed passes, whether or not it has the current attempt.
pub check_history-settled :
    (h : List AttemptRecord) (n : ℕ) → Settled 0 h (suc n) → check_history h n ≡ ok tt
unfolding check_history
check_history-settled h n s = ground (
  arith,
  sorted_attempts 0 (history_attempts h) (settled-Increasing 0 h (suc n) s),
  settled-open_indices 0 0 h (suc n) s,
  settled-exceeds h n s,
)

flight-misplaced :
    (h : List AttemptRecord) (r : AttemptRecord) (n : ℕ)
    → Settled 0 h n
    → is_open r ≡ true
    → r.attempt ≡ n
    → misplaced (open_indices 0 (h ++ r ∷ [])) (length (h ++ r ∷ []) - 1) (some r.attempt) n ≡ false
flight-misplaced h r n s o e =
    rw (flight-open_indices 0 0 h n r s o) (ground (arith, length-append h (r ∷ [])))

-- So does one whose last attempt is the current one, under way.
check_history-open :
    (h : List AttemptRecord) (r : AttemptRecord) (n : ℕ)
    → Settled 0 h n
    → is_open r ≡ true
    → r.attempt ≡ n
    → check_history (h ++ r ∷ []) n ≡ ok tt
unfolding check_history
check_history-open h r n s o e = rw (last_attempt_append h r) (
    ground (
      arith,
      sorted_attempts 0 (history_attempts (h ++ r ∷ [])) (flight-Increasing 0 h n r s e),
      flight-misplaced h r n s o e,
    ))

pub check_history-Flight :
    {h : List AttemptRecord} {n now : ℕ} → Flight h n now → check_history h n ≡ ok tt
check_history-Flight {n} f =
    rw f.split (check_history-open f.before f.last n f.settled f.is_running f.number)

pub new_attempt_lem :
    (n now : ℕ) (c : Option String)
    → 0 < n
    → new_attempt n now c
      ≡ ok (record {
        attempt = n;
        started_at = now;
        ended_at = none;
        outcome = none;
        checkpoint_ref = c;
        error = none;
      })
unfolding new_attempt
new_attempt_lem n now c h = ground arith

abbrev pub fresh : ℕ → ℕ → Option String → AttemptRecord
fresh n now c = record {
  attempt = n;
  started_at = now;
  ended_at = none;
  outcome = none;
  checkpoint_ref = c;
  error = none;
}

abbrev pub ended : AttemptRecord → AttemptOutcome → ℕ → Option ErrorSummary → AttemptRecord
ended r outcome now error = record r { ended_at = some now; outcome = some outcome; error = error }

close_lem :
    (r : AttemptRecord) (o : AttemptOutcome) (now : ℕ) (e : Option ErrorSummary)
    → is_open r ≡ true
    → 0 < r.attempt
    → r.started_at ≤ now
    → close r o now e ≡ ok (ended r o now e)
unfolding close
close_lem r o now e h p q = ground arith

-- Opening: a history whose current attempt has no record yet gets one.
pub open_attempt-settled :
    (h : List AttemptRecord) (n now : ℕ)
    → Settled 0 h n
    → open_attempt h n now ≡ ok (h ++ fresh n now none ∷ [])
unfolding open_attempt
open_attempt-settled h n now s =
    rw (last-settled 0 h n s, new_attempt_lem n now none (settled-lt 0 h n s))

pub fresh-Flight :
    (h : List AttemptRecord) (n now : ℕ) (c : Option String)
    → Settled 0 h n
    → Flight (h ++ fresh n now c ∷ []) n now
fresh-Flight h n now c s = record {
  before = h;
  last = fresh n now c;
  split = refl;
  settled = s;
  is_running = refl;
  number = refl;
  began = omega arith;
}

pub open_attempt-Flight :
    {h : List AttemptRecord} {n now : ℕ} (later : ℕ)
    → Flight h n now
    → open_attempt h n later ≡ ok h
unfolding open_attempt
open_attempt-Flight later f = rw f.split (rw (last_open-append f.before f.last ∙ f.is_running))

pub Flight-later :
    {h : List AttemptRecord} {n now later : ℕ} → Flight h n now → now ≤ later → Flight h n later
Flight-later f le = record {
  before = f.before;
  last = f.last;
  split = f.split;
  settled = f.settled;
  is_running = f.is_running;
  number = f.number;
  began = omega (arith, f.began);
}

-- Closing the last record of a history that is under way.
close_last_lem :
    (h : List AttemptRecord) (r : AttemptRecord) (o : AttemptOutcome) (now : ℕ)
    (e : Option ErrorSummary)
    → is_open r ≡ true
    → 0 < r.attempt
    → r.started_at ≤ now
    → close_last (h ++ r ∷ []) o now e ≡ ok (h ++ ended r o now e ∷ [])
unfolding close_last
close_last_lem h r o now e a p q =
    rw (get_last?-append h r, close_last) (rw (close_lem r o now e a p q, drop_last-append h r))

-- What a closed attempt leaves behind: every attempt up to the current one is closed.
pub close_attempt-Flight :
    {h : List AttemptRecord} {n now : ℕ} (started : Option ℕ) (o : AttemptOutcome)
    (e : Option ErrorSummary)
    → Flight h n now
    → (h' : List AttemptRecord) × (close_attempt h n started o now e ≡ ok h') × Settled 0 h' (suc n)
unfolding close_attempt
close_attempt-Flight {n} {now} started o e f = (
  f.before ++ ended f.last o now e ∷ [],
  rw f.split (
      rw (last_open-append f.before f.last ∙ f.is_running) (
        close_last_lem f.before f.last o now e f.is_running
          (omega (arith, f.number, settled-lt 0 f.before n f.settled)) f.began)),
  settled-snoc 0 f.before n (ended f.last o now e) f.settled refl f.number,
)

pub close_attempt-settled :
    (h : List AttemptRecord) {n now : ℕ} (started : Option ℕ) (o : AttemptOutcome)
    (e : Option ErrorSummary)
    → Settled 0 h n
    → or_else started now ≤ now
    → (h' : List AttemptRecord) × (close_attempt h n started o now e ≡ ok h') × Settled 0 h' (suc n)
unfolding close_attempt
close_attempt-settled h {n} {now} started o e s le = (
  h ++ ended (fresh n (or_else started now) none) o now e ∷ [],
  rw (last-settled 0 h n s, new_attempt_lem n (or_else started now) none (settled-lt 0 h n s))
      (close_last_lem h (fresh n (or_else started now) none) o now e refl (settled-lt 0 h n s) le),
  settled-snoc 0 h n (ended (fresh n (or_else started now) none) o now e) s refl refl,
)

-- The current attempt has no record yet, or is under way.
abbrev pub Active : List AttemptRecord → ℕ → ℕ → Type 0
Active h n now = Settled 0 h n ⊎ Flight h n now

pub open_attempt-Active :
    (h : List AttemptRecord) (n now : ℕ)
    → Active h n now
    → (h' : List AttemptRecord) × (open_attempt h n now ≡ ok h') × Flight h' n now
open_attempt-Active h n now (inl s) =
    (h ++ fresh n now none ∷ [], open_attempt-settled h n now s, fresh-Flight h n now none s)
open_attempt-Active h n now (inr f) = (h, open_attempt-Flight now f, f)

pub close_attempt-Active :
    (h : List AttemptRecord) (n now : ℕ) (started : Option ℕ) (o : AttemptOutcome)
    (e : Option ErrorSummary)
    → Active h n now
    → or_else started now ≤ now
    → (h' : List AttemptRecord) × (close_attempt h n started o now e ≡ ok h') × Settled 0 h' (suc n)
close_attempt-Active h n now started o e (inl s) le = close_attempt-settled h started o e s le
close_attempt-Active h n now started o e (inr f) le = close_attempt-Flight started o e f
