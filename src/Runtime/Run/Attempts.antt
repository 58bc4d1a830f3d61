-- ===== src/Runtime/Run/Attempts.antt =====
-- src/congeries_core/runtime/run.py: `ErrorSummary`, `AttemptRecord`, and the checks of a history.
use congeries_core.Prelude.{
  ℕ, suc, ◌-◌, String, Bool, true, false, not, ◌&&◌, ◌||◌, Option, none, some, List, [], ◌∷◌,
  length, get_last?, is_some, ltb, nat_beq, if◌then◌else◌,
}
use congeries_core.Runtime.Errors.{Result, ok, ErrorDetail, value_error, raise_if, ◌>>◌}

pub data AttemptOutcome : Type 0 where
  succeeded retryable_failure final_failure cancelled interrupted : AttemptOutcome

pub record ErrorSummary : Type 0 where
  pub detail : ErrorDetail
  pub attempt : ℕ
  pub occurred_at : ℕ

unfoldable pub error_summary : ErrorDetail → ℕ → ℕ → Result ErrorSummary
error_summary detail attempt now =
    raise_if (ltb attempt 1) (value_error "error attempt must be positive")
    >> ok (record { detail = detail; attempt = attempt; occurred_at = now })

pub record AttemptRecord : Type 0 where
  pub attempt : ℕ
  pub started_at : ℕ
  pub ended_at : Option ℕ
  pub outcome : Option AttemptOutcome
  pub checkpoint_ref : Option String
  pub error : Option ErrorSummary

-- `!=` on truth values
abbrev differ : Bool → Bool → Bool
differ true b = not b
differ false b = b

abbrev pub is_open : AttemptRecord → Bool
is_open r = not (is_some r.ended_at)

abbrev ends_before : Option ℕ → ℕ → Bool
ends_before none started = false
ends_before (some ended) started = ltb ended started

-- `AttemptRecord.__post_init__`
unfoldable pub check_attempt : AttemptRecord → Result AttemptRecord
check_attempt r = do
  raise_if (ltb r.attempt 1) (value_error "attempt must be positive")
  raise_if (differ (is_some r.ended_at) (is_some r.outcome))
      (value_error "attempt end time and outcome must be set together")
  raise_if (ends_before r.ended_at r.started_at) (value_error "attempt cannot end before it starts")
  ok r

-- `AttemptRecord(attempt, started_at, checkpoint_ref=checkpoint_ref)`
unfoldable pub new_attempt : ℕ → ℕ → Option String → Result AttemptRecord
unfolding check_attempt
new_attempt attempt started checkpoint = check_attempt (record {
  attempt = attempt;
  started_at = started;
  ended_at = none;
  outcome = none;
  checkpoint_ref = checkpoint;
  error = none;
})

unfoldable pub close :
    AttemptRecord → AttemptOutcome → ℕ → Option ErrorSummary → Result AttemptRecord
unfolding check_attempt
close r outcome now error =
    raise_if (not (is_open r)) (value_error "attempt is already closed")
    >> check_attempt (record r { ended_at = some now; outcome = some outcome; error = error })

-- `tuple(sorted(set(xs)))`
unfoldable pub insert_unique : ℕ → List ℕ → List ℕ
insert_unique x [] = x ∷ []
insert_unique x (y ∷ ys) =
    let rest = insert_unique x ys in
    if ltb x y then x ∷ y ∷ ys else if nat_beq x y then y ∷ ys else y ∷ rest

unfoldable pub sorted_set : List ℕ → List ℕ
unfolding insert_unique
sorted_set [] = []
sorted_set (x ∷ xs) = insert_unique x (sorted_set xs)

abbrev pub same_numbers : List ℕ → List ℕ → Bool
same_numbers [] [] = true
same_numbers [] (y ∷ ys) = false
same_numbers (x ∷ xs) [] = false
same_numbers (x ∷ xs) (y ∷ ys) = nat_beq x y && same_numbers xs ys

abbrev pub history_attempts : List AttemptRecord → List ℕ
history_attempts [] = []
history_attempts (r ∷ rs) = r.attempt ∷ history_attempts rs

-- The indices of the open records, counted from the first argument.
abbrev pub open_indices : ℕ → List AttemptRecord → List ℕ
open_indices i [] = []
open_indices i (r ∷ rs) = let rest = open_indices (suc i) rs in if is_open r then i ∷ rest else rest

abbrev pub exceeds : Option ℕ → ℕ → Bool
exceeds none n = false
exceeds (some last) n = ltb n last

abbrev pub differs : Option ℕ → ℕ → Bool
differs none n = true
differs (some last) n = not (nat_beq last n)

abbrev pub misplaced : List ℕ → ℕ → Option ℕ → ℕ → Bool
misplaced [] last_index last n = false
misplaced (i ∷ is) last_index last n =
    not (same_numbers (i ∷ is) (last_index ∷ [])) || differs last n

-- The three checks that `Run.__post_init__` makes of `attempt_history`.
unfoldable pub check_history : List AttemptRecord → ℕ → Result (Unit {0})
check_history history attempt =
    let attempts = history_attempts history in
    raise_if (not (same_numbers attempts (sorted_set attempts)))
      (value_error "attempt history must increase without duplicates")
    >> raise_if (exceeds (get_last? attempts) attempt)
        (value_error "attempt history cannot exceed the current attempt")
    >> raise_if
        (misplaced (open_indices 0 history) (length history - 1) (get_last? attempts) attempt)
        (value_error "only the current final attempt record may be open")
