-- ===== src/Runtime/Run/Soundness.antt =====
-- The invariant of a Run that the state machine built, and what it says of `__post_init__`.
pub mod Rules
pub mod Phases
pub mod Pauses
pub mod Endings
pub mod Markers
use congeries_core.Prelude.{
  ℕ, zero, suc, ◌+◌, ◌≤◌, ◌<◌, ◌≡◌, refl, sym, ap, subst, ◌∙◌, ◌⊎◌, inl, inr, Bool, true, false,
  not, Option, none, some, List, or_else, nat_beq, nat_beq_iff, is_some, arith,
}
use congeries_core.Runtime.Errors.{
  Result, ok, err, core, value_error, assertion_error, raise_if, ◌>>=◌, ◌>>◌,
}
use congeries_core.Runtime.Run.{
  Run, RunStatus, created, starting, context_loading, running, waiting_approval, paused, retrying,
  recovering, succeeded, failed, cancelled, terminal, status_code, check_identity, check_end,
  check_continuation, check_class, check_run, resumable,
}
use congeries_core.Runtime.Run.Attempts.{AttemptRecord, check_history}
use congeries_core.Runtime.Run.Machine.{status_beq}
use congeries_core.Runtime.Run.History.{Settled, Flight, settled-weaken, settled-lt}
use congeries_core.Runtime.Run.History.Changes.{
  Active, check_history-settled, check_history-Flight, Flight-later,
}

status_of : ℕ → RunStatus
status_of zero = created
status_of (suc zero) = starting
status_of (suc (suc zero)) = context_loading
status_of (suc (suc (suc zero))) = running
status_of (suc (suc (suc (suc zero)))) = waiting_approval
status_of (suc (suc (suc (suc (suc zero))))) = paused
status_of (suc (suc (suc (suc (suc (suc zero)))))) = retrying
status_of (suc (suc (suc (suc (suc (suc (suc zero))))))) = recovering
status_of (suc (suc (suc (suc (suc (suc (suc (suc zero)))))))) = succeeded
status_of (suc (suc (suc (suc (suc (suc (suc (suc (suc zero))))))))) = failed
status_of (suc (suc (suc (suc (suc (suc (suc (suc (suc (suc n)))))))))) = cancelled

status_of-status_code : (s : RunStatus) → status_of (status_code s) ≡ s
unfolding status_of
status_of-status_code created = refl
status_of-status_code _ = refl

-- The test on statuses is equality.
pub status_beq-eq : (a b : RunStatus) → status_beq a b ≡ true → a ≡ b
status_beq-eq a b h =
    sym (status_of-status_code a)
    ∙ ap status_of ((nat_beq_iff (status_code a) (status_code b)).0 h)
    ∙ status_of-status_code b

-- Where the attempts stand in each status: in order, and the current one not recorded yet, under
-- way or closed. `advance` alone can reach an active status with no attempt opened.
abbrev pub Phase : RunStatus → List AttemptRecord → ℕ → ℕ → Type 0
Phase created h n now = Settled 0 h n
Phase retrying h n now = Settled 0 h n
Phase paused h n now = Active h n now
Phase starting h n now = Active h n now
Phase context_loading h n now = Active h n now
Phase running h n now = Active h n now
Phase waiting_approval h n now = Active h n now
Phase recovering h n now = Active h n now
Phase succeeded h n now = Settled 0 h (suc n)
Phase failed h n now = Settled 0 h (suc n)
Phase cancelled h n now = Settled 0 h (suc n)

-- A Run whose attempts are in order and whose times lie no later than `now`.
pub record IsSound (r : Run) (now : ℕ) : Type 0 where
  pub positive : 1 ≤ r.attempt
  pub identity : check_identity r.run_id r.root_run_id r.parent_run_id ≡ ok tt
  pub end : check_end r.status r.ended_at ≡ ok tt
  pub phase : Phase r.status r.attempt_history r.attempt now
  pub continued : check_continuation r.status r.continuation_status ≡ ok tt
  pub class : check_class r.kind r.class ≡ ok tt
  pub begun : or_else r.started_at now ≤ now

settled-check : (h : List AttemptRecord) (n : ℕ) → Settled 0 h n → check_history h n ≡ ok tt
settled-check h n s = check_history-settled h n (settled-weaken 0 h n (suc n) s (omega arith))

Active-check : (h : List AttemptRecord) (n now : ℕ) → Active h n now → check_history h n ≡ ok tt
Active-check h n now (inl s) = settled-check h n s
Active-check h n now (inr f) = check_history-Flight f

pub Phase-check :
    (s : RunStatus) (h : List AttemptRecord) (n now : ℕ)
    → Phase s h n now
    → check_history h n ≡ ok tt
Phase-check created h n now p = settled-check h n p
Phase-check retrying h n now p = settled-check h n p
Phase-check succeeded h n now p = check_history-settled h n p
Phase-check failed h n now p = check_history-settled h n p
Phase-check cancelled h n now p = check_history-settled h n p
Phase-check _ h n now p = Active-check h n now p

Active-later :
    (h : List AttemptRecord) (n now later : ℕ) → Active h n now → now ≤ later → Active h n later
Active-later h n now later (inl s) le = inl s
Active-later h n now later (inr f) le = inr (Flight-later f le)

Phase-later :
    (s : RunStatus) (h : List AttemptRecord) (n now later : ℕ)
    → Phase s h n now
    → now ≤ later
    → Phase s h n later
Phase-later created h n now later p le = p
Phase-later retrying h n now later p le = p
Phase-later succeeded h n now later p le = p
Phase-later failed h n now later p le = p
Phase-later cancelled h n now later p le = p
Phase-later _ h n now later p le = Active-later h n now later p le

-- Every Run that has not ended can have its current attempt opened or closed.
pub Phase-Active :
    (s : RunStatus) (h : List AttemptRecord) (n now : ℕ)
    → terminal s ≡ false
    → Phase s h n now
    → Active h n now
Phase-Active created h n now live p = inl p
Phase-Active retrying h n now live p = inl p
Phase-Active succeeded h n now live p = cc
Phase-Active failed h n now live p = cc
Phase-Active cancelled h n now live p = cc
Phase-Active _ h n now live p = p

-- The statuses between the two ends, where work is under way.
abbrev pub is_active : RunStatus → Bool
is_active created = false
is_active retrying = false
is_active succeeded = false
is_active failed = false
is_active cancelled = false
is_active _ = true

pub Active-Phase :
    (s : RunStatus) (h : List AttemptRecord) (n now : ℕ)
    → is_active s ≡ true
    → Active h n now
    → Phase s h n now
Active-Phase created h n now a p = cc
Active-Phase retrying h n now a p = cc
Active-Phase succeeded h n now a p = cc
Active-Phase failed h n now a p = cc
Active-Phase cancelled h n now a p = cc
Active-Phase _ h n now a p = p

begun-later :
    (started : Option ℕ) (now later : ℕ)
    → or_else started now ≤ now
    → now ≤ later
    → or_else started later ≤ later
begun-later none now later b le = omega arith
begun-later (some s) now later b le = omega arith

pub IsSound-later : {r : Run} {now : ℕ} (later : ℕ) → IsSound r now → now ≤ later → IsSound r later
IsSound-later {r} {now} later s le = record {
  positive = s.positive;
  identity = s.identity;
  end = s.end;
  phase = Phase-later r.status r.attempt_history r.attempt now later s.phase le;
  continued = s.continued;
  class = s.class;
  begun = begun-later r.started_at now later s.begun le;
}

-- No status but these two records a continuation.
abbrev pub is_plain : RunStatus → Bool
is_plain paused = false
is_plain retrying = false
is_plain _ = true

pub plain-none :
    (s : RunStatus) (c : Option RunStatus)
    → is_plain s ≡ true
    → check_continuation s c ≡ ok tt
    → c ≡ none
unfolding check_continuation
plain-none paused c p h = cc
plain-none retrying c p h = cc
plain-none _ c p h = ground arith

pub none-plain : (s : RunStatus) → is_plain s ≡ true → check_continuation s none ≡ ok tt
unfolding check_continuation
none-plain paused p = cc
none-plain retrying p = cc
none-plain _ p = refl

pub live-end :
    (s t : RunStatus) (ended : Option ℕ)
    → terminal s ≡ false
    → terminal t ≡ false
    → check_end s ended ≡ ok tt
    → check_end t ended ≡ ok tt
unfolding check_end
live-end s t ended p q h = ground arith

-- A sound Run passes every check of its constructor.
pub IsSound-check : {r : Run} {now : ℕ} → IsSound r now → check_run r ≡ ok r
unfolding check_run
IsSound-check {r} {now} s = ground (
  arith,
  s.identity,
  s.end,
  s.continued,
  s.class,
  Phase-check r.status r.attempt_history r.attempt now s.phase,
)
