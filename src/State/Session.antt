-- ===== src/State/Session.antt =====
-- src/congeries_core/state/session.py: `InMemorySessionRepository`. Each method runs under its lock,
-- so it is one function from the dictionary of Sessions; a raise leaves it as it was.
pub mod Laws
use congeries_core.Prelude.{
  ℕ, ◌+◌, String, ◌≡◌, ◌↔◌, refl, ap, Bool, true, false, not, ◌&&◌, Option, none, some, is_some,
  nat_beq, if◌then◌else◌, arith,
}
use congeries_core.Prelude.Eq.{Eq, ◌==◌, string_eq, ==_iff}
use congeries_core.Prelude.Dict.{Dict, get, put}
use congeries_core.Runtime.Errors.{
  Raised, Result, ok, err, ◌>>=◌, ◌>>◌, raise_if, core_error, retry_error, conflict,
  invalid_request, value_error,
}
use congeries_core.Runtime.Run.{SessionRef}

pub data SessionStatus : Type 0 where
  opened closed : SessionStatus

pub record SessionState : Type 0 where
  pub ref : SessionRef
  pub status : SessionStatus
  pub created_at : ℕ
  pub state_version : ℕ
  pub closed_at : Option ℕ

abbrev pub is_closed : SessionStatus → Bool
is_closed opened = false
is_closed closed = true

-- `__post_init__`; a version below zero does not exist here.
unfoldable pub check_session : SessionState → Result SessionState
check_session s =
    if is_closed s.status
    then raise_if (not (is_some s.closed_at)) (value_error "closed Session requires closed_at")
      >> ok s
    else raise_if (is_some s.closed_at) (value_error "closed Session requires closed_at") >> ok s

-- The hash and equality of the reference.
abbrev pub ref_beq : SessionRef → SessionRef → Bool
ref_beq a b = a.namespace == b.namespace && a.session_id == b.session_id

pub ref_beq_iff : (a b : SessionRef) → (ref_beq a b ≡ true) ↔ (a ≡ b)
ref_beq_iff a b = (
  λ h. cc (
    (==_iff a.namespace b.namespace).0 (ground (arith, h)),
    (==_iff a.session_id b.session_id).0 (ground (arith, h)),
  ),
  λ e. ground (
    arith,
    (==_iff a.namespace b.namespace).1 (ap (λ (r : SessionRef). r.namespace) e),
    (==_iff a.session_id b.session_id).1 (ap (λ (r : SessionRef). r.session_id) e),
  ),
)

instance abbrev pub session_ref_eq : Eq SessionRef
session_ref_eq = record { test = ref_beq; agrees = ref_beq_iff }

abbrev pub Sessions : Type 0
Sessions = Dict SessionRef SessionState

abbrev pub not_found : Raised
not_found = core_error invalid_request "session_not_found" "Session does not exist"

abbrev pub found : Option SessionState → Result SessionState
found none = err not_found
found (some s) = ok s

unfoldable pub add_session : Sessions → SessionState → Result Sessions
add_session sessions s =
    if is_some (get sessions s.ref)
    then err (core_error conflict "session_already_exists" "Session identity already exists")
    else ok (put sessions s.ref s)

unfoldable pub get_session : Sessions → SessionRef → Result SessionState
get_session sessions ref = found (get sessions ref)

abbrev pub closing : SessionState → ℕ → SessionState
closing s now = record s {
  status = closed;
  closed_at = some now;
  state_version = s.state_version + 1;
}

unfoldable pub close : Sessions → SessionRef → ℕ → ℕ → Result (SessionState × Sessions)
close sessions ref expected now = do
  s ← found (get sessions ref)
  if is_closed s.status
      then ok (s, sessions)
      else if not (nat_beq s.state_version expected)
      then err (retry_error conflict "stale_state_version" "Session state version does not match")
      else check_session (closing s now) >>= λ after. ok (after, put sessions ref after)

unfoldable pub require_open : Sessions → SessionRef → Result SessionState
unfolding get_session
require_open sessions ref = do
  s ← get_session sessions ref
  if is_closed s.status
      then err (
          core_error conflict "session_closed" "closed Session cannot accept a new Run association")
      else ok s
