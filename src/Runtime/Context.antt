-- ===== src/Runtime/Context.antt =====
-- src/congeries_core/runtime/context.py and control.py: what is passed to every external call.
-- A token is its state at the time of the check; the id of a fresh span is an argument.
pub mod Narrowing
use congeries_core.Prelude.{
  ℕ, String, Bool, true, false, Option, none, some, ltb, leb, if◌then◌else◌, or_else, or_option,
}
use congeries_core.Runtime.Errors.{
  Result, ok, err, ◌>>=◌, ◌>>◌, raise_if, core_error, retry_error, cancelled, timeout, denied,
}
use congeries_core.Runtime.Scope.{ScopeRef, require_narrower_than}
use congeries_core.Runtime.Run.{SessionRef}

pub record CancellationToken : Type 0 where
  pub token_id : String
  pub is_set : Bool

pub record TraceContext : Type 0 where
  pub trace_id : String
  pub span_id : String
  pub correlation_id : String
  pub causation_id : Option String

-- `TraceContext.child`, without a causation of its own.
abbrev pub child_trace : TraceContext → String → TraceContext
child_trace t span = record t { span_id = span }

-- A deadline is its `at`.
pub record RuntimeCallContext : Type 0 where
  pub run_id : String
  pub root_run_id : String
  pub parent_run_id : Option String
  pub workspace_id : String
  pub session_ref : Option SessionRef
  pub scope : ScopeRef
  pub deadline : Option ℕ
  pub cancellation : CancellationToken
  pub trace : TraceContext
  pub idempotency_key : Option String

unfoldable pub raise_if_cancelled : CancellationToken → Result (Unit {0})
raise_if_cancelled t =
    raise_if t.is_set (core_error cancelled "call_cancelled" "runtime call was cancelled")

unfoldable pub raise_if_expired : Option ℕ → ℕ → Result (Unit {0})
raise_if_expired none now = ok tt
raise_if_expired (some at) now =
    raise_if (leb at now)
      (retry_error timeout "deadline_exceeded" "runtime call deadline has expired")

unfoldable pub check_active : RuntimeCallContext → ℕ → Result (Unit {0})
unfolding raise_if_cancelled raise_if_expired
check_active c now = raise_if_cancelled c.cancellation >> raise_if_expired c.deadline now

-- Both deadlines are there and the second is later.
abbrev pub extends : Option ℕ → Option ℕ → Bool
extends none effective = false
extends (some own) none = false
extends (some own) (some effective) = ltb own effective

unfoldable pub narrow :
    RuntimeCallContext
    → Option ScopeRef
    → Option ℕ
    → Option String
    → String
    → Result RuntimeCallContext
narrow c scope deadline idempotency span = do
  require_narrower_than (or_else scope c.scope) c.scope
  raise_if (extends c.deadline (or_option deadline c.deadline))
      (core_error denied "deadline_broadening_denied" "child calls may not extend their deadline")
  ok (record c {
    scope = or_else scope c.scope;
    deadline = or_option deadline c.deadline;
    trace = child_trace c.trace span;
    idempotency_key = or_option idempotency c.idempotency_key;
  })

unfoldable pub for_child_run :
    RuntimeCallContext
    → String
    → Option ScopeRef
    → Option ℕ
    → Option String
    → String
    → Result RuntimeCallContext
unfolding narrow
for_child_run c child scope deadline idempotency span =
    narrow c scope deadline idempotency span >>= λ narrowed.
    ok (record narrowed {
      run_id = child;
      root_run_id = c.root_run_id;
      parent_run_id = some c.run_id;
    })
