-- ===== src/Tests/PolicyTests.antt =====
-- Tests of policy/authorization.py, runtime/context.py and event/memory.py.
use congeries_core.Prelude.{◌+◌, String, ◌≡◌, refl, false, none, some, [], ◌∷◌, true}
use congeries_core.Prelude.Eq.{◌==◌, string_eq, pair_eq}
use congeries_core.Prelude.Dict.{get, put, remove}
use congeries_core.Runtime.Errors.{Result, ok, ErrorDetail}
use congeries_core.Runtime.Scope.{require_narrower_than, is_equal_or_descendant_of, key}
use congeries_core.Runtime.Context.{
  RuntimeCallContext, check_active, narrow, raise_if_cancelled, raise_if_expired,
}
use congeries_core.Runtime.Context.Narrowing
use congeries_core.Runtime.Context.Narrowing.{Chain, itself, derived, narrows, Inherits}
use congeries_core.Policy.Access.{
  RuntimePrincipal, ActionRef, ResourceRef, AccessRequest, Grant, PolicyDecision, allow,
  ActionRegistry, action_key,
}
use congeries_core.Policy.Authorization.{dispatch, AuthorizedCall}
use congeries_core.Policy.Authorization.Safety
use congeries_core.Policy.Authorization.Safety.{Mediated}
use congeries_core.Event.Memory.{
  InMemoryEventLedger, EventAcknowledgement, delivery, next_sequence, acknowledge,
  InMemoryEventSink, deliver, check_acknowledgement,
}
use congeries_core.Event.Memory.Outbox
use congeries_core.Event.Memory.Sink
use congeries_core.Event.Memory.Outbox.{Request, acknowledges, Kept, serve, Apart}
use congeries_core.Event.Memory.Sequences
use congeries_core.Event.Memory.Sequences.{allocate}
use congeries_core.Tests.Samples.{workspace, inner}

abbrev context : RuntimeCallContext
context = record {
  run_id = "r";
  root_run_id = "r";
  parent_run_id = none;
  workspace_id = "w";
  session_ref = none;
  scope = workspace;
  deadline = some 50;
  cancellation = record { token_id = "t"; is_set = false };
  trace = record { trace_id = "trace"; span_id = "s1"; correlation_id = "c"; causation_id = none };
  idempotency_key = none;
}

abbrev narrowed : RuntimeCallContext
narrowed = record context {
  scope = inner;
  deadline = some 20;
  trace = record { trace_id = "trace"; span_id = "s2"; correlation_id = "c"; causation_id = none };
}

narrows_once : narrow context (some inner) (some 20) none "s2" ≡ ok narrowed
unfolding narrow require_narrower_than is_equal_or_descendant_of key ◌==◌
narrows_once = refl

abbrev one_link : Chain context narrowed
one_link = derived itself (narrows (some inner) (some 20) none "s2" narrowed narrows_once)

Chain-Inherits_example : Inherits context narrowed
Chain-Inherits_example = Narrowing.Chain-Inherits one_link

check_active-chain_example : check_active context 10 ≡ ok tt
unfolding check_active raise_if_cancelled raise_if_expired
check_active-chain_example = Narrowing.check_active-chain context narrowed 10 one_link refl

abbrev caller : RuntimePrincipal
caller = record { namespace = "core"; kind = "agent"; id = "a" }

abbrev reading : ActionRef
reading = record { namespace = "core"; name = "read"; version = "1" }

abbrev document : ResourceRef
document = record { namespace = "core"; kind = "doc"; id = "d"; owning_extension = none }

abbrev request : AccessRequest String
request = record {
  principal = caller;
  action = reading;
  resource = document;
  scope = inner;
  context = context;
  constraints = [];
}

abbrev consent : Grant String
consent = record {
  principal = caller;
  action = reading;
  resource = document;
  source_scope = workspace;
  effective_scope = inner;
  constraints = [];
  issued_at = 1;
  expires_at = some 40;
  policy_version = "p1";
  audit_correlation = "c";
}

abbrev decision : PolicyDecision String
decision = record { effect = allow; grant = some consent; reason_code = none }

abbrev rule : AccessRequest String → Result (PolicyDecision String)
rule r = ok decision

abbrev actions : ActionRegistry
actions = (action_key reading, reading) ∷ []

abbrev never_denied : AccessRequest String → PolicyDecision String → Result (Unit {0})
never_denied r d = ok tt

abbrev audited : AccessRequest String → Grant String → Result (Unit {0})
audited r g = ok tt

abbrev unhandled : String → ErrorDetail → Result (Unit {0})
unhandled id detail = ok tt

abbrev answer_of : AuthorizedCall String → Result String
answer_of call = ok "read"

dispatch-Mediated_example :
    Mediated never_denied audited unhandled answer_of actions
      (some rule)
      request
      10
      11
      (dispatch never_denied audited unhandled answer_of actions (some rule) request 10 11)
dispatch-Mediated_example =
    Safety.dispatch-Mediated never_denied audited unhandled answer_of actions request 10 11
      (some rule)

-- Events that are their own identity and digest.
abbrev own : String → String
own event = event

abbrev waiting : InMemoryEventLedger String
waiting = record {
  sequences = ("r", 4) ∷ [];
  pending = (("e", "sink"), delivery own own "e" "sink" context caller) ∷ [];
  acknowledged = [];
}

abbrev receipt : EventAcknowledgement
receipt = record {
  acknowledgement_id = "a";
  event_id = "e";
  sink_id = "sink";
  payload_digest = "e";
  acknowledged_at = 12;
}

abbrev settled : InMemoryEventLedger String
settled = record waiting { pending = []; acknowledged = (("e", "sink"), receipt) ∷ [] }

settles : serve own own waiting (acknowledges receipt) ≡ ok settled
unfolding serve acknowledge get put remove ◌==◌
settles = refl

waiting-Apart : Apart waiting
unfolding get
waiting-Apart k h = refl

serve-Kept_example : Kept waiting settled
serve-Kept_example =
    Outbox.serve-Kept own own waiting (acknowledges receipt) settled waiting-Apart settles

next_sequence-allocate_example :
    (next_sequence (allocate waiting ("r" ∷ "q" ∷ "r" ∷ [])) "r").0 ≡ 4 + 2 + 1
unfolding get ◌==◌
next_sequence-allocate_example = Sequences.next_sequence-allocate waiting ("r" ∷ "q" ∷ "r" ∷ []) "r"

abbrev sink : InMemoryEventSink String
sink = record {
  sink_id = "sink";
  acknowledgement = true;
  failures_remaining = 0;
  acknowledgements = [];
  events = [];
}

abbrev full_sink : InMemoryEventSink String
full_sink = record sink { acknowledgements = ("e", receipt) ∷ []; events = "e" ∷ [] }

delivers : deliver own own sink "e" "a" 12 ≡ (ok (some receipt), full_sink)
unfolding deliver get put ◌==◌ check_acknowledgement
delivers = refl

deliver-deliver_example : deliver own own full_sink "e" "other" 20 ≡ (ok (some receipt), full_sink)
deliver-deliver_example =
    Sink.deliver-deliver own own sink full_sink "e" "a" "other" 12 20 receipt delivers
