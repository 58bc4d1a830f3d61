-- ===== src/Event/Memory.antt =====
-- src/congeries_core/event/memory.py: `InMemoryEventLedger` and `InMemoryEventSink`. Each method of
-- the ledger runs under its lock, so it is one function from the state; a raise leaves the state.
-- An Event is a type `Ev` with its identity and its payload digest, a hash of its content.
pub mod Outbox
pub mod Sequences
pub mod Sink
use congeries_core.Prelude.{
  ℕ, zero, suc, ◌+◌, ◌-◌, String, Bool, true, false, not, ◌&&◌, ◌||◌, Option, none, some, is_some,
  List, [], ◌∷◌, ◌++◌, take, map, if◌then◌else◌, or_else, or_option, ltb,
}
use congeries_core.Prelude.Eq.{Eq, ◌==◌, string_eq, pair_eq}
use congeries_core.Prelude.Dict.{Dict, get, put, remove}
use congeries_core.Runtime.Errors.{
  Raised, Result, ok, err, ◌>>=◌, ◌>>◌, core_error, retry_error, conflict, invalid_request,
  unavailable, value_error,
}
use congeries_core.Runtime.Context.{RuntimeCallContext}
use congeries_core.Policy.Access.{RuntimePrincipal}

pub record EventAcknowledgement : Type 0 where
  pub acknowledgement_id : String
  pub event_id : String
  pub sink_id : String
  pub payload_digest : String
  pub acknowledged_at : ℕ

-- `EventAcknowledgement.__post_init__`
unfoldable pub check_acknowledgement : EventAcknowledgement → Result EventAcknowledgement
check_acknowledgement a =
    if a.sink_id == "" || a.payload_digest == ""
    then err (value_error "sink identity and payload digest are required")
    else ok a

pub record PendingAuditDelivery (Ev : Type 0) : Type 0 where
  pub event : Ev
  pub sink_id : String
  pub context : RuntimeCallContext
  pub principal : RuntimePrincipal
  pub payload_digest : String
  pub attempts : ℕ
  pub last_error : Option String

abbrev pub Key : Type 0
Key = String × String

pub record InMemoryEventLedger (Ev : Type 0) : Type 0 where
  pub sequences : Dict String ℕ
  pub pending : Dict Key (PendingAuditDelivery Ev)
  pub acknowledged : Dict Key EventAcknowledgement

abbrev pub pending_digest : {Ev : Type 0} → Option (PendingAuditDelivery Ev) → Option String
pending_digest none = none
pending_digest (some p) = some p.payload_digest

abbrev pub acknowledged_digest : Option EventAcknowledgement → Option String
acknowledged_digest none = none
acknowledged_digest (some a) = some a.payload_digest

-- `existing_digest` of `enqueue`
unfoldable pub existing_digest : {Ev : Type 0} → InMemoryEventLedger Ev → Key → Option String
existing_digest l key =
    or_option (pending_digest (get l.pending key)) (acknowledged_digest (get l.acknowledged key))

-- `is not None and !=`
abbrev pub differs : Option String → String → Bool
differs none digest = false
differs (some known) digest = not (known == digest)

abbrev pub acknowledgement_conflict : String → Raised
acknowledgement_conflict message = core_error conflict "acknowledgement_conflict" message

module _ {Ev : Type 0} where
  unfoldable pub next_sequence : InMemoryEventLedger Ev → String → ℕ × InMemoryEventLedger Ev
  next_sequence l run =
      let sequence = or_else (get l.sequences run) 0 + 1 in
      (sequence, record l { sequences = put l.sequences run sequence })

  -- What `mark_attempt` stores.
  abbrev pub attempted : PendingAuditDelivery Ev → Option String → PendingAuditDelivery Ev
  attempted p error = record p { attempts = p.attempts + 1; last_error = error }

  abbrev pub mark_with :
      InMemoryEventLedger Ev
      → Key
      → Option String
      → Option (PendingAuditDelivery Ev)
      → Result (InMemoryEventLedger Ev)
  mark_with l key error (some p) = ok (record l { pending = put l.pending key (attempted p error) })
  mark_with l key error none =
      if is_some (get l.acknowledged key)
      then ok l
      else err (
          core_error invalid_request "outbox_entry_not_found"
            "pending audit delivery does not exist")

  unfoldable pub mark_attempt :
      InMemoryEventLedger Ev → String → String → Option String → Result (InMemoryEventLedger Ev)
  mark_attempt l event sink error = mark_with l (event, sink) error (get l.pending (event, sink))

  -- By the acknowledgement and the delivery that are there.
  abbrev pub acknowledge_with :
      InMemoryEventLedger Ev
      → EventAcknowledgement
      → Option EventAcknowledgement
      → Option (PendingAuditDelivery Ev)
      → Result (InMemoryEventLedger Ev)
  acknowledge_with l a (some known) pending =
      if not (known.payload_digest == a.payload_digest)
      then err
          (acknowledgement_conflict "acknowledgement payload digest conflicts with existing value")
      else ok l
  acknowledge_with l a none none =
      err (acknowledgement_conflict "acknowledgement does not match pending Event payload")
  acknowledge_with l a none (some p) =
      if not (p.payload_digest == a.payload_digest)
      then err (acknowledgement_conflict "acknowledgement does not match pending Event payload")
      else ok (record l {
        acknowledged = put l.acknowledged (a.event_id, a.sink_id) a;
        pending = remove l.pending (a.event_id, a.sink_id);
      })

  unfoldable pub acknowledge :
      InMemoryEventLedger Ev → EventAcknowledgement → Result (InMemoryEventLedger Ev)
  acknowledge l a =
      acknowledge_with l a (get l.acknowledged (a.event_id, a.sink_id))
        (get l.pending (a.event_id, a.sink_id))

  abbrev pub value : Key × PendingAuditDelivery Ev → PendingAuditDelivery Ev
  value entry = entry.1

  -- `pending`, for a limit that is not negative.
  unfoldable pub pending_deliveries : InMemoryEventLedger Ev → ℕ → List (PendingAuditDelivery Ev)
  pending_deliveries l limit = take limit (map value l.pending)

module _ {Ev : Type 0} (event_id digest : Ev → String) where
  abbrev pub delivery :
      Ev → String → RuntimeCallContext → RuntimePrincipal → PendingAuditDelivery Ev
  delivery event sink context principal = record {
    event = event;
    sink_id = sink;
    context = context;
    principal = principal;
    payload_digest = digest event;
    attempts = 0;
    last_error = none;
  }

  unfoldable pub enqueue :
      InMemoryEventLedger Ev
      → Ev
      → String
      → RuntimeCallContext
      → RuntimePrincipal
      → Result (InMemoryEventLedger Ev)
  enqueue l event sink context principal =
      if differs (existing_digest l (event_id event, sink)) (digest event)
      then err (
          core_error conflict "event_identity_conflict"
            "event identity was reused with a different payload")
      else if not (is_some (get l.pending (event_id event, sink)))
          && not (is_some (get l.acknowledged (event_id event, sink)))
      then ok (record l {
        pending = put l.pending (event_id event, sink) (delivery event sink context principal);
      })
      else ok l

pub record InMemoryEventSink (Ev : Type 0) : Type 0 where
  pub sink_id : String
  pub acknowledgement : Bool
  pub failures_remaining : ℕ
  pub acknowledgements : Dict String EventAcknowledgement
  pub events : List Ev

module _ {Ev : Type 0} (event_id digest : Ev → String) where
  -- The acknowledgement that `deliver` makes; its id and time are arguments.
  abbrev pub acknowledgement_of : InMemoryEventSink Ev → Ev → String → ℕ → EventAcknowledgement
  acknowledgement_of s event id now = record {
    acknowledgement_id = id;
    event_id = event_id event;
    sink_id = s.sink_id;
    payload_digest = digest event;
    acknowledged_at = now;
  }

  -- The Event is recorded by then.
  abbrev pub confirm :
      InMemoryEventSink Ev
      → Ev
      → Result EventAcknowledgement
      → Result (Option EventAcknowledgement) × InMemoryEventSink Ev
  confirm s event (ok a) =
      (ok (some a), record s { acknowledgements = put s.acknowledgements (event_id event) a })
  confirm s event (err e) = (err e, s)

  -- By what was acknowledged before.
  abbrev pub deliver_with :
      InMemoryEventSink Ev
      → Ev
      → String
      → ℕ
      → Option EventAcknowledgement
      → Result (Option EventAcknowledgement) × InMemoryEventSink Ev
  deliver_with s event id now (some known) =
      if not (known.payload_digest == digest event)
      then (
        err (
            core_error conflict "event_identity_conflict"
              "Event identity was reused with a different payload"),
        s,
      )
      else (ok (some known), s)
  deliver_with s event id now none =
      if not s.acknowledgement
      then (ok none, record s { events = s.events ++ event ∷ [] })
      else confirm (record s { events = s.events ++ event ∷ [] }) event
          (check_acknowledgement (acknowledgement_of s event id now))

  unfoldable pub deliver :
      InMemoryEventSink Ev
      → Ev
      → String
      → ℕ
      → Result (Option EventAcknowledgement) × InMemoryEventSink Ev
  deliver s event id now =
      if ltb 0 s.failures_remaining
      then (
        err (retry_error unavailable "sink_unavailable" "EventSink is temporarily unavailable"),
        record s { failures_remaining = s.failures_remaining - 1 },
      )
      else deliver_with s event id now (get s.acknowledgements (event_id event))
