-- ===== src/Event/Memory/Sink.antt =====
-- The sink records an acknowledged Event once.
use congeries_core.Prelude.{
  ℕ, String, ◌≡◌, refl, sym, ap, subst, ◌∙◌, inl, inr, true, false, Option, none, some, [], ◌∷◌,
  ◌++◌, arith, ltb, Bool-cases,
}
use congeries_core.Prelude.Eq.{◌==◌, string_eq, ==_iff}
use congeries_core.Prelude.Dict.{get, get-put_self}
use congeries_core.Runtime.Errors.{Result, ok, err}
use congeries_core.Event.Memory.{
  InMemoryEventSink, EventAcknowledgement, acknowledgement_of, check_acknowledgement, confirm,
  deliver_with, deliver,
}

answered : {a b : EventAcknowledgement} → ok (some a) ≡ ok (some b) → a ≡ b
answered e = cc

module _ {Ev : Type 0} (event_id digest : Ev → String) where
  -- What holds of a sink that has acknowledged the Event.
  abbrev Holds : Ev → EventAcknowledgement → InMemoryEventSink Ev → Type 0
  Holds event a s =
      (ltb 0 s.failures_remaining ≡ false)
      × (get s.acknowledgements (event_id event) ≡ some a)
      × (a.payload_digest ≡ digest event)

  held-again :
      (s : InMemoryEventSink Ev) (event : Ev) (id : String) (now : ℕ) (a : EventAcknowledgement)
      → Holds event a s
      → deliver event_id digest s event id now ≡ (ok (some a), s)
  unfolding deliver
  held-again s event id now a (healthy, there, same) =
      rw (healthy, there, (==_iff a.payload_digest (digest event)).1 same) refl

  check_acknowledgement-eq :
      (a : EventAcknowledgement) {b : EventAcknowledgement} → check_acknowledgement a ≡ ok b → a ≡ b
  unfolding check_acknowledgement
  check_acknowledgement-eq a h = ground arith

  confirm-Holds :
      (s after : InMemoryEventSink Ev) (event : Ev) (a b : EventAcknowledgement)
      (m : Result EventAcknowledgement)
      → ltb 0 s.failures_remaining ≡ false
      → check_acknowledgement b ≡ m
      → b.payload_digest ≡ digest event
      → confirm event_id digest s event m ≡ (ok (some a), after)
      → Holds event a after
  confirm-Holds s after event a b (ok c) healthy checked same h =
      let kept : c ≡ a =
        answered
          (ap (λ (p : Result (Option EventAcknowledgement) × InMemoryEventSink Ev). p.0) h) in
      subst (Holds event a)
        (ap (λ (p : Result (Option EventAcknowledgement) × InMemoryEventSink Ev). p.1) h)
        (
          healthy,
          get-put_self s.acknowledgements (event_id event) c ∙ ap some kept,
          ap (λ (x : EventAcknowledgement). x.payload_digest)
                (sym kept ∙ sym (check_acknowledgement-eq b checked))
              ∙ same,
        )
  confirm-Holds s after event a b (err e) healthy checked same h = cc

  deliver_with-Holds :
      (s after : InMemoryEventSink Ev) (event : Ev) (id : String) (now : ℕ)
      (a : EventAcknowledgement) (before : Option EventAcknowledgement)
      → ltb 0 s.failures_remaining ≡ false
      → get s.acknowledgements (event_id event) ≡ before
      → deliver_with event_id digest s event id now before ≡ (ok (some a), after)
      → Holds event a after
  deliver_with-Holds s after event id now a (some known) healthy there h =
      elim (Bool-cases (known.payload_digest == digest event)) [
        | inl agrees ↦
            let e = rw agrees at h in
            let kept : known ≡ a =
              answered
                (ap (λ (p : Result (Option EventAcknowledgement) × InMemoryEventSink Ev). p.0) e) in
            subst (Holds event a)
              (ap (λ (p : Result (Option EventAcknowledgement) × InMemoryEventSink Ev). p.1) e)
              (
                healthy,
                there ∙ ap some kept,
                ap (λ (x : EventAcknowledgement). x.payload_digest) (sym kept)
                    ∙ (==_iff known.payload_digest (digest event)).0 agrees,
              )
        | inr differs ↦ cc (rw differs at h)
      ]
  deliver_with-Holds s after event id now a none healthy there h =
      elim (Bool-cases s.acknowledgement) [
        | inl confirms ↦
            confirm-Holds (record s { acknowledgement = true; events = s.events ++ event ∷ [] })
              after event a (acknowledgement_of event_id digest s event id now) _ healthy refl refl
              (rw confirms at h)
        | inr silent ↦ cc (rw silent at h)
      ]

  -- Once the sink has acknowledged an Event, delivering that Event again, under whatever new
  -- acknowledgement id and time, returns the same acknowledgement and records nothing.
  pub deliver-deliver :
      (s after : InMemoryEventSink Ev) (event : Ev) (id again : String) (now later : ℕ)
      (a : EventAcknowledgement)
      → deliver event_id digest s event id now ≡ (ok (some a), after)
      → deliver event_id digest after event again later ≡ (ok (some a), after)
  unfolding deliver
  deliver-deliver s after event id again now later a h =
      elim (Bool-cases (ltb 0 s.failures_remaining)) [
        | inl failing ↦ cc (rw failing at h)
        | inr healthy ↦
            held-again after event again later a
              (deliver_with-Holds s after event id now a _ healthy refl (rw healthy at h))
      ]
