-- ===== src/Event/Memory/Outbox.antt =====
-- The outbox loses nothing: an identity keeps its payload digest, and waits until it is acknowledged.
use congeries_core.Prelude.{
  String, ◌≡◌, refl, sym, ap, ◌∙◌, true, false, not, ◌&&◌, Option, none, some, is_some, arith,
  or_option, Bool-cases, inl, inr, ◌≢◌,
}
use mathlib.Core.Bool.{false≢true}
use congeries_core.Prelude.Eq.{◌==◌, string_eq, pair_eq, ==_iff}
use congeries_core.Prelude.Dict.{get, put, remove, get-put, get-remove}
use congeries_core.Runtime.Errors.{Result, ok}
use congeries_core.Runtime.Outcome.{Outcome, answers, raises, Any, Outcome-if, Outcome-ok}
use congeries_core.Runtime.Context.{RuntimeCallContext}
use congeries_core.Policy.Access.{RuntimePrincipal}
use congeries_core.Event.Memory.{
  InMemoryEventLedger, PendingAuditDelivery, EventAcknowledgement, Key, existing_digest,
  pending_digest, acknowledged_digest, differs, next_sequence, mark_attempt, mark_with, attempted,
  acknowledge, acknowledge_with, enqueue, delivery,
}

-- What callers may ask of the ledger.
pub data Request (Ev : Type 0) : Type 0 where
  numbers : String → Request Ev
  enqueues : Ev → String → RuntimeCallContext → RuntimePrincipal → Request Ev
  marks : String → String → Option String → Request Ev
  acknowledges : EventAcknowledgement → Request Ev

-- No identity is both waiting and acknowledged.
abbrev pub Apart : {Ev : Type 0} → InMemoryEventLedger Ev → Type 0
Apart l = (key : Key) → is_some (get l.pending key) ≡ true → get l.acknowledged key ≡ none

-- What a step keeps of the digests: the one that an identity has.
abbrev pub Remembers : {Ev : Type 0} → InMemoryEventLedger Ev → InMemoryEventLedger Ev → Type 0
Remembers l after =
    (key : Key) (digest : String)
    → existing_digest l key ≡ some digest
    → existing_digest after key ≡ some digest

-- An acknowledgement is never taken back.
abbrev pub Settles : {Ev : Type 0} → InMemoryEventLedger Ev → InMemoryEventLedger Ev → Type 0
Settles l after =
    (key : Key) (a : EventAcknowledgement)
    → get l.acknowledged key ≡ some a
    → get after.acknowledged key ≡ some a

pub record Kept {Ev : Type 0} (l after : InMemoryEventLedger Ev) : Type 0 where
  pub apart : Apart after
  pub remembers : Remembers l after
  pub settles : Settles l after

module _ {Ev : Type 0} (event_id digest : Ev → String) where
  unfoldable pub serve : InMemoryEventLedger Ev → Request Ev → Result (InMemoryEventLedger Ev)
  serve l (numbers run) = ok (next_sequence l run).1
  serve l (enqueues event sink context principal) =
      enqueue event_id digest l event sink context principal
  serve l (marks event sink error) = mark_attempt l event sink error
  serve l (acknowledges a) = acknowledge l a

same_digest :
    (known : Option String) (d digest : String)
    → differs known digest ≡ false
    → known ≡ some d
    → d ≡ digest
same_digest none d digest h e = cc
same_digest (some k) d digest h e = cc (e, (==_iff k digest).0 (ground (arith, h)))

none≢some : {A : Type 0} {a : A} → none ≢ some a
none≢some e = cc

not_some : {A : Type 0} (o : Option A) → is_some o ≡ false → o ≡ none
not_some none h = refl
not_some (some a) h = cc

module _ {Ev : Type 0} where
  unchanged-Kept : (l : InMemoryEventLedger Ev) → Apart l → Kept l l
  unchanged-Kept l apart = record {
    apart = apart;
    remembers = λ key digest h. h;
    settles = λ key a h. h;
  }

  -- Storing a delivery under a key that is not acknowledged, with the digest that the key has.
  put_pending-Kept :
      (l : InMemoryEventLedger Ev) (key : Key) (p : PendingAuditDelivery Ev)
      → Apart l
      → get l.acknowledged key ≡ none
      → ((digest : String) → existing_digest l key ≡ some digest → digest ≡ p.payload_digest)
      → Kept l (record l { pending = put l.pending key p })
  unfolding existing_digest
  put_pending-Kept l key p apart free same = record {
    apart = λ k h. elim (Bool-cases (key == k)) [
      | inl hit ↦ ap (get l.acknowledged) (sym ((==_iff key k).0 hit)) ∙ free
      | inr miss ↦ apart k (ap is_some (sym (get-put l.pending key k p ∙ rw miss refl)) ∙ h)
    ];
    remembers = λ k d h. elim (Bool-cases (key == k)) [
      | inl hit ↦
          rw (get-put l.pending key k p, hit)
            (ap some (sym (same d (ap (existing_digest l) ((==_iff key k).0 hit) ∙ h))))
      | inr miss ↦ rw (get-put l.pending key k p, miss) h
    ];
    settles = λ k a h. h;
  }

  mark_with-Kept :
      (l : InMemoryEventLedger Ev) (key : Key) (error : Option String)
      (there : Option (PendingAuditDelivery Ev))
      → get l.pending key ≡ there
      → Apart l
      → Outcome Any (Kept l) (mark_with l key error there)
  unfolding existing_digest
  mark_with-Kept l key error (some p) e apart = answers (
      put_pending-Kept l key (attempted p error) apart (apart key (rw e refl))
        (λ d h. cc (rw e at h)))
  mark_with-Kept l key error none e apart =
      Outcome-if (is_some (get l.acknowledged key)) (λ _. answers (unchanged-Kept l apart))
        (λ _. raises tt)

  acknowledged-Kept :
      (l : InMemoryEventLedger Ev) (key : Key) (a : EventAcknowledgement)
      (p : PendingAuditDelivery Ev)
      → Apart l
      → get l.pending key ≡ some p
      → get l.acknowledged key ≡ none
      → p.payload_digest ≡ a.payload_digest
      → Kept l
          (record l { acknowledged = put l.acknowledged key a; pending = remove l.pending key })
  unfolding existing_digest
  acknowledged-Kept l key a p apart there free same = record {
    apart = λ k h. elim (Bool-cases (key == k)) [
      | inl hit ↦
          let gone : get (remove l.pending key) k ≡ none =
            get-remove l.pending key k ∙ rw hit refl in
          absurd (false≢true (ap is_some (sym gone) ∙ h))
      | inr miss ↦
          let same : get (remove l.pending key) k ≡ get l.pending k =
            get-remove l.pending key k ∙ rw miss refl in
          get-put l.acknowledged key k a ∙ rw miss (apart k (ap is_some (sym same) ∙ h))
    ];
    remembers = λ k d h. elim (Bool-cases (key == k)) [
      | inl hit ↦
          rw (get-put l.acknowledged key k a, get-remove l.pending key k, hit)
            (ap some (sym same)
              ∙ (ap
                    (λ o.
                      or_option (pending_digest o) (acknowledged_digest (get l.acknowledged key)))
                    (sym there)
                  ∙ (ap (existing_digest l) ((==_iff key k).0 hit) ∙ h)))
      | inr miss ↦ rw (get-put l.acknowledged key k a, get-remove l.pending key k, miss) h
    ];
    settles = λ k b h. elim (Bool-cases (key == k)) [
      | inl hit ↦
          absurd (none≢some (sym free ∙ (ap (get l.acknowledged) ((==_iff key k).0 hit) ∙ h)))
      | inr miss ↦ get-put l.acknowledged key k a ∙ rw miss h
    ];
  }

  acknowledge_with-Kept :
      (l : InMemoryEventLedger Ev) (a : EventAcknowledgement) (known : Option EventAcknowledgement)
      (there : Option (PendingAuditDelivery Ev))
      → get l.acknowledged (a.event_id, a.sink_id) ≡ known
      → get l.pending (a.event_id, a.sink_id) ≡ there
      → Apart l
      → Outcome Any (Kept l) (acknowledge_with l a known there)
  acknowledge_with-Kept l a (some known) there k t apart =
      Outcome-if (not (known.payload_digest == a.payload_digest)) (λ _. raises tt)
        (λ _. answers (unchanged-Kept l apart))
  acknowledge_with-Kept l a none none k t apart = raises tt
  acknowledge_with-Kept l a none (some p) k t apart =
      Outcome-if (not (p.payload_digest == a.payload_digest)) (λ _. raises tt)
        (λ same. answers (
          acknowledged-Kept l (a.event_id, a.sink_id) a p apart t k
            ((==_iff p.payload_digest a.payload_digest).0 (ground (arith, same)))))

module _ {Ev : Type 0} (event_id digest : Ev → String) where
  enqueue-Kept :
      (l : InMemoryEventLedger Ev) (event : Ev) (sink : String) (context : RuntimeCallContext)
      (principal : RuntimePrincipal)
      → Apart l
      → Outcome Any (Kept l) (enqueue event_id digest l event sink context principal)
  unfolding enqueue existing_digest
  enqueue-Kept l event sink context principal apart =
      Outcome-if (differs (existing_digest l (event_id event, sink)) (digest event))
        (λ _. raises tt)
        (λ agrees.
          Outcome-if
            (not (is_some (get l.pending (event_id event, sink)))
              && not (is_some (get l.acknowledged (event_id event, sink))))
            (λ new. answers (
              put_pending-Kept l (event_id event, sink)
                (delivery event_id digest event sink context principal) apart
                (not_some _ (ground (arith, new)))
                (λ d h. same_digest _ d (digest event) agrees h)))
            (λ _. answers (unchanged-Kept l apart)))

  serve-Outcome :
      (l : InMemoryEventLedger Ev) (request : Request Ev)
      → Apart l
      → Outcome Any (Kept l) (serve event_id digest l request)
  unfolding serve mark_attempt acknowledge next_sequence existing_digest
  serve-Outcome l (numbers run) apart =
      answers (record { apart = apart; remembers = λ key d h. h; settles = λ key a h. h })
  serve-Outcome l (enqueues event sink context principal) apart =
      enqueue-Kept l event sink context principal apart
  serve-Outcome l (marks event sink error) apart =
      mark_with-Kept l (event, sink) error (get l.pending (event, sink)) refl apart
  serve-Outcome l (acknowledges a) apart = acknowledge_with-Kept l a _ _ refl refl apart

  -- Whatever is asked of the ledger: no identity is ever both waiting and acknowledged; an identity
  -- that is waiting or acknowledged stays one of the two with the digest that it has, so a delivery
  -- is not lost before it is acknowledged and never changes its payload; and an acknowledgement is
  -- never taken back or replaced.
  pub serve-Kept :
      (l : InMemoryEventLedger Ev) (request : Request Ev) (after : InMemoryEventLedger Ev)
      → Apart l
      → serve event_id digest l request ≡ ok after
      → Kept l after
  serve-Kept l request after apart = Outcome-ok (serve-Outcome l request apart)
