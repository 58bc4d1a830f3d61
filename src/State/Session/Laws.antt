-- ===== src/State/Session/Laws.antt =====
-- A Session that was closed stays closed and accepts no Run.
use congeries_core.Prelude.{
  ℕ, ◌+◌, ◌≡◌, refl, sym, ap, subst, ◌∙◌, inl, inr, true, false, not, some, is_some, nat_beq,
  Bool-cases, Option-cases, nat_beq_iff, not-false,
}
use mathlib.Core.Bool.{false≢true}
use congeries_core.Prelude.Eq.{◌==◌, string_eq, ==_iff}
use congeries_core.Prelude.Dict.{get, get-put, get-put_self}
use congeries_core.Runtime.Errors.{Result, ok, err, ◌>>=◌, core_error, conflict}
use congeries_core.Runtime.Outcome.{
  Outcome, answers, raises, Any, Outcome-if, Outcome-after, Outcome-ok,
}
use congeries_core.Runtime.Run.{SessionRef}
use congeries_core.State.Session.{
  SessionState, is_closed, check_session, session_ref_eq, Sessions, closing, add_session,
  get_session, close, require_open, opened, SessionStatus, closed,
}

some_injective : {A : Type 0} {a b : A} → some a ≡ some b → a ≡ b
some_injective e = cc

-- What changes the dictionary.
pub data Change : Type 0 where
  adds : SessionState → Change
  closes : SessionRef → ℕ → ℕ → Change

unfoldable pub change : Sessions → Change → Result Sessions
change sessions (adds s) = add_session sessions s
change sessions (closes ref expected now) =
    close sessions ref expected now >>= λ answer. ok answer.1

-- A Session that was open and is closed now, one version later and otherwise unchanged.
pub record ClosedAt (now : ℕ) (before next : SessionState) : Type 0 where
  pub open_before : before.status ≡ opened
  pub closed_now : next.status ≡ closed
  pub stamped : next.closed_at ≡ some now
  pub version : next.state_version ≡ before.state_version + 1
  pub ref : next.ref ≡ before.ref
  pub created_at : next.created_at ≡ before.created_at

-- What becomes of the Session that stands under a reference over a change: only closing it, at the
-- time of the change, alters it.
pub data Follows (c : Change) (ref : SessionRef) (before : SessionState)
    : SessionState → Type 0 where
  same : Follows c ref before before
  closes_now :
      {next : SessionState} (expected now : ℕ)
      → c ≡ closes ref expected now
      → before.state_version ≡ expected
      → ClosedAt now before next
      → Follows c ref before next

open_status : (s : SessionStatus) → is_closed s ≡ false → s ≡ opened
open_status opened h = refl
open_status closed h = cc

check_closing : (s : SessionState) (now : ℕ) → check_session (closing s now) ≡ ok (closing s now)
unfolding check_session
check_closing s now = refl

abbrev pub Preserved : Change → Sessions → Sessions → Type 0
Preserved c sessions after =
    (ref : SessionRef) (s : SessionState)
    → get sessions ref ≡ some s
    → (next : SessionState) × (get after ref ≡ some next) × Follows c ref s next

Preserved-self : (c : Change) (sessions : Sessions) → Preserved c sessions sessions
Preserved-self c sessions ref s h = (s, h, same)

add_session-Outcome :
    (sessions : Sessions) (s : SessionState)
    → Outcome Any (Preserved (adds s) sessions) (add_session sessions s)
unfolding add_session
add_session-Outcome sessions s =
    Outcome-if (is_some (get sessions s.ref)) (λ _. raises tt)
      (λ free. answers (λ ref old h. elim (Bool-cases (s.ref == ref)) [
        | inl hit ↦ absurd (
            false≢true (sym free ∙ (ap is_some (ap (get sessions) ((==_iff s.ref ref).0 hit) ∙ h))))
        | inr miss ↦ (old, get-put sessions s.ref ref s ∙ rw miss h, same)
      ]))

closing-Follows :
    (ref : SessionRef) (expected now : ℕ) (s old : SessionState)
    → is_closed s.status ≡ false
    → not (nat_beq s.state_version expected) ≡ false
    → s ≡ old
    → Follows (closes ref expected now) ref old (closing s now)
closing-Follows ref expected now s old live version is =
    closes_now expected now refl
      (sym (ap (λ (x : SessionState). x.state_version) is)
        ∙ (nat_beq_iff s.state_version expected).0 (not-false _ version))
      (record {
        open_before = ap (λ (x : SessionState). x.status) (sym is) ∙ open_status s.status live;
        closed_now = refl;
        stamped = refl;
        version = ap (λ (x : SessionState). x.state_version + 1) is;
        ref = ap (λ (x : SessionState). x.ref) is;
        created_at = ap (λ (x : SessionState). x.created_at) is;
      })

close-Outcome :
    (sessions : Sessions) (ref : SessionRef) (expected now : ℕ)
    → Outcome Any
        (λ answer.
          Preserved (closes ref expected now) sessions answer.1
          × (is_closed answer.0.status ≡ true)
          × (get answer.1 ref ≡ some answer.0))
        (close sessions ref expected now)
unfolding close
close-Outcome sessions ref expected now = elim (Option-cases (get sessions ref)) [
  | inl e ↦ rw e (raises tt)
  | inr (s, e) ↦ rw e (
      Outcome-if (is_closed s.status)
        (λ over. answers (Preserved-self (closes ref expected now) sessions, over, e))
        (λ live.
          Outcome-if (not (nat_beq s.state_version expected)) (λ _. raises tt)
            (λ version. rw (check_closing s now) (
              answers (
                λ k old h. elim (Bool-cases (ref == k)) [
                  | inl hit ↦
                      let is : some s ≡ some old =
                        sym e ∙ (ap (get sessions) ((==_iff ref k).0 hit) ∙ h) in
                      (
                        closing s now,
                        get-put sessions ref k (closing s now) ∙ rw hit refl,
                        subst (λ key. Follows (closes ref expected now) key old (closing s now))
                            ((==_iff ref k).0 hit)
                            (closing-Follows ref expected now s old live version
                              (some_injective is)),
                      )
                  | inr miss ↦ (old, get-put sessions ref k (closing s now) ∙ rw miss h, same)
                ],
                refl,
                get-put_self sessions ref (closing s now),
              )))))
]

change-Outcome :
    (sessions : Sessions) (c : Change) → Outcome Any (Preserved c sessions) (change sessions c)
unfolding change
change-Outcome sessions (adds s) = add_session-Outcome sessions s
change-Outcome sessions (closes ref expected now) =
    Outcome-after (close sessions ref expected now)
      (λ answer e. answers ((Outcome-ok (close-Outcome sessions ref expected now) e).0))

-- No change of the repository loses a Session or alters one, except that `close` of that Session,
-- given its version, closes it when it is open: at the time of the call, one version later.
pub change-Follows :
    (sessions : Sessions) (c : Change) (after : Sessions) (ref : SessionRef) (s : SessionState)
    → change sessions c ≡ ok after
    → get sessions ref ≡ some s
    → (next : SessionState) × (get after ref ≡ some next) × Follows c ref s next
change-Follows sessions c after ref s e = Outcome-ok (change-Outcome sessions c) e ref s

-- Any number of changes, one after the other.
pub data History (sessions : Sessions) : Sessions → Type 0 where
  start : History sessions sessions
  then_change :
      {middle after : Sessions} (c : Change)
      → History sessions middle
      → change middle c ≡ ok after
      → History sessions after

Follows-closed :
    {c : Change} {ref : SessionRef} {s next : SessionState}
    → Follows c ref s next
    → is_closed s.status ≡ true
    → next ≡ s
Follows-closed same over = refl
Follows-closed (closes_now expected now is version closing_now) over =
    absurd (false≢true (sym (ap is_closed closing_now.open_before) ∙ over))

History-closed :
    {sessions after : Sessions} (ref : SessionRef) (s : SessionState)
    → History sessions after
    → get sessions ref ≡ some s
    → is_closed s.status ≡ true
    → get after ref ≡ some s
History-closed ref s start h over = h
History-closed ref s (then_change {middle} {after} c history e) h over =
    let (next, there, follows) =
      change-Follows middle c after ref s e (History-closed ref s history h over) in
    there ∙ ap some (Follows-closed follows over)

refuses :
    (sessions : Sessions) (ref : SessionRef) (s : SessionState)
    → get sessions ref ≡ some s
    → is_closed s.status ≡ true
    → require_open sessions ref
      ≡ err (
          core_error conflict "session_closed" "closed Session cannot accept a new Run association")
unfolding require_open get_session
refuses sessions ref s h over = rw (h, over) refl

-- Once `close` has answered for a Session, `require_open` refuses it, whatever changes the repository
-- has seen since.
pub require_open-close :
    (sessions after final : Sessions) (ref : SessionRef) (expected now : ℕ) (s : SessionState)
    → close sessions ref expected now ≡ ok (s, after)
    → History after final
    → require_open final ref
      ≡ err (
          core_error conflict "session_closed" "closed Session cannot accept a new Run association")
require_open-close sessions after final ref expected now s e history =
    let (kept, over, there) = Outcome-ok (close-Outcome sessions ref expected now) e in
    refuses final ref s (History-closed ref s history there over) over
