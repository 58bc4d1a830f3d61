-- ===== src/Tests/StateTests.antt =====
-- Tests of state/repository.py and state/service.py.
use congeries_core.Runtime.Run.Attempts.{check_history, sorted_set}
use congeries_core.Runtime.Run.Operations.{apply}
use congeries_core.Runtime.Run.Lifecycle.Steps.{Step}
use congeries_core.Prelude.Eq.{string_eq, ◌==◌, ==_iff}
use congeries_core.Runtime.Run.{
  check_end, Run, paused, starting, check_run, check_identity, check_end, check_continuation,
  check_class,
}
use congeries_core.Runtime.Run.Soundness.{IsSound, IsSound-later}
use congeries_core.Prelude.Dict.{get, put}
use congeries_core.Runtime.Run.Machine.{RunTransition, touch, changed, check_version, moved}
use congeries_core.State.Repository.{compare_and_set, get_run}
use congeries_core.Prelude.{
  ◌≤◌, String, ◌≡◌, refl, [], ◌∷◌, ◌++◌, arith, some, Bool-cases, inl, subst, ◌⊎◌, inr, none, ◌≢◌,
}
use congeries_core.Runtime.Errors.{Result, ok, err, core_error, conflict}
use congeries_core.Runtime.Run.Operations
use congeries_core.Runtime.Run.Machine.Phases
use congeries_core.State.Session
use congeries_core.State.Session.{SessionState, SessionStatus, check_session, session_ref_eq}
use congeries_core.State.Service.{RunService, apply_call, handle_audit_failure}
use congeries_core.State.Service.Effects
use congeries_core.State.Service.Effects.{StoreSound, Untouched, Committed}
use congeries_core.State.Repository.Laws
use congeries_core.State.Service.Interleaving
use congeries_core.State.Service.Interleaving.{OpenRead, World, In, Move, Consistent, IsCurrent}
use congeries_core.State.Service.Audit
use congeries_core.State.Service.Audit.{Stopped}
use congeries_core.Tests.RunTests.{cancels_started}
use congeries_core.Tests.Samples.{started_run, cancelled_run, lost, started_run-IsSound}

abbrev quiet : RunTransition → Result (Unit {0})
quiet t = ok tt

abbrev one_run : RunService
one_run = record { runs = ("r", started_run) ∷ []; published = [] }

one_run-at : (id : String) (r : Run) → get one_run.runs id ≡ some r → IsSound r 7 × (r.run_id ≡ id)
unfolding get
one_run-at id r h = elim (Bool-cases ("r" == id)) [
  | inl hit ↦
      let is : started_run ≡ r = ground arith in
      subst (λ x. IsSound x 7 × (x.run_id ≡ id)) is
        (IsSound-later 7 started_run-IsSound (omega arith), (==_iff "r" id).0 hit)
  | inr miss ↦ cc (rw miss at h)
]

one_run-StoreSound : StoreSound one_run 7
one_run-StoreSound = record { at = one_run-at }

apply_call-Effect_example :
    Untouched one_run (apply_call quiet "r" 1 Operations.cancel 7 one_run).1
    ⊎ Committed Operations.cancel "r" 7 one_run
        (apply_call quiet "r" 1 Operations.cancel 7 one_run).1
apply_call-Effect_example =
    Effects.apply_call-Effect quiet "r" 1 Operations.cancel 7 one_run one_run-StoreSound

apply_call-succeeds_example : apply_call quiet "r" 1 Operations.cancel 7 one_run ≡ (
  ok cancelled_run,
  record {
    runs = put one_run.runs "r" cancelled_run;
    published = one_run.published ++ changed started_run cancelled_run "cancel" ∷ [];
  },
)
unfolding get ◌==◌
apply_call-succeeds_example =
    Effects.apply_call-succeeds quiet "r" 1 Operations.cancel 7 one_run started_run started_run
      cancelled_run "cancel" one_run-StoreSound refl cancels_started refl

abbrev one_read : OpenRead
one_read = record { id = "r"; seen = started_run; expected = 1; op = Operations.cancel; now = 7 }

abbrev one_world : World
one_world = record { runs = one_run.runs; reads = one_read ∷ []; clock = 7 }

one_read-IsSound :
    (call : OpenRead)
    → In call (one_read ∷ [])
    → IsSound call.seen call.now × (call.seen.run_id ≡ call.id)
one_read-IsSound call In.first = (IsSound-later 7 started_run-IsSound (omega arith), refl)
one_read-IsSound call (In.later m) = elim m [ ]

one_read-past : (call : OpenRead) → In call (one_read ∷ []) → call.now ≤ 7
one_read-past call In.first = omega arith
one_read-past call (In.later m) = elim m [ ]

one_read-current : (call : OpenRead) → In call (one_read ∷ []) → IsCurrent one_run.runs call
unfolding get ◌==◌
one_read-current call In.first = record {
  latest = started_run;
  stored = refl;
  grown = omega arith;
  same = λ _. refl;
}
one_read-current call (In.later m) = elim m [ ]

one_world-Consistent : Consistent one_world
one_world-Consistent = record {
  sound = one_run-at;
  seen = one_read-IsSound;
  past = one_read-past;
  current = one_read-current;
}

writes : compare_and_set one_world.runs cancelled_run 1 ≡ ok (("r", cancelled_run) ∷ [])
unfolding compare_and_set get_run get put ◌==◌
writes = refl

no_lost_update_example :
    compare_and_set (("r", cancelled_run) ∷ []) cancelled_run 1 ≢ ok one_run.runs
no_lost_update_example =
    Laws.no_lost_update one_world.runs cancelled_run cancelled_run 1 (("r", cancelled_run) ∷ [])
      refl writes one_run.runs

write_is_Step_example :
    (get one_world.runs "r" ≡ some started_run)
    × Step Operations.cancel 7 started_run cancelled_run
    × ((("r", cancelled_run) ∷ []) ≡ put one_world.runs "r" cancelled_run)
write_is_Step_example =
    Interleaving.write_is_Step one_world one_read started_run cancelled_run "cancel"
      (("r", cancelled_run) ∷ []) one_world-Consistent In.first cancels_started writes

Move-Consistent_example : Consistent (record one_world { runs = ("r", cancelled_run) ∷ [] })
Move-Consistent_example =
    Interleaving.Move-Consistent
      (Move.write one_read started_run cancelled_run "cancel" (("r", cancelled_run) ∷ []) In.first
        cancels_started writes)
      one_world-Consistent

abbrev audited : Run
audited = record (touch started_run 7) { status = paused; continuation_status = some starting }

audit_pauses : (handle_audit_failure quiet "r" lost 7 one_run).0 ≡ ok audited
unfolding handle_audit_failure apply_call Phases.pause get_run get ◌==◌ apply check_version moved
    check_run check_identity check_end check_history sorted_set check_continuation check_class
    compare_and_set put
audit_pauses = refl

handle_audit_failure-Stopped_example :
    Stopped started_run audited
    × (get (handle_audit_failure quiet "r" lost 7 one_run).1.runs "r" ≡ some audited)
unfolding get ◌==◌
handle_audit_failure-Stopped_example =
    Audit.handle_audit_failure-Stopped quiet "r" lost 7 one_run started_run audited
      one_run-StoreSound refl audit_pauses

abbrev chat : SessionState
chat = record {
  ref = record { namespace = "core"; session_id = "s" };
  status = SessionStatus.opened;
  created_at = 1;
  state_version = 0;
  closed_at = none;
}

abbrev sessions : Session.Sessions
sessions = (chat.ref, chat) ∷ []

abbrev closed_sessions : Session.Sessions
closed_sessions = (chat.ref, Session.closing chat 8) ∷ []

closes_chat : Session.close sessions chat.ref 0 8 ≡ ok (Session.closing chat 8, closed_sessions)
unfolding Session.close get put ◌==◌ check_session
closes_chat = refl

changes_chat : Session.Laws.change sessions (Session.Laws.closes chat.ref 0 8) ≡ ok closed_sessions
unfolding Session.Laws.change Session.close get put ◌==◌ check_session
changes_chat = refl

change-Follows_example :
    (next : SessionState) × (get closed_sessions chat.ref ≡ some next)
    × Session.Laws.Follows (Session.Laws.closes chat.ref 0 8) chat.ref chat next
unfolding get ◌==◌
change-Follows_example =
    Session.Laws.change-Follows sessions (Session.Laws.closes chat.ref 0 8) closed_sessions chat.ref
      chat changes_chat refl

require_open-close_example :
    Session.require_open closed_sessions chat.ref
    ≡ err
        (core_error conflict "session_closed" "closed Session cannot accept a new Run association")
require_open-close_example =
    Session.Laws.require_open-close sessions closed_sessions closed_sessions chat.ref 0 8
      (Session.closing chat 8) closes_chat Session.Laws.start
