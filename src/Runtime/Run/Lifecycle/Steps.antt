-- ===== src/Runtime/Run/Lifecycle/Steps.antt =====
-- What one operation may change, described apart from the methods: the table of legal transitions
-- of RFC-0004 and the fields that a step leaves alone.
use congeries_core.Prelude.{
  ℕ, ◌+◌, String, ◌≡◌, refl, ◌||◌, Bool, true, false, Option, some, arith, if◌then◌else◌,
}
use congeries_core.Runtime.Errors.{Raised, Result, ok, err, ◌>>=◌}
use congeries_core.Runtime.Run.{
  Run, RunStatus, created, starting, context_loading, running, waiting_approval, paused, retrying,
  recovering, succeeded, failed, cancelled, terminal, check_run,
}
use congeries_core.Runtime.Run.Machine.{RunTransition, unchanged, changed, moved}
use congeries_core.Runtime.Run.Operations.{
  Operation, start, pause, resume, redispatch_retry, complete, cancel, advance, retry, fail,
  recover, commit_checkpoint,
}

-- RFC-0004, sections 5 and 6.
abbrev pub legal : RunStatus → RunStatus → Bool
legal created starting = true
legal created failed = true
legal created cancelled = true
legal starting context_loading = true
legal starting paused = true
legal starting retrying = true
legal starting recovering = true
legal starting failed = true
legal starting cancelled = true
legal context_loading running = true
legal context_loading paused = true
legal context_loading retrying = true
legal context_loading recovering = true
legal context_loading failed = true
legal context_loading cancelled = true
legal running waiting_approval = true
legal running paused = true
legal running retrying = true
legal running recovering = true
legal running succeeded = true
legal running failed = true
legal running cancelled = true
legal waiting_approval running = true
legal waiting_approval paused = true
legal waiting_approval recovering = true
legal waiting_approval failed = true
legal waiting_approval cancelled = true
legal paused starting = true
legal paused context_loading = true
legal paused running = true
legal paused waiting_approval = true
legal paused recovering = true
legal paused failed = true
legal paused cancelled = true
legal retrying starting = true
legal retrying context_loading = true
legal retrying running = true
legal retrying paused = true
legal retrying recovering = true
legal retrying failed = true
legal retrying cancelled = true
legal recovering running = true
legal recovering paused = true
legal recovering failed = true
legal recovering cancelled = true
legal _ _ = false

-- The status that an operation leads to: a marker keeps the status, and `resume` and
-- `redispatch_retry` go on where the Run was interrupted.
abbrev pub target_of : Operation → Run → Option RunStatus
target_of start run = some starting
target_of pause run = some paused
target_of resume run = run.continuation_status
target_of redispatch_retry run = run.continuation_status
target_of complete run = some succeeded
target_of cancel run = some cancelled
target_of (advance target reason) run = some target
target_of (retry error) run = some retrying
target_of (fail error) run = some failed
target_of (recover checkpoint) run = some recovering
target_of (commit_checkpoint c p d g) run = some run.status

-- Only the marker of a checkpoint stays within a status.
abbrev pub is_marker : Operation → Bool
is_marker (commit_checkpoint c p d g) = true
is_marker _ = false

-- The operations that begin a new attempt: `retry` and `recover`. An `advance` to RECOVERING does
-- not, though RFC-0004 has every entry to RECOVERING begin one.
abbrev pub begins_attempt : Operation → Bool
begins_attempt (retry error) = true
begins_attempt (recover checkpoint) = true
begins_attempt _ = false

-- The fields that no operation touches.
abbrev pub SameIdentity : Run → Run → Type 0
SameIdentity a b =
    (a.run_id ≡ b.run_id)
    × (a.kind ≡ b.kind)
    × (a.root_run_id ≡ b.root_run_id)
    × (a.parent_run_id ≡ b.parent_run_id)
    × (a.workspace_id ≡ b.workspace_id)
    × (a.session_ref ≡ b.session_ref)
    × (a.scope ≡ b.scope)
    × (a.created_at ≡ b.created_at)

-- A committed change: one version on, stamped with the time, out of a status that is not terminal
-- to the status that the operation names, along a legal transition unless it is a marker.
pub record Step (op : Operation) (now : ℕ) (run next : Run) : Type 0 where
  pub live : terminal run.status ≡ false
  pub version : next.state_version ≡ run.state_version + 1
  pub stamped : next.updated_at ≡ some now
  pub reached : target_of op run ≡ some next.status
  pub edge : (is_marker op || legal run.status next.status) ≡ true
  pub attempt : next.attempt ≡ (if begins_attempt op then run.attempt + 1 else run.attempt)
  pub identity : SameIdentity run next

abbrev pub StepOf : Operation → ℕ → Run → RunTransition → Type 0
StepOf op now run (unchanged r reason) = r ≡ run
StepOf op now run (changed p c reason) = (p ≡ run) × Step op now run c

-- An answer satisfies `Q`; an error is free.
pub data Leads {ℓ} (Q : RunTransition → Type ℓ) : Result RunTransition → Type ℓ where
  leads : {t : RunTransition} → Q t → Leads Q (ok t)
  raises : {e : Raised} → Leads Q (err e)

-- The constructor returns the values that it was given.
check_run-eq : (r : Run) {a : Run} → check_run r ≡ ok a → a ≡ r
unfolding check_run
check_run-eq r h = ground arith

module _ {ℓ} {Q : RunTransition → Type ℓ} where
  pub Leads-if :
      (b : Bool) {m n : Result RunTransition}
      → (b ≡ true → Leads Q m)
      → (b ≡ false → Leads Q n)
      → Leads Q (if b then m else n)
  Leads-if true p q = p refl
  Leads-if false p q = q refl

  pub Leads-bind {κ} :
      {A : Type κ} (m : Result A) {f : A → Result RunTransition}
      → ((a : A) → m ≡ ok a → Leads Q (f a))
      → Leads Q (m >>= f)
  Leads-bind (ok a) k = k a refl
  Leads-bind (err e) k = raises

  pub Leads-moved :
      (run next : Run) (reason : String)
      → Q (changed run next reason)
      → Leads Q (moved run next reason)
  unfolding moved
  Leads-moved run next reason q =
      Leads-bind (check_run next) (λ a e. rw (check_run-eq next e) (leads q))
