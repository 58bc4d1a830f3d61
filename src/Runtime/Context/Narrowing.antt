-- ===== src/Runtime/Context/Narrowing.antt =====
-- A chain of derived contexts never gains a right that its first one lacks.
use congeries_core.Prelude.{
  ℕ, String, ◌≡◌, refl, sym, ◌∙◌, ◌≤◌, false, Option, none, some, arith, or_else, or_option,
  Bool-cases, inl, inr,
}
use congeries_core.Runtime.Errors.{ok, raise_if, raise_if-ok}
use congeries_core.Runtime.Outcome.{Outcome, answers, Any, Outcome-after, Outcome-ok}
use congeries_core.Runtime.Scope.{ScopeRef, require_narrower_than}
use congeries_core.Runtime.Context.{
  RuntimeCallContext, check_active, raise_if_cancelled, raise_if_expired, narrow, for_child_run,
  extends,
}

-- The second deadline is there when the first is, and is not later.
pub data NoLater : Option ℕ → Option ℕ → Type 0 where
  unbounded : {o : Option ℕ} → NoLater none o
  bounded : {own at : ℕ} → at ≤ own → NoLater (some own) (some at)

-- One call of `narrow` or `for_child_run`.
pub data Derives (c : RuntimeCallContext) : RuntimeCallContext → Type 0 where
  narrows :
      (scope : Option ScopeRef) (deadline : Option ℕ) (key : Option String) (span : String)
      (n : RuntimeCallContext)
      → narrow c scope deadline key span ≡ ok n
      → Derives c n
  spawns :
      (child : String) (scope : Option ScopeRef) (deadline : Option ℕ) (key : Option String)
      (span : String) (n : RuntimeCallContext)
      → for_child_run c child scope deadline key span ≡ ok n
      → Derives c n

pub data Chain (c : RuntimeCallContext) : RuntimeCallContext → Type 0 where
  itself : Chain c c
  derived : {m n : RuntimeCallContext} → Chain c m → Derives m n → Chain c n

-- What a derived context keeps.
pub record Inherits (c n : RuntimeCallContext) : Type 0 where
  pub deadline : NoLater c.deadline n.deadline
  pub cancellation : n.cancellation ≡ c.cancellation
  pub root : n.root_run_id ≡ c.root_run_id
  pub workspace : n.workspace_id ≡ c.workspace_id
  pub session : n.session_ref ≡ c.session_ref
  pub trace : n.trace.trace_id ≡ c.trace.trace_id
  pub correlation : n.trace.correlation_id ≡ c.trace.correlation_id
  pub causation : n.trace.causation_id ≡ c.trace.causation_id

NoLater-refl : (o : Option ℕ) → NoLater o o
NoLater-refl none = unbounded
NoLater-refl (some at) = bounded (omega arith)

NoLater-trans : {a b c : Option ℕ} → NoLater a b → NoLater b c → NoLater a c
NoLater-trans unbounded q = unbounded
NoLater-trans (bounded p) (bounded q) = bounded (omega (arith, p, q))

within_own :
    (own deadline : Option ℕ)
    → extends own (or_option deadline own) ≡ false
    → NoLater own (or_option deadline own)
within_own none deadline h = unbounded
within_own (some own) none h = bounded (omega arith)
within_own (some own) (some at) h = bounded (ground arith)

-- What one derivation gives, and the check that its scope passed.
Step : RuntimeCallContext → RuntimeCallContext → Type 0
Step c n = Inherits c n × (require_narrower_than n.scope c.scope ≡ ok tt)

narrow-Outcome :
    (c : RuntimeCallContext) (scope : Option ScopeRef) (deadline : Option ℕ) (key : Option String)
    (span : String)
    → Outcome Any (Step c) (narrow c scope deadline key span)
unfolding narrow Step
narrow-Outcome c scope deadline key span =
    Outcome-after (require_narrower_than (or_else scope c.scope) c.scope) (λ _ narrower.
      Outcome-after (raise_if (extends c.deadline (or_option deadline c.deadline)) _) (λ _ e.
        answers (
          record {
            deadline = within_own c.deadline deadline (raise_if-ok _ _ e);
            cancellation = refl;
            root = refl;
            workspace = refl;
            session = refl;
            trace = refl;
            correlation = refl;
            causation = refl;
          },
          narrower,
        )))

for_child_run-Outcome :
    (c : RuntimeCallContext) (child : String) (scope : Option ScopeRef) (deadline : Option ℕ)
    (key : Option String) (span : String)
    → Outcome Any (Step c) (for_child_run c child scope deadline key span)
unfolding for_child_run Step
for_child_run-Outcome c child scope deadline key span =
    Outcome-after (narrow c scope deadline key span) (λ n e.
      let (i, narrower) = Outcome-ok (narrow-Outcome c scope deadline key span) e in
      answers (
        record {
          deadline = i.deadline;
          cancellation = i.cancellation;
          root = refl;
          workspace = i.workspace;
          session = i.session;
          trace = i.trace;
          correlation = i.correlation;
          causation = i.causation;
        },
        narrower,
      ))

derived-Step : {c n : RuntimeCallContext} → Derives c n → Step c n
derived-Step {c} (narrows scope deadline key span n e) =
    Outcome-ok (narrow-Outcome c scope deadline key span) e
derived-Step {c} (spawns child scope deadline key span n e) =
    Outcome-ok (for_child_run-Outcome c child scope deadline key span) e

-- A derived context, for the same Run or for a child, passed the narrowing check against the scope
-- of the one that it comes from.
pub Derives-narrower :
    {c n : RuntimeCallContext} → Derives c n → require_narrower_than n.scope c.scope ≡ ok tt
unfolding Step
Derives-narrower d = (derived-Step d).1

-- Along a chain of derived contexts, however long, a deadline never moves back and is never lost,
-- and cancellation token, root Run, workspace, session and the trace, correlation and causation ids
-- stay the same.
pub Chain-Inherits : {c n : RuntimeCallContext} → Chain c n → Inherits c n
unfolding Step
Chain-Inherits {c} itself = record {
  deadline = NoLater-refl c.deadline;
  cancellation = refl;
  root = refl;
  workspace = refl;
  session = refl;
  trace = refl;
  correlation = refl;
  causation = refl;
}
Chain-Inherits (derived chain d) =
    let i = Chain-Inherits chain in
    let (s, narrower) = derived-Step d in
    record {
      deadline = NoLater-trans i.deadline s.deadline;
      cancellation = s.cancellation ∙ i.cancellation;
      root = s.root ∙ i.root;
      workspace = s.workspace ∙ i.workspace;
      session = s.session ∙ i.session;
      trace = s.trace ∙ i.trace;
      correlation = s.correlation ∙ i.correlation;
      causation = s.causation ∙ i.causation;
    }

expired_too :
    {own at : Option ℕ} (now : ℕ)
    → NoLater own at
    → raise_if_expired at now ≡ ok tt
    → raise_if_expired own now ≡ ok tt
unfolding raise_if_expired
expired_too now unbounded h = refl
expired_too now (bounded le) h = ground arith

-- Whenever a derived context is still active, so is every context that it comes from.
pub check_active-chain :
    (c n : RuntimeCallContext) (now : ℕ)
    → Chain c n
    → check_active n now ≡ ok tt
    → check_active c now ≡ ok tt
unfolding check_active raise_if_cancelled
check_active-chain c n now chain h =
    let i = Chain-Inherits chain in
    elim (Bool-cases n.cancellation.is_set) [
      | inl set ↦ cc (rw set at h)
      | inr clear ↦ rw (sym i.cancellation, clear) (expired_too now i.deadline (rw clear at h))
    ]
