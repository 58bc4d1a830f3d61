-- ===== src/Policy/Authorization/Safety.antt =====
-- What the gateway lets through: complete mediation.
use congeries_core.Prelude.{
  ℕ, String, ◌≡◌, refl, ◌⊎◌, inl, inr, Bool, true, false, Option, none, some, List, [], ◌∷◌, ◌++◌,
  any, Bool-cases,
}
use congeries_core.Prelude.Eq.{string_eq, pair_eq}
use congeries_core.Runtime.Errors.{
  Raised, Result, ok, err, ErrorDetail, core, value_error, assertion_error, key_error, Result-cases,
}
use congeries_core.Runtime.Outcome.{Outcome-ok}
use congeries_core.Runtime.Context.{check_active}
use congeries_core.Policy.Access.{
  AccessRequest, Grant, PolicyDecision, ActionRegistry, is_registered, cross_scope, is_allow,
  has_come, denial, undecided,
}
use congeries_core.Policy.Authorization.Matching.{Matches, validate_grant-Outcome}
use congeries_core.Policy.Authorization.{
  AuthorizedCall, Effect, asks_policy, audits_denial, audits_cross_scope, invokes, Trace, ◌then_do◌,
  validate_grant, or_handle, deny_call, decided, decide, audit_grant, invoke, with_grant, dispatch,
}

abbrev pub is_invocation : {J : Type 0} → Effect J → Bool
is_invocation (invokes call) = true
is_invocation e = false

module _ {J : Type 0} (on_denied : AccessRequest J → PolicyDecision J → Result (Unit {0}))
    (on_cross_scope : AccessRequest J → Grant J → Result (Unit {0}))
    (on_failure : String → ErrorDetail → Result (Unit {0})) where
  -- A part that raised before any invocation.
  pub data Blocked {A : Type 0} : Trace J A → Type 0 where
    blocked :
        {effects : List (Effect J)} {e : Raised}
        → any is_invocation effects ≡ false
        → Blocked (effects, err e)

  -- The audits that a grant needs before the call.
  pub data Audited (request : AccessRequest J) (grant : Grant J) : List (Effect J) → Type 0 where
    within : cross_scope grant ≡ false → Audited request grant []
    across :
        cross_scope grant ≡ true
        → on_cross_scope request grant ≡ ok tt
        → Audited request grant (audits_cross_scope grant ∷ [])

  or_handle-cases :
      (request : AccessRequest J) (audit : Effect J) (m : Result (Unit {0}))
      → is_invocation audit ≡ false
      → Blocked (or_handle on_denied on_cross_scope on_failure request audit m)
        ⊎ ((or_handle on_denied on_cross_scope on_failure request audit m ≡ (audit ∷ [], ok tt))
            × (m ≡ ok tt))
  unfolding or_handle
  or_handle-cases request audit (ok u) h = inr (refl, refl)
  or_handle-cases request audit (err (core detail)) h =
      elim (Result-cases (on_failure request.context.run_id detail)) [
        | inl (u, e) ↦ inl (rw e (blocked (rw h refl)))
        | inr (x, e) ↦ inl (rw e (blocked (rw h refl)))
      ]
  or_handle-cases request audit (err (value_error m)) h = inl (blocked (rw h refl))
  or_handle-cases request audit (err (assertion_error m)) h = inl (blocked (rw h refl))
  or_handle-cases request audit (err (key_error m)) h = inl (blocked (rw h refl))

  Blocked-then :
      {A B : Type 0} {t : Trace J A} (k : A → Trace J B) → Blocked t → Blocked (t then_do k)
  Blocked-then k (blocked h) = blocked h

  deny_call-Blocked :
      {B : Type 0} (request : AccessRequest J) (decision : PolicyDecision J)
      → Blocked {A = B} (deny_call on_denied on_cross_scope on_failure request decision)
  unfolding deny_call
  deny_call-Blocked request decision =
      elim (or_handle-cases request (audits_denial decision) (on_denied request decision) refl) [
        | inl b ↦ Blocked-then _ b
        | inr (e, m) ↦ rw e (blocked refl)
      ]

  Blocked-cons :
      {B : Type 0} (x : Effect J) {t : Trace J B}
      → is_invocation x ≡ false
      → Blocked t
      → Blocked (x ∷ t.0, t.1)
  Blocked-cons x h (blocked q) = blocked (rw h q)

  audit_grant-cases :
      (request : AccessRequest J) (grant : Grant J)
      → Blocked (audit_grant on_denied on_cross_scope on_failure request grant)
        ⊎ ((audits : List (Effect J)) × (audit_grant on_denied on_cross_scope on_failure request
                grant
              ≡ (audits, ok tt))
            × Audited request grant audits)
  unfolding audit_grant
  audit_grant-cases request grant = elim (Bool-cases (cross_scope grant)) [
    | inl out ↦
        elim (or_handle-cases request (audits_cross_scope grant) (on_cross_scope request grant)
          refl) [ inl b ↦ inl (rw out b) | inr (e, m) ↦ inr (_, rw out e, across out m) ]
    | inr within_own ↦ inr ([], rw within_own refl, within within_own)
  ]

  module _ {A : Type 0} (operation : AuthorizedCall J → Result A) (actions : ActionRegistry)
      (policy : Option (AccessRequest J → Result (PolicyDecision J))) (request : AccessRequest J)
      (now later : ℕ) where
    abbrev pub call_of : Grant J → AuthorizedCall J
    call_of grant = record {
      request = request;
      grant = grant;
      context = record request.context { scope = grant.effective_scope };
    }

    -- All that must hold before the operation runs.
    pub record Approved (grant : Grant J) : Type 0 where
      pub live : check_active request.context now ≡ ok tt
      pub registered : is_registered actions request.action ≡ true
      pub rule : AccessRequest J → Result (PolicyDecision J)
      pub configured : policy ≡ some rule
      pub decision : PolicyDecision J
      pub answered : rule request ≡ ok decision
      pub allowed : is_allow decision.effect ≡ true
      pub granted : decision.grant ≡ some grant
      pub matching : Matches request grant
      pub unexpired : has_come grant.expires_at later ≡ false

    -- The operation is called once, at the end, after the audits that the grant needs, with the
    -- scope of the grant; or the call raises and the operation is not called.
    pub data Mediated : Trace J A → Type 0 where
      stopped : {t : Trace J A} → Blocked t → Mediated t
      passed :
          (grant : Grant J) (audits : List (Effect J))
          → Approved grant
          → Audited request grant audits
          → Mediated (
            asks_policy request ∷ (audits ++ invokes (call_of grant) ∷ []),
            operation (call_of grant),
          )

    -- What runs after the policy has allowed.
    abbrev after_policy : Trace J A → Trace J A
    after_policy t = (asks_policy request ∷ t.0, t.1)

    halted : {t : Trace J A} → Blocked t → Mediated (after_policy t)
    halted b = stopped (Blocked-cons (asks_policy request) refl b)

    invoke-Mediated :
        (grant : Grant J)
        → Approved grant
        → Mediated
            (after_policy (invoke on_denied on_cross_scope on_failure operation request grant))
    unfolding invoke
    invoke-Mediated grant approved = elim (audit_grant-cases request grant) [
      | inl b ↦ halted (Blocked-then _ b)
      | inr (audits, e, audited) ↦ rw e (passed grant audits approved audited)
    ]

    with_grant-Mediated :
        (o : Option (Grant J))
        → ((grant : Grant J)
            → o ≡ some grant
            → Matches request grant
            → has_come grant.expires_at later ≡ false
            → Approved grant)
        → Mediated (
            after_policy (with_grant on_denied on_cross_scope on_failure operation request o later))
    unfolding with_grant
    with_grant-Mediated none k = stopped (blocked refl)
    with_grant-Mediated (some grant) k = elim (Result-cases (validate_grant request grant)) [
      | inl (u, e) ↦ elim (Bool-cases (has_come grant.expires_at later)) [
        | inl over ↦ rw (e, over) (halted (deny_call-Blocked request (denial "grant_expired")))
        | inr fresh ↦
            rw (e, fresh)
              (invoke-Mediated grant
                (k grant refl (Outcome-ok (validate_grant-Outcome request grant) e) fresh))
      ]
      | inr (x, e) ↦ rw e (stopped (blocked refl))
    ]

  module _ {A : Type 0} (operation : AuthorizedCall J → Result A) (actions : ActionRegistry)
      (request : AccessRequest J) (now later : ℕ) where
    decided-Mediated :
        (rule : AccessRequest J → Result (PolicyDecision J)) (m : Result (PolicyDecision J))
        → rule request ≡ m
        → check_active request.context now ≡ ok tt
        → is_registered actions request.action ≡ true
        → Mediated operation actions (some rule) request now later (
            decided on_denied on_cross_scope on_failure request m then_do (λ decision.
              with_grant on_denied on_cross_scope on_failure operation request decision.grant
                later))
    unfolding decided
    decided-Mediated rule (err e) answer live known = stopped (blocked refl)
    decided-Mediated rule (ok decision) answer live known =
        elim (Bool-cases (is_allow decision.effect)) [
          | inl agreed ↦ rw agreed (
              with_grant-Mediated operation actions (some rule) request now later decision.grant
                (λ grant e matches fresh. record {
                  live = live;
                  registered = known;
                  rule = rule;
                  configured = refl;
                  decision = decision;
                  answered = answer;
                  allowed = agreed;
                  granted = e;
                  matching = matches;
                  unexpired = fresh;
                }))
          | inr refused ↦ rw refused (
              stopped (
                Blocked-then _
                  (Blocked-cons (asks_policy request) refl (deny_call-Blocked request decision))))
        ]

    dispatch_live :
        (policy : Option (AccessRequest J → Result (PolicyDecision J)))
        → check_active request.context now ≡ ok tt
        → Mediated operation actions policy request now later (
            decide on_denied on_cross_scope on_failure actions policy request then_do (λ decision.
              with_grant on_denied on_cross_scope on_failure operation request decision.grant
                later))
    unfolding decide
    dispatch_live none live = elim (Bool-cases (is_registered actions request.action)) [
      | inl known ↦
          rw known
            (stopped (Blocked-then _ (deny_call-Blocked request (undecided "policy_missing"))))
      | inr unknown ↦
          rw unknown
            (stopped (Blocked-then _ (deny_call-Blocked request (denial "unknown_action"))))
    ]
    dispatch_live (some rule) live = elim (Bool-cases (is_registered actions request.action)) [
      | inl known ↦ rw known (decided-Mediated rule (rule request) refl live known)
      | inr unknown ↦
          rw unknown
            (stopped (Blocked-then _ (deny_call-Blocked request (denial "unknown_action"))))
    ]

    -- Complete mediation: `dispatch` either raises without having called the operation, or it calls
    -- it exactly once, as its last effect, with the effective scope of a grant. Then the context was
    -- active, the action registered, the policy configured and its answer to this request an ALLOW
    -- with that grant; the grant matches the request, has not expired, and if it crosses scopes its
    -- audit was published before.
    pub dispatch-Mediated :
        (policy : Option (AccessRequest J → Result (PolicyDecision J)))
        → Mediated operation actions policy request now later (
            dispatch on_denied on_cross_scope on_failure operation actions policy request now later)
    unfolding dispatch
    dispatch-Mediated policy = elim (Result-cases (check_active request.context now)) [
      | inl (u, e) ↦ rw e (dispatch_live policy e)
      | inr (x, e) ↦ rw e (stopped (blocked refl))
    ]
