-- ===== src/Policy/Authorization.antt =====
-- src/congeries_core/policy/authorization.py: `AuthorizedDispatcher`. The policy, the audit
-- publisher, the handler of audit failures and the operation are protocols or callables that the
-- caller supplies: each is a parameter that says what it answers or raises. `Effect` records which
-- of them were called, in order. The clock is read twice.
pub mod Matching
pub mod Safety
use congeries_core.Prelude.{
  ℕ, String, Bool, true, false, not, ◌&&◌, ◌||◌, Option, none, some, is_some, List, [], ◌∷◌, ◌++◌,
  leb, if◌then◌else◌, or_else,
}
use congeries_core.Prelude.Eq.{Eq, ◌==◌, string_eq, pair_eq, option_eq}
use congeries_core.Runtime.Errors.{
  Raised, Result, ok, err, ErrorDetail, core, ◌>>=◌, ◌>>◌, raise_if, core_error, denied,
  assertion_error,
}
use congeries_core.Runtime.Scope.{ScopeRef, key, require_narrower_than}
use congeries_core.Runtime.Context.{RuntimeCallContext, check_active}
use congeries_core.Policy.Access.{
  AccessRequest, Grant, PolicyDecision, ActionRegistry, is_registered, same_principal, same_action,
  same_resource, cross_scope, is_allow, has_come, denial, undecided,
}

pub record AuthorizedCall (J : Type 0) : Type 0 where
  pub request : AccessRequest J
  pub grant : Grant J
  pub context : RuntimeCallContext

pub data Effect (J : Type 0) : Type 0 where
  asks_policy : AccessRequest J → Effect J
  audits_denial : PolicyDecision J → Effect J
  audits_cross_scope : Grant J → Effect J
  handles_failure : String → ErrorDetail → Effect J
  invokes : AuthorizedCall J → Effect J

-- What a call did, and how it ended.
abbrev pub Trace : Type 0 → Type 0 → Type 0
Trace J A = List (Effect J) × Result A

infixr 4 ◌then_do◌
-- The second part runs when the first did not raise.
abbrev pub ◌then_do◌ : {J A B : Type 0} → Trace J A → (A → Trace J B) → Trace J B
(effects, ok a) then_do k = (effects ++ (k a).0, (k a).1)
(effects, err e) then_do k = (effects, err e)

-- `decision.reason_code or "authorization_denied"`
abbrev pub reason_or : Option String → String
reason_or none = "authorization_denied"
reason_or (some reason) = if reason == "" then "authorization_denied" else reason

abbrev pub invalid_grant : String → Raised
invalid_grant message = core_error denied "invalid_grant" message

-- `_validate_grant`
unfoldable pub validate_grant : {J : Type 0} → AccessRequest J → Grant J → Result (Unit {0})
validate_grant request grant = do
  raise_if (not (same_principal grant.principal request.principal))
      (invalid_grant "grant principal does not match request")
  raise_if (not (same_action grant.action request.action))
      (invalid_grant "grant action does not match request")
  raise_if (not (same_resource grant.resource request.resource))
      (invalid_grant "grant resource does not match request")
  raise_if (not (key grant.source_scope == key request.context.scope))
      (invalid_grant "grant source Scope does not match call context")
  raise_if (not (key grant.effective_scope == key request.scope))
      (invalid_grant "grant effective Scope does not match request")
  if not (cross_scope grant)
      then require_narrower_than grant.effective_scope request.context.scope
      else ok tt

module _ {J : Type 0} (on_denied : AccessRequest J → PolicyDecision J → Result (Unit {0}))
    (on_cross_scope : AccessRequest J → Grant J → Result (Unit {0}))
    (on_failure : String → ErrorDetail → Result (Unit {0})) where
  -- `except CoreError as error: await handle(...); raise`
  unfoldable pub or_handle : AccessRequest J → Effect J → Result (Unit {0}) → Trace J (Unit {0})
  or_handle request audit (ok u) = (audit ∷ [], ok u)
  or_handle request audit (err (core detail)) = (
    audit ∷ handles_failure request.context.run_id detail ∷ [],
    on_failure request.context.run_id detail >> err (core detail),
  )
  or_handle request audit (err e) = (audit ∷ [], err e)

  -- `_deny`, which always raises.
  unfoldable pub deny_call : {B : Type 0} → AccessRequest J → PolicyDecision J → Trace J B
  unfolding or_handle
  deny_call request decision =
      or_handle request (audits_denial decision) (on_denied request decision) then_do (λ _.
        ([], err (core_error denied (reason_or decision.reason_code) "authorization denied")))

  -- An answer of the policy.
  unfoldable pub decided : AccessRequest J → Result (PolicyDecision J) → Trace J (PolicyDecision J)
  unfolding deny_call
  decided request (err e) = (asks_policy request ∷ [], err e)
  decided request (ok decision) =
      (asks_policy request ∷ [], ok decision)
      then_do (λ d. if is_allow d.effect then ([], ok d) else deny_call request d)

  -- Up to the decision.
  unfoldable pub decide :
      ActionRegistry
      → Option (AccessRequest J → Result (PolicyDecision J))
      → AccessRequest J
      → Trace J (PolicyDecision J)
  unfolding decided deny_call
  decide actions none request =
      if not (is_registered actions request.action)
      then deny_call request (denial "unknown_action")
      else deny_call request (undecided "policy_missing")
  decide actions (some policy) request =
      if not (is_registered actions request.action)
      then deny_call request (denial "unknown_action")
      else decided request (policy request)

  -- The audit of a grant that leaves the scope of the caller.
  unfoldable pub audit_grant : AccessRequest J → Grant J → Trace J (Unit {0})
  unfolding or_handle
  audit_grant request grant =
      if cross_scope grant
      then or_handle request (audits_cross_scope grant) (on_cross_scope request grant)
      else ([], ok tt)

  module _ {A : Type 0} (operation : AuthorizedCall J → Result A) where
    unfoldable pub invoke : AccessRequest J → Grant J → Trace J A
    unfolding audit_grant
    invoke request grant = audit_grant request grant then_do (λ _.
        let call : AuthorizedCall J = record {
          request = request;
          grant = grant;
          context = record request.context { scope = grant.effective_scope };
        } in
        (invokes call ∷ [], operation call))

    unfoldable pub with_grant : AccessRequest J → Option (Grant J) → ℕ → Trace J A
    unfolding invoke deny_call
    with_grant request none now = ([], err (assertion_error "ALLOW decision must have a grant"))
    with_grant request (some grant) now = ([], validate_grant request grant) then_do (λ _.
        if has_come grant.expires_at now
        then deny_call request (denial "grant_expired")
        else invoke request grant)

    unfoldable pub dispatch :
        ActionRegistry
        → Option (AccessRequest J → Result (PolicyDecision J))
        → AccessRequest J
        → ℕ
        → ℕ
        → Trace J A
    unfolding decide with_grant
    dispatch actions policy request now later = ([], check_active request.context now) then_do (λ _.
        decide actions policy request then_do (λ decision. with_grant request decision.grant later))
