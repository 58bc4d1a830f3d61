-- ===== src/Policy/Authorization/Matching.antt =====
-- What an accepted `validate_grant` has compared.
use congeries_core.Prelude.{not-false, ◌≡◌, true, not}
use congeries_core.Prelude.Eq.{◌==◌, string_eq, pair_eq, ==_iff}
use congeries_core.Runtime.Errors.{raise_if, raise_if-ok}
use congeries_core.Runtime.Outcome.{Outcome, Any, Outcome-after, Outcome-all}
use congeries_core.Runtime.Scope.{key}
use congeries_core.Policy.Access.{AccessRequest, Grant, same_principal, same_action, same_resource}
use congeries_core.Policy.Authorization.{validate_grant}

-- A grant that speaks of the request and of the scope of its caller.
pub record Matches {J : Type 0} (request : AccessRequest J) (grant : Grant J) : Type 0 where
  pub principal : same_principal grant.principal request.principal ≡ true
  pub action : same_action grant.action request.action ≡ true
  pub resource : same_resource grant.resource request.resource ≡ true
  pub source : key grant.source_scope ≡ key request.context.scope
  pub target : key grant.effective_scope ≡ key request.scope

pub validate_grant-Outcome :
    {J : Type 0} (request : AccessRequest J) (grant : Grant J)
    → Outcome Any (λ _. Matches request grant) (validate_grant request grant)
unfolding validate_grant
validate_grant-Outcome request grant =
    Outcome-after (raise_if (not (same_principal grant.principal request.principal)) _) (λ _ p.
      Outcome-after (raise_if (not (same_action grant.action request.action)) _) (λ _ a.
        Outcome-after (raise_if (not (same_resource grant.resource request.resource)) _) (λ _ r.
          Outcome-after (raise_if (not (key grant.source_scope == key request.context.scope)) _)
            (λ _ s.
              Outcome-after (raise_if (not (key grant.effective_scope == key request.scope)) _)
                (λ _ t. Outcome-all _ (λ _. record {
                  principal = not-false _ (raise_if-ok _ _ p);
                  action = not-false _ (raise_if-ok _ _ a);
                  resource = not-false _ (raise_if-ok _ _ r);
                  source =
                      (==_iff (key grant.source_scope) (key request.context.scope)).0
                        (not-false _ (raise_if-ok _ _ s));
                  target =
                      (==_iff (key grant.effective_scope) (key request.scope)).0
                        (not-false _ (raise_if-ok _ _ t));
                }))))))
