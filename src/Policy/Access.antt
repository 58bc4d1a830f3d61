-- ===== src/Policy/Access.antt =====
-- src/congeries_core/policy/authorization.py: who asks for what, and what a policy answers.
-- `J` is the type of the JSON values in constraints, which the gateway only carries.
-- The spelling rules of names are a regular expression and are left out.
use congeries_core.Prelude.{
  ℕ, String, Bool, true, false, not, ◌&&◌, ◌||◌, Option, none, some, is_some, leb, if◌then◌else◌,
}
use congeries_core.Prelude.Eq.{◌==◌, string_eq, pair_eq, option_eq}
use congeries_core.Prelude.Dict.{Dict, get, put}
use congeries_core.Runtime.Errors.{Result, ok, err, core_error, conflict, value_error}
use congeries_core.Runtime.Scope.{ScopeRef, key}
use congeries_core.Runtime.Context.{RuntimeCallContext}

pub record RuntimePrincipal : Type 0 where
  pub namespace : String
  pub kind : String
  pub id : String

pub record ActionRef : Type 0 where
  pub namespace : String
  pub name : String
  pub version : String

pub record ResourceRef : Type 0 where
  pub namespace : String
  pub kind : String
  pub id : String
  pub owning_extension : Option String

abbrev pub action_key : ActionRef → String × (String × String)
action_key a = (a.namespace, (a.name, a.version))

-- The equalities of the dataclasses.
unfoldable pub same_principal : RuntimePrincipal → RuntimePrincipal → Bool
same_principal a b = a.namespace == b.namespace && a.kind == b.kind && a.id == b.id

unfoldable pub same_action : ActionRef → ActionRef → Bool
same_action a b = action_key a == action_key b

unfoldable pub same_resource : ResourceRef → ResourceRef → Bool
same_resource a b =
    a.namespace == b.namespace
    && a.kind == b.kind
    && a.id == b.id
    && a.owning_extension == b.owning_extension

pub record AccessRequest (J : Type 0) : Type 0 where
  pub principal : RuntimePrincipal
  pub action : ActionRef
  pub resource : ResourceRef
  pub scope : ScopeRef
  pub context : RuntimeCallContext
  pub constraints : Dict String J

pub data PolicyEffect : Type 0 where
  allow deny indeterminate : PolicyEffect

pub record Grant (J : Type 0) : Type 0 where
  pub principal : RuntimePrincipal
  pub action : ActionRef
  pub resource : ResourceRef
  pub source_scope : ScopeRef
  pub effective_scope : ScopeRef
  pub constraints : Dict String J
  pub issued_at : ℕ
  pub expires_at : Option ℕ
  pub policy_version : String
  pub audit_correlation : String

-- The expiration that is there and has come.
abbrev pub has_come : Option ℕ → ℕ → Bool
has_come none now = false
has_come (some at) now = leb at now

-- `Grant.__post_init__`
unfoldable pub check_grant : {J : Type 0} → Grant J → Result (Grant J)
check_grant g =
    if has_come g.expires_at g.issued_at
    then err (value_error "grant expiration must be after issue time")
    else if g.policy_version == "" || g.audit_correlation == ""
    then err (value_error "grant policy version and audit correlation are required")
    else ok g

unfoldable pub cross_scope : {J : Type 0} → Grant J → Bool
cross_scope g = not (key g.source_scope == key g.effective_scope)

pub record PolicyDecision (J : Type 0) : Type 0 where
  pub effect : PolicyEffect
  pub grant : Option (Grant J)
  pub reason_code : Option String

abbrev pub is_allow : PolicyEffect → Bool
is_allow allow = true
is_allow deny = false
is_allow indeterminate = false

-- `not reason_code`
abbrev pub has_reason : Option String → Bool
has_reason none = false
has_reason (some r) = not (r == "")

-- `PolicyDecision.__post_init__`
unfoldable pub check_decision : {J : Type 0} → PolicyDecision J → Result (PolicyDecision J)
check_decision d =
    if is_allow d.effect && not (is_some d.grant)
    then err (value_error "ALLOW decision requires a grant")
    else if not (is_allow d.effect) && is_some d.grant
    then err (value_error "only ALLOW decision may carry a grant")
    else if not (is_allow d.effect) && not (has_reason d.reason_code)
    then err (value_error "DENY or INDETERMINATE decision requires reason_code")
    else ok d

-- `PolicyDecision.deny` and `PolicyDecision.indeterminate` of literals, which are never empty.
abbrev pub denial : {J : Type 0} → String → PolicyDecision J
denial reason = record { effect = deny; grant = none; reason_code = some reason }

abbrev pub undecided : {J : Type 0} → String → PolicyDecision J
undecided reason = record { effect = indeterminate; grant = none; reason_code = some reason }

-- `ActionRegistry`
abbrev pub ActionRegistry : Type 0
ActionRegistry = Dict (String × (String × String)) ActionRef

unfoldable pub register : ActionRegistry → ActionRef → Result ActionRegistry
register actions action =
    if is_some (get actions (action_key action))
    then err (core_error conflict "action_already_registered" "action is already registered")
    else ok (put actions (action_key action) action)

unfoldable pub is_registered : ActionRegistry → ActionRef → Bool
is_registered actions action = is_some (get actions (action_key action))
