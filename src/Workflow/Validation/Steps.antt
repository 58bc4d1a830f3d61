-- ===== src/Workflow/Validation/Steps.antt =====
-- Steps of the validation that return nothing: what they raise is a structured error.
use congeries_core.Runtime.Schema.{SchemaRef}
use congeries_core.Prelude.{
  String, ◌≡◌, refl, Bool, true, false, Option, none, some, List, [], ◌∷◌, All, arith,
}
use congeries_core.Prelude.Eq.{string_eq, pair_eq, option_eq}
use congeries_core.Runtime.Errors.{
  Raised, Result, ok, err, ◌>>◌, raise_if, core, value_error, assertion_error, key_error,
}
use congeries_core.Runtime.Outcome.{
  Outcome, answers, raises, IsCore, structured, Outcome-ok, Outcome-bind, Outcome-map,
}
use congeries_core.Runtime.Scope.{ScopeRef, require_narrower_than}
use congeries_core.Workflow.Definition.{
  WorkflowNode, WorkflowNodeConfig, agent_config, approval_config, evaluation_config,
}
use congeries_core.Workflow.Validation.Nodes.{
  WorkflowValidator, require_schema, require_optional, validate_node, validate_kind, validate_agent,
  validate_approval, validate_evaluation, each, require_resource, require_registered,
  expected_resources,
}

abbrev pub IsDone : Result (Unit {0}) → Type 0
IsDone m = Outcome IsCore (λ _. Unit {0}) m

-- A guard of which only the error matters.
pub guard-IsDone : (b : Bool) {e : Raised} → IsCore e → IsDone (raise_if b e)
guard-IsDone true h = raises h
guard-IsDone false h = answers tt

pub IsDone-then : {m n : Result (Unit {0})} → IsDone m → IsDone n → IsDone (m >> n)
IsDone-then (answers u) k = k
IsDone-then (raises e) k = raises e

module _ {A : Type 0} where
  pub each-All :
      {P : A → Type 0} (f : A → Result (Unit {0})) (xs : List A)
      → ((x : A) → Outcome IsCore (λ _. P x) (f x))
      → Outcome IsCore (λ _. All P xs) (each f xs)
  each-All f [] h = answers tt
  each-All f (x ∷ rest) h =
      Outcome-bind (f x) (h x)
        (λ _ e. Outcome-map (each-All f rest h) (λ _ later. (Outcome-ok (h x) e, later)))

  pub each-IsDone :
      (f : A → Result (Unit {0})) (xs : List A) → ((x : A) → IsDone (f x)) → IsDone (each f xs)
  each-IsDone f [] h = answers tt
  each-IsDone f (x ∷ rest) h = IsDone-then (h x) (each-IsDone f rest h)

abbrev only_structured : Result (Unit {0}) → Bool
only_structured (ok u) = true
only_structured (err (core detail)) = true
only_structured (err (value_error text)) = false
only_structured (err (assertion_error text)) = false
only_structured (err (key_error text)) = false

only_structured-IsDone : (m : Result (Unit {0})) → only_structured m ≡ true → IsDone m
only_structured-IsDone (ok u) h = answers tt
only_structured-IsDone (err (core detail)) h = raises structured
only_structured-IsDone (err (value_error text)) h = cc
only_structured-IsDone (err (assertion_error text)) h = cc
only_structured-IsDone (err (key_error text)) h = cc

each-only :
    {A : Type 0} (f : A → Result (Unit {0})) (xs : List A)
    → ((x : A) → only_structured (f x) ≡ true)
    → only_structured (each f xs) ≡ true
each-only f [] h = refl
each-only f (x ∷ rest) h = ground (arith, h x, each-only f rest h)

narrower-only : (a b : ScopeRef) → only_structured (require_narrower_than a b) ≡ true
unfolding require_narrower_than
narrower-only a b = ground arith

module _ {J : Type 0} (v : WorkflowValidator J) where
  optional-only :
      (schema : Option SchemaRef) (code : String)
      → only_structured (require_optional v schema code) ≡ true
  unfolding require_schema
  optional-only none code = refl
  optional-only (some schema) code = ground arith

  validate_agent-only :
      (node : WorkflowNode J) (config : WorkflowNodeConfig J)
      → only_structured (validate_agent v node config) ≡ true
  unfolding validate_agent
  validate_agent-only node (agent_config agent definition model) = ground arith
  validate_agent-only node config = refl

  validate_approval-only :
      (node : WorkflowNode J) (config : WorkflowNodeConfig J)
      → only_structured (validate_approval v node config) ≡ true
  unfolding validate_approval
  validate_approval-only node (approval_config prompt outcomes expiry) =
      ground (arith, narrower-only prompt.scope node.scope)
  validate_approval-only node config = refl

  validate_evaluation-only :
      (node : WorkflowNode J) (config : WorkflowNodeConfig J)
      → only_structured (validate_evaluation v node config) ≡ true
  unfolding validate_evaluation
  validate_evaluation-only node (evaluation_config policy quality profile) = ground (
    arith,
    each-only (require_resource v node.permissions) (expected_resources policy quality)
        (λ expected. ground arith),
  )
  validate_evaluation-only node config = refl

  validate_kind-only : (node : WorkflowNode J) → only_structured (validate_kind v node) ≡ true
  unfolding validate_kind
  validate_kind-only node = ground (
    arith,
    validate_agent-only node node.config,
    validate_approval-only node node.config,
    validate_evaluation-only node node.config,
  )

  pub validate_node-IsDone : (node : WorkflowNode J) → IsDone (validate_node v node)
  unfolding validate_node
  validate_node-IsDone node = only_structured-IsDone (validate_node v node) (
      ground (
        arith,
        each-only (require_registered v) node.permissions (λ p. ground arith),
        optional-only node.input_schema "workflow_node_input_schema_missing",
        optional-only node.output_schema "workflow_node_output_schema_missing",
        validate_kind-only node,
      ))
