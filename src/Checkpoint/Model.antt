-- ===== src/Checkpoint/Model.antt =====
-- src/congeries_core/checkpoint/model.py: what a checkpoint holds, and its digest. The digest is a
-- hash and a parameter, `canonical_digest`. The checks of the constructors are left out.
use congeries_core.Prelude.{ℕ, String, not, Option, none, some, List, [], ◌∷◌}
use congeries_core.Prelude.Eq.{◌==◌, string_eq}
use congeries_core.Runtime.Errors.{Result, raise_if, core_error, protocol_failure}
use congeries_core.Runtime.Scope.{ScopeRef, Key, root, child}
use congeries_core.Policy.Access.{ResourceRef, RuntimePrincipal}

pub data NodeOutcome : Type 0 where
  succeeded failed denied timed_out cancelled waiting_approval retry_scheduled : NodeOutcome

pub data ApprovalOutcome : Type 0 where
  approved rejected cancelled : ApprovalOutcome

pub record CheckpointReference : Type 0 where
  pub resource_type : String
  pub resource : ResourceRef
  pub scope : ScopeRef
  pub version : Option String

pub record ApprovalRequest : Type 0 where
  pub approval_id : String
  pub run_id : String
  pub node_id : String
  pub correlation_id : String
  pub scope : ScopeRef
  pub allowed_outcomes : List ApprovalOutcome
  pub expires_at : Option ℕ
  pub prompt_ref : CheckpointReference

pub record ApprovalDecision : Type 0 where
  pub approval_id : String
  pub run_id : String
  pub node_id : String
  pub correlation_id : String
  pub scope : ScopeRef
  pub actor : RuntimePrincipal
  pub outcome : ApprovalOutcome
  pub decided_at : ℕ

pub record ApprovalCheckpointState : Type 0 where
  pub request : ApprovalRequest
  pub decision : Option ApprovalDecision

pub record NodeCheckpointState : Type 0 where
  pub node_id : String
  pub outcome : NodeOutcome
  pub output_ref : Option CheckpointReference
  pub error_ref : Option CheckpointReference
  pub approval_state : Option ApprovalCheckpointState

pub data SideEffectOutcome : Type 0 where
  succeeded failed : SideEffectOutcome

pub record SideEffectRecord : Type 0 where
  pub operation_ref : ResourceRef
  pub idempotency_key : String
  pub request_fingerprint : String
  pub result_ref : Option CheckpointReference
  pub outcome : SideEffectOutcome

pub record CheckpointIntegrity : Type 0 where
  pub algorithm : String
  pub digest : String

pub record Checkpoint : Type 0 where
  pub checkpoint_id : String
  pub run_id : String
  pub workflow_id : String
  pub definition_id : String
  pub graph_version : String
  pub scope : ScopeRef
  pub sequence : ℕ
  pub attempt : ℕ
  pub previous_checkpoint_ref : Option String
  pub node_states : List NodeCheckpointState
  pub pending_nodes : List String
  pub external_refs : List CheckpointReference
  pub side_effects : List SideEffectRecord
  pub approvals : List ApprovalCheckpointState
  pub created_at : ℕ
  pub integrity : CheckpointIntegrity
  pub contract_version : String

-- `verify_integrity`
unfoldable pub verify_integrity : (Checkpoint → String) → Checkpoint → Result (Unit {0})
verify_integrity canonical_digest c = raise_if (not (canonical_digest c == c.integrity.digest)) (
    core_error protocol_failure "checkpoint_integrity_failure"
      "checkpoint integrity verification failed")

-- The equality of the dataclasses, as an equality of tuples: a scope is its keys up to the root.
unfoldable pub scope_path : ScopeRef → List Key
scope_path (root namespace kind id) = (namespace, (kind, id)) ∷ []
scope_path (child namespace kind id parent) = (namespace, (kind, id)) ∷ scope_path parent

abbrev pub ResourceData : Type 0
ResourceData = String × (String × (String × Option String))

abbrev pub resource_data : ResourceRef → ResourceData
resource_data r = (r.namespace, (r.kind, (r.id, r.owning_extension)))

abbrev pub ReferenceData : Type 0
ReferenceData = String × (ResourceData × (List Key × Option String))

abbrev pub reference_data : Option CheckpointReference → Option ReferenceData
reference_data none = none
reference_data (some r) =
    some (r.resource_type, (resource_data r.resource, (scope_path r.scope, r.version)))

abbrev pub outcome_value : SideEffectOutcome → String
outcome_value succeeded = "succeeded"
outcome_value failed = "failed"

abbrev pub EffectData : Type 0
EffectData = ResourceData × (String × (String × (Option ReferenceData × String)))

abbrev pub effect_data : SideEffectRecord → EffectData
effect_data e = (
  resource_data e.operation_ref,
  (
    e.idempotency_key,
    (e.request_fingerprint, (reference_data e.result_ref, outcome_value e.outcome)),
  ),
)
