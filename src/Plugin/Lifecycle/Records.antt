-- ===== src/Plugin/Lifecycle/Records.antt =====
-- src/congeries_core/plugin/lifecycle.py: the records of Plugins and leases, and the table of
-- transitions.
use congeries_core.Prelude.{
  ℕ, String, Bool, true, false, ◌&&◌, ◌||◌, Option, List, [], ◌∷◌, nat_beq,
}
use congeries_core.Prelude.Eq.{◌==◌, string_eq, pair_eq, option_eq}
use congeries_core.Plugin.Model.{
  PluginRef, same_ref, PluginLifecycleState, discovered, validated, loaded, registered, active,
  draining, unregistered, unloaded, PluginHookName, CapabilityKey, hook_beq,
}

-- The receipt is stored and handed back; the registry reads it.
pub record RegistrationReceipt : Type 0 where
  pub registration_id : String
  pub owner : PluginRef
  pub registry_version : ℕ
  pub capability_keys : List CapabilityKey

pub record PluginStateRecord (M : Type 0) : Type 0 where
  pub manifest : M
  pub state : PluginLifecycleState
  pub state_version : ℕ
  pub registration_receipt : Option RegistrationReceipt
  pub activation_epoch : ℕ
  pub successful_hooks : List PluginHookName

pub record ExecutionLease : Type 0 where
  pub lease_id : String
  pub plugin : PluginRef
  pub activation_epoch : ℕ
  pub capability_key : CapabilityKey
  pub run_id : String
  pub invocation_identity : String
  pub acquired_at : ℕ

-- `_ALLOWED_TRANSITIONS`
abbrev pub allowed : PluginLifecycleState → PluginLifecycleState → Bool
allowed discovered validated = true
allowed validated loaded = true
allowed loaded registered = true
allowed registered active = true
allowed registered unregistered = true
allowed active draining = true
allowed draining active = true
allowed draining unregistered = true
allowed unregistered unloaded = true
allowed _ _ = false

abbrev pub has_hook : List PluginHookName → PluginHookName → Bool
has_hook [] hook = false
has_hook (h ∷ hooks) hook = hook_beq h hook || has_hook hooks hook

-- The equality of the dataclass.
unfoldable pub same_lease : ExecutionLease → ExecutionLease → Bool
unfolding same_ref
same_lease a b =
    a.lease_id == b.lease_id
    && same_ref a.plugin b.plugin
    && nat_beq a.activation_epoch b.activation_epoch
    && a.capability_key == b.capability_key
    && a.run_id == b.run_id
    && a.invocation_identity == b.invocation_identity
    && nat_beq a.acquired_at b.acquired_at
