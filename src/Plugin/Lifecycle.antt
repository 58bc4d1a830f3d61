-- ===== src/Plugin/Lifecycle.antt =====
-- src/congeries_core/plugin/lifecycle.py: `PluginLifecycleController`. Each method runs under the
-- condition of its Plugin, so it is one function from the state. The controller only compares
-- manifests and asks for their reference: their type, `same_manifest` and `ref_of` are parameters,
-- as is the digest of `_lease_id`. A raise leaves the state as it was.
mod Records
pub mod Leases
pub mod Transitions
pub mod Invariant
pub mod Requests
pub mod Retries
pub mod Releases
pub mod Replays
unfoldable pub use Records.*
use Prim.Native.String.{◌++◌ as text_append}
use congeries_core.Prelude.{
  ℕ, suc, ◌+◌, String, Bool, true, false, not, ◌&&◌, ◌||◌, Option, none, some, is_some, List, [],
  ◌∷◌, length, nat_beq, if◌then◌else◌, or_option,
}
use congeries_core.Prelude.Eq.{Eq, ◌==◌, string_eq, pair_eq, option_eq}
use congeries_core.Prelude.Dict.{Dict, get, put, remove, contains, add}
use congeries_core.Runtime.Errors.{
  Raised, Result, ok, err, ◌>>=◌, ◌>>◌, raise_if, conflict, unavailable, invalid_request, key_error,
  assertion_error,
}
use congeries_core.Plugin.Model.{
  SemVer, PluginRef, same_ref, PluginLifecycleState, discovered, validated, loaded, registered,
  active, draining, unregistered, unloaded, PluginHookName, on_load, on_activate, on_drain,
  on_unload, CapabilityKey, plugin_error, is_state, state_value,
}

pub record PluginLifecycleController (M : Type 0) : Type 0 where
  pub records : Dict String (PluginStateRecord M)
  pub conditions : List String
  pub leases : Dict String (Dict String ExecutionLease)
  pub released : Dict String (List String)

-- `d[key]`
abbrev pub item {ℓ} : {V : Type ℓ} → Option V → String → Result V
item none key = err (key_error key)
item (some v) key = ok v

abbrev pub lease_conflict : String → String → Raised
lease_conflict plugin capability =
    plugin_error conflict "lease_identity_conflict"
      "Execution lease identity conflicts with existing state" false (some plugin) (some capability)

abbrev pub known :
    {M : Type 0} → String → Option (PluginStateRecord M) → Result (PluginStateRecord M)
known plugin none = err (
    plugin_error unavailable "plugin_not_loaded" "Plugin is not known to the lifecycle controller"
      true (some plugin) none)
known plugin (some r) = ok r

-- `_record`
unfoldable pub record_of :
    {M : Type 0} → PluginLifecycleController M → String → Result (PluginStateRecord M)
record_of c plugin = known plugin (get c.records plugin)

-- `_condition`
unfoldable pub condition : {M : Type 0} → PluginLifecycleController M → String → Result (Unit {0})
unfolding record_of
condition c plugin =
    if contains c.conditions plugin
    then ok tt
    else record_of c plugin >>= λ _.
        err (assertion_error "known Plugin must have a lifecycle condition")

abbrev pub discovered_record : {M : Type 0} → M → PluginStateRecord M
discovered_record manifest = record {
  manifest = manifest;
  state = discovered;
  state_version = 0;
  registration_receipt = none;
  activation_epoch = 0;
  successful_hooks = [];
}

module _ {M : Type 0} (ref_of : M → PluginRef) where
  unfoldable pub register_new : PluginLifecycleController M → M → PluginLifecycleController M
  register_new c manifest = record {
    records = put c.records (ref_of manifest).name (discovered_record manifest);
    conditions = add c.conditions (ref_of manifest).name;
    leases = put c.leases (ref_of manifest).name [];
    released = put c.released (ref_of manifest).name [];
  }

module _ {M : Type 0} (same_manifest : M → M → Bool) (ref_of : M → PluginRef) where
  -- The branches of `discover`, by what is known of the name. The new record stands under it.
  unfoldable pub discovered_as :
      PluginLifecycleController M
      → M
      → Option (PluginStateRecord M)
      → Result (PluginLifecycleController M)
  unfolding register_new
  discovered_as c manifest none = ok (register_new ref_of c manifest)
  discovered_as c manifest (some existing) =
      if same_manifest existing.manifest manifest
      then ok (record c { conditions = add c.conditions (ref_of manifest).name })
      else err (
          plugin_error conflict "registration_identity_conflict"
            "Plugin identity is already associated with another manifest" false
            (some (ref_of manifest).name) none)

  unfoldable pub discover : PluginLifecycleController M → M → Result (PluginLifecycleController M)
  unfolding discovered_as
  discover c manifest = discovered_as c manifest (get c.records (ref_of manifest).name)

abbrev pub is_stale : Option ℕ → ℕ → Bool
is_stale none version = false
is_stale (some expected) version = not (nat_beq version expected)

module _ {M : Type 0} where
  -- `replace(current, ...)` in `transition`.
  abbrev pub entered :
      PluginStateRecord M
      → PluginLifecycleState
      → Option RegistrationReceipt
      → Bool
      → PluginStateRecord M
  entered current target receipt clear = record current {
    state = target;
    state_version = current.state_version + 1;
    registration_receipt = if clear then none else or_option receipt current.registration_receipt;
    activation_epoch =
        if is_state target active then current.activation_epoch + 1 else current.activation_epoch;
  }

  unfoldable pub transition :
      PluginLifecycleController M
      → String
      → PluginLifecycleState
      → Option ℕ
      → Option RegistrationReceipt
      → Bool
      → Result (PluginStateRecord M × PluginLifecycleController M)
  transition c plugin target expected receipt clear = do
    condition c plugin
    current ← record_of c plugin
    if is_stale expected current.state_version
        then err (
            plugin_error conflict "lifecycle_state_conflict"
              "Plugin lifecycle state version is stale" false (some plugin) none)
        else if is_state current.state target
        then ok (current, c)
        else if not (allowed current.state target)
        then err (
            plugin_error conflict "invalid_lifecycle_transition"
              (text_append "Cannot transition Plugin from "
                (text_append (state_value current.state) (text_append " to " (state_value target))))
              false (some plugin) none)
        else ok (
          entered current target receipt clear,
          record c { records = put c.records plugin (entered current target receipt clear) },
        )

  unfoldable pub begin_draining :
      PluginLifecycleController M
      → String
      → Option ℕ
      → Result (PluginStateRecord M × PluginLifecycleController M)
  unfolding transition
  begin_draining c plugin expected = transition c plugin draining expected none false

  abbrev pub marked : PluginStateRecord M → PluginHookName → PluginStateRecord M
  marked current hook = record current {
    state_version = current.state_version + 1;
    successful_hooks = hook ∷ current.successful_hooks;
  }

  unfoldable pub mark_hook :
      PluginLifecycleController M
      → String
      → PluginHookName
      → Result (PluginStateRecord M × PluginLifecycleController M)
  mark_hook c plugin hook = do
    condition c plugin
    current ← record_of c plugin
    if has_hook current.successful_hooks hook
        then ok (current, c)
        else ok
            (marked current hook, record c { records = put c.records plugin (marked current hook) })

  unfoldable pub active_lease_count : PluginLifecycleController M → String → Result ℕ
  active_lease_count c plugin = do
    condition c plugin
    leases ← item (get c.leases plugin) plugin
    ok (length leases)
