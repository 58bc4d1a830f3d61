-- ===== src/Plugin/Lifecycle/Leases.antt =====
-- `acquire` and `release` of src/congeries_core/plugin/lifecycle.py.
use congeries_core.Prelude.{
  ℕ, String, Bool, true, false, not, ◌&&◌, Option, none, some, if◌then◌else◌,
}
use congeries_core.Prelude.Eq.{◌==◌, string_eq, pair_eq, option_eq}
use congeries_core.Prelude.Dict.{Dict, get, put, remove, contains, add}
use congeries_core.Runtime.Errors.{
  Result, ok, err, ◌>>=◌, ◌>>◌, conflict, unavailable, invalid_request,
}
use congeries_core.Plugin.Model.{PluginRef, draining, active, CapabilityKey, plugin_error, is_state}
use congeries_core.Plugin.Lifecycle.{
  PluginStateRecord, ExecutionLease, PluginLifecycleController, item, lease_conflict, record_of,
  condition, same_lease,
}

module _ {M : Type 0} (ref_of : M → PluginRef)
    (lease_id : PluginRef → ℕ → CapabilityKey → String → String → String) where
  abbrev pub lease_of : PluginStateRecord M → CapabilityKey → String → String → ℕ → ExecutionLease
  lease_of current key run invocation now = record {
    lease_id = lease_id (ref_of current.manifest) current.activation_epoch key run invocation;
    plugin = ref_of current.manifest;
    activation_epoch = current.activation_epoch;
    capability_key = key;
    run_id = run;
    invocation_identity = invocation;
    acquired_at = now;
  }

  -- No lease is held under the invocation yet.
  unfoldable pub grant :
      PluginLifecycleController M
      → String
      → CapabilityKey
      → String
      → String
      → ℕ
      → PluginStateRecord M
      → Dict String ExecutionLease
      → Result (ExecutionLease × PluginLifecycleController M)
  grant c plugin key run invocation now current held =
      if is_state current.state draining
      then err (
          plugin_error unavailable "plugin_draining"
            "Plugin is draining and rejects new execution leases" true (some plugin) (some key.1.0))
      else if not (is_state current.state active)
      then err (
          plugin_error conflict "invalid_lifecycle_transition"
            "Execution leases are available only while Plugin is ACTIVE" false (some plugin)
            (some key.1.0))
      else item (get c.released plugin) plugin >>= λ released.
          if contains released (lease_of current key run invocation now).lease_id
          then err (lease_conflict plugin key.1.0)
          else ok (
            lease_of current key run invocation now,
            record c {
              leases =
                  put c.leases plugin
                    (put held invocation (lease_of current key run invocation now));
            },
          )

  -- By what is held under the invocation.
  unfoldable pub acquire_with :
      PluginLifecycleController M
      → String
      → CapabilityKey
      → String
      → String
      → ℕ
      → PluginStateRecord M
      → Dict String ExecutionLease
      → Option ExecutionLease
      → Result (ExecutionLease × PluginLifecycleController M)
  unfolding grant
  acquire_with c plugin key run invocation now current held (some lease) =
      if lease.capability_key == key && lease.run_id == run
      then ok (lease, c)
      else err (lease_conflict plugin key.1.0)
  acquire_with c plugin key run invocation now current held none =
      grant c plugin key run invocation now current held

  -- Of the context it reads the Run and the idempotency key.
  unfoldable pub acquire :
      PluginLifecycleController M
      → String
      → CapabilityKey
      → String
      → Option String
      → ℕ
      → Result (ExecutionLease × PluginLifecycleController M)
  unfolding acquire_with
  acquire c plugin key run none now = err (
      plugin_error invalid_request "missing_invocation_identity"
        "Plugin capability invocation requires an idempotency key" false (some plugin)
        (some key.1.0))
  acquire c plugin key run (some invocation) now = do
    condition c plugin
    current ← record_of c plugin
    held ← item (get c.leases plugin) plugin
    acquire_with c plugin key run invocation now current held (get held invocation)

-- `existing == lease` of a lease that may be missing.
abbrev pub is_held : Option ExecutionLease → ExecutionLease → Bool
is_held none lease = false
is_held (some existing) lease = same_lease existing lease

module _ {M : Type 0} where
  unfoldable pub release :
      PluginLifecycleController M → ExecutionLease → Result (PluginLifecycleController M)
  release c lease = do
    condition c lease.plugin.name
    released ← item (get c.released lease.plugin.name) lease.plugin.name
    if contains released lease.lease_id
        then ok c
        else item (get c.leases lease.plugin.name) lease.plugin.name >>= λ held.
            if not (is_held (get held lease.invocation_identity) lease)
            then err (lease_conflict lease.plugin.name lease.capability_key.1.0)
            else ok (record c {
              leases = put c.leases lease.plugin.name (remove held lease.invocation_identity);
              released = put c.released lease.plugin.name (add released lease.lease_id);
            })
