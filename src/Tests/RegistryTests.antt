-- ===== src/Tests/RegistryTests.antt =====
-- Tests of plugin/registry.py.
use congeries_core.Tests.Samples.{demo, tool}
use congeries_core.Plugin.Registry.{
  CapabilityRegistry, CapabilityRegistrationPlan, commit, publish, check_free, register_all,
  keys_of, sort_capabilities, insert_capability, check_receipt, sort_keys, insert_key, unregister,
  check_owned, delete_all, check_plan,
}
use congeries_core.Plugin.Registry.Planned
use congeries_core.Plugin.Registry.Removal
use congeries_core.Plugin.Registry.RoundTrip
use congeries_core.Plugin.Registry.Removal.{Removed}
use congeries_core.Plugin.Lifecycle.{RegistrationReceipt}
use congeries_core.Prelude.{ℕ, String, ◌≡◌, refl, [], ◌∷◌, ◌+◌, List}
use congeries_core.Prelude.Eq.{◌==◌, string_eq, pair_eq}
use congeries_core.Prelude.Dict.{get, put, remove, contains, add}
use congeries_core.Runtime.Errors.{ok}
use congeries_core.Plugin.Model.{PluginRef, same_ref, same_version, same_identifiers, CapabilityKey}

-- Declarations that are their own key, and one digest.
abbrev own_key : CapabilityKey → CapabilityKey
own_key k = k

abbrev one_id : PluginRef → List CapabilityKey → ℕ → String
one_id owner keys version = "registration"

abbrev empty_registry : CapabilityRegistry CapabilityKey ℕ
empty_registry = record {
  snapshot = record { version = 0; registrations = [] };
  retired_receipts = [];
}

abbrev tool_plan : CapabilityRegistrationPlan CapabilityKey ℕ
tool_plan = record { owner = demo; capabilities = (tool, 7) ∷ [] }

abbrev tool_receipt : RegistrationReceipt
tool_receipt = record {
  registration_id = "registration";
  owner = demo;
  registry_version = 1;
  capability_keys = tool ∷ [];
}

abbrev tool_registry : CapabilityRegistry CapabilityKey ℕ
tool_registry = record {
  snapshot = record {
    version = 1;
    registrations =
        (
          tool,
          record {
            registration_id = "registration";
            owner = demo;
            declaration = tool;
            implementation = 7;
          },
        )
        ∷ [];
  };
  retired_receipts = [];
}

abbrev bare_registry : CapabilityRegistry CapabilityKey ℕ
bare_registry = record {
  snapshot = record { version = 2; registrations = [] };
  retired_receipts = "registration" ∷ [];
}

commits : commit own_key one_id empty_registry tool_plan 0 ≡ ok (tool_receipt, tool_registry)
unfolding commit publish check_free register_all keys_of sort_capabilities insert_capability
    check_receipt sort_keys insert_key get put ◌==◌
commits = refl

removes : unregister tool_registry tool_receipt ≡ ok bare_registry
unfolding unregister check_owned delete_all get remove contains add ◌==◌ same_ref same_version
    same_identifiers
removes = refl

commit-Planned_example :
    Planned.Planned own_key one_id empty_registry tool_plan 0 (tool_receipt, tool_registry)
unfolding keys_of contains
commit-Planned_example =
    Planned.commit-Planned own_key one_id empty_registry tool_plan 0 (tool_receipt, tool_registry)
      refl commits

unregister-Removed_example : Removed tool_registry tool_receipt bare_registry
unfolding contains
unregister-Removed_example =
    Removal.unregister-Removed tool_registry tool_receipt bare_registry refl removes

unregister-commit_example :
    (after : CapabilityRegistry CapabilityKey ℕ) × (unregister tool_registry tool_receipt
      ≡ ok after)
    × ((k : CapabilityKey)
        → get after.snapshot.registrations k ≡ get empty_registry.snapshot.registrations k)
    × (after.snapshot.version ≡ empty_registry.snapshot.version + 2)
unfolding check_plan contains keys_of
unregister-commit_example =
    RoundTrip.unregister-commit own_key one_id empty_registry tool_plan 0
      (tool_receipt, tool_registry) refl commits refl
