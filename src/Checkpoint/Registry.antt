-- ===== src/Checkpoint/Registry.antt =====
-- src/congeries_core/checkpoint/store.py: `CheckpointStoreRegistry`. The stores are of any type.
use congeries_core.Prelude.{String, Option, none, some, is_some, ◌≡◌, if◌then◌else◌, arith}
use congeries_core.Prelude.Eq.{◌==◌, string_eq}
use congeries_core.Prelude.Dict.{Dict, get, put, get-put}
use congeries_core.Runtime.Errors.{
  Result, ok, err, ◌>>◌, raise_if, core_error, retry_error, conflict, unavailable,
}

module _ {Store : Type 0} where
  unfoldable pub register : Dict String Store → String → Store → Result (Dict String Store)
  register stores provider store = do
    raise_if (is_some (get stores provider)) (
        core_error conflict "checkpoint_store_already_registered"
          "CheckpointStore provider is already registered")
    ok (put stores provider store)

  abbrev registered_or : Option Store → Result Store
  registered_or none = err (
      retry_error unavailable "checkpoint_store_unavailable"
        "CheckpointStore provider is not registered")
  registered_or (some store) = ok store

  unfoldable pub store_of : Dict String Store → String → Result Store
  store_of stores provider = registered_or (get stores provider)

  -- `register` is accepted once for a provider, and then only that provider has another answer.
  pub register-store_of :
      (stores after : Dict String Store) (provider asked : String) (store : Store)
      → register stores provider store ≡ ok after
      → store_of after asked ≡ (if provider == asked then ok store else store_of stores asked)
  unfolding register store_of
  register-store_of stores after provider asked store h =
      ground (arith, h, get-put stores provider asked store)
