-- ===== src/Plugin/Registry.antt =====
-- src/congeries_core/plugin/registry.py: `CapabilityRegistry`. Each method runs under its lock, so it
-- is one function from the state, and a raise leaves the state as it was. Of a declaration it reads the
-- key; declarations and implementations are types, and the digest of `_registration_id` a parameter.
pub mod Publication
pub mod Sorting
pub mod Planned
pub mod Removal
pub mod Clearing
pub mod RoundTrip
use Prim.Native.String.{compare as text_compare}
use Prim.Native.Nat.{Ordering}
use congeries_core.Prelude.{
  ℕ, ◌+◌, String, Bool, true, false, not, ◌&&◌, ◌||◌, Option, none, some, is_some, List, [], ◌∷◌,
  nat_beq, ltb, if◌then◌else◌,
}
use congeries_core.Prelude.Eq.{◌==◌, string_eq, pair_eq}
use congeries_core.Prelude.Bags.{has_duplicates}
use congeries_core.Prelude.Dict.{Dict, get, put, remove, contains, add}
use congeries_core.Runtime.Errors.{
  Raised, Result, ok, err, ◌>>=◌, ◌>>◌, raise_if, conflict, unavailable, value_error, key_error,
}
use congeries_core.Plugin.Model.{PluginRef, same_ref, CapabilityKey, plugin_error}
use congeries_core.Plugin.Lifecycle.{RegistrationReceipt}

pub record CapabilityRegistration (D I : Type 0) : Type 0 where
  pub registration_id : String
  pub owner : PluginRef
  pub declaration : D
  pub implementation : I

pub record CapabilityRegistrySnapshot (D I : Type 0) : Type 0 where
  pub version : ℕ
  pub registrations : Dict CapabilityKey (CapabilityRegistration D I)

pub record CapabilityRegistrationPlan (D I : Type 0) : Type 0 where
  pub owner : PluginRef
  pub capabilities : List (D × I)

pub record CapabilityRegistry (D I : Type 0) : Type 0 where
  pub snapshot : CapabilityRegistrySnapshot D I
  pub retired_receipts : List String

abbrev pub text_order : String → String → Ordering → Ordering
text_order a b rest = elim (text_compare a b) [
  | Ordering.lt ↦ Ordering.lt
  | Ordering.gt ↦ Ordering.gt
  | Ordering.eq ↦ rest
]

-- The order of tuples of texts.
unfoldable pub key_first : CapabilityKey → CapabilityKey → Bool
key_first a b = elim (text_order a.0 b.0 (text_order a.1.0 b.1.0 (text_compare a.1.1 b.1.1))) [
  | Ordering.gt ↦ false
  | _ ↦ true
]

unfoldable pub insert_key : CapabilityKey → List CapabilityKey → List CapabilityKey
insert_key k [] = k ∷ []
insert_key k (j ∷ rest) =
    let later = insert_key k rest in if key_first k j then k ∷ j ∷ rest else j ∷ later

unfoldable pub sort_keys : List CapabilityKey → List CapabilityKey
unfolding insert_key
sort_keys [] = []
sort_keys (k ∷ rest) = insert_key k (sort_keys rest)

abbrev pub same_keys : List CapabilityKey → List CapabilityKey → Bool
same_keys [] [] = true
same_keys [] (k ∷ ks) = false
same_keys (j ∷ js) [] = false
same_keys (j ∷ js) (k ∷ ks) = j == k && same_keys js ks

-- `RegistrationReceipt.__post_init__`
unfoldable pub check_receipt : RegistrationReceipt → Result RegistrationReceipt
unfolding sort_keys
check_receipt r =
    if r.registration_id == "" || ltb r.registry_version 1
    then err (value_error "registration identity and committed version are required")
    else if not (same_keys (sort_keys r.capability_keys) r.capability_keys)
    then err (value_error "receipt capability keys must use stable order")
    else ok r

module _ {D I : Type 0} (key_of : D → CapabilityKey)
    (registration_id : PluginRef → List CapabilityKey → ℕ → String) where
  unfoldable pub keys_of : List (D × I) → List CapabilityKey
  keys_of [] = []
  keys_of (c ∷ rest) = key_of c.0 ∷ keys_of rest

  -- `CapabilityRegistrationPlan.__post_init__`
  unfoldable pub check_plan :
      CapabilityRegistrationPlan D I → Result (CapabilityRegistrationPlan D I)
  check_plan p =
      if has_duplicates (keys_of p.capabilities)
      then err (value_error "registration plan contains duplicate capabilities")
      else ok p

  unfoldable pub insert_capability : D × I → List (D × I) → List (D × I)
  insert_capability c [] = c ∷ []
  insert_capability c (next ∷ rest) =
      let later = insert_capability c rest in
      if key_first (key_of c.0) (key_of next.0) then c ∷ next ∷ rest else next ∷ later

  -- `sorted(plan.capabilities, key=...)`
  unfoldable pub sort_capabilities : List (D × I) → List (D × I)
  unfolding insert_capability
  sort_capabilities [] = []
  sort_capabilities (c ∷ rest) = insert_capability c (sort_capabilities rest)

  -- The loop that looks for a key that is taken.
  unfoldable pub check_free :
      PluginRef
      → List CapabilityKey
      → Dict CapabilityKey (CapabilityRegistration D I)
      → Result (Unit {0})
  check_free owner [] registrations = ok tt
  check_free owner (k ∷ rest) registrations =
      let later = check_free owner rest registrations in
      if is_some (get registrations k)
      then err (
          plugin_error conflict "registration_conflict" "Capability is already registered" false
            (some owner.name) (some k.1.0))
      else later

  -- The loop that registers.
  unfoldable pub register_all :
      String
      → PluginRef
      → List (D × I)
      → Dict CapabilityKey (CapabilityRegistration D I)
      → Dict CapabilityKey (CapabilityRegistration D I)
  register_all id owner [] registrations = registrations
  register_all id owner (c ∷ rest) registrations = register_all id owner rest (
      put registrations (key_of c.0)
        (record { registration_id = id; owner = owner; declaration = c.0; implementation = c.1 }))

  -- The ordered capabilities, once no key is taken.
  unfoldable pub publish :
      CapabilityRegistry D I
      → PluginRef
      → List (D × I)
      → ℕ
      → Result (RegistrationReceipt × CapabilityRegistry D I)
  unfolding register_all keys_of
  publish r owner ordered version =
      let id = registration_id owner (keys_of ordered) version in
      check_receipt (record {
        registration_id = id;
        owner = owner;
        registry_version = version;
        capability_keys = keys_of ordered;
      })
      >>= λ receipt. ok (
        receipt,
        record r {
          snapshot = record {
            version = version;
            registrations = register_all id owner ordered r.snapshot.registrations;
          };
        },
      )

  unfoldable pub commit :
      CapabilityRegistry D I
      → CapabilityRegistrationPlan D I
      → ℕ
      → Result (RegistrationReceipt × CapabilityRegistry D I)
  unfolding publish check_free sort_capabilities
  commit r plan expected = do
    raise_if (not (nat_beq r.snapshot.version expected)) (
        plugin_error conflict "registration_conflict" "Capability registry version is stale" false
          (some plan.owner.name) none)
    check_free plan.owner (keys_of (sort_capabilities plan.capabilities)) r.snapshot.registrations
    publish r plan.owner (sort_capabilities plan.capabilities) (r.snapshot.version + 1)

module _ {D I : Type 0} where
  abbrev pub is_owned : RegistrationReceipt → Option (CapabilityRegistration D I) → Bool
  is_owned receipt none = false
  is_owned receipt (some existing) =
      same_ref existing.owner receipt.owner && existing.registration_id == receipt.registration_id

  -- The loop that checks the owner of every key.
  unfoldable pub check_owned :
      RegistrationReceipt
      → List CapabilityKey
      → Dict CapabilityKey (CapabilityRegistration D I)
      → Result (Unit {0})
  check_owned receipt [] registrations = ok tt
  check_owned receipt (k ∷ rest) registrations =
      let later = check_owned receipt rest registrations in
      if not (is_owned receipt (get registrations k))
      then err (
          plugin_error conflict "registration_identity_conflict"
            "Registration receipt does not own the committed capability" false
            (some receipt.owner.name) (some k.1.0))
      else later

  -- The loop of `del`.
  unfoldable pub delete_all :
      List CapabilityKey
      → Dict CapabilityKey (CapabilityRegistration D I)
      → Result (Dict CapabilityKey (CapabilityRegistration D I))
  delete_all [] registrations = ok registrations
  delete_all (k ∷ rest) registrations =
      let later = delete_all rest (remove registrations k) in
      if is_some (get registrations k) then later else err (key_error k.1.0)

  unfoldable pub unregister :
      CapabilityRegistry D I → RegistrationReceipt → Result (CapabilityRegistry D I)
  unfolding check_owned delete_all
  unregister r receipt =
      if contains r.retired_receipts receipt.registration_id
      then ok r
      else check_owned receipt receipt.capability_keys r.snapshot.registrations
        >> delete_all receipt.capability_keys r.snapshot.registrations
        >>= λ left. ok (record {
          snapshot = record { version = r.snapshot.version + 1; registrations = left };
          retired_receipts = add r.retired_receipts receipt.registration_id;
        })

  abbrev pub registered_as :
      CapabilityKey → Option (CapabilityRegistration D I) → Result (CapabilityRegistration D I)
  registered_as k none = err (
      plugin_error unavailable "capability_not_registered" "Capability is not registered" true none
        (some k.1.0))
  registered_as k (some registration) = ok registration

  unfoldable pub get_registration :
      CapabilityRegistry D I → CapabilityKey → Result (CapabilityRegistration D I)
  get_registration r k = registered_as k (get r.snapshot.registrations k)
