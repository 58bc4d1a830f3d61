-- ===== src/Plugin/Registry/Clearing.antt =====
-- `CapabilityRegistry.unregister` succeeds for a receipt that owns its keys.
use congeries_core.Prelude.{◌+◌, ◌≡◌, refl, true, false, is_some, List, [], ◌∷◌, all, arith, none}
use congeries_core.Prelude.Eq.{string_eq, pair_eq, ==_iff}
use congeries_core.Prelude.Bags.{has_duplicates}
use congeries_core.Prelude.Dict.{Dict, get, contains, remove, get-remove, add}
use congeries_core.Runtime.Errors.{ok}
use congeries_core.Plugin.Model.{CapabilityKey}
use congeries_core.Plugin.Lifecycle.{RegistrationReceipt}
use congeries_core.Plugin.Registry.{
  CapabilityRegistration, CapabilityRegistry, check_owned, delete_all, unregister, is_owned, Option,
  some,
}

module _ {D I : Type 0} where
  pub owned_left :
      (receipt : RegistrationReceipt) (keys : List CapabilityKey) (k : CapabilityKey)
      (registrations : Dict CapabilityKey (CapabilityRegistration D I))
      → contains keys k ≡ false
      → all (λ j. is_owned receipt (get registrations j)) keys ≡ true
      → all (λ j. is_owned receipt (get (remove registrations k) j)) keys ≡ true
  unfolding contains
  owned_left receipt [] k registrations apart mine = refl
  owned_left receipt (j ∷ rest) k registrations apart mine = ground (
    arith,
    ==_iff j k,
    ==_iff k j,
    get-remove registrations k j,
    owned_left receipt rest k registrations (ground arith) (ground arith),
  )

  pub owned_some :
      (receipt : RegistrationReceipt) (there : Option (CapabilityRegistration D I))
      → is_owned receipt there ≡ true
      → is_some there ≡ true
  owned_some receipt none h = cc
  owned_some receipt (some there) h = refl

  -- No key is deleted twice.
  pub delete_all-succeeds :
      (receipt : RegistrationReceipt) (keys : List CapabilityKey)
      (registrations : Dict CapabilityKey (CapabilityRegistration D I))
      → has_duplicates keys ≡ false
      → all (λ k. is_owned receipt (get registrations k)) keys ≡ true
      → (left : Dict CapabilityKey (CapabilityRegistration D I)) × (delete_all keys registrations
          ≡ ok left)
  unfolding delete_all
  delete_all-succeeds receipt [] registrations once mine = (registrations, refl)
  delete_all-succeeds receipt (k ∷ rest) registrations once mine =
      let (left, e) =
        delete_all-succeeds receipt rest (remove registrations k) (ground arith)
          (owned_left receipt rest k registrations (ground arith) (ground arith)) in
      (left, rw (owned_some receipt (get registrations k) (ground arith)) e)

  pub check_owned-succeeds :
      (receipt : RegistrationReceipt) (keys : List CapabilityKey)
      (registrations : Dict CapabilityKey (CapabilityRegistration D I))
      → all (λ k. is_owned receipt (get registrations k)) keys ≡ true
      → check_owned receipt keys registrations ≡ ok tt
  unfolding check_owned
  check_owned-succeeds receipt [] registrations mine = refl
  check_owned-succeeds receipt (k ∷ rest) registrations mine =
      ground (arith, check_owned-succeeds receipt rest registrations (ground arith))

  pub unregister-succeeds :
      (r : CapabilityRegistry D I) (receipt : RegistrationReceipt)
      → contains r.retired_receipts receipt.registration_id ≡ false
      → has_duplicates receipt.capability_keys ≡ false
      → all (λ k. is_owned receipt (get r.snapshot.registrations k)) receipt.capability_keys ≡ true
      → (after : CapabilityRegistry D I) × (unregister r receipt ≡ ok after)
  unfolding unregister
  unregister-succeeds r receipt live once mine =
      let (left, e) =
        delete_all-succeeds receipt receipt.capability_keys r.snapshot.registrations once mine in
      (
        record {
          snapshot = record { version = r.snapshot.version + 1; registrations = left };
          retired_receipts = add r.retired_receipts receipt.registration_id;
        },
        rw
            (
              live,
              check_owned-succeeds receipt receipt.capability_keys r.snapshot.registrations mine,
              e,
            )
            refl,
      )
