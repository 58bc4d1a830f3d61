-- ===== src/Plugin/Registry/Removal.antt =====
-- What `CapabilityRegistry.unregister` takes away.
use congeries_core.Prelude.{
  ◌+◌, ◌≡◌, refl, ◌∙◌, true, false, not, none, is_some, List, [], ◌∷◌, all, arith, if◌then◌else◌,
}
use congeries_core.Prelude.Eq.{string_eq, pair_eq, ==_refl}
use congeries_core.Prelude.Dict.{Dict, get, remove, contains, get-remove, contains-add}
use congeries_core.Runtime.Errors.{ok, ◌>>◌}
use congeries_core.Runtime.Outcome.{
  Outcome, answers, raises, Any, Outcome-if, Outcome-after, Outcome-ok, Outcome-map,
}
use congeries_core.Plugin.Model.{CapabilityKey}
use congeries_core.Plugin.Lifecycle.{RegistrationReceipt}
use congeries_core.Plugin.Registry.{
  CapabilityRegistration, CapabilityRegistry, is_owned, check_owned, delete_all, unregister,
}

module _ {D I : Type 0} where
  -- What an accepted removal did, for a receipt that was not retired: the receipt owned all of its
  -- keys; they are gone, the other keys are as before, and the version went up by one.
  pub record Removed (before : CapabilityRegistry D I) (receipt : RegistrationReceipt)
      (after : CapabilityRegistry D I) : Type 0 where
    pub owned :
        all (λ k. is_owned receipt (get before.snapshot.registrations k)) receipt.capability_keys
        ≡ true
    pub left :
        (k : CapabilityKey)
        → get after.snapshot.registrations k ≡ (
            if contains receipt.capability_keys k
            then none
            else get before.snapshot.registrations k)
    pub version : after.snapshot.version ≡ before.snapshot.version + 1
    pub retired : contains after.retired_receipts receipt.registration_id ≡ true

  check_owned-Outcome :
      (receipt : RegistrationReceipt) (keys : List CapabilityKey)
      (registrations : Dict CapabilityKey (CapabilityRegistration D I))
      → Outcome Any
          (λ _. all (λ k. is_owned receipt (get registrations k)) keys ≡ true)
          (check_owned receipt keys registrations)
  unfolding check_owned
  check_owned-Outcome receipt [] registrations = answers refl
  check_owned-Outcome receipt (k ∷ rest) registrations =
      Outcome-if (not (is_owned receipt (get registrations k))) (λ _. raises tt)
        (λ mine.
          Outcome-map (check_owned-Outcome receipt rest registrations)
            (λ u others. ground (arith, mine, others)))

  delete_all-Outcome :
      (keys : List CapabilityKey) (registrations : Dict CapabilityKey (CapabilityRegistration D I))
      → Outcome Any
          (λ left.
            (k : CapabilityKey)
            → get left k ≡ (if contains keys k then none else get registrations k))
          (delete_all keys registrations)
  unfolding delete_all contains
  delete_all-Outcome [] registrations = answers (λ k. refl)
  delete_all-Outcome (j ∷ rest) registrations =
      Outcome-if (is_some (get registrations j))
        (λ _.
          Outcome-map (delete_all-Outcome rest (remove registrations j))
            (λ left facts k. ground (arith, facts k, get-remove registrations j k)))
        (λ _. raises tt)

  both_loops :
      (r : CapabilityRegistry D I) (receipt : RegistrationReceipt)
      → Outcome Any
          (λ left.
            (all (λ k. is_owned receipt (get r.snapshot.registrations k)) receipt.capability_keys
              ≡ true)
            × ((k : CapabilityKey)
                → get left k ≡ (
                    if contains receipt.capability_keys k
                    then none
                    else get r.snapshot.registrations k)))
          (check_owned receipt receipt.capability_keys r.snapshot.registrations
            >> delete_all receipt.capability_keys r.snapshot.registrations)
  both_loops r receipt =
      Outcome-after (check_owned receipt receipt.capability_keys r.snapshot.registrations) (λ u c.
        Outcome-map (delete_all-Outcome receipt.capability_keys r.snapshot.registrations)
          (λ left facts. (
            Outcome-ok
                (check_owned-Outcome receipt receipt.capability_keys r.snapshot.registrations) c,
            facts,
          )))

  unregister-Outcome :
      (r : CapabilityRegistry D I) (receipt : RegistrationReceipt)
      → contains r.retired_receipts receipt.registration_id ≡ false
      → Outcome Any (Removed r receipt) (unregister r receipt)
  unfolding unregister
  unregister-Outcome r receipt live = rw live (
      Outcome-after
        (check_owned receipt receipt.capability_keys r.snapshot.registrations
          >> delete_all receipt.capability_keys r.snapshot.registrations)
        (λ left e.
          let (owned, rest) = Outcome-ok (both_loops r receipt) e in
          answers (record {
            owned = owned;
            left = rest;
            version = refl;
            retired =
                contains-add r.retired_receipts receipt.registration_id receipt.registration_id
                ∙ rw (==_refl receipt.registration_id) refl;
          })))

  -- An accepted `unregister` of a receipt that was not retired took away exactly the keys of the
  -- receipt, all of which it owned, and retired it: a stale receipt cannot remove its replacement.
  pub unregister-Removed :
      (r : CapabilityRegistry D I) (receipt : RegistrationReceipt) (after : CapabilityRegistry D I)
      → contains r.retired_receipts receipt.registration_id ≡ false
      → unregister r receipt ≡ ok after
      → Removed r receipt after
  unregister-Removed r receipt after live = Outcome-ok (unregister-Outcome r receipt live)
