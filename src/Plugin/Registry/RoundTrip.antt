-- ===== src/Plugin/Registry/RoundTrip.antt =====
-- `CapabilityRegistry.commit`, then `unregister` of the receipt that it gave.
use congeries_core.Prelude.{
  ℕ, ◌+◌, String, ◌≡◌, refl, ◌∙◌, true, false, not, is_some, List, nat_beq, arith, Bool-cases, inl,
  inr, none, ap, sym,
}
use congeries_core.Prelude.Eq.{string_eq, pair_eq}
use congeries_core.Prelude.Bags.{has_duplicates, member_of_all}
use congeries_core.Prelude.Dict.{get, contains}
use congeries_core.Runtime.Errors.{ok, raise_if}
use congeries_core.Runtime.Outcome.{Outcome, answers, Any, Outcome-after, Outcome-ok}
use congeries_core.Plugin.Model.{PluginRef, CapabilityKey}
use congeries_core.Plugin.Lifecycle.{RegistrationReceipt}
use congeries_core.Plugin.Registry.Publication.{Published, check_receipt-eq, commit-Published}
use congeries_core.Plugin.Registry.Removal.{Removed, unregister-Removed}
use congeries_core.Plugin.Registry.{
  CapabilityRegistration, CapabilityRegistry, CapabilityRegistrationPlan, keys_of, check_free,
  check_plan, unregister, publish, commit, sort_capabilities, check_receipt, Option, some,
}
use congeries_core.Plugin.Registry.Sorting.{has_duplicates-sort}
use congeries_core.Plugin.Registry.Clearing.{unregister-succeeds}

module _ {D I : Type 0} (key_of : D → CapabilityKey)
    (registration_id : PluginRef → List CapabilityKey → ℕ → String) where
  -- The receipt names the keys of the plan in their order.
  publish_keys :
      (r : CapabilityRegistry D I) (owner : PluginRef) (ordered : List (D × I)) (version : ℕ)
      → Outcome Any
          (λ answer. answer.0.capability_keys ≡ keys_of key_of registration_id ordered)
          (publish key_of registration_id r owner ordered version)
  unfolding publish
  publish_keys r owner ordered version =
      Outcome-after (check_receipt _)
        (λ receipt e. answers (sym (ap (λ x. x.capability_keys) (check_receipt-eq _ e))))

  commit_keys :
      (r : CapabilityRegistry D I) (plan : CapabilityRegistrationPlan D I) (expected : ℕ)
      → Outcome Any
          (λ answer.
            answer.0.capability_keys
            ≡ keys_of key_of registration_id
                (sort_capabilities key_of registration_id plan.capabilities))
          (commit key_of registration_id r plan expected)
  unfolding commit
  commit_keys r plan expected =
      Outcome-after (raise_if (not (nat_beq r.snapshot.version expected)) _) (λ u v.
        Outcome-after
          (check_free key_of registration_id plan.owner
            (keys_of key_of registration_id
              (sort_capabilities key_of registration_id plan.capabilities))
            r.snapshot.registrations)
          (λ w f.
            publish_keys r plan.owner (sort_capabilities key_of registration_id plan.capabilities)
              (r.snapshot.version + 1)))

  planned_once :
      (plan : CapabilityRegistrationPlan D I)
      → check_plan key_of registration_id plan ≡ ok plan
      → has_duplicates (keys_of key_of registration_id plan.capabilities) ≡ false
  unfolding check_plan
  planned_once plan planned = ground arith

  commit_once :
      (r : CapabilityRegistry D I) (plan : CapabilityRegistrationPlan D I) (expected : ℕ)
      (answer : RegistrationReceipt × CapabilityRegistry D I)
      → check_plan key_of registration_id plan ≡ ok plan
      → commit key_of registration_id r plan expected ≡ ok answer
      → has_duplicates answer.0.capability_keys ≡ false
  commit_once r plan expected answer planned e =
      ap has_duplicates (Outcome-ok (commit_keys r plan expected) e)
      ∙ has_duplicates-sort key_of registration_id plan.capabilities
      ∙ planned_once plan planned

  free_none :
      (there : Option (CapabilityRegistration D I)) → not (is_some there) ≡ true → there ≡ none
  free_none none h = refl
  free_none (some there) h = cc

  -- What the removal leaves of a commit is what the commit found.
  restored :
      (r : CapabilityRegistry D I) (expected : ℕ)
      (answer : RegistrationReceipt × CapabilityRegistry D I) (after : CapabilityRegistry D I)
      → Published r expected answer
      → Removed answer.1 answer.0 after
      → (k : CapabilityKey) → get after.snapshot.registrations k ≡ get r.snapshot.registrations k
  restored r expected answer after made gone k =
      elim (Bool-cases (contains answer.0.capability_keys k)) [
        | inl inside ↦
            gone.left k
            ∙ rw inside (
                sym (
                  free_none (get r.snapshot.registrations k) (
                    member_of_all (λ j. not (is_some (get r.snapshot.registrations j)))
                      answer.0.capability_keys k made.free inside)))
        | inr outside ↦ gone.left k ∙ rw outside (made.others k ∙ rw outside refl)
      ]

  -- For a plan without duplicates: the receipt of an accepted commit, unless its identity was retired
  -- before, is accepted by `unregister`, which then leaves every key as it was before the commit, two
  -- versions later.
  pub unregister-commit :
      (r : CapabilityRegistry D I) (plan : CapabilityRegistrationPlan D I) (expected : ℕ)
      (answer : RegistrationReceipt × CapabilityRegistry D I)
      → check_plan key_of registration_id plan ≡ ok plan
      → commit key_of registration_id r plan expected ≡ ok answer
      → contains r.retired_receipts answer.0.registration_id ≡ false
      → (after : CapabilityRegistry D I) × (unregister answer.1 answer.0 ≡ ok after)
        × ((k : CapabilityKey)
            → get after.snapshot.registrations k ≡ get r.snapshot.registrations k)
        × (after.snapshot.version ≡ r.snapshot.version + 2)
  unregister-commit r plan expected answer planned e fresh =
      let made = commit-Published key_of registration_id r plan expected answer e in
      let live = ap (λ x. contains x answer.0.registration_id) made.retired ∙ fresh in
      let (after, u) =
        unregister-succeeds answer.1 answer.0 live (commit_once r plan expected answer planned e)
          made.owned in
      let gone = unregister-Removed answer.1 answer.0 after live u in
      (
        after,
        u,
        restored r expected answer after made gone,
        omega (arith, made.version, gone.version),
      )
