-- ===== src/Plugin/Registry/Planned.antt =====
-- `CapabilityRegistry.commit` publishes the capabilities of its plan.
use congeries_core.Plugin.Registry.Sorting.{contains-sort, All-sort, has_duplicates-sort}
use congeries_core.Prelude.{
  ℕ, ◌≡◌, refl, sym, ap, ◌∙◌, All, ◌+◌, String, false, not, List, [], ◌∷◌, nat_beq, arith,
}
use congeries_core.Plugin.Registry.Publication.{
  Published, check_receipt-eq, commit-Published, registration_of, register_all-other, made,
}
use congeries_core.Prelude.Eq.{string_eq, pair_eq}
use congeries_core.Prelude.Bags.{has_duplicates}
use congeries_core.Prelude.Dict.{get, contains, Dict, put, get-put_self}
use congeries_core.Runtime.Errors.{ok, raise_if}
use congeries_core.Runtime.Outcome.{Outcome, answers, Any, Outcome-after, Outcome-ok}
use congeries_core.Plugin.Model.{PluginRef, CapabilityKey}
use congeries_core.Plugin.Lifecycle.{RegistrationReceipt}
use congeries_core.Plugin.Registry.{
  CapabilityRegistration, CapabilityRegistry, CapabilityRegistrationPlan, keys_of, check_free,
  publish, commit, sort_capabilities, check_receipt, some, register_all,
}

module _ {D I : Type 0} (key_of : D → CapabilityKey)
    (registration_id : PluginRef → List CapabilityKey → ℕ → String) where
  -- The receipt is one of the plan, and every capability of the plan stands under its key, with
  -- owner, declaration and implementation.
  pub record Planned (before : CapabilityRegistry D I) (plan : CapabilityRegistrationPlan D I)
      (expected : ℕ) (answer : RegistrationReceipt × CapabilityRegistry D I) : Type 0 where
    pub published : Published before expected answer
    pub owner : answer.0.owner ≡ plan.owner
    pub id :
        answer.0.registration_id
        ≡ registration_id plan.owner answer.0.capability_keys (expected + 1)
    pub receipt_version : answer.0.registry_version ≡ expected + 1
    pub keys :
        (k : CapabilityKey)
        → contains answer.0.capability_keys k
          ≡ contains (keys_of key_of registration_id plan.capabilities) k
    pub stands :
        All
          (λ (c : D × I).
            get answer.1.snapshot.registrations (key_of c.0)
            ≡ some (record {
              registration_id = answer.0.registration_id;
              owner = plan.owner;
              declaration = c.0;
              implementation = c.1;
            }))
          plan.capabilities

  register_all-stands :
      (id : String) (owner : PluginRef) (list : List (D × I))
      (registrations : Dict CapabilityKey (CapabilityRegistration D I))
      → has_duplicates (keys_of key_of registration_id list) ≡ false
      → All
          (λ (c : D × I).
            get (register_all key_of registration_id id owner list registrations) (key_of c.0)
            ≡ some (registration_of key_of registration_id id owner c))
          list
  unfolding register_all keys_of
  register_all-stands id owner [] registrations once = tt
  register_all-stands id owner (c ∷ rest) registrations once =
      let next =
        put registrations (key_of c.0) (registration_of key_of registration_id id owner c) in
      (
        register_all-other key_of registration_id id owner rest next (key_of c.0)
              (ground (arith, once))
            ∙ get-put_self registrations (key_of c.0) _,
        register_all-stands id owner rest next (ground (arith, once)),
      )

  -- What `publish` makes of the ordered capabilities.
  abbrev Made :
      CapabilityRegistry D I
      → PluginRef
      → List (D × I)
      → RegistrationReceipt × CapabilityRegistry D I
      → Type 0
  Made r owner ordered answer =
      (answer.0 ≡ made key_of registration_id r owner ordered)
      × (answer.1.snapshot.registrations
          ≡ register_all key_of registration_id
              (made key_of registration_id r owner ordered).registration_id owner ordered
              r.snapshot.registrations)

  commit-Made :
      (r : CapabilityRegistry D I) (plan : CapabilityRegistrationPlan D I) (expected : ℕ)
      → Outcome Any
          (Made r plan.owner (sort_capabilities key_of registration_id plan.capabilities))
          (commit key_of registration_id r plan expected)
  unfolding commit publish
  commit-Made r plan expected =
      Outcome-after (raise_if (not (nat_beq r.snapshot.version expected)) _) (λ _ _.
        Outcome-after
          (check_free key_of registration_id plan.owner
            (keys_of key_of registration_id
              (sort_capabilities key_of registration_id plan.capabilities))
            r.snapshot.registrations)
          (λ _ _.
            Outcome-after (check_receipt _)
              (λ receipt e. answers (sym (check_receipt-eq _ e), refl))))

  -- An accepted commit of a plan without duplicates found the expected version and every key of
  -- the plan free, and published the plan: each of its capabilities stands under its key for the
  -- owner of the plan, with its declaration and implementation, under the receipt that names
  -- these keys; every other key is as before and the version one on.
  pub commit-Planned :
      (r : CapabilityRegistry D I) (plan : CapabilityRegistrationPlan D I) (expected : ℕ)
      (answer : RegistrationReceipt × CapabilityRegistry D I)
      → has_duplicates (keys_of key_of registration_id plan.capabilities) ≡ false
      → commit key_of registration_id r plan expected ≡ ok answer
      → Planned r plan expected answer
  commit-Planned r plan expected answer once e =
      let p = commit-Published key_of registration_id r plan expected answer e in
      let (receipt, stored) = Outcome-ok (commit-Made r plan expected) e in
      let ordered = sort_capabilities key_of registration_id plan.capabilities in
      let names = ap (λ (x : RegistrationReceipt). x.capability_keys) receipt in
      let called = ap (λ (x : RegistrationReceipt). x.registration_id) receipt in
      let numbered : r.snapshot.version + 1 ≡ expected + 1 = ap (λ n. n + 1) p.current in
      record {
        published = p;
        owner = ap (λ (x : RegistrationReceipt). x.owner) receipt;
        id =
            called
            ∙ ap (λ n. registration_id plan.owner (keys_of key_of registration_id ordered) n)
                numbered
            ∙ ap (λ ks. registration_id plan.owner ks (expected + 1)) (sym names);
        receipt_version = ap (λ (x : RegistrationReceipt). x.registry_version) receipt ∙ numbered;
        keys = λ k.
            ap (λ ks. contains ks k) names
            ∙ contains-sort key_of registration_id plan.capabilities k;
        stands = All-sort key_of registration_id _ plan.capabilities (
            rw (stored, called)
              (register_all-stands _ plan.owner ordered r.snapshot.registrations
                (has_duplicates-sort key_of registration_id plan.capabilities ∙ once)));
      }
