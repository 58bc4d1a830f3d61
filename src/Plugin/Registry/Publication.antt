-- ===== src/Plugin/Registry/Publication.antt =====
-- What `CapabilityRegistry.commit` publishes, and who owns it.
use congeries_core.Prelude.Bags.{all_of_members}
use congeries_core.Prelude.{
  ℕ, ◌+◌, String, ◌≡◌, refl, subst, ◌∙◌, true, false, not, ◌||◌, is_some, List, [], ◌∷◌, all,
  nat_beq, arith, if◌then◌else◌, Bool-cases, inl, inr,
}
use congeries_core.Prelude.Eq.{◌==◌, string_eq, pair_eq, ==_refl}
use congeries_core.Prelude.Dict.{Dict, get, put, contains, get-put}
use congeries_core.Runtime.Errors.{ok, raise_if, raise_if-ok}
use congeries_core.Runtime.Outcome.{
  Outcome, answers, raises, Any, Outcome-if, Outcome-after, Outcome-ok, Outcome-map,
}
use congeries_core.Plugin.Model.{PluginRef, same_ref, same_version, CapabilityKey}
use congeries_core.Plugin.Lifecycle.{RegistrationReceipt}
use congeries_core.Plugin.Lifecycle.Releases.{same_identifiers_refl, nat_beq_refl}
use congeries_core.Plugin.Registry.{
  CapabilityRegistration, CapabilityRegistry, CapabilityRegistrationPlan, keys_of, check_free,
  register_all, publish, commit, sort_capabilities, check_receipt, is_owned,
}

same_ref_refl : (r : PluginRef) → same_ref r r ≡ true
unfolding same_ref same_version
same_ref_refl r =
    rw
      (
        ==_refl r.name,
        nat_beq_refl r.version.major,
        nat_beq_refl r.version.minor,
        nat_beq_refl r.version.patch,
        same_identifiers_refl r.version.prerelease,
      )
      refl

pub check_receipt-eq :
    (r : RegistrationReceipt) {a : RegistrationReceipt} → check_receipt r ≡ ok a → r ≡ a
unfolding check_receipt
check_receipt-eq r h = ground arith

module _ {D I : Type 0} where
  -- What an accepted commit did: no key of the receipt was taken, it owns all of them now, the
  -- other keys are as before, and the version went up by one.
  pub record Published (before : CapabilityRegistry D I) (expected : ℕ)
      (answer : RegistrationReceipt × CapabilityRegistry D I) : Type 0 where
    pub current : before.snapshot.version ≡ expected
    pub free :
        all (λ k. not (is_some (get before.snapshot.registrations k))) answer.0.capability_keys
        ≡ true
    pub owned :
        all
          (λ k. is_owned answer.0 (get answer.1.snapshot.registrations k))
          answer.0.capability_keys
        ≡ true
    pub others :
        (k : CapabilityKey)
        → get answer.1.snapshot.registrations k ≡ (
            if contains answer.0.capability_keys k
            then get answer.1.snapshot.registrations k
            else get before.snapshot.registrations k)
    pub version : answer.1.snapshot.version ≡ before.snapshot.version + 1
    pub retired : answer.1.retired_receipts ≡ before.retired_receipts

module _ {D I : Type 0} (key_of : D → CapabilityKey)
    (registration_id : PluginRef → List CapabilityKey → ℕ → String) where
  check_free-Outcome :
      (owner : PluginRef) (keys : List CapabilityKey)
      (registrations : Dict CapabilityKey (CapabilityRegistration D I))
      → Outcome Any
          (λ _. all (λ k. not (is_some (get registrations k))) keys ≡ true)
          (check_free key_of registration_id owner keys registrations)
  unfolding check_free
  check_free-Outcome owner [] registrations = answers refl
  check_free-Outcome owner (k ∷ rest) registrations =
      Outcome-if (is_some (get registrations k)) (λ _. raises tt)
        (λ free.
          Outcome-map (check_free-Outcome owner rest registrations)
            (λ u others. ground (arith, free, others)))

  abbrev pub registration_of : String → PluginRef → D × I → CapabilityRegistration D I
  registration_of id owner c = record {
    registration_id = id;
    owner = owner;
    declaration = c.0;
    implementation = c.1;
  }

  -- A key that is not in the list keeps what it has.
  pub register_all-other :
      (id : String) (owner : PluginRef) (list : List (D × I))
      (registrations : Dict CapabilityKey (CapabilityRegistration D I)) (k : CapabilityKey)
      → contains (keys_of key_of registration_id list) k ≡ false
      → get (register_all key_of registration_id id owner list registrations) k
        ≡ get registrations k
  unfolding register_all keys_of contains
  register_all-other id owner [] registrations k h = refl
  register_all-other id owner (c ∷ rest) registrations k h =
      let miss : (key_of c.0 == k) ≡ false = ground (arith, h) in
      register_all-other id owner rest (put registrations (key_of c.0) (registration_of id owner c))
        k (ground (arith, h))
      ∙ (get-put registrations (key_of c.0) k (registration_of id owner c) ∙ rw miss refl)

  -- A key that the receipt owns before or that is in the list is owned after.
  register_all-owned :
      (receipt : RegistrationReceipt) (list : List (D × I))
      (registrations : Dict CapabilityKey (CapabilityRegistration D I)) (k : CapabilityKey)
      → (is_owned receipt (get registrations k) || contains (keys_of key_of registration_id list) k)
        ≡ true
      → is_owned receipt (
          get
            (register_all key_of registration_id receipt.registration_id receipt.owner list
              registrations)
            k)
        ≡ true
  unfolding register_all keys_of contains
  register_all-owned receipt [] registrations k h = ground (arith, h)
  register_all-owned receipt (c ∷ rest) registrations k h =
      register_all-owned receipt rest
        (put registrations (key_of c.0) (registration_of receipt.registration_id receipt.owner c)) k
        (elim (Bool-cases (key_of c.0 == k)) [
          | inl hit ↦
              rw
                (
                  get-put registrations (key_of c.0) k
                      (registration_of receipt.registration_id receipt.owner c),
                  hit,
                  same_ref_refl receipt.owner,
                  ==_refl receipt.registration_id,
                )
                refl
          | inr miss ↦
              rw
                (
                  get-put registrations (key_of c.0) k
                      (registration_of receipt.registration_id receipt.owner c),
                  miss,
                )
                (rw miss at h)
        ])

  owned_all :
      (receipt : RegistrationReceipt) (list : List (D × I))
      (registrations : Dict CapabilityKey (CapabilityRegistration D I))
      → all
          (λ k. is_owned receipt (
            get
              (register_all key_of registration_id receipt.registration_id receipt.owner list
                registrations)
              k))
          (keys_of key_of registration_id list)
        ≡ true
  owned_all receipt list registrations =
      all_of_members
        (λ k. is_owned receipt (
          get
            (register_all key_of registration_id receipt.registration_id receipt.owner list
              registrations)
            k))
        (keys_of key_of registration_id list)
        (λ k inside. register_all-owned receipt list registrations k (ground (arith, inside)))

  -- The receipt that `commit` makes.
  abbrev pub made : CapabilityRegistry D I → PluginRef → List (D × I) → RegistrationReceipt
  made r owner ordered = record {
    registration_id =
        registration_id owner (keys_of key_of registration_id ordered) (r.snapshot.version + 1);
    owner = owner;
    registry_version = r.snapshot.version + 1;
    capability_keys = keys_of key_of registration_id ordered;
  }

  publish-Outcome :
      (r : CapabilityRegistry D I) (owner : PluginRef) (ordered : List (D × I)) (expected : ℕ)
      → r.snapshot.version ≡ expected
      → all
          (λ k. not (is_some (get r.snapshot.registrations k)))
          (keys_of key_of registration_id ordered)
        ≡ true
      → Outcome Any
          (Published r expected)
          (publish key_of registration_id r owner ordered (r.snapshot.version + 1))
  unfolding publish
  publish-Outcome r owner ordered expected current free =
      Outcome-after (check_receipt _) (λ receipt e.
        let is = check_receipt-eq _ e in
        subst
          (λ x. Outcome Any (Published r expected) (
            ok (
              x,
              record r {
                snapshot = record {
                  version = r.snapshot.version + 1;
                  registrations =
                      register_all key_of registration_id
                        (registration_id owner (keys_of key_of registration_id ordered)
                          (r.snapshot.version + 1))
                        owner ordered r.snapshot.registrations;
                };
              },
            )))
          is
          (answers (record {
            current = current;
            free = free;
            owned = owned_all (made r owner ordered) ordered r.snapshot.registrations;
            others = λ k. elim (Bool-cases (contains (keys_of key_of registration_id ordered) k)) [
              | inl inside ↦ rw inside refl
              | inr outside ↦
                  rw outside (register_all-other _ owner ordered r.snapshot.registrations k outside)
            ];
            version = refl;
            retired = refl;
          })))

  commit-Outcome :
      (r : CapabilityRegistry D I) (plan : CapabilityRegistrationPlan D I) (expected : ℕ)
      → Outcome Any (Published r expected) (commit key_of registration_id r plan expected)
  unfolding commit
  commit-Outcome r plan expected =
      Outcome-after (raise_if (not (nat_beq r.snapshot.version expected)) _) (λ u v.
        Outcome-after
          (check_free key_of registration_id plan.owner
            (keys_of key_of registration_id
              (sort_capabilities key_of registration_id plan.capabilities))
            r.snapshot.registrations)
          (λ w f.
            publish-Outcome r plan.owner
              (sort_capabilities key_of registration_id plan.capabilities) expected
              (ground (arith, raise_if-ok _ _ v))
              (Outcome-ok (check_free-Outcome plan.owner _ r.snapshot.registrations) f)))

  -- An accepted commit found the expected version and all keys of its receipt free, and published
  -- them all at once: the receipt owns each of them, every other key is as before, and the version
  -- went up by one.
  pub commit-Published :
      (r : CapabilityRegistry D I) (plan : CapabilityRegistrationPlan D I) (expected : ℕ)
      (answer : RegistrationReceipt × CapabilityRegistry D I)
      → commit key_of registration_id r plan expected ≡ ok answer
      → Published r expected answer
  commit-Published r plan expected answer = Outcome-ok (commit-Outcome r plan expected)
