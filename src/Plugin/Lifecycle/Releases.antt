-- ===== src/Plugin/Lifecycle/Releases.antt =====
-- `release`, and `release` once more.
use congeries_core.Prelude.{
  ℕ, String, ◌≡◌, refl, ◌∙◌, true, false, not, Option, none, some, List, [], ◌∷◌, arith, nat_beq,
}
use congeries_core.Prelude.Eq.{string_eq, pair_eq, ==_refl}
use congeries_core.Prelude.Dict.{Dict, get, put, remove, get-put_self, contains, add, contains-add}
use congeries_core.Runtime.Errors.{ok}
use congeries_core.Runtime.Outcome.{
  Outcome, answers, raises, Any, Outcome-if, Outcome-after, Outcome-ok,
}
use congeries_core.Plugin.Model.{same_identifiers, same_ref, same_version}
use congeries_core.Plugin.Lifecycle.{
  PluginLifecycleController, ExecutionLease, condition, record_of, item, same_lease,
}
use congeries_core.Plugin.Lifecycle.Leases.{is_held, release}

item-eq : {V : Type 0} (o : Option V) (key : String) {v : V} → item o key ≡ ok v → o ≡ some v
item-eq none key h = cc
item-eq (some v) key h = cc

pub same_identifiers_refl : (xs : List String) → same_identifiers xs xs ≡ true
unfolding same_identifiers
same_identifiers_refl [] = refl
same_identifiers_refl (x ∷ xs) = rw (==_refl x, same_identifiers_refl xs) refl

pub nat_beq_refl : (n : ℕ) → nat_beq n n ≡ true
nat_beq_refl n = ground arith

-- A lease equals itself.
same_lease_refl : (lease : ExecutionLease) → same_lease lease lease ≡ true
unfolding same_lease same_ref same_version
same_lease_refl l =
    rw
      (
        ==_refl l.lease_id,
        ==_refl l.plugin.name,
        nat_beq_refl l.plugin.version.major,
        nat_beq_refl l.plugin.version.minor,
        nat_beq_refl l.plugin.version.patch,
        same_identifiers_refl l.plugin.version.prerelease,
        nat_beq_refl l.activation_epoch,
        ==_refl l.capability_key,
        ==_refl l.run_id,
        ==_refl l.invocation_identity,
        nat_beq_refl l.acquired_at,
      )
      refl

module _ {M : Type 0} where
  -- After an accepted release the id of the lease is among the released ones, and the rest of the
  -- state is as before, but for the entry of the lease.
  pub record Freed (c : PluginLifecycleController M) (lease : ExecutionLease)
      (after : PluginLifecycleController M) : Type 0 where
    pub known : condition c lease.plugin.name ≡ ok tt
    pub records : after.records ≡ c.records
    pub conditions : after.conditions ≡ c.conditions
    pub gone : List String
    pub released : get after.released lease.plugin.name ≡ some gone
    pub in_gone : contains gone lease.lease_id ≡ true

  release-Outcome :
      (c : PluginLifecycleController M) (lease : ExecutionLease)
      → Outcome Any (Freed c lease) (release c lease)
  unfolding release
  release-Outcome c lease = Outcome-after (condition c lease.plugin.name) (λ u unlocked.
      Outcome-after (item (get c.released lease.plugin.name) lease.plugin.name) (λ gone there.
        Outcome-if (contains gone lease.lease_id)
          (λ before. answers (record {
            known = unlocked;
            records = refl;
            conditions = refl;
            gone = gone;
            released = item-eq _ lease.plugin.name there;
            in_gone = before;
          }))
          (λ _. Outcome-after (item (get c.leases lease.plugin.name) lease.plugin.name) (λ held _.
            Outcome-if (not (is_held (get held lease.invocation_identity) lease)) (λ _. raises tt)
              (λ _. answers (record {
                known = unlocked;
                records = refl;
                conditions = refl;
                gone = add gone lease.lease_id;
                released = get-put_self c.released lease.plugin.name _;
                in_gone =
                    contains-add gone lease.lease_id lease.lease_id
                    ∙ rw (==_refl lease.lease_id) refl;
              }))))))

  same_condition :
      (c after : PluginLifecycleController M) (plugin : String)
      → after.records ≡ c.records
      → after.conditions ≡ c.conditions
      → condition c plugin ≡ ok tt
      → condition after plugin ≡ ok tt
  unfolding condition record_of
  same_condition c after plugin r k h = rw (r, k) h

  -- A release that is repeated is accepted and changes nothing.
  pub release-release :
      (c : PluginLifecycleController M) (lease : ExecutionLease)
      (after : PluginLifecycleController M)
      → release c lease ≡ ok after
      → release after lease ≡ ok after
  unfolding release
  release-release c lease after h =
      let f = Outcome-ok (release-Outcome c lease) h in
      rw (
        same_condition c after lease.plugin.name f.records f.conditions f.known,
        f.released,
        f.in_gone,
      )

module _ {M : Type 0} where
  pub known_condition :
      (c : PluginLifecycleController M) (plugin : String)
      → contains c.conditions plugin ≡ true
      → condition c plugin ≡ ok tt
  unfolding condition
  known_condition c plugin h = rw h refl

  abbrev pub freed :
      PluginLifecycleController M
      → ExecutionLease
      → Dict String ExecutionLease
      → List String
      → PluginLifecycleController M
  freed c lease held gone = record c {
    leases = put c.leases lease.plugin.name (remove held lease.invocation_identity);
    released = put c.released lease.plugin.name (add gone lease.lease_id);
  }

  pub release-held :
      (c : PluginLifecycleController M) (held : Dict String ExecutionLease) (lease : ExecutionLease)
      (gone : List String)
      → condition c lease.plugin.name ≡ ok tt
      → get c.leases lease.plugin.name ≡ some held
      → get held lease.invocation_identity ≡ some lease
      → get c.released lease.plugin.name ≡ some gone
      → contains gone lease.lease_id ≡ false
      → release c lease ≡ ok (freed c lease held gone)
  unfolding release
  release-held c held lease gone unlocked holds there free new =
      rw (unlocked, free, new, holds, there, same_lease_refl lease) refl
