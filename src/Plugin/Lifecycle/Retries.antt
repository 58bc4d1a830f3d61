-- ===== src/Plugin/Lifecycle/Retries.antt =====
-- Retries of lease requests, and requests after a release.
use congeries_core.Prelude.{
  ℕ, String, ◌≡◌, refl, ap, ◌⊎◌, inl, inr, false, not, ◌&&◌, Option, none, some, List, arith,
}
use congeries_core.Prelude.Eq.{◌==◌, string_eq, pair_eq, ==_iff}
use congeries_core.Prelude.Dict.{Dict, get, put, get-put_self, contains}
use congeries_core.Runtime.Errors.{ok}
use congeries_core.Runtime.Outcome.{
  Outcome, answers, raises, Any, Outcome-if, Outcome-after, Outcome-ok,
}
use congeries_core.Plugin.Model.{
  PluginRef, draining, active, CapabilityKey, PluginLifecycleState, is_state,
}
use congeries_core.Plugin.Lifecycle.{
  PluginStateRecord, PluginLifecycleController, ExecutionLease, condition, record_of, known, item,
}
use congeries_core.Plugin.Lifecycle.Leases.{lease_of, grant, acquire_with, acquire}

module _ {M : Type 0} (ref_of : M → PluginRef)
    (lease_id : PluginRef → ℕ → CapabilityKey → String → String → String) where
  -- How an accepted request was answered: with the lease that is held under the invocation, which
  -- is for the same capability and Run, and nothing changed; or with a new one, of the present
  -- period of an active Plugin, whose id was never released, and it is filed.
  pub record Leased (c : PluginLifecycleController M) (plugin : String) (key : CapabilityKey)
      (run invocation : String) (now : ℕ) (answer : ExecutionLease × PluginLifecycleController M)
      : Type 0 where
    pub current : PluginStateRecord M
    pub stored : get c.records plugin ≡ some current
    pub held : Dict String ExecutionLease
    pub holds : get c.leases plugin ≡ some held
    pub known : condition c plugin ≡ ok tt
    pub way :
        ((get held invocation ≡ some answer.0)
          × (answer.0.capability_key ≡ key)
          × (answer.0.run_id ≡ run)
          × (answer.1 ≡ c))
        ⊎ ((get held invocation ≡ none)
            × (current.state ≡ active)
            × (answer.0 ≡ lease_of ref_of lease_id current key run invocation now)
            × ((gone : List String) × (get c.released plugin ≡ some gone)
                × (contains gone answer.0.lease_id ≡ false))
            × (answer.1 ≡ record c { leases = put c.leases plugin (put held invocation answer.0) }))

  known-eq :
      (plugin : String) (o : Option (PluginStateRecord M)) {r : PluginStateRecord M}
      → known plugin o ≡ ok r
      → o ≡ some r
  known-eq plugin none h = cc
  known-eq plugin (some r) h = cc

  item-eq : {V : Type 0} (o : Option V) (key : String) {v : V} → item o key ≡ ok v → o ≡ some v
  item-eq none key h = cc
  item-eq (some v) key h = cc

  active_is : (s : PluginLifecycleState) → not (is_state s active) ≡ false → s ≡ active
  active_is active h = refl
  active_is s h = cc

  module _ (c : PluginLifecycleController M) (plugin : String) (key : CapabilityKey)
      (run invocation : String) (now : ℕ) (current : PluginStateRecord M)
      (held : Dict String ExecutionLease) where
    acquire_with-Outcome :
        (there : Option ExecutionLease)
        → get held invocation ≡ there
        → get c.records plugin ≡ some current
        → get c.leases plugin ≡ some held
        → condition c plugin ≡ ok tt
        → Outcome Any
            (Leased c plugin key run invocation now)
            (acquire_with ref_of lease_id c plugin key run invocation now current held there)
    unfolding acquire_with grant
    acquire_with-Outcome (some lease) e stored holds unlocked =
        Outcome-if (lease.capability_key == key && lease.run_id == run)
          (λ same. answers (record {
            current = current;
            stored = stored;
            held = held;
            holds = holds;
            known = unlocked;
            way = inl (
              e,
              (==_iff lease.capability_key key).0 (ground (arith, same)),
              (==_iff lease.run_id run).0 (ground (arith, same)),
              refl,
            );
          }))
          (λ _. raises tt)
    acquire_with-Outcome none e stored holds unlocked =
        Outcome-if (is_state current.state draining) (λ _. raises tt)
          (λ _.
            Outcome-if (not (is_state current.state active)) (λ _. raises tt)
              (λ is. Outcome-after (item (get c.released plugin) plugin) (λ gone g.
                Outcome-if (contains gone _) (λ _. raises tt)
                  (λ new. answers (record {
                    current = current;
                    stored = stored;
                    held = held;
                    holds = holds;
                    known = unlocked;
                    way = inr (
                      e,
                      active_is current.state is,
                      refl,
                      (gone, item-eq (get c.released plugin) plugin g, new),
                      refl,
                    );
                  })))))

  pub acquire-Outcome :
      (c : PluginLifecycleController M) (plugin : String) (key : CapabilityKey)
      (run invocation : String) (now : ℕ)
      → Outcome Any
          (Leased c plugin key run invocation now)
          (acquire ref_of lease_id c plugin key run (some invocation) now)
  unfolding acquire record_of
  acquire-Outcome c plugin key run invocation now =
      Outcome-after (condition c plugin) (λ u unlocked.
        Outcome-after (known plugin (get c.records plugin)) (λ current found.
          Outcome-after (item (get c.leases plugin) plugin) (λ held there.
            acquire_with-Outcome c plugin key run invocation now current held (get held invocation)
              refl (known-eq plugin _ found) (item-eq _ plugin there) unlocked)))

  -- An accepted request for a lease returned the one that is held under the invocation, for the
  -- same capability and Run, and changed nothing; or it gave and filed a new lease of an active
  -- Plugin under an id that was never released.
  pub acquire-Leased :
      (c : PluginLifecycleController M) (plugin : String) (key : CapabilityKey)
      (run invocation : String) (now : ℕ) (answer : ExecutionLease × PluginLifecycleController M)
      → acquire ref_of lease_id c plugin key run (some invocation) now ≡ ok answer
      → Leased c plugin key run invocation now answer
  acquire-Leased c plugin key run invocation now answer =
      Outcome-ok (acquire-Outcome c plugin key run invocation now)

  condition_leases :
      (c : PluginLifecycleController M) (plugin : String)
      (leases : Dict String (Dict String ExecutionLease))
      → condition c plugin ≡ ok tt
      → condition (record c { leases = leases }) plugin ≡ ok tt
  unfolding condition record_of
  condition_leases c plugin leases h = h

  -- What `acquire` answers when the lease is held.
  acquire-held :
      (c : PluginLifecycleController M) (plugin : String) (key : CapabilityKey)
      (run invocation : String) (now : ℕ) (current : PluginStateRecord M)
      (held : Dict String ExecutionLease) (lease : ExecutionLease)
      → condition c plugin ≡ ok tt
      → get c.records plugin ≡ some current
      → get c.leases plugin ≡ some held
      → get held invocation ≡ some lease
      → lease.capability_key ≡ key
      → lease.run_id ≡ run
      → acquire ref_of lease_id c plugin key run (some invocation) now ≡ ok (lease, c)
  unfolding acquire acquire_with record_of
  acquire-held c plugin key run invocation now current held lease unlocked stored holds there k r =
      rw (
        unlocked,
        stored,
        holds,
        there,
        (==_iff lease.capability_key key).1 k,
        (==_iff lease.run_id run).1 r,
      )

  -- Asking again under the same invocation, at any later time, returns the same lease and changes
  -- nothing more.
  pub acquire-acquire :
      (c : PluginLifecycleController M) (plugin : String) (key : CapabilityKey)
      (run invocation : String) (now later : ℕ) (lease : ExecutionLease)
      (after : PluginLifecycleController M)
      → acquire ref_of lease_id c plugin key run (some invocation) now ≡ ok (lease, after)
      → acquire ref_of lease_id after plugin key run (some invocation) later ≡ ok (lease, after)
  acquire-acquire c plugin key run invocation now later lease after h =
      again (acquire-Leased c plugin key run invocation now (lease, after) h)
    where
      again :
          Leased c plugin key run invocation now (lease, after)
          → acquire ref_of lease_id after plugin key run (some invocation) later ≡ ok (lease, after)
      again l = elim l.way [
        | inl w ↦ rw w.3 (
            acquire-held c plugin key run invocation later l.current l.held lease l.known l.stored
              l.holds w.0 w.1 w.2)
        | inr w ↦ rw w.4 (
            acquire-held (record c { leases = _ }) plugin key run invocation later l.current
              (put l.held invocation lease) lease (condition_leases c plugin _ l.known) l.stored
              (get-put_self c.leases plugin _) (get-put_self l.held invocation lease)
              (ap (λ (x : ExecutionLease). x.capability_key) w.2)
              (ap (λ (x : ExecutionLease). x.run_id) w.2))
      ]
