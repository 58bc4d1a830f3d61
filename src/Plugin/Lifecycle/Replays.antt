-- ===== src/Plugin/Lifecycle/Replays.antt =====
-- A lease that was released does not come back in its active period, whatever is requested.
mod Gone
mod LeaseRequests
use congeries_core.Prelude.{
  ◌&&◌, ℕ, ◌≤◌, String, ◌≡◌, refl, sym, ap, ◌∙◌, true, false, some, none, List, arith, Bool-cases,
  inl, inr, Option,
}
use congeries_core.Prelude.Eq.{◌==◌, string_eq, pair_eq, ==_iff, ==_refl}
use congeries_core.Prelude.Dict.{
  Dict, get, remove, get-put_self, contains, add, contains-add, some_injective,
}
use congeries_core.Runtime.Errors.{ok, err, ok_injective}
use congeries_core.Runtime.Outcome.{Outcome, Any, Outcome-ok, Outcome-second}
use congeries_core.Plugin.Model.{PluginRef, active, CapabilityKey}
use congeries_core.Plugin.Lifecycle.{
  PluginStateRecord, PluginLifecycleController, ExecutionLease, condition, lease_conflict, discover,
  record_of, Bool,
}
use congeries_core.Plugin.Lifecycle.Leases.{lease_of, grant, acquire_with, acquire, release}
use congeries_core.Plugin.Lifecycle.Invariant.{
  Request, discovers, moves, marks, acquires, releases, WellFormed, serve,
}
use congeries_core.Plugin.Lifecycle.Requests.{serve-Keeps}
use congeries_core.Plugin.Lifecycle.Releases.{release-held, known_condition}
use congeries_core.Plugin.Lifecycle.Replays.Gone.{
  Retired, removed_gone, transition-Gone, mark_hook-Gone, discovered_as-Gone,
}
use congeries_core.Plugin.Lifecycle.Replays.LeaseRequests.{acquire-Gone, release-Gone}

-- Accepted requests, one after the other.
pub data Served {M : Type 0} (same_manifest : M → M → Bool) (ref_of : M → PluginRef)
    (lease_id : PluginRef → ℕ → CapabilityKey → String → String → String)
    (c : PluginLifecycleController M) : PluginLifecycleController M → Type 0 where
  no_request : Served same_manifest ref_of lease_id c c
  then_request :
      {middle after : PluginLifecycleController M} (request : Request M)
      → Served same_manifest ref_of lease_id c middle
      → serve same_manifest ref_of lease_id middle request ≡ ok after
      → Served same_manifest ref_of lease_id c after

module _ {M : Type 0} (same_manifest : M → M → Bool) (ref_of : M → PluginRef)
    (lease_id : PluginRef → ℕ → CapabilityKey → String → String → String)
    (name invocation id : String) (epoch : ℕ) (manifest : M) where
  serve-Gone :
      (c : PluginLifecycleController M) (request : Request M)
      → Retired name invocation id epoch manifest c
      → Outcome Any
          (Retired name invocation id epoch manifest)
          (serve same_manifest ref_of lease_id c request)
  unfolding serve discover
  serve-Gone c (discovers found) g =
      discovered_as-Gone name invocation id epoch manifest same_manifest ref_of c found
        (get c.records (ref_of found).name) refl g
  serve-Gone c (moves plugin target expected receipt clear) g =
      Outcome-second
        (transition-Gone name invocation id epoch manifest c plugin target expected receipt clear g)
  serve-Gone c (marks plugin hook) g =
      Outcome-second (mark_hook-Gone name invocation id epoch manifest c plugin hook g)
  serve-Gone c (acquires plugin key run asked now) g =
      Outcome-second (
        acquire-Gone name invocation id epoch manifest ref_of lease_id c plugin key run asked now g)
  serve-Gone c (releases lease) g = release-Gone name invocation id epoch manifest c lease g

  Served-Gone :
      {c after : PluginLifecycleController M}
      → Served same_manifest ref_of lease_id c after
      → Retired name invocation id epoch manifest c
      → Retired name invocation id epoch manifest after
  Served-Gone no_request g = g
  Served-Gone (then_request {middle} request served e) g =
      Outcome-ok (serve-Gone middle request (Served-Gone served g)) e

module _ {M : Type 0} (same_manifest : M → M → Bool) (ref_of : M → PluginRef)
    (lease_id : PluginRef → ℕ → CapabilityKey → String → String → String) where
  Served-WellFormed :
      {c after : PluginLifecycleController M}
      → Served same_manifest ref_of lease_id c after
      → WellFormed ref_of lease_id c
      → WellFormed ref_of lease_id after
  Served-WellFormed no_request w = w
  Served-WellFormed (then_request {middle} request served e) w =
      Outcome-ok (serve-Keeps same_manifest middle request (Served-WellFormed served w)) e

  -- The id of a lease, from what it was given for.
  id_of :
      (r : PluginStateRecord M) (l : ExecutionLease) (id invocation : String)
      → id ≡ lease_id l.plugin l.activation_epoch l.capability_key l.run_id l.invocation_identity
      → l.plugin ≡ ref_of r.manifest
      → l.activation_epoch ≡ r.activation_epoch
      → l.invocation_identity ≡ invocation
      → lease_id (ref_of r.manifest) r.activation_epoch l.capability_key l.run_id invocation ≡ id
  id_of r l id invocation given plugin epoch under_it =
      rw (sym plugin, sym epoch, sym under_it) (sym given)

  released-WellFormed :
      (c : PluginLifecycleController M) (lease : ExecutionLease)
      (after : PluginLifecycleController M)
      → WellFormed ref_of lease_id c
      → release c lease ≡ ok after
      → WellFormed ref_of lease_id after
  unfolding serve
  released-WellFormed c lease after w h =
      Outcome-ok (serve-Keeps same_manifest c (releases lease) w) h

  released-Retired :
      (c : PluginLifecycleController M) (current : PluginStateRecord M)
      (held : Dict String ExecutionLease) (lease : ExecutionLease) (gone : List String)
      (after : PluginLifecycleController M)
      → get c.records lease.plugin.name ≡ some current
      → condition c lease.plugin.name ≡ ok tt
      → lease.activation_epoch ≤ current.activation_epoch
      → get c.leases lease.plugin.name ≡ some held
      → get held lease.invocation_identity ≡ some lease
      → get c.released lease.plugin.name ≡ some gone
      → contains gone lease.lease_id ≡ false
      → release c lease ≡ ok after
      → Retired lease.plugin.name lease.invocation_identity lease.lease_id lease.activation_epoch
          current.manifest after
  released-Retired c current held lease gone after stored unlocked grown holds there free new h =
      rw (ok_injective (sym h ∙ release-held c held lease gone unlocked holds there free new))
        (record {
          current = current;
          stored = stored;
          same = refl;
          grown = grown;
          gone = add gone lease.lease_id;
          released = get-put_self c.released lease.plugin.name _;
          inside =
              contains-add gone lease.lease_id lease.lease_id ∙ rw (==_refl lease.lease_id) refl;
          held = remove held lease.invocation_identity;
          holds = get-put_self c.leases lease.plugin.name _;
          other = λ l k. absurd (removed_gone held lease.invocation_identity l k);
        })

  -- The request for a lease, where its id is released and no such lease is held.
  refused :
      (c : PluginLifecycleController M) (name : String) (current : PluginStateRecord M)
      (held : Dict String ExecutionLease) (gone : List String) (key : CapabilityKey)
      (run invocation : String) (now : ℕ) (there : Option ExecutionLease)
      → condition c name ≡ ok tt
      → get c.records name ≡ some current
      → current.state ≡ active
      → get c.leases name ≡ some held
      → get held invocation ≡ there
      → get c.released name ≡ some gone
      → contains gone (lease_of ref_of lease_id current key run invocation now).lease_id ≡ true
      → ((l : ExecutionLease)
          → there ≡ some l
          → (l.capability_key == key && l.run_id == run) ≡ false)
      → acquire ref_of lease_id c name key run (some invocation) now
        ≡ err (lease_conflict name key.1.0)
  unfolding acquire acquire_with grant record_of
  refused c name current held gone key run invocation now none unlocked stored is holds free
        released inside other =
      rw (unlocked, stored, holds, free, is, released, inside) refl
  refused c name current held gone key run invocation now (some l) unlocked stored is holds taken
        released inside other =
      rw (unlocked, stored, holds, taken, other l refl) refl

  -- A lease of a well-formed controller, which knows its Plugin, is released; whatever requests
  -- are served afterwards: while the Plugin is in the active period in which the lease was given,
  -- the same request for the same invocation is refused with a conflict.
  pub acquire-release :
      (c : PluginLifecycleController M) (current : PluginStateRecord M)
      (held : Dict String ExecutionLease) (lease : ExecutionLease) (gone : List String)
      (after final : PluginLifecycleController M) (later : PluginStateRecord M) (now : ℕ)
      → WellFormed ref_of lease_id c
      → get c.records lease.plugin.name ≡ some current
      → get c.leases lease.plugin.name ≡ some held
      → get held lease.invocation_identity ≡ some lease
      → get c.released lease.plugin.name ≡ some gone
      → contains gone lease.lease_id ≡ false
      → release c lease ≡ ok after
      → Served same_manifest ref_of lease_id after final
      → get final.records lease.plugin.name ≡ some later
      → later.state ≡ active
      → later.activation_epoch ≡ lease.activation_epoch
      → acquire ref_of lease_id final lease.plugin.name lease.capability_key lease.run_id
          (some lease.invocation_identity)
          now
        ≡ err (lease_conflict lease.plugin.name lease.capability_key.1.0)
  acquire-release c current held lease gone after final later now w stored holds there free new h
        served stored' is epoch =
      let name = lease.plugin.name in
      let here = w.at name current stored in
      let given = here.given lease.invocation_identity lease (
        ap (λ d. get d lease.invocation_identity) (some_injective (sym here.holds ∙ holds))
        ∙ there) in
      let start =
        released-Retired c current held lease gone after stored
          (known_condition c name here.guarded) given.epoch holds there free new h in
      let end =
        Served-Gone same_manifest ref_of lease_id name lease.invocation_identity lease.lease_id
          lease.activation_epoch current.manifest served start in
      let well = Served-WellFormed served (released-WellFormed c lease after w h) in
      let at_end = well.at name later stored' in
      let kept : later.manifest ≡ current.manifest =
        ap (λ (x : PluginStateRecord M). x.manifest) (some_injective (sym stored' ∙ end.stored))
        ∙ end.same in
      let named : lease.plugin ≡ ref_of later.manifest = given.plugin ∙ ap ref_of (sym kept) in
      let same_id =
        id_of later lease lease.lease_id lease.invocation_identity given.id named (sym epoch)
          refl in
      refused final name later end.held end.gone lease.capability_key lease.run_id
        lease.invocation_identity now (get end.held lease.invocation_identity)
        (known_condition final name at_end.guarded) stored' is end.holds refl end.released
        (ap (contains end.gone) same_id ∙ end.inside)
        (λ l held_now.
          elim (Bool-cases (l.capability_key == lease.capability_key && l.run_id == lease.run_id)) [
            | inr other ↦ other
            | inl same ↦
                let g = at_end.given lease.invocation_identity l (
                  ap (λ d. get d lease.invocation_identity)
                    (some_injective (sym at_end.holds ∙ end.holds))
                  ∙ held_now) in
                let (young, apart_from) = end.other l held_now in
                absurd (
                  apart_from (
                    sym (
                      id_of later l l.lease_id lease.invocation_identity g.id g.plugin
                        (omega (arith, g.epoch, young, epoch)) g.filed)
                    ∙ ap
                        (λ k.
                          lease_id (ref_of later.manifest) later.activation_epoch k l.run_id
                            lease.invocation_identity)
                        ((==_iff l.capability_key lease.capability_key).0 (ground (arith, same)))
                    ∙ ap
                        (λ k.
                          lease_id (ref_of later.manifest) later.activation_epoch
                            lease.capability_key k lease.invocation_identity)
                        ((==_iff l.run_id lease.run_id).0 (ground (arith, same)))
                    ∙ same_id))
          ])
