-- ===== src/Tests/PluginTests.antt =====
-- Tests of plugin/lifecycle.py.
use congeries_core.Tests.Samples.{demo, tool}
use congeries_core.Prelude.{
  ℕ, String, ◌≡◌, refl, subst, true, false, none, some, [], ◌∷◌, arith, Bool-cases, inl, inr,
}
use congeries_core.Prelude.Eq.{◌==◌, string_eq, pair_eq, ==_iff}
use congeries_core.Prelude.Dict.{get, put, remove, contains, add}
use congeries_core.Runtime.Errors.{ok, err}
use congeries_core.Plugin.Model.{
  PluginRef, same_ref, same_version, same_identifiers, active, draining, CapabilityKey,
}
use congeries_core.Plugin.Lifecycle.{
  PluginStateRecord, PluginLifecycleController, ExecutionLease, transition, condition, record_of,
  entered, same_lease, lease_conflict,
}
use congeries_core.Plugin.Lifecycle.Leases.{acquire, acquire_with, grant, release}
use congeries_core.Plugin.Lifecycle.Invariant.{
  releases, acquires, WellFormed, Keeps, serve, StoredIn, Given,
}
use congeries_core.Plugin.Lifecycle.Requests
use congeries_core.Plugin.Lifecycle.Transitions
use congeries_core.Plugin.Lifecycle.Transitions.{Accepted, Life, born, lives, enters}
use congeries_core.Plugin.Lifecycle.Retries
use congeries_core.Plugin.Lifecycle.Retries.{Leased}
use congeries_core.Plugin.Lifecycle.Releases
use congeries_core.Plugin.Lifecycle.Replays
use congeries_core.Plugin.Lifecycle.Replays.{no_request, then_request, Served}

-- Manifests that are references, and leases named for their invocation.
abbrev own_ref : PluginRef → PluginRef
own_ref m = m

abbrev own_id : PluginRef → ℕ → CapabilityKey → String → String → String
own_id plugin epoch key run invocation = invocation

abbrev active_record : PluginStateRecord PluginRef
active_record = record {
  manifest = demo;
  state = active;
  state_version = 4;
  registration_receipt = none;
  activation_epoch = 1;
  successful_hooks = [];
}

abbrev lease : ExecutionLease
lease = record {
  lease_id = "call";
  plugin = demo;
  activation_epoch = 1;
  capability_key = tool;
  run_id = "r";
  invocation_identity = "call";
  acquired_at = 9;
}

abbrev idle : PluginLifecycleController PluginRef
idle = record {
  records = ("demo", active_record) ∷ [];
  conditions = "demo" ∷ [];
  leases = ("demo", []) ∷ [];
  released = ("demo", []) ∷ [];
}

abbrev busy : PluginLifecycleController PluginRef
busy = record idle { leases = ("demo", ("call", lease) ∷ []) ∷ [] }

abbrev done : PluginLifecycleController PluginRef
done = record idle { released = ("demo", "call" ∷ []) ∷ [] }

leases : acquire own_ref own_id idle "demo" tool "r" (some "call") 9 ≡ ok (lease, busy)
unfolding acquire acquire_with grant condition record_of get put contains ◌==◌
leases = refl

gives_back : release busy lease ≡ ok done
unfolding release condition record_of get put remove contains add ◌==◌ same_lease same_ref
    same_version same_identifiers
gives_back = refl

abbrev drained_record : PluginStateRecord PluginRef
drained_record = entered active_record draining none false

drains :
    transition idle "demo" draining (some 4) none false
    ≡ ok (drained_record, record idle { records = ("demo", drained_record) ∷ [] })
unfolding transition condition record_of get put contains ◌==◌
drains = refl

lease-Given :
    (invocation : String) (l : ExecutionLease)
    → get (("call", lease) ∷ []) invocation ≡ some l
    → Given own_ref own_id active_record invocation l
unfolding get
lease-Given invocation l h = elim (Bool-cases ("call" == invocation)) [
  | inl hit ↦
      let is : lease ≡ l = ground arith in
      subst (Given own_ref own_id active_record invocation) is (record {
        filed = (==_iff "call" invocation).0 hit;
        plugin = refl;
        begun = omega arith;
        epoch = omega arith;
        id = refl;
      })
  | inr miss ↦ cc (rw miss at h)
]

busy-Stored : StoredIn own_ref own_id busy "demo" active_record
unfolding get contains ◌==◌
busy-Stored = record {
  named = refl;
  guarded = refl;
  activated = λ h. omega arith;
  held = ("call", lease) ∷ [];
  holds = refl;
  given = lease-Given;
  gone = [];
  retired = refl;
}

busy-at :
    (id : String) (r : PluginStateRecord PluginRef)
    → get busy.records id ≡ some r
    → StoredIn own_ref own_id busy id r
unfolding get
busy-at id r h = elim (Bool-cases ("demo" == id)) [
  | inl hit ↦
      let is : active_record ≡ r = ground arith in
      subst (λ k. StoredIn own_ref own_id busy k r) ((==_iff "demo" id).0 hit)
        (subst (StoredIn own_ref own_id busy "demo") is busy-Stored)
  | inr miss ↦ cc (rw miss at h)
]

busy-tracked :
    (id : String)
    → contains busy.conditions id ≡ true
    → (r : PluginStateRecord PluginRef) × (get busy.records id ≡ some r)
unfolding get contains
busy-tracked id h = elim (Bool-cases ("demo" == id)) [
  | inl hit ↦ (active_record, rw hit refl)
  | inr miss ↦ cc (rw miss at h)
]

busy-WellFormed : WellFormed own_ref own_id busy
busy-WellFormed = record { at = busy-at; tracked = busy-tracked }

serve-Keeps_example :
    Keeps own_ref own_id
      (serve same_ref own_ref own_id busy (acquires "demo" tool "r" (some "more") 10))
serve-Keeps_example =
    Requests.serve-Keeps same_ref busy (acquires "demo" tool "r" (some "more") 10) busy-WellFormed

transition-Accepted_example :
    Accepted idle "demo" draining
      (some 4)
      none
      false
      (drained_record, record idle { records = ("demo", drained_record) ∷ [] })
transition-Accepted_example =
    Transitions.transition-Accepted idle "demo" draining (some 4) none false
      (drained_record, record idle { records = ("demo", drained_record) ∷ [] }) drains

abbrev again_active : PluginStateRecord PluginRef
again_active = entered drained_record active none false

abbrev one_activation : Life drained_record again_active 1 1
one_activation = lives {old = drained_record} born (enters active none false refl)

acquire-Leased_example : Leased own_ref own_id idle "demo" tool "r" "call" 9 (lease, busy)
acquire-Leased_example =
    Retries.acquire-Leased own_ref own_id idle "demo" tool "r" "call" 9 (lease, busy) leases

acquire-acquire_example :
    acquire own_ref own_id busy "demo" tool "r" (some "call") 20 ≡ ok (lease, busy)
acquire-acquire_example =
    Retries.acquire-acquire own_ref own_id idle "demo" tool "r" "call" 9 20 lease busy leases

release-release_example : release done lease ≡ ok done
release-release_example = Releases.release-release busy lease done gives_back

abbrev other_lease : ExecutionLease
other_lease = record lease { lease_id = "more"; invocation_identity = "more"; acquired_at = 10 }

abbrev shared : PluginLifecycleController PluginRef
shared = record done { leases = ("demo", ("more", other_lease) ∷ []) ∷ [] }

abbrev freed_twice : PluginLifecycleController PluginRef
freed_twice = record idle { released = ("demo", "more" ∷ "call" ∷ []) ∷ [] }

-- Another lease is given and released.
one_more : Served same_ref own_ref own_id done freed_twice
unfolding serve acquire acquire_with grant release condition record_of get put remove contains add
    ◌==◌ same_lease same_ref same_version same_identifiers
one_more =
    then_request (releases other_lease)
      (then_request {middle = done} {after = shared} (acquires "demo" tool "r" (some "more") 10)
        no_request refl)
      refl

acquire-release_example :
    acquire own_ref own_id freed_twice "demo" tool "r" (some "call") 20
    ≡ err (lease_conflict "demo" "demo.echo")
unfolding get contains ◌==◌
acquire-release_example =
    Replays.acquire-release same_ref own_ref own_id busy active_record (("call", lease) ∷ []) lease
      [] done freed_twice active_record 20 busy-WellFormed refl refl refl refl refl gives_back
      one_more refl refl refl
