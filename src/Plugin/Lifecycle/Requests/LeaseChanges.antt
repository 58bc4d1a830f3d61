-- ===== src/Plugin/Lifecycle/Requests/LeaseChanges.antt =====
-- `PluginLifecycleController.acquire` and `release` keep the invariant of the controller.
use congeries_core.Plugin.Lifecycle.Requests.Known.{with_record, condition-ok, condition-IsCore}
use congeries_core.Prelude.{
  ℕ, ◌≤◌, String, ◌≡◌, refl, subst, ◌∙◌, inl, inr, not, ◌&&◌, Option, none, some, arith, Bool-cases,
}
use congeries_core.Prelude.Eq.{pair_eq, ◌==◌, string_eq}
use congeries_core.Prelude.Dict.{
  Dict, get, put, remove, get-put, get-put_self, get-put_cases, get-remove, contains, add,
}
use congeries_core.Runtime.Outcome.{Outcome, answers, raises, IsCore, structured, Outcome-if}
use congeries_core.Plugin.Model.{PluginRef, active, draining, CapabilityKey, is_state}
use congeries_core.Plugin.Lifecycle.{PluginStateRecord, PluginLifecycleController, ExecutionLease}
use congeries_core.Plugin.Lifecycle.Leases.{
  lease_of, grant, acquire_with, acquire, is_held, release,
}
use congeries_core.Plugin.Lifecycle.Invariant.{Given, AllGiven, WellFormed, released_to}

module _ {M : Type 0} {ref_of : M → PluginRef}
    {lease_id : PluginRef → ℕ → CapabilityKey → String → String → String} where
  put_given :
      (old : PluginStateRecord M) (key : CapabilityKey) (run invocation : String) (now : ℕ)
      (held : Dict String ExecutionLease)
      → 1 ≤ old.activation_epoch
      → AllGiven ref_of lease_id old held
      → AllGiven ref_of lease_id old
          (put held invocation (lease_of ref_of lease_id old key run invocation now))
  put_given old key run invocation now held begun given j lease h =
      elim (get-put_cases held invocation j (lease_of ref_of lease_id old key run invocation now)
        lease h) [
          | inl hit ↦ subst (Given ref_of lease_id old j) hit.1 (record {
            filed = hit.0;
            plugin = refl;
            begun = begun;
            epoch = omega arith;
            id = refl;
          })
          | inr miss ↦ given j lease miss.1
        ]

  -- Nothing is held under the invocation: the new lease is one of the present period.
  grant-Keeps :
      (c : PluginLifecycleController M) (plugin : String) (key : CapabilityKey)
      (run invocation : String) (now : ℕ) (old : PluginStateRecord M)
      (held : Dict String ExecutionLease)
      → WellFormed ref_of lease_id c
      → get c.records plugin ≡ some old
      → get c.leases plugin ≡ some held
      → Outcome IsCore
          (λ answer. WellFormed ref_of lease_id answer.1)
          (grant ref_of lease_id c plugin key run invocation now old held)
  unfolding grant
  grant-Keeps c plugin key run invocation now old held w e h =
      let here = w.at plugin old e in
      Outcome-if (is_state old.state draining) (λ _. raises structured)
        (λ _.
          Outcome-if (not (is_state old.state active)) (λ _. raises structured)
            (λ is_active. rw here.retired (
              Outcome-if (contains here.gone _) (λ _. raises structured)
                (λ _. answers (
                  released_to ref_of lease_id c plugin old _ here.gone c.released w e
                    (put_given old key run invocation now held
                      (here.activated (ground (arith, is_active)))
                      (subst (AllGiven ref_of lease_id old) (ground (arith, here.holds))
                        here.given))
                    here.retired (λ _ _. refl))))))

  acquire_with-Keeps :
      (c : PluginLifecycleController M) (plugin : String) (key : CapabilityKey)
      (run invocation : String) (now : ℕ) (old : PluginStateRecord M)
      (held : Dict String ExecutionLease) (there : Option ExecutionLease)
      → WellFormed ref_of lease_id c
      → get c.records plugin ≡ some old
      → get c.leases plugin ≡ some held
      → Outcome IsCore
          (λ answer. WellFormed ref_of lease_id answer.1)
          (acquire_with ref_of lease_id c plugin key run invocation now old held there)
  unfolding acquire_with
  acquire_with-Keeps c plugin key run invocation now old held none w e h =
      grant-Keeps c plugin key run invocation now old held w e h
  acquire_with-Keeps c plugin key run invocation now old held (some lease) w e h =
      Outcome-if (lease.capability_key == key && lease.run_id == run) (λ _. answers w)
        (λ _. raises structured)

  pub acquire-Keeps :
      (c : PluginLifecycleController M) (plugin : String) (key : CapabilityKey) (run : String)
      (invocation : Option String) (now : ℕ)
      → WellFormed ref_of lease_id c
      → Outcome IsCore
          (λ answer. WellFormed ref_of lease_id answer.1)
          (acquire ref_of lease_id c plugin key run invocation now)
  unfolding acquire
  acquire-Keeps c plugin key run none now w = raises structured
  acquire-Keeps c plugin key run (some invocation) now w =
      with_record c plugin _ (λ r e. (w.at plugin r e).guarded)
        (λ old e.
          let here = w.at plugin old e in
          rw here.holds (
            acquire_with-Keeps c plugin key run invocation now old here.held
              (get here.held invocation) w e here.holds))

  removed_given :
      (old : PluginStateRecord M) (held : Dict String ExecutionLease) (invocation : String)
      → AllGiven ref_of lease_id old held
      → AllGiven ref_of lease_id old (remove held invocation)
  removed_given old held invocation given j lease h =
      given j lease (ground (arith, get-remove held invocation j))

  pub release-Keeps :
      (c : PluginLifecycleController M) (lease : ExecutionLease)
      → WellFormed ref_of lease_id c
      → Outcome IsCore (WellFormed ref_of lease_id) (release c lease)
  unfolding release
  release-Keeps c lease w = elim (Bool-cases (contains c.conditions lease.plugin.name)) [
    | inl tracked ↦ rw (condition-ok c lease.plugin.name tracked) (
        let (old, e) = w.tracked lease.plugin.name tracked in
        let here = w.at lease.plugin.name old e in
        rw (here.retired, here.holds)
          (Outcome-if (contains here.gone lease.lease_id) (λ _. answers w)
            (λ _.
              Outcome-if (not (is_held (get here.held lease.invocation_identity) lease))
                (λ _. raises structured)
                (λ _. answers (
                  released_to ref_of lease_id c lease.plugin.name old _
                    (add here.gone lease.lease_id) _ w e
                    (removed_given old here.held lease.invocation_identity here.given)
                    (get-put_self c.released lease.plugin.name _)
                    (λ j miss. get-put c.released lease.plugin.name j _ ∙ rw miss refl))))))
    | inr unknown ↦
        condition-IsCore c lease.plugin.name _ unknown (λ r e. (w.at lease.plugin.name r e).guarded)
  ]
