-- ===== src/Plugin/Lifecycle/Requests.antt =====
-- Every request keeps the invariant of the controller and raises structured errors only.
mod Known
mod Discovery
mod LeaseChanges
use congeries_core.Plugin.Lifecycle.Requests.LeaseChanges.{acquire-Keeps, release-Keeps}
use congeries_core.Plugin.Lifecycle.Requests.Discovery.{discovered_as-Keeps}
use congeries_core.Plugin.Lifecycle.Requests.Known.{with_record}
use congeries_core.Prelude.{
  ℕ, ◌+◌, ◌≤◌, String, ◌≡◌, refl, sym, ap, subst, ◌∙◌, inl, inr, Bool, true, false, not, ◌&&◌, ◌||◌,
  Option, none, some, [], arith, if◌then◌else◌, Bool-cases, Option-cases,
}
use mathlib.Core.Bool.{false≢true}
use congeries_core.Prelude.Eq.{pair_eq, ◌==◌, string_eq, ==_iff}
use congeries_core.Prelude.Dict.{
  Dict, get, put, remove, get-put, get-put_self, get-put_cases, get-remove, contains, add,
  contains-add,
}
use congeries_core.Runtime.Errors.{Result, ok, ◌>>=◌, ◌>>◌}
use congeries_core.Runtime.Outcome.{
  Outcome, answers, raises, IsCore, structured, Outcome-if, Outcome-second,
}
use congeries_core.Plugin.Model.{
  PluginRef, PluginLifecycleState, active, draining, PluginHookName, CapabilityKey, is_state,
}
use congeries_core.Plugin.Lifecycle.{
  PluginStateRecord, PluginLifecycleController, ExecutionLease, RegistrationReceipt, transition,
  mark_hook, discover, condition, record_of, allowed, entered, marked, is_stale, has_hook,
  register_new, discovered_as, discovered_record,
}
use congeries_core.Plugin.Lifecycle.Leases.{
  lease_of, grant, acquire_with, acquire, is_held, release,
}
use congeries_core.Plugin.Lifecycle.Invariant.{
  Request, discovers, moves, marks, acquires, releases, Given, AllGiven, StoredIn, WellFormed,
  serve, Keeps, rewritten, released_to,
}

-- A draining Plugin was active before.
entered_activated :
    (old target : PluginLifecycleState) (epoch : ℕ)
    → allowed old target ≡ true
    → ((is_state old active || is_state old draining) ≡ true → 1 ≤ epoch)
    → (is_state target active || is_state target draining) ≡ true
    → 1 ≤ (if is_state target active then epoch + 1 else epoch)
entered_activated active draining epoch edge before now = before refl
entered_activated draining draining epoch edge before now = before refl
entered_activated old draining epoch edge before now = cc
entered_activated old active epoch edge before now = omega arith
entered_activated old target epoch edge before now = cc

module _ {M : Type 0} {ref_of : M → PluginRef}
    {lease_id : PluginRef → ℕ → CapabilityKey → String → String → String} where
  later_given :
      (old new : PluginStateRecord M) (held : Dict String ExecutionLease)
      → new.manifest ≡ old.manifest
      → old.activation_epoch ≤ new.activation_epoch
      → AllGiven ref_of lease_id old held
      → AllGiven ref_of lease_id new held
  later_given old new held same grown given invocation lease h =
      let g = given invocation lease h in
      record {
        filed = g.filed;
        plugin = g.plugin ∙ ap ref_of (sym same);
        begun = g.begun;
        epoch = omega (arith, g.epoch);
        id = g.id;
      }

  transition-Keeps :
      (c : PluginLifecycleController M) (plugin : String) (target : PluginLifecycleState)
      (expected : Option ℕ) (receipt : Option RegistrationReceipt) (clear : Bool)
      → WellFormed ref_of lease_id c
      → Outcome IsCore
          (λ answer. WellFormed ref_of lease_id answer.1)
          (transition c plugin target expected receipt clear)
  unfolding transition
  transition-Keeps c plugin target expected receipt clear w =
      with_record c plugin _ (λ r e. (w.at plugin r e).guarded)
        (λ old e.
          let here = w.at plugin old e in
          Outcome-if (is_stale expected old.state_version) (λ _. raises structured)
            (λ _.
              Outcome-if (is_state old.state target) (λ _. answers w)
                (λ _.
                  Outcome-if (not (allowed old.state target)) (λ _. raises structured)
                    (λ edge. answers (
                      rewritten ref_of lease_id c plugin (entered old target receipt clear) w
                        (record {
                          named = here.named;
                          guarded = here.guarded;
                          activated =
                              entered_activated old.state target old.activation_epoch
                                (ground (arith, edge)) here.activated;
                          held = here.held;
                          holds = here.holds;
                          given =
                              later_given old (entered old target receipt clear) here.held refl
                                (ground arith) here.given;
                          gone = here.gone;
                          retired = here.retired;
                        }))))))

  mark_hook-Keeps :
      (c : PluginLifecycleController M) (plugin : String) (hook : PluginHookName)
      → WellFormed ref_of lease_id c
      → Outcome IsCore (λ answer. WellFormed ref_of lease_id answer.1) (mark_hook c plugin hook)
  unfolding mark_hook
  mark_hook-Keeps c plugin hook w =
      with_record c plugin _ (λ r e. (w.at plugin r e).guarded)
        (λ old e.
          let here = w.at plugin old e in
          Outcome-if (has_hook old.successful_hooks hook) (λ _. answers w)
            (λ _. answers (
              rewritten ref_of lease_id c plugin (marked old hook) w (record {
                named = here.named;
                guarded = here.guarded;
                activated = here.activated;
                held = here.held;
                holds = here.holds;
                given = later_given old (marked old hook) here.held refl (omega arith) here.given;
                gone = here.gone;
                retired = here.retired;
              }))))

  -- Every request keeps the invariant, whatever it asks, and what it raises is a structured error:
  -- no dictionary is asked for a key that it lacks, and the assertion in `_condition` never fails.
  pub serve-Keeps :
      (same_manifest : M → M → Bool) (c : PluginLifecycleController M) (request : Request M)
      → WellFormed ref_of lease_id c
      → Keeps ref_of lease_id (serve same_manifest ref_of lease_id c request)
  unfolding serve discover
  serve-Keeps same_manifest c (discovers manifest) w =
      discovered_as-Keeps same_manifest c manifest (get c.records (ref_of manifest).name) refl w
  serve-Keeps same_manifest c (moves plugin target expected receipt clear) w =
      Outcome-second (transition-Keeps c plugin target expected receipt clear w)
  serve-Keeps same_manifest c (marks plugin hook) w =
      Outcome-second (mark_hook-Keeps c plugin hook w)
  serve-Keeps same_manifest c (acquires plugin key run invocation now) w =
      Outcome-second (acquire-Keeps c plugin key run invocation now w)
  serve-Keeps same_manifest c (releases lease) w = release-Keeps c lease w
