-- ===== src/Plugin/Lifecycle/Replays/Gone.antt =====
-- Changes of records and discoveries leave the id of a lease released.
use congeries_core.Plugin.Lifecycle.Records.{RegistrationReceipt}
use congeries_core.Prelude.{
  ℕ, ◌≤◌, String, ◌≡◌, ◌≢◌, refl, sym, ap, ◌∙◌, true, false, some, none, List, arith, Bool-cases,
  inl, inr, Option,
}
use congeries_core.Prelude.Eq.{◌==◌, string_eq, pair_eq, ==_iff, ==_refl}
use congeries_core.Prelude.Dict.{
  Dict, get, put, remove, get-put, get-remove, contains, some_injective,
}
use congeries_core.Runtime.Outcome.{
  Outcome, answers, raises, Any, Outcome-if, Outcome-after, Outcome-map,
}
use congeries_core.Plugin.Model.{PluginRef, PluginLifecycleState, PluginHookName}
use congeries_core.Plugin.Lifecycle.{
  PluginStateRecord, PluginLifecycleController, ExecutionLease, condition, known, transition,
  mark_hook, record_of, has_hook, Bool, marked, discovered_as, register_new,
}
use congeries_core.Plugin.Lifecycle.Transitions.{transition-Outcome, known-eq}

pub removed_gone :
    (held : Dict String ExecutionLease) (invocation : String) (l : ExecutionLease)
    → get (remove held invocation) invocation ≢ some l
removed_gone held invocation l h =
    let none_left : get (remove held invocation) invocation ≡ none =
      get-remove held invocation invocation ∙ rw (==_refl invocation) refl in
    cc

-- In a Plugin with this name and manifest, in this epoch or a later one, the id is released, and
-- what is held under the invocation is another lease, no older than the epoch.
pub record Retired {M : Type 0} (name invocation id : String) (epoch : ℕ) (manifest : M)
    (c : PluginLifecycleController M) : Type 0 where
  pub current : PluginStateRecord M
  pub stored : get c.records name ≡ some current
  pub same : current.manifest ≡ manifest
  pub grown : epoch ≤ current.activation_epoch
  pub gone : List String
  pub released : get c.released name ≡ some gone
  pub inside : contains gone id ≡ true
  pub held : Dict String ExecutionLease
  pub holds : get c.leases name ≡ some held
  pub other :
      (l : ExecutionLease)
      → get held invocation ≡ some l
      → (epoch ≤ l.activation_epoch) × (l.lease_id ≢ id)

-- `put` under another name.
pub elsewhere :
    {V : Type 0} (name : String) (d : Dict String V) (plugin : String) (v w : V)
    → (plugin == name) ≡ false
    → get d name ≡ some w
    → get (put d plugin v) name ≡ some w
elsewhere name d plugin v w miss there = get-put d plugin name v ∙ rw miss there

module _ {M : Type 0} (name invocation id : String) (epoch : ℕ) (manifest : M) where
  abbrev Gone : PluginLifecycleController M → Type 0
  Gone = Retired name invocation id epoch manifest

  rewritten :
      (c : PluginLifecycleController M) (plugin : String) (old new : PluginStateRecord M)
      → get c.records plugin ≡ some old
      → new.manifest ≡ old.manifest
      → old.activation_epoch ≤ new.activation_epoch
      → Gone c
      → Gone (record c { records = put c.records plugin new })
  rewritten c plugin old new there kept grows g = elim (Bool-cases (plugin == name)) [
    | inl hit ↦
        let is : old ≡ g.current =
          some_injective (sym there ∙ ap (get c.records) ((==_iff plugin name).0 hit) ∙ g.stored) in
        record {
          current = new;
          stored = get-put c.records plugin name new ∙ rw hit refl;
          same = kept ∙ ap (λ (x : PluginStateRecord M). x.manifest) is ∙ g.same;
          grown =
              omega
                (arith, grows, g.grown, ap (λ (x : PluginStateRecord M). x.activation_epoch) is);
          gone = g.gone;
          released = g.released;
          inside = g.inside;
          held = g.held;
          holds = g.holds;
          other = g.other;
        }
    | inr miss ↦ record {
      current = g.current;
      stored = get-put c.records plugin name new ∙ rw miss g.stored;
      same = g.same;
      grown = g.grown;
      gone = g.gone;
      released = g.released;
      inside = g.inside;
      held = g.held;
      holds = g.holds;
      other = g.other;
    }
  ]

  pub transition-Gone :
      (c : PluginLifecycleController M) (plugin : String) (target : PluginLifecycleState)
      (expected : Option ℕ) (receipt : Option RegistrationReceipt) (clear : Bool)
      → Gone c
      → Outcome Any (λ answer. Gone answer.1) (transition c plugin target expected receipt clear)
  transition-Gone c plugin target expected receipt clear g =
      Outcome-map (transition-Outcome c plugin target expected receipt clear) (λ answer a.
        elim a.change [
          | inl (_, e) ↦ rw e g
          | inr (_, after, e) ↦ rw e (
              rewritten c plugin a.old answer.0 a.stored after.manifest
                (elim after.epoch [
                  | inl (_, up) ↦ omega (arith, up)
                  | inr (_, still) ↦ omega (arith, still)
                ])
                g)
        ])

  pub mark_hook-Gone :
      (c : PluginLifecycleController M) (plugin : String) (hook : PluginHookName)
      → Gone c
      → Outcome Any (λ answer. Gone answer.1) (mark_hook c plugin hook)
  unfolding mark_hook record_of
  mark_hook-Gone c plugin hook g = Outcome-after (condition c plugin) (λ _ _.
      Outcome-after (known plugin (get c.records plugin)) (λ old found.
        Outcome-if (has_hook old.successful_hooks hook) (λ _. answers g)
          (λ _. answers (
            rewritten c plugin old (marked old hook) (known-eq plugin _ found) refl (omega arith)
              g))))

  apart :
      (c : PluginLifecycleController M) (plugin : String)
      → Gone c
      → get c.records plugin ≡ none
      → (plugin == name) ≡ false
  apart c plugin g free = elim (Bool-cases (plugin == name)) [
    | inl hit ↦ cc (ap (get c.records) ((==_iff plugin name).0 hit), free, g.stored)
    | inr miss ↦ miss
  ]

  pub discovered_as-Gone :
      (same_manifest : M → M → Bool) (ref_of : M → PluginRef) (c : PluginLifecycleController M)
      (found : M) (there : Option (PluginStateRecord M))
      → get c.records (ref_of found).name ≡ there
      → Gone c
      → Outcome Any Gone (discovered_as same_manifest ref_of c found there)
  unfolding discovered_as register_new
  discovered_as-Gone same_manifest ref_of c found none free g =
      let miss = apart c (ref_of found).name g free in
      answers (record {
        current = g.current;
        stored = elsewhere name c.records (ref_of found).name _ g.current miss g.stored;
        same = g.same;
        grown = g.grown;
        gone = g.gone;
        released = elsewhere name c.released (ref_of found).name _ g.gone miss g.released;
        inside = g.inside;
        held = g.held;
        holds = elsewhere name c.leases (ref_of found).name _ g.held miss g.holds;
        other = g.other;
      })
  discovered_as-Gone same_manifest ref_of c found (some existing) there g =
      Outcome-if (same_manifest existing.manifest found)
        (λ _. answers (record {
          current = g.current;
          stored = g.stored;
          same = g.same;
          grown = g.grown;
          gone = g.gone;
          released = g.released;
          inside = g.inside;
          held = g.held;
          holds = g.holds;
          other = g.other;
        }))
        (λ _. raises tt)
