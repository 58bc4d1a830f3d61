-- ===== src/Plugin/Lifecycle/Requests/Discovery.antt =====
-- `PluginLifecycleController.discover` keeps the invariant of the controller.
use congeries_core.Prelude.{
  ℕ, String, ◌≡◌, refl, sym, ap, subst, ◌∙◌, inl, inr, Bool, true, Option, none, some, [], arith,
  Bool-cases,
}
use congeries_core.Prelude.Eq.{pair_eq, ◌==◌, string_eq, ==_iff}
use congeries_core.Prelude.Dict.{some_injective, get, put, get-put, contains, add, contains-add}
use congeries_core.Runtime.Outcome.{answers, raises, structured, Outcome-if}
use congeries_core.Plugin.Model.{PluginRef, CapabilityKey}
use congeries_core.Plugin.Lifecycle.{
  PluginStateRecord, PluginLifecycleController, register_new, discovered_as, discovered_record,
}
use congeries_core.Plugin.Lifecycle.Invariant.{AllGiven, StoredIn, WellFormed, Keeps}

new_tracked :
    {M : Type 0} (c : PluginLifecycleController M) (id j : String) (new : PluginStateRecord M)
    → ((j : String)
        → contains c.conditions j ≡ true
        → (r : PluginStateRecord M) × (get c.records j ≡ some r))
    → contains (add c.conditions id) j ≡ true
    → (r : PluginStateRecord M) × (get (put c.records id new) j ≡ some r)
new_tracked c id j new tracked h = elim (Bool-cases (id == j)) [
  | inl hit ↦ (new, get-put c.records id j new ∙ rw hit refl)
  | inr miss ↦
      let there = tracked j (ground (arith, contains-add c.conditions id j)) in
      (there.0, get-put c.records id j new ∙ rw miss there.1)
]

none_given :
    {M : Type 0} (ref_of : M → PluginRef)
    (lease_id : PluginRef → ℕ → CapabilityKey → String → String → String) (r : PluginStateRecord M)
    → AllGiven ref_of lease_id r []
unfolding get
none_given ref_of lease_id r i lease h = cc

-- A condition that is added for a known record.
add_tracked :
    {M : Type 0} (c : PluginLifecycleController M) (id j : String) (old : PluginStateRecord M)
    → get c.records id ≡ some old
    → ((j : String)
        → contains c.conditions j ≡ true
        → (r : PluginStateRecord M) × (get c.records j ≡ some r))
    → contains (add c.conditions id) j ≡ true
    → (r : PluginStateRecord M) × (get c.records j ≡ some r)
add_tracked c id j old e tracked h = elim (Bool-cases (id == j)) [
  | inl hit ↦ (old, ap (get c.records) (sym ((==_iff id j).0 hit)) ∙ e)
  | inr miss ↦ tracked j (ground (arith, contains-add c.conditions id j))
]

module _ {M : Type 0} {ref_of : M → PluginRef}
    {lease_id : PluginRef → ℕ → CapabilityKey → String → String → String} where
  register_new-Keeps :
      (c : PluginLifecycleController M) (manifest : M)
      → WellFormed ref_of lease_id c
      → get c.records (ref_of manifest).name ≡ none
      → WellFormed ref_of lease_id (register_new ref_of c manifest)
  unfolding register_new
  register_new-Keeps c manifest w new = record {
    at = λ j r h. elim (Bool-cases ((ref_of manifest).name == j)) [
      | inl hit ↦
          let is =
            get-put c.records (ref_of manifest).name j (discovered_record manifest) ∙ rw hit refl in
          subst (λ x. StoredIn ref_of lease_id (register_new ref_of c manifest) j x)
            (some_injective (sym is ∙ h))
            (record {
              named = (==_iff (ref_of manifest).name j).0 hit;
              guarded = contains-add c.conditions (ref_of manifest).name j ∙ rw hit refl;
              activated = λ f. cc;
              held = [];
              holds = get-put c.leases (ref_of manifest).name j [] ∙ rw hit refl;
              given =
                  λ i lease x. none_given ref_of lease_id (discovered_record manifest) i lease x;
              gone = [];
              retired = get-put c.released (ref_of manifest).name j [] ∙ rw hit refl;
            })
      | inr miss ↦
          let here =
            w.at j r (sym (get-put c.records (ref_of manifest).name j _ ∙ rw miss refl) ∙ h) in
          record {
            named = here.named;
            guarded =
                contains-add c.conditions (ref_of manifest).name j ∙ rw (miss, here.guarded) refl;
            activated = here.activated;
            held = here.held;
            holds = get-put c.leases (ref_of manifest).name j [] ∙ rw miss here.holds;
            given = here.given;
            gone = here.gone;
            retired = get-put c.released (ref_of manifest).name j [] ∙ rw miss here.retired;
          }
    ];
    tracked =
        λ j h. new_tracked c (ref_of manifest).name j (discovered_record manifest) w.tracked h;
  }

  pub discovered_as-Keeps :
      (same_manifest : M → M → Bool) (c : PluginLifecycleController M) (manifest : M)
      (there : Option (PluginStateRecord M))
      → get c.records (ref_of manifest).name ≡ there
      → WellFormed ref_of lease_id c
      → Keeps ref_of lease_id (discovered_as same_manifest ref_of c manifest there)
  unfolding discovered_as
  discovered_as-Keeps same_manifest c manifest none e w =
      answers (register_new-Keeps c manifest w e)
  discovered_as-Keeps same_manifest c manifest (some old) e w =
      Outcome-if (same_manifest old.manifest manifest)
        (λ _. answers (record {
          at = λ id r h.
              let here = w.at id r h in
              record {
                named = here.named;
                guarded = contains-add c.conditions _ id ∙ rw here.guarded (ground arith);
                activated = here.activated;
                held = here.held;
                holds = here.holds;
                given = here.given;
                gone = here.gone;
                retired = here.retired;
              };
          tracked = λ id h. add_tracked c (ref_of manifest).name id old e w.tracked h;
        }))
        (λ _. raises structured)
