-- ===== src/Plugin/Lifecycle/Invariant.antt =====
-- The invariant of the controller, and that every request keeps it.
use congeries_core.Prelude.{
  ℕ, ◌≤◌, String, ◌≡◌, refl, sym, ap, subst, ◌∙◌, inl, inr, Bool, true, false, ◌||◌, Option, some,
  List, arith, Bool-cases,
}
use congeries_core.Prelude.Eq.{◌==◌, string_eq, ==_iff}
use congeries_core.Prelude.Dict.{Dict, get, put, get-put, get-put_cases, contains}
use congeries_core.Runtime.Errors.{Result, ok, ◌>>=◌}
use congeries_core.Runtime.Outcome.{Outcome, IsCore}
use congeries_core.Plugin.Model.{
  PluginRef, PluginLifecycleState, active, draining, PluginHookName, CapabilityKey, is_state,
}
use congeries_core.Plugin.Lifecycle.{
  PluginStateRecord, PluginLifecycleController, ExecutionLease, RegistrationReceipt, transition,
  mark_hook, discover,
}
use congeries_core.Plugin.Lifecycle.Leases.{acquire, release}

-- What callers may ask of the controller.
pub data Request (M : Type 0) : Type 0 where
  discovers : M → Request M
  moves : String → PluginLifecycleState → Option ℕ → Option RegistrationReceipt → Bool → Request M
  marks : String → PluginHookName → Request M
  acquires : String → CapabilityKey → String → Option String → ℕ → Request M
  releases : ExecutionLease → Request M

module _ {M : Type 0} (ref_of : M → PluginRef)
    (lease_id : PluginRef → ℕ → CapabilityKey → String → String → String) where
  -- A lease that a Plugin with this record may have given.
  pub record Given (r : PluginStateRecord M) (invocation : String) (lease : ExecutionLease)
      : Type 0 where
    pub filed : lease.invocation_identity ≡ invocation
    pub plugin : lease.plugin ≡ ref_of r.manifest
    pub begun : 1 ≤ lease.activation_epoch
    pub epoch : lease.activation_epoch ≤ r.activation_epoch
    pub id :
        lease.lease_id
        ≡ lease_id lease.plugin lease.activation_epoch lease.capability_key lease.run_id
            lease.invocation_identity

  abbrev pub AllGiven : PluginStateRecord M → Dict String ExecutionLease → Type 0
  AllGiven r held =
      (invocation : String) (lease : ExecutionLease)
      → get held invocation ≡ some lease
      → Given r invocation lease

  -- What is stored for one Plugin: all four dictionaries know it, it has been active when it is
  -- active or drains, and its leases are from periods up to the present one.
  pub record Stored (id : String) (r : PluginStateRecord M) (has_condition : Bool)
      (leases : Option (Dict String ExecutionLease)) (released : Option (List String))
      : Type 0 where
    pub named : (ref_of r.manifest).name ≡ id
    pub guarded : has_condition ≡ true
    pub activated :
        (is_state r.state active || is_state r.state draining) ≡ true → 1 ≤ r.activation_epoch
    pub held : Dict String ExecutionLease
    pub holds : leases ≡ some held
    pub given : AllGiven r held
    pub gone : List String
    pub retired : released ≡ some gone

  abbrev pub StoredIn : PluginLifecycleController M → String → PluginStateRecord M → Type 0
  StoredIn c id r = Stored id r (contains c.conditions id) (get c.leases id) (get c.released id)

  pub record WellFormed (c : PluginLifecycleController M) : Type 0 where
    pub at :
        (id : String) (r : PluginStateRecord M)
        → get c.records id ≡ some r
        → Stored id r (contains c.conditions id) (get c.leases id) (get c.released id)
    pub tracked :
        (id : String)
        → contains c.conditions id ≡ true
        → (r : PluginStateRecord M) × (get c.records id ≡ some r)

  abbrev pub Keeps : Result (PluginLifecycleController M) → Type 0
  Keeps = Outcome IsCore WellFormed

  pub put_tracked :
      (records : Dict String (PluginStateRecord M)) (id j : String) (new : PluginStateRecord M)
      → (r : PluginStateRecord M) × (get records j ≡ some r)
      → (r : PluginStateRecord M) × (get (put records id new) j ≡ some r)
  put_tracked records id j new there = elim (Bool-cases (id == j)) [
    | inl hit ↦ (new, get-put records id j new ∙ rw hit refl)
    | inr miss ↦ (there.0, get-put records id j new ∙ rw miss there.1)
  ]

  -- Replacing the record of a known Plugin.
  pub rewritten :
      (c : PluginLifecycleController M) (id : String) (new : PluginStateRecord M)
      → WellFormed c
      → StoredIn c id new
      → WellFormed (record c { records = put c.records id new })
  rewritten c id new w stored = record {
    at = λ j r h. elim (get-put_cases c.records id j new r h) [
      | inl hit ↦ subst (λ k. StoredIn c k r) hit.0 (subst (StoredIn c id) hit.1 stored)
      | inr miss ↦ w.at j r miss.1
    ];
    tracked = λ j h. put_tracked c.records id j new (w.tracked j h);
  }

  -- Replacing the leases of a known Plugin.
  pub released_to :
      (c : PluginLifecycleController M) (id : String) (old : PluginStateRecord M)
      (held : Dict String ExecutionLease) (gone : List String)
      (released : Dict String (List String))
      → WellFormed c
      → get c.records id ≡ some old
      → AllGiven old held
      → get released id ≡ some gone
      → ((j : String) → (id == j) ≡ false → get released j ≡ get c.released j)
      → WellFormed (record c { leases = put c.leases id held; released = released })
  released_to c id old held gone released w stored given mine others = record {
    at = at;
    tracked = w.tracked;
  }
    where
      at :
          (j : String) (r : PluginStateRecord M)
          → get c.records j ≡ some r
          → Stored j r (contains c.conditions j) (get (put c.leases id held) j) (get released j)
      at j r h = elim (Bool-cases (id == j)) [
        | inl hit ↦
            let same = (==_iff id j).0 hit in
            let here = w.at j r h in
            let is : r ≡ old = ground (arith, ap (get c.records) same) in
            record {
              named = here.named;
              guarded = here.guarded;
              activated = here.activated;
              held = held;
              holds = get-put c.leases id j held ∙ rw hit refl;
              given = subst (λ x. AllGiven x held) (sym is) given;
              gone = gone;
              retired = ap (get released) (sym same) ∙ mine;
            }
        | inr miss ↦
            let here = w.at j r h in
            record {
              named = here.named;
              guarded = here.guarded;
              activated = here.activated;
              held = here.held;
              holds = get-put c.leases id j held ∙ rw miss here.holds;
              given = here.given;
              gone = here.gone;
              retired = others j miss ∙ here.retired;
            }
      ]

module _ {M : Type 0} (same_manifest : M → M → Bool) (ref_of : M → PluginRef)
    (lease_id : PluginRef → ℕ → CapabilityKey → String → String → String) where
  -- The state after a request; what the caller gets back is left out.
  unfoldable pub serve :
      PluginLifecycleController M → Request M → Result (PluginLifecycleController M)
  serve c (discovers manifest) = discover same_manifest ref_of c manifest
  serve c (moves plugin target expected receipt clear) =
      transition c plugin target expected receipt clear >>= λ answer. ok answer.1
  serve c (marks plugin hook) = mark_hook c plugin hook >>= λ answer. ok answer.1
  serve c (acquires plugin key run invocation now) =
      acquire ref_of lease_id c plugin key run invocation now >>= λ answer. ok answer.1
  serve c (releases lease) = release c lease
