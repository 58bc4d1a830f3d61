-- ===== src/Plugin/Lifecycle/Replays/LeaseRequests.antt =====
-- Requests for leases and releases leave the id of a lease released, and do not file it again.
use congeries_core.Prelude.{
  ◌||◌, ℕ, ◌≤◌, String, ◌≡◌, ◌≢◌, refl, sym, ap, ◌∙◌, true, false, not, some, none, List, arith,
  Bool-cases, inl, inr, Option,
}
use mathlib.Core.Bool.{false≢true}
use congeries_core.Prelude.Eq.{◌==◌, string_eq, pair_eq, ==_iff}
use congeries_core.Prelude.Dict.{
  Dict, get, put, remove, get-put, get-remove, contains, add, contains-add, some_injective,
  get-put_cases,
}
use congeries_core.Runtime.Errors.{ok}
use congeries_core.Runtime.Outcome.{
  Outcome, answers, raises, Any, Outcome-if, Outcome-after, Outcome-map,
}
use congeries_core.Plugin.Model.{PluginRef, CapabilityKey}
use congeries_core.Plugin.Lifecycle.{
  PluginStateRecord, PluginLifecycleController, ExecutionLease, condition, item, Bool,
}
use congeries_core.Plugin.Lifecycle.Leases.{acquire, is_held, release}
use congeries_core.Plugin.Lifecycle.Retries.{acquire-Outcome}
use congeries_core.Plugin.Lifecycle.Releases.{freed}
use congeries_core.Plugin.Lifecycle.Replays.Gone.{Retired, elsewhere}

or_true : (b : Bool) → (b || true) ≡ true
or_true true = refl
or_true false = refl

found_item : {V : Type 0} (o : Option V) (key : String) {v : V} → item o key ≡ ok v → o ≡ some v
found_item none key h = cc
found_item (some v) key h = cc

module _ {M : Type 0} (name invocation id : String) (epoch : ℕ) (manifest : M) where
  abbrev Gone : PluginLifecycleController M → Type 0
  Gone = Retired name invocation id epoch manifest

  -- Other leases and released ids under the name.
  filed :
      (c : PluginLifecycleController M) (plugin : String) (held : Dict String ExecutionLease)
      (released : Dict String (List String)) (gone : List String)
      → Gone c
      → get released name ≡ some gone
      → contains gone id ≡ true
      → ((plugin == name) ≡ true
          → (l : ExecutionLease) → get held invocation ≡ some l
          → (epoch ≤ l.activation_epoch) × (l.lease_id ≢ id))
      → Gone (record c { leases = put c.leases plugin held; released = released })
  filed c plugin held released gone g there inside mine = elim (Bool-cases (plugin == name)) [
    | inl hit ↦ record {
      current = g.current;
      stored = g.stored;
      same = g.same;
      grown = g.grown;
      gone = gone;
      released = there;
      inside = inside;
      held = held;
      holds = get-put c.leases plugin name held ∙ rw hit refl;
      other = mine hit;
    }
    | inr miss ↦ record {
      current = g.current;
      stored = g.stored;
      same = g.same;
      grown = g.grown;
      gone = gone;
      released = there;
      inside = inside;
      held = g.held;
      holds = elsewhere name c.leases plugin held g.held miss g.holds;
      other = g.other;
    }
  ]

  -- What is stored under the name, when it is the plugin's.
  under :
      {V : Type 0} (d : Dict String V) (plugin : String) (v w : V)
      → (plugin == name) ≡ true
      → get d plugin ≡ some v
      → get d name ≡ some w
      → v ≡ w
  under d plugin v w hit a b = some_injective (sym a ∙ ap (get d) ((==_iff plugin name).0 hit) ∙ b)

  granted :
      (c : PluginLifecycleController M) (plugin : String) (current : PluginStateRecord M)
      (lease l : ExecutionLease) (gone : List String) (g : Gone c)
      → (plugin == name) ≡ true
      → get c.records plugin ≡ some current
      → lease.activation_epoch ≡ current.activation_epoch
      → get c.released plugin ≡ some gone
      → contains gone lease.lease_id ≡ false
      → lease ≡ l
      → (epoch ≤ l.activation_epoch) × (l.lease_id ≢ id)
  granted c plugin current lease l gone g hit stored made there new same =
      let is = under c.records plugin current g.current hit stored g.stored in
      let ids = under c.released plugin gone g.gone hit there g.released in
      (
        omega (
          arith,
          g.grown,
          made,
          ap (λ (x : PluginStateRecord M). x.activation_epoch) is,
          ap (λ (x : ExecutionLease). x.activation_epoch) same,
        ),
        λ e. absurd (
            false≢true (
              sym new
              ∙ (ap (contains gone) (ap (λ (x : ExecutionLease). x.lease_id) same ∙ e)
                  ∙ (ap (λ d. contains d id) ids ∙ g.inside)))),
      )

  pub acquire-Gone :
      (ref_of : M → PluginRef) (lease_id : PluginRef → ℕ → CapabilityKey → String → String → String)
      (c : PluginLifecycleController M) (plugin : String) (key : CapabilityKey) (run : String)
      (asked : Option String) (now : ℕ)
      → Gone c
      → Outcome Any (λ answer. Gone answer.1) (acquire ref_of lease_id c plugin key run asked now)
  unfolding acquire
  acquire-Gone ref_of lease_id c plugin key run none now g = raises tt
  acquire-Gone ref_of lease_id c plugin key run (some asked) now g =
      Outcome-map (acquire-Outcome ref_of lease_id c plugin key run asked now) (λ answer l.
        elim l.way [
          | inl (_, _, _, e) ↦ rw e g
          | inr (free, is, made, (gone, there, new), e) ↦ rw e (
              filed c plugin (put l.held asked answer.0) c.released g.gone g g.released g.inside
                (λ hit x h. elim (get-put_cases l.held asked invocation answer.0 x h) [
                  | inl (_, same) ↦
                      granted c plugin l.current answer.0 x gone g hit l.stored
                        (ap (λ (y : ExecutionLease). y.activation_epoch) made) there new same
                  | inr (_, before) ↦ g.other x (
                      ap (λ d. get d invocation)
                        (sym (under c.leases plugin l.held g.held hit l.holds g.holds))
                      ∙ before)
                ]))
        ])

  released-Gone :
      (c : PluginLifecycleController M) (lease : ExecutionLease) (held : Dict String ExecutionLease)
      (gone : List String)
      → get c.leases lease.plugin.name ≡ some held
      → get c.released lease.plugin.name ≡ some gone
      → Gone c
      → Gone (freed c lease held gone)
  released-Gone c lease held gone holds there g =
      let plugin = lease.plugin.name in
      let released = put c.released plugin (add gone lease.lease_id) in
      elim (Bool-cases (plugin == name)) [
        | inl hit ↦
            filed c plugin (remove held lease.invocation_identity) released
              (add gone lease.lease_id) g (get-put c.released plugin name _ ∙ rw hit refl)
              (contains-add gone lease.lease_id id
                ∙ rw (under c.released plugin gone g.gone hit there g.released, g.inside)
                    (or_true (lease.lease_id == id)))
              (λ _ l h. elim (Bool-cases (lease.invocation_identity == invocation)) [
                | inl is ↦
                    cc (rw is at (sym (get-remove held lease.invocation_identity invocation) ∙ h))
                | inr other ↦ g.other l (
                    ap (λ d. get d invocation)
                      (sym (under c.leases plugin held g.held hit holds g.holds))
                    ∙ rw other at (sym (get-remove held lease.invocation_identity invocation) ∙ h))
              ])
        | inr miss ↦
            filed c plugin (remove held lease.invocation_identity) released g.gone g
              (elsewhere name c.released plugin _ g.gone miss g.released) g.inside
              (λ hit. absurd (false≢true (sym miss ∙ hit)))
      ]

  pub release-Gone :
      (c : PluginLifecycleController M) (lease : ExecutionLease)
      → Gone c
      → Outcome Any Gone (release c lease)
  unfolding release
  release-Gone c lease g = Outcome-after (condition c lease.plugin.name) (λ _ _.
      Outcome-after (item (get c.released lease.plugin.name) lease.plugin.name) (λ gone there.
        Outcome-if (contains gone lease.lease_id) (λ _. answers g)
          (λ _.
            Outcome-after (item (get c.leases lease.plugin.name) lease.plugin.name) (λ held holds.
              Outcome-if (not (is_held (get held lease.invocation_identity) lease)) (λ _. raises tt)
                (λ _. answers (
                  released-Gone c lease held gone (found_item _ lease.plugin.name holds)
                    (found_item _ lease.plugin.name there) g))))))
