-- ===== src/Plugin/Lifecycle/Transitions.antt =====
-- The life cycle as a step relation on the record of one Plugin, and its histories.
use congeries_core.Runtime.Outcome.{
  Outcome, Outcome-ok, Any, Outcome-after, Outcome-if, raises, answers,
}
use congeries_core.Prelude.{
  ℕ, suc, ◌+◌, String, ◌≡◌, refl, ◌⊎◌, inl, inr, Bool, true, false, not, ◌&&◌, Option, none, some,
  if◌then◌else◌, ◌≢◌, ap, not-false, Bool-cases, or_option, sym, nat_beq_iff, ◌∙◌,
}
use congeries_core.Prelude.Eq.{string_eq}
use congeries_core.Prelude.Dict.{get, put}
use congeries_core.Runtime.Errors.{ok}
use congeries_core.Plugin.Model.{
  PluginLifecycleState, discovered, validated, loaded, registered, active, draining, unregistered,
  unloaded, PluginHookName, is_state,
}
use mathlib.Core.Bool.{false≢true}
use congeries_core.Plugin.Lifecycle.{
  PluginStateRecord, PluginLifecycleController, RegistrationReceipt, transition, condition,
  record_of, known, allowed, entered, marked, is_stale,
}

-- The transitions of RFC-0002, section 6, with the return from draining.
pub data Moves : PluginLifecycleState → PluginLifecycleState → Type 0 where
  validates : Moves discovered validated
  loads : Moves validated loaded
  registers : Moves loaded registered
  activates : Moves registered active
  gives_up : Moves registered unregistered
  drains : Moves active draining
  cancels_drain : Moves draining active
  unregisters : Moves draining unregistered
  unloads : Moves unregistered unloaded

allowed-Moves : (a b : PluginLifecycleState) → allowed a b ≡ true → Moves a b
allowed-Moves discovered validated h = validates
allowed-Moves validated loaded h = loads
allowed-Moves loaded registered h = registers
allowed-Moves registered active h = activates
allowed-Moves registered unregistered h = gives_up
allowed-Moves active draining h = drains
allowed-Moves draining active h = cancels_drain
allowed-Moves draining unregistered h = unregisters
allowed-Moves unregistered unloaded h = unloads
allowed-Moves a b h = cc

same_state : (a b : PluginLifecycleState) → is_state a b ≡ true → a ≡ b
same_state discovered discovered h = refl
same_state validated validated h = refl
same_state loaded loaded h = refl
same_state registered registered h = refl
same_state active active h = refl
same_state draining draining h = refl
same_state unregistered unregistered h = refl
same_state unloaded unloaded h = refl
same_state a b h = cc

not_stale :
    (expected : Option ℕ) (version : ℕ)
    → is_stale expected version ≡ false
    → (expected ≡ none) ⊎ (expected ≡ some version)
not_stale none version h = inl refl
not_stale (some v) version h = inr (ap some (sym ((nat_beq_iff version v).0 (not-false _ h))))

entered_epoch :
    (target : PluginLifecycleState) (epoch : ℕ)
    → ((target ≡ active) × ((if is_state target active then epoch + 1 else epoch) ≡ epoch + 1))
      ⊎ ((target ≢ active) × ((if is_state target active then epoch + 1 else epoch) ≡ epoch))
entered_epoch target epoch = elim (Bool-cases (is_state target active)) [
  | inl is ↦ inl (same_state target active is, rw is refl)
  | inr other ↦
      inr (λ e. absurd (false≢true (sym other ∙ ap (λ t. is_state t active) e)), rw other refl)
]

module _ {M : Type 0} where
  -- What one call may do to the record: nothing, move on, or note a hook.
  pub data Advance (old : PluginStateRecord M) : PluginStateRecord M → Type 0 where
    enters :
        (target : PluginLifecycleState) (receipt : Option RegistrationReceipt) (clear : Bool)
        → allowed old.state target ≡ true
        → Advance old (entered old target receipt clear)
    notes : (hook : PluginHookName) → Advance old (marked old hook)

  -- The record of a Plugin that has entered a state: one version on, with a new epoch if it became
  -- active, with the receipt that came along unless it is cleared, and otherwise the same.
  pub record EnteredAs (target : PluginLifecycleState) (receipt : Option RegistrationReceipt)
      (clear : Bool) (old new : PluginStateRecord M) : Type 0 where
    pub state : new.state ≡ target
    pub version : new.state_version ≡ old.state_version + 1
    pub epoch :
        ((target ≡ active) × (new.activation_epoch ≡ old.activation_epoch + 1))
        ⊎ ((target ≢ active) × (new.activation_epoch ≡ old.activation_epoch))
    pub receipt_kept :
        new.registration_receipt
        ≡ (if clear then none else or_option receipt old.registration_receipt)
    pub manifest : new.manifest ≡ old.manifest
    pub hooks : new.successful_hooks ≡ old.successful_hooks

  -- What an accepted transition found and did.
  pub record Accepted (c : PluginLifecycleController M) (plugin : String)
      (target : PluginLifecycleState) (expected : Option ℕ) (receipt : Option RegistrationReceipt)
      (clear : Bool) (answer : PluginStateRecord M × PluginLifecycleController M) : Type 0 where
    pub old : PluginStateRecord M
    pub stored : get c.records plugin ≡ some old
    pub fresh : (expected ≡ none) ⊎ (expected ≡ some old.state_version)
    pub change :
        ((old.state ≡ target) × (answer ≡ (old, c)))
        ⊎ (Moves old.state target
            × EnteredAs target receipt clear old answer.0
            × (answer.1 ≡ record c { records = put c.records plugin answer.0 }))

  pub known-eq :
      (plugin : String) (o : Option (PluginStateRecord M)) {r : PluginStateRecord M}
      → known plugin o ≡ ok r
      → o ≡ some r
  known-eq plugin none h = cc
  known-eq plugin (some r) h = cc

  pub transition-Outcome :
      (c : PluginLifecycleController M) (plugin : String) (target : PluginLifecycleState)
      (expected : Option ℕ) (receipt : Option RegistrationReceipt) (clear : Bool)
      → Outcome Any
          (Accepted c plugin target expected receipt clear)
          (transition c plugin target expected receipt clear)
  unfolding transition record_of
  transition-Outcome c plugin target expected receipt clear =
      Outcome-after (condition c plugin) (λ _ _.
        Outcome-after (known plugin (get c.records plugin)) (λ old found.
          Outcome-if (is_stale expected old.state_version) (λ _. raises tt)
            (λ fresh.
              Outcome-if (is_state old.state target)
                (λ same. answers (record {
                  old = old;
                  stored = known-eq plugin _ found;
                  fresh = not_stale expected old.state_version fresh;
                  change = inl (same_state old.state target same, refl);
                }))
                (λ other.
                  Outcome-if (not (allowed old.state target)) (λ _. raises tt)
                    (λ edge. answers (record {
                      old = old;
                      stored = known-eq plugin _ found;
                      fresh = not_stale expected old.state_version fresh;
                      change = inr (
                        allowed-Moves old.state target (not-false _ edge),
                        record {
                          state = refl;
                          version = refl;
                          epoch = entered_epoch target old.activation_epoch;
                          receipt_kept = refl;
                          manifest = refl;
                          hooks = refl;
                        },
                        refl,
                      );
                    }))))))

  -- A transition that is accepted was given no version or the one of the record. It found the
  -- Plugin in the target state and changed nothing, or it is one of RFC-0002 and replaced just the
  -- record of that Plugin, which is in the target state now, one version on, in a new epoch if and
  -- only if it became active.
  pub transition-Accepted :
      (c : PluginLifecycleController M) (plugin : String) (target : PluginLifecycleState)
      (expected : Option ℕ) (receipt : Option RegistrationReceipt) (clear : Bool)
      (answer : PluginStateRecord M × PluginLifecycleController M)
      → transition c plugin target expected receipt clear ≡ ok answer
      → Accepted c plugin target expected receipt clear answer
  transition-Accepted c plugin target expected receipt clear answer =
      Outcome-ok (transition-Outcome c plugin target expected receipt clear)

  -- The records that one Plugin runs through, with the number of times it became active.
  pub data Life (first : PluginStateRecord M) : PluginStateRecord M → ℕ → ℕ → Type 0 where
    born : Life first first 0 0
    lives :
        {old new : PluginStateRecord M} {steps activations : ℕ}
        → Life first old steps activations
        → Advance old new
        → Life first new (suc steps) (
            if not (is_state old.state active) && is_state new.state active
            then suc activations
            else activations)
