-- ===== src/Plugin/Lifecycle/Requests/Known.antt =====
-- The check of a condition and the lookup of a record, with which most requests begin.
use congeries_core.Prelude.{
  String, ◌≡◌, sym, ◌∙◌, inl, inr, true, false, some, Bool-cases, Option-cases,
}
use mathlib.Core.Bool.{false≢true}
use congeries_core.Prelude.Eq.{pair_eq, string_eq}
use congeries_core.Prelude.Dict.{get, contains}
use congeries_core.Runtime.Errors.{Result, ok, ◌>>=◌, ◌>>◌}
use congeries_core.Runtime.Outcome.{Outcome, raises, IsCore, structured}
use congeries_core.Plugin.Lifecycle.{
  PluginStateRecord, PluginLifecycleController, condition, record_of,
}

-- An invariant keeps its Python errors out: a known Plugin has its condition.
pub with_record {ℓ} :
    {M : Type 0} {A : Type ℓ} {Q : A → Type ℓ} (c : PluginLifecycleController M) (id : String)
    (f : PluginStateRecord M → Result A)
    → ((r : PluginStateRecord M) → get c.records id ≡ some r → contains c.conditions id ≡ true)
    → ((r : PluginStateRecord M) → get c.records id ≡ some r → Outcome IsCore Q (f r))
    → Outcome IsCore Q (condition c id >> (record_of c id >>= f))
unfolding condition record_of
with_record c id f guarded k = elim (Option-cases (get c.records id)) [
  | inl e ↦ elim (Bool-cases (contains c.conditions id)) [
    | inl b ↦ rw (e, b) (raises structured)
    | inr b ↦ rw (e, b) (raises structured)
  ]
  | inr (r, e) ↦ rw (e, guarded r e) (k r e)
]

pub condition-ok :
    {M : Type 0} (c : PluginLifecycleController M) (id : String)
    → contains c.conditions id ≡ true
    → condition c id ≡ ok tt
unfolding condition
condition-ok c id h = rw h

-- Without a condition a raise is structured.
pub condition-IsCore {ℓ} :
    {M : Type 0} {B : Type ℓ} {Q : B → Type ℓ} (c : PluginLifecycleController M) (id : String)
    (k : Result B)
    → contains c.conditions id ≡ false
    → ((r : PluginStateRecord M) → get c.records id ≡ some r → contains c.conditions id ≡ true)
    → Outcome IsCore Q (condition c id >> k)
unfolding condition record_of
condition-IsCore c id k h guarded = elim (Option-cases (get c.records id)) [
  | inl e ↦ rw (h, e) (raises structured)
  | inr (r, e) ↦ absurd (false≢true (sym h ∙ guarded r e))
]
