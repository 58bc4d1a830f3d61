-- ===== src/Plugin/Model.antt =====
-- src/congeries_core/plugin/model.py: versions, references and life cycle states; plugin/errors.py.
-- The equality of versions leaves their build identifiers out, and so does that of references.
use congeries_core.Prelude.{
  ℕ, String, Bool, true, false, ◌&&◌, Option, none, some, List, [], ◌∷◌, nat_beq,
}
use congeries_core.Prelude.Eq.{◌==◌, string_eq}
use congeries_core.Prelude.Dict.{Dict}
use congeries_core.Runtime.Errors.{ErrorCategory, Raised, core}

pub record SemVer : Type 0 where
  pub major : ℕ
  pub minor : ℕ
  pub patch : ℕ
  pub prerelease : List String
  pub build : List String

unfoldable pub same_identifiers : List String → List String → Bool
same_identifiers [] [] = true
same_identifiers [] (y ∷ ys) = false
same_identifiers (x ∷ xs) [] = false
same_identifiers (x ∷ xs) (y ∷ ys) = x == y && same_identifiers xs ys

-- `SemVer.__eq__`
unfoldable pub same_version : SemVer → SemVer → Bool
unfolding same_identifiers
same_version a b =
    nat_beq a.major b.major
    && nat_beq a.minor b.minor
    && nat_beq a.patch b.patch
    && same_identifiers a.prerelease b.prerelease

pub record PluginRef : Type 0 where
  pub name : String
  pub version : SemVer

unfoldable pub same_ref : PluginRef → PluginRef → Bool
unfolding same_version
same_ref a b = a.name == b.name && same_version a.version b.version

pub data PluginLifecycleState : Type 0 where
  discovered validated loaded registered active draining unregistered unloaded :
      PluginLifecycleState

pub data PluginHookName : Type 0 where
  on_load on_activate on_drain on_unload : PluginHookName

-- The place of a state in the enum: `is` compares the members.
abbrev pub state_index : PluginLifecycleState → ℕ
state_index discovered = 0
state_index validated = 1
state_index loaded = 2
state_index registered = 3
state_index active = 4
state_index draining = 5
state_index unregistered = 6
state_index unloaded = 7

unfoldable pub state_value : PluginLifecycleState → String
state_value discovered = "discovered"
state_value validated = "validated"
state_value loaded = "loaded"
state_value registered = "registered"
state_value active = "active"
state_value draining = "draining"
state_value unregistered = "unregistered"
state_value unloaded = "unloaded"

abbrev pub is_state : PluginLifecycleState → PluginLifecycleState → Bool
is_state a b = nat_beq (state_index a) (state_index b)

abbrev pub hook_beq : PluginHookName → PluginHookName → Bool
hook_beq on_load on_load = true
hook_beq on_activate on_activate = true
hook_beq on_drain on_drain = true
hook_beq on_unload on_unload = true
hook_beq _ _ = false

abbrev pub CapabilityKey : Type 0
CapabilityKey = String × (String × String)

-- The metadata that `plugin_error` attaches.
abbrev pub plugin_metadata : Option String → Option String → Dict String String
plugin_metadata none none = []
plugin_metadata (some plugin) none = ("plugin", plugin) ∷ []
plugin_metadata none (some capability) = ("capability", capability) ∷ []
plugin_metadata (some plugin) (some capability) =
    ("plugin", plugin) ∷ ("capability", capability) ∷ []

-- `plugin_error` of literals, which are never empty.
abbrev pub plugin_error :
    ErrorCategory → String → String → Bool → Option String → Option String → Raised
plugin_error category code message retryable plugin capability = core (record {
  category = category;
  code = code;
  message = message;
  retryable = retryable;
  cause_id = none;
  metadata = plugin_metadata plugin capability;
})
