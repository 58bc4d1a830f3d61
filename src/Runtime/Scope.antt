-- ===== src/Runtime/Scope.antt =====
-- src/congeries_core/runtime/scope.py: namespaced references and their ancestry.
-- The spelling rules of `__post_init__` are a regular expression; the depth limit is modelled.
pub mod Laws
use congeries_core.Prelude.{
  ℕ, zero, suc, ◌+◌, String, ◌≡◌, refl, Bool, true, false, ◌||◌, Option, none, some, List, [], ◌∷◌,
  ltb, any, if◌then◌else◌,
}
use congeries_core.Prelude.Eq.{Eq, ◌==◌, pair_eq, string_eq}
use congeries_core.Runtime.Errors.{Result, ok, err, value_error, core_error, denied}

-- `parent` is the constructor: a root scope has none.
pub data ScopeRef : Type 0 where
  root : (namespace kind id : String) → ScopeRef
  child : (namespace kind id : String) → ScopeRef → ScopeRef

pub data CoreScopeKind : Type 0 where
  run workspace session agent : CoreScopeKind

unfoldable pub kind_value : CoreScopeKind → String
kind_value run = "run"
kind_value workspace = "workspace"
kind_value session = "session"
kind_value agent = "agent"

-- `ScopeRef.core`
unfoldable pub core_scope : CoreScopeKind → String → Option ScopeRef → ScopeRef
unfolding kind_value
core_scope k id none = root "core" (kind_value k) id
core_scope k id (some parent) = child "core" (kind_value k) id parent

abbrev pub Key : Type 0
Key = String × (String × String)

unfoldable pub key : ScopeRef → Key
key (root ns k id) = (ns, (k, id))
key (child ns k id p) = (ns, (k, id))

unfoldable pub parent : ScopeRef → Option ScopeRef
parent (root ns k id) = none
parent (child ns k id p) = some p

-- The `while` loop of `depth`, whose counter starts at one.
unfoldable pub depth : ScopeRef → ℕ
depth (root ns k id) = 1
depth (child ns k id p) = suc (depth p)

abbrev pub max_depth : ℕ
max_depth = 64

-- The ancestry check of `__post_init__`.
unfoldable pub check_depth : ScopeRef → Result ScopeRef
check_depth s =
    if ltb max_depth (depth s) then err (value_error "scope ancestry exceeds 64 levels") else ok s

-- The `while` loop: the scope itself, then its parent, and so on.
unfoldable pub is_equal_or_descendant_of : ScopeRef → ScopeRef → Bool
is_equal_or_descendant_of (root ns k id) other = (ns, (k, id)) == key other
is_equal_or_descendant_of (child ns k id p) other =
    (ns, (k, id)) == key other || is_equal_or_descendant_of p other

unfoldable pub require_narrower_than : ScopeRef → ScopeRef → Result (Unit {0})
require_narrower_than s other =
    if is_equal_or_descendant_of s other
    then ok tt
    else err (
        core_error denied "scope_broadening_denied"
          "child calls may not broaden their effective scope")
