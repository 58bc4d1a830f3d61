-- ===== src/Runtime/Scope/Laws.antt =====
-- The narrowing order of scopes.
use congeries_core.Prelude.{String, ◌≡◌, refl, ◌↔◌, ◌≤◌, true, arith, Bool-cases, inl, inr}
use congeries_core.Prelude.Eq.{◌==◌, ==_iff, pair_eq, string_eq}
use congeries_core.Runtime.Errors.{ok}
use congeries_core.Runtime.Scope.{
  ScopeRef, root, child, key, depth, check_depth, is_equal_or_descendant_of, require_narrower_than,
}

-- The chain of scopes that leads from a scope up to one with the same key as `other`.
pub data Within : ScopeRef → ScopeRef → Type 0 where
  same : {s other : ScopeRef} → key s ≡ key other → Within s other
  up : {ns k id : String} {p other : ScopeRef} → Within p other → Within (child ns k id p) other

pub Within-sound : (s other : ScopeRef) → is_equal_or_descendant_of s other ≡ true → Within s other
unfolding is_equal_or_descendant_of key
Within-sound (root ns k id) other h = same ((==_iff _ _).0 h)
Within-sound (child ns k id p) other h = elim (Bool-cases ((ns, (k, id)) == key other)) [
  | inl here ↦ same ((==_iff _ _).0 here)
  | inr above ↦ up (Within-sound p other (ground arith))
]

same_complete : (s other : ScopeRef) → key s ≡ key other → is_equal_or_descendant_of s other ≡ true
unfolding is_equal_or_descendant_of key
same_complete (root ns k id) other e = (==_iff _ _).1 e
same_complete (child ns k id p) other e = rw ((==_iff _ _).1 e)

pub Within-complete :
    {s other : ScopeRef} → Within s other → is_equal_or_descendant_of s other ≡ true
unfolding is_equal_or_descendant_of key
Within-complete (same e) = same_complete _ _ e
Within-complete (up w) = ground (arith, Within-complete w)

-- The search decides the ancestry relation.
pub is_equal_or_descendant_of_iff :
    (s other : ScopeRef) → (is_equal_or_descendant_of s other ≡ true) ↔ Within s other
is_equal_or_descendant_of_iff s other = (Within-sound s other, Within-complete)

-- A scope stands on the chain of another: it is that scope itself, or one of its ancestors.
pub data OnChain : ScopeRef → ScopeRef → Type 0 where
  here : {s : ScopeRef} → OnChain s s
  above : {ns k id : String} {p t : ScopeRef} → OnChain p t → OnChain (child ns k id p) t

OnChain-Within : {s t other : ScopeRef} → OnChain s t → Within t other → Within s other
OnChain-Within here w = w
OnChain-Within (above c) w = up (OnChain-Within c w)

-- A call whose scope is built below the scope of its caller passes every narrowing check that the
-- caller passes, however deep the chain of calls is.
require_narrower_than-chain :
    (s t other : ScopeRef)
    → OnChain s t
    → require_narrower_than t other ≡ ok tt
    → require_narrower_than s other ≡ ok tt
unfolding require_narrower_than
require_narrower_than-chain s t other c h =
    rw (Within-complete (OnChain-Within c (Within-sound t other (ground arith))))

-- Key equality alone is enough, so the check is not transitive: the middle scope may have
-- ancestors that the first one lacks.
narrowing_not_transitive : ¬ (
    (a b c : ScopeRef)
    → require_narrower_than a b ≡ ok tt
    → require_narrower_than b c ≡ ok tt
    → require_narrower_than a c ≡ ok tt)
unfolding require_narrower_than is_equal_or_descendant_of key ◌==◌
narrowing_not_transitive all = cc (
    all (root "core" "run" "r") (child "core" "run" "r" (root "core" "workspace" "w"))
      (root "core" "workspace" "w") refl refl)

OnChain-depth : {s t : ScopeRef} → OnChain s t → depth t ≤ depth s
unfolding depth
OnChain-depth here = omega arith
OnChain-depth (above c) = omega (arith, OnChain-depth c)

-- The depth check bounds the whole chain: every scope on the chain of an accepted one is accepted.
pub check_depth-chain : (s t : ScopeRef) → OnChain s t → check_depth s ≡ ok s → check_depth t ≡ ok t
unfolding check_depth
check_depth-chain s t c h = ground (arith, OnChain-depth c)
