-- ===== src/Runtime/Run/Soundness/Rules.antt =====
-- What a method of the state machine may answer for a sound Run, and rules to show it.
use congeries_core.Prelude.{ℕ, String, ◌≡◌, refl, Bool, true, false, if◌then◌else◌, ap, ◌∙◌}
use congeries_core.Runtime.Errors.{Result, ok, err, ErrorDetail, core, raise_if, ◌>>=◌, ◌>>◌}
use congeries_core.Runtime.Run.{Run, RunStatus}
use congeries_core.Runtime.Run.Machine.{RunTransition, current, check_version, moved, status_beq}
use congeries_core.Runtime.Run.Soundness.{IsSound, IsSound-check, status_beq-eq}

-- The Run that comes back is sound. Only a `CoreError` is raised: no value that the method builds
-- is refused by a constructor.
pub data Kept (now : ℕ) : Result RunTransition → Type 0 where
  answered : {t : RunTransition} → IsSound (current t) now → Kept now (ok t)
  refused : {detail : ErrorDetail} → Kept now (err (core detail))

pub Kept-if :
    {now : ℕ} (b : Bool) {m n : Result RunTransition}
    → (b ≡ true → Kept now m)
    → (b ≡ false → Kept now n)
    → Kept now (if b then m else n)
Kept-if true p q = p refl
Kept-if false p q = q refl

pub Kept-bind {ℓ} :
    {now : ℕ} {A : Type ℓ} {m : Result A} {a : A} (f : A → Result RunTransition)
    → m ≡ ok a
    → Kept now (f a)
    → Kept now (m >>= f)
Kept-bind f e k = rw e k

pub Kept-moved :
    (run next : Run) (reason : String) {now : ℕ}
    → IsSound next now
    → Kept now (moved run next reason)
unfolding moved
Kept-moved run next reason s = rw (IsSound-check s) (answered s)

pub Kept-guard :
    {now : ℕ} (b : Bool) (detail : ErrorDetail) {m : Result RunTransition}
    → Kept now m
    → Kept now (raise_if b (core detail) >> m)
Kept-guard true d k = refused
Kept-guard false d k = k

pub Kept-version :
    {now : ℕ} (run : Run) (expected : ℕ) {m : Result RunTransition}
    → Kept now m
    → Kept now (check_version run expected >> m)
unfolding check_version
Kept-version run expected k = Kept-guard _ _ k

-- What a status test says of a property of statuses.
pub is_status :
    (a b : RunStatus) (P : RunStatus → Bool) {v : Bool} → status_beq a b ≡ true → P b ≡ v → P a ≡ v
is_status a b P h e = ap P (status_beq-eq a b h) ∙ e
