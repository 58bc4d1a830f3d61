-- ===== src/Runtime/Outcome.antt =====
-- What a call may answer and what it may raise, with rules that follow the code.
use congeries_core.Prelude.{◌≡◌, refl, subst, Bool, true, false, if◌then◌else◌}
use congeries_core.Runtime.Errors.{
  Raised, Result, ok, err, core, ErrorDetail, ok_injective, ◌>>=◌, raise_if,
}

pub data Outcome {ℓ} {A : Type ℓ} (E : Raised → Type 0) (Q : A → Type ℓ) : Result A → Type ℓ where
  answers : {a : A} → Q a → Outcome E Q (ok a)
  raises : {e : Raised} → E e → Outcome E Q (err e)

-- An error of the program's own, as opposed to one of Python's.
pub data IsCore : Raised → Type 0 where
  structured : {detail : ErrorDetail} → IsCore (core detail)

-- Nothing is said of the errors.
abbrev pub Any : Raised → Type 0
Any e = Unit

module _ {ℓ} {A : Type ℓ} {E : Raised → Type 0} {Q : A → Type ℓ} where
  pub Outcome-if :
      (b : Bool) {m n : Result A}
      → (b ≡ true → Outcome E Q m)
      → (b ≡ false → Outcome E Q n)
      → Outcome E Q (if b then m else n)
  Outcome-if true p q = p refl
  Outcome-if false p q = q refl

  pub Outcome-ok : {m : Result A} {a : A} → Outcome E Q m → m ≡ ok a → Q a
  Outcome-ok (answers q) e = subst Q (ok_injective e) q
  Outcome-ok (raises x) e = cc

  pub Outcome-bind {κ} :
      {B : Type κ} {P : B → Type κ} (m : Result B) {f : B → Result A}
      → Outcome E P m
      → ((b : B) → m ≡ ok b → Outcome E Q (f b))
      → Outcome E Q (m >>= f)
  Outcome-bind (ok b) o k = k b refl
  Outcome-bind (err e) (raises x) k = raises x

module _ {ℓ} {A : Type ℓ} {Q : A → Type ℓ} where
  pub Outcome-after {κ} :
      {B : Type κ} (m : Result B) {f : B → Result A}
      → ((b : B) → m ≡ ok b → Outcome Any Q (f b))
      → Outcome Any Q (m >>= f)
  Outcome-after (ok b) k = k b refl
  Outcome-after (err e) k = raises tt

  -- Of every answer alike.
  pub Outcome-all : (m : Result A) → ((a : A) → Q a) → Outcome Any Q m
  Outcome-all (ok a) q = answers (q a)
  Outcome-all (err e) q = raises tt

pub Outcome-map {ℓ} :
    {A : Type ℓ} {E : Raised → Type 0} {P Q : A → Type ℓ} {m : Result A}
    → Outcome E P m
    → ((a : A) → P a → Q a)
    → Outcome E Q m
Outcome-map (answers p) k = answers (k _ p)
Outcome-map (raises e) k = raises e

-- A guard with a structured error.
pub raise_if-IsCore :
    (b : Bool) {e : Raised} → IsCore e → Outcome IsCore (λ _. b ≡ false) (raise_if b e)
raise_if-IsCore true h = raises h
raise_if-IsCore false h = answers refl

-- The same of weaker errors.
pub Outcome-error {ℓ} :
    {A : Type ℓ} {E F : Raised → Type 0} {Q : A → Type ℓ} {m : Result A}
    → Outcome E Q m
    → ((e : Raised) → E e → F e)
    → Outcome F Q m
Outcome-error (answers q) k = answers q
Outcome-error (raises e) k = raises (k _ e)

-- What a caller keeps of an answer that is a pair.
pub Outcome-second {ℓ} :
    {A B : Type ℓ} {E : Raised → Type 0} {Q : B → Type ℓ} {m : Result (A × B)}
    → Outcome E (λ answer. Q answer.1) m
    → Outcome E Q (m >>= λ answer. ok answer.1)
Outcome-second (answers q) = answers q
Outcome-second (raises e) = raises e
