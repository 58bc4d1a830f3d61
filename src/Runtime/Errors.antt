-- ===== src/Runtime/Errors.antt =====
-- src/congeries_core/runtime/errors.py: the structured error, and raising as a value.
-- Metadata values are texts here: the program itself only ever stores texts there.
use congeries_core.Prelude.{
  refl, String, Bool, true, false, ◌||◌, Option, none, [], if◌then◌else◌, ◌≡◌, ◌⊎◌, inl, inr,
}
use congeries_core.Prelude.Eq.{◌==◌, string_eq}
use congeries_core.Prelude.Dict.{Dict}

pub data ErrorCategory : Type 0 where
  invalid_request denied unavailable timeout cancelled conflict : ErrorCategory
  version_mismatch partial_result unsupported_capability protocol_failure : ErrorCategory

pub record ErrorDetail : Type 0 where
  pub category : ErrorCategory
  pub code : String
  pub message : String
  pub retryable : Bool
  pub cause_id : Option String
  pub metadata : Dict String String

-- What a call may raise: a `CoreError` with its detail, or one of Python's own exceptions.
pub data Raised : Type 0 where
  core : ErrorDetail → Raised
  value_error : String → Raised
  assertion_error : String → Raised
  key_error : String → Raised

pub data Result {ℓ} (X : Type ℓ) : Type ℓ where
  err : Raised → Result X
  ok : X → Result X

-- `if bad: raise e`
abbrev pub raise_if : Bool → Raised → Result (Unit {0})
raise_if false e = ok tt
raise_if true e = err e

infixl 5 ◌>>=◌ ◌>>◌
-- The rest of a body runs on what was returned; a raise ends it.
abbrev pub ◌>>=◌ {κ μ} : {X : Type κ} {Y : Type μ} → Result X → (X → Result Y) → Result Y
err raised >>= rest = err raised
ok x >>= rest = rest x

abbrev pub ◌>>◌ {μ} : {Y : Type μ} → Result (Unit {0}) → Result Y → Result Y
statement >> rest = statement >>= λ done. rest

-- `ErrorDetail.__post_init__`
unfoldable pub check_detail : ErrorDetail → Result ErrorDetail
check_detail d =
    if d.code == "" || d.message == ""
    then err (value_error "error code and message are required")
    else ok d

-- `core_error` of literals, which are never empty; `retry_error` is it with `retryable=True`.
abbrev pub core_error : ErrorCategory → String → String → Raised
core_error category code message = core (record {
  category = category;
  code = code;
  message = message;
  retryable = false;
  cause_id = none;
  metadata = [];
})

abbrev pub retry_error : ErrorCategory → String → String → Raised
retry_error category code message = core (record {
  category = category;
  code = code;
  message = message;
  retryable = true;
  cause_id = none;
  metadata = [];
})

pub ok_injective {ℓ} : {A : Type ℓ} {a b : A} → ok a ≡ ok b → a ≡ b
ok_injective e = cc

-- To split on a computed result and keep the equation.
pub Result-cases {ℓ} :
    {A : Type ℓ} (m : Result A) → ((a : A) × (m ≡ ok a)) ⊎ ((e : Raised) × (m ≡ err e))
Result-cases (ok a) = inl (a, refl)
Result-cases (err e) = inr (e, refl)

-- A guard that did not raise.
pub raise_if-ok : (b : Bool) (e : Raised) {u : Unit {0}} → raise_if b e ≡ ok u → b ≡ false
raise_if-ok true e h = cc
raise_if-ok false e h = refl
