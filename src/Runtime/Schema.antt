-- ===== src/Runtime/Schema.antt =====
-- src/congeries_core/runtime/schema.py: `SchemaRef` and `SchemaRegistry`. `J` is the type of the JSON
-- values; a validator is what it answers to a value. The spelling rules of names are left out.
use congeries_core.Prelude.{String, Bool, is_some, if◌then◌else◌, Option, some, none, false, []}
use congeries_core.Prelude.Eq.{string_eq, pair_eq}
use congeries_core.Prelude.Dict.{Dict, get, put}
use congeries_core.Runtime.Errors.{
  Result, ok, err, core_error, conflict, assertion_error, key_error, core, value_error,
  version_mismatch, protocol_failure, assertion_error,
}

pub record SchemaRef : Type 0 where
  pub namespace : String
  pub name : String
  pub version : String

abbrev pub schema_key : SchemaRef → String × (String × String)
schema_key s = (s.namespace, (s.name, s.version))

abbrev pub SchemaRegistry : Type 0 → Type 0
SchemaRegistry J = Dict (String × (String × String)) (J → Result (Unit {0}))

-- `TypeError`, which is caught alike, is no case of `Raised`; other exceptions pass.
abbrev pub conforms : Result (Unit {0}) → Result (Unit {0})
conforms (ok u) = ok u
conforms (err (core detail)) = err (core detail)
conforms (err (value_error text)) = err (
    core (record {
      category = protocol_failure;
      code = "schema_validation_failed";
      message = "value does not conform to its declared schema";
      retryable = false;
      cause_id = some "ValueError";
      metadata = [];
    }))
conforms (err (assertion_error text)) = err (assertion_error text)
conforms (err (key_error text)) = err (key_error text)

module _ {J : Type 0} where
  unfoldable pub register_schema :
      SchemaRegistry J → SchemaRef → (J → Result (Unit {0})) → Result (SchemaRegistry J)
  register_schema schemas schema validator =
      if is_some (get schemas (schema_key schema))
      then err (core_error conflict "schema_already_registered" "schema is already registered")
      else ok (put schemas (schema_key schema) validator)

  unfoldable pub has_schema : SchemaRegistry J → SchemaRef → Bool
  has_schema schemas schema = is_some (get schemas (schema_key schema))

  abbrev pub validated_by : J → Option (J → Result (Unit {0})) → Result (Unit {0})
  validated_by value none =
      err (core_error version_mismatch "schema_not_registered" "schema is not registered")
  validated_by value (some validator) = conforms (validator value)

  unfoldable pub validate_value : SchemaRegistry J → SchemaRef → J → Result (Unit {0})
  validate_value schemas schema value = validated_by value (get schemas (schema_key schema))
