-- ===== src/Runtime/Validation.antt =====
-- `validate_tool_output` of core/src/weatherflow/runtime/validation.py. The JSON Schema library is
-- a parameter.
use weatherflow.Prelude.{Bool, true, false, not, if◌then◌else◌}
use weatherflow.Json.{Object}

-- The third-party validator: is this a valid schema, and does a value conform to it?
pub record SchemaLibrary : Type 0 where
  pub check_schema : Object → Bool
  pub conforms : Object → Object → Bool

pub record ToolOutputValidation : Type 0 where
  pub valid : Bool
  pub schema_valid : Bool

unfoldable pub validate_tool_output : SchemaLibrary → Object → Object → ToolOutputValidation
validate_tool_output lib schema output =
    if not (lib.check_schema schema)
    then record { valid = false; schema_valid = false }
    else record { valid = lib.conforms schema output; schema_valid = true }
