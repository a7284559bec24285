-- ===== src/Capabilities.antt =====
-- `ToolEffect`, `ToolHealth` and `ToolSpec` of core/src/weatherflow/capabilities/models.py. The
-- JSON schemas of a tool are values that only the schema library reads.
use weatherflow.Prelude.{ℕ, String, Bool, List, ◌=?◌}
use weatherflow.Json.{Object}

pub data ToolEffect : Type 0 where
  observe workspace_write execute network_read : ToolEffect
  external_write install destructive sensitive : ToolEffect

abbrev effect_rank : ToolEffect → ℕ
effect_rank observe = 0
effect_rank workspace_write = 1
effect_rank execute = 2
effect_rank network_read = 3
effect_rank external_write = 4
effect_rank install = 5
effect_rank destructive = 6
effect_rank sensitive = 7

-- Identity of enum members.
abbrev pub effect_eq : ToolEffect → ToolEffect → Bool
effect_eq a b = effect_rank a =? effect_rank b

unfoldable pub effect_value : ToolEffect → String
effect_value observe = "observe"
effect_value workspace_write = "workspace_write"
effect_value execute = "execute"
effect_value network_read = "network_read"
effect_value external_write = "external_write"
effect_value install = "install"
effect_value destructive = "destructive"
effect_value sensitive = "sensitive"

pub data IdempotencyKind : Type 0 where
  no_idempotency key status_check : IdempotencyKind

pub data ToolHealth : Type 0 where
  available degraded unavailable : ToolHealth

pub record ToolSpec : Type 0 where
  pub tool_id : String
  pub description : String
  pub input_schema : Object
  pub output_schema : Object
  pub effect : ToolEffect
  pub required_scopes : List String
  pub idempotency : IdempotencyKind
  pub timeout_seconds : ℕ
  pub source : String
  pub source_version : String
  pub health : ToolHealth
