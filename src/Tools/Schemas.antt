-- ===== src/Tools/Schemas.antt =====
-- packages/tools/src/tools/schemas.py, permissions.py and the look-up of registry.py. A tool's
-- schema and handler are parameters, in its definition.
use governed_agent_platform.Prelude.{
  ℕ, String, ◌<>◌, Bool, true, false, not, ◌&&◌, Option, none, some, if◌then◌else◌, ◌==◌, string_eq,
  Payload,
}
use governed_agent_platform.Prelude.Dict.{Dict, lookup}
use governed_agent_platform.Prelude.Exec.{Result, ok, raised}

pub data ToolRiskLevel : Type 0 where
  low medium high : ToolRiskLevel

pub data ToolStatus : Type 0 where
  succeeded failed approval_required : ToolStatus

pub record ToolCall : Type 0 where
  pub name : String
  pub arguments : Payload
  pub requested_by : Option String

pub record ToolExecutionMetadata : Type 0 where
  pub tool_name : String
  pub risk_level : ToolRiskLevel
  pub requires_approval : Bool
  pub tenant_id : Option String
  pub attempts : ℕ
  pub timeout_ms : ℕ
  pub started_at : ℕ
  pub completed_at : ℕ
  pub duration_ms : ℕ
  pub retried : Bool

pub record ToolResult : Type 0 where
  pub tool_name : String
  pub status : ToolStatus
  pub output : Option Payload
  pub error : Option String
  pub requires_approval : Bool
  pub preview_payload : Option Payload
  pub metadata : ToolExecutionMetadata

pub record ToolExecutionOutput : Type 0 where
  pub output : Option Payload
  pub preview_payload : Option Payload

-- The exceptions, by their classes as the executor tells them apart.
pub data ToolError : Type 0 where
  retryable_tool_error : String → ToolError
  timeout_error : String → ToolError
  tool_permission_error : String → ToolError
  tool_execution_error : String → ToolError
  validation_error : String → ToolError
  key_error : String → ToolError
  other : String → ToolError

-- `str(exc)`
abbrev pub message : ToolError → String
message (retryable_tool_error m) = m
message (timeout_error m) = m
message (tool_permission_error m) = m
message (tool_execution_error m) = m
message (validation_error m) = m
message (key_error m) = m
message (other m) = m

-- Arguments that passed a schema: the fields, and the tenant, which every schema has as a text.
pub record ToolInput : Type 0 where
  pub tenant_id : Option String
  pub fields : Payload

-- How a handler ends, and the milliseconds that it took.
pub record Handled : Type 0 where
  pub elapsed_ms : ℕ
  pub result : Result ToolError ToolExecutionOutput

pub record ToolDefinition (W : Type 0) : Type 0 where
  pub name : String
  pub description : String
  pub input_schema : Payload → Result String ToolInput
  pub risk_level : ToolRiskLevel
  pub requires_approval : Bool
  pub timeout_ms : ℕ
  pub retry_count : ℕ
  pub handler : ToolInput → W → Handled × W

abbrev pub is_high : ToolRiskLevel → Bool
is_high high = true
is_high _ = false

-- `require_tenant_match`
unfoldable pub require_tenant_match : String → String → String → Result ToolError Unit
require_tenant_match expected_tenant_id actual_tenant_id resource_name =
    if expected_tenant_id == actual_tenant_id
    then ok tt
    else raised (
        tool_permission_error (
          "Tenant mismatch for " <> resource_name <> ": expected '" <> expected_tenant_id
          <> "' but found '" <> actual_tenant_id <> "'."))

module _ {W : Type 0} where
  unfoldable pub can_execute_without_approval : ToolDefinition W → Bool
  can_execute_without_approval definition =
      not definition.requires_approval && not (is_high definition.risk_level)

  -- `ToolRegistry.get`, on the dictionary of the registry.
  unfoldable pub get : String → Dict String (ToolDefinition W) → Result ToolError (ToolDefinition W)
  get name definitions = elim (lookup name definitions) [
    | none ↦ raised (key_error ("Unknown tool '" <> name <> "'."))
    | some definition ↦ ok definition
  ]
