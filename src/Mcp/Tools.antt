-- ===== src/Mcp/Tools.antt =====
-- What the server's tools take from outside: rmcp's arguments, their derived decoders, the derived
-- encoders of the results, the uuid and chrono crates, and the level of the log.
use petty.Shared.{ℕ, Bool, Option}
use petty.Shared.Result.{Result}
use petty.Text.{Str}
use petty.Host.{Uuid}
use petty.Mcp.Types.{
  CreateSandboxParams, DestroySandboxParams, ExecuteCodeParams, RunCommandParams, ReadFileParams,
  WriteFileParams, ListDirectoryParams, ToolResult,
}

pub record Tools : Type 1 where
  -- `request.arguments`, where a request has them
  pub Arguments : Type 0
  pub create_params : Arguments → Result Str CreateSandboxParams
  pub destroy_params : Arguments → Result Str DestroySandboxParams
  pub execute_params : Arguments → Result Str ExecuteCodeParams
  pub command_params : Arguments → Result Str RunCommandParams
  pub read_params : Arguments → Result Str ReadFileParams
  pub write_params : Arguments → Result Str WriteFileParams
  pub directory_params : Arguments → Result Str ListDirectoryParams
  pub to_string_pretty : ToolResult → Result Str Str
  pub parse_uuid : Str → Option Uuid
  -- of milliseconds
  pub to_rfc3339 : ℕ → Str
  -- whether the log lines of the level `trace` are written
  pub trace_enabled : Bool

-- rmcp's `CallToolResult` with one text.
pub data CallToolResult : Type 0 where
  success error : Str → CallToolResult

-- How a tool ends: with a result, or by a panic, which ends its task.
pub data Outcome : Type 0 where
  returned : CallToolResult → Outcome
  panicked : Outcome
