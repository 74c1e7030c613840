-- ===== src/Mcp/Types.antt =====
-- crates/bouvet-mcp/src/types.rs: the parameters of the tools and their results.
use petty.Shared.{ℕ, Bool, List, Option, none}
use petty.Shared.Int.{ℤ}
use petty.Text.{Str}

pub record CreateSandboxParams : Type 0 where
  pub memory_mib : Option ℕ  -- u32
  pub vcpu_count : Option ℕ  -- u8

-- The derived `Default`.
abbrev pub default_params : CreateSandboxParams
default_params = record { memory_mib = none; vcpu_count = none }

pub record CreateSandboxResult : Type 0 where
  pub sandbox_id : Str

pub record DestroySandboxParams : Type 0 where
  pub sandbox_id : Str

pub record DestroySandboxResult : Type 0 where
  pub success : Bool

pub record SandboxInfo : Type 0 where
  pub sandbox_id : Str
  pub state : Str
  pub created_at : Str

pub record ListSandboxesResult : Type 0 where
  pub sandboxes : List SandboxInfo

pub record ExecuteCodeParams : Type 0 where
  pub sandbox_id : Str
  pub language : Str
  pub code : Str

pub record RunCommandParams : Type 0 where
  pub sandbox_id : Str
  pub command : Str

pub record ExecResponse : Type 0 where
  pub exit_code : ℤ  -- i32
  pub stdout : Str
  pub stderr : Str

pub record ReadFileParams : Type 0 where
  pub sandbox_id : Str
  pub path : Str

pub record ReadFileResult : Type 0 where
  pub content : Str

pub record WriteFileParams : Type 0 where
  pub sandbox_id : Str
  pub path : Str
  pub content : Str

pub record WriteFileResult : Type 0 where
  pub success : Bool

pub record ListDirectoryParams : Type 0 where
  pub sandbox_id : Str
  pub path : Str

pub record FileEntryResponse : Type 0 where
  pub name : Str
  pub is_dir : Bool
  pub size : ℕ  -- u64

pub record ListDirectoryResult : Type 0 where
  pub entries : List FileEntryResponse

-- What a tool answers with: one of the results, each of which is written as JSON.
pub data ToolResult : Type 0 where
  created : CreateSandboxResult → ToolResult
  destroyed : DestroySandboxResult → ToolResult
  listed : ListSandboxesResult → ToolResult
  executed : ExecResponse → ToolResult
  file_read : ReadFileResult → ToolResult
  file_written : WriteFileResult → ToolResult
  directory_listed : ListDirectoryResult → ToolResult
