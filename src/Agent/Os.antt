-- ===== src/Agent/Os.antt =====
-- What the agent asks of the operating system of its microVM, and of serde_json.
use petty.Shared.{ℕ, Bool, List, Option}
use petty.Shared.Int.{ℤ}
use petty.Shared.Result.{Result}
use petty.Text.{Str}
use petty.Text.FilePath.{FilePath}
use petty.Agent.Protocol.{ExecResult, FileEntry, Request, Response}

-- A finished process: its exit code, unless a signal ended it, and what it printed, as
-- `from_utf8_lossy` reads it.
pub record Output : Type 0 where
  pub code : Option ℤ
  pub stdout : Str
  pub stderr : Str

-- An entry of a directory: its name, as `to_string_lossy` reads it, and its metadata or their error.
pub record Metadata : Type 0 where
  pub is_dir : Bool
  pub is_file : Bool
  pub len : ℕ

pub record DirEntry : Type 0 where
  pub file_name : Str
  pub metadata : Result Str Metadata

-- The world is all that the agent can read and change.
pub record Os : Type 1 where
  pub World : Type 0
  pub output : Str → List Str → World → Result Str Output × World
  pub file_metadata : Str → World → Result Str Metadata
  pub read_to_string : Str → World → Result Str Str
  pub path_exists : FilePath → World → Bool
  pub create_dir_all : FilePath → World → Result Str (Unit {0}) × World
  pub write : Str → Str → World → Result Str (Unit {0}) × World
  pub read_dir : Str → World → Result Str (List (Result Str DirEntry))

-- The derived decoders and encoders.
pub record Json : Type 1 where
  pub Value : Type 0
  pub from_str : Str → Result Str (Request Value)
  pub to_string : Response Value → Result Str Str
  pub exec_params : Value → Result Str Str
  pub exec_code_params : Value → Result Str (Str × Str)
  pub path_params : Value → Result Str Str
  pub write_file_params : Value → Result Str (Str × Str)
  pub exec_result : ExecResult → Result Str Value
  pub pong : Value
  pub content : Str → Value
  pub written : Bool → Value
  pub entries : List FileEntry → Value
