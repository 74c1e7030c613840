-- ===== src/Mcp/Server/Listed.antt =====
-- The list of the tools of crates/bouvet-mcp/src/server.rs, and the calls of names that are not on it.
use petty.Shared.{◌≡◌, refl, false, List, [], ◌∷◌, ◌++◌, Option, All}
use petty.Text.{Str, lit, eq_str}
use petty.Host.{Trace}
use petty.Core.Sandbox.{Libraries}
use petty.Mcp.Tools.{Tools, returned, error}
use petty.Mcp.Server.{Server, refuse}
use petty.Mcp.Server.Handlers.{call_tool}

-- The type of parameters that the schema of a tool is derived from.
pub data ToolInput : Type 0 where
  create_input destroy_input empty_input execute_input command_input : ToolInput
  read_input write_input directory_input : ToolInput

pub record ToolInfo : Type 0 where
  pub name : Str
  pub description : Str
  pub input : ToolInput

abbrev tool : Str → Str → ToolInput → ToolInfo
tool name description input = record { name = name; description = description; input = input }

-- `build_tools_list`, which `list_tools` gives.
abbrev pub tools_list : List ToolInfo
tools_list =
    tool (lit "create_sandbox")
      (lit "Create a new isolated sandbox for code execution. Returns sandbox_id.") create_input
    ∷ tool (lit "destroy_sandbox") (lit "Destroy a sandbox and release all resources.")
        destroy_input
    ∷ tool (lit "list_sandboxes") (lit "List all active sandboxes with their metadata.") empty_input
    ∷ tool (lit "execute_code")
        (lit "Execute code in a specific language (python, node, bash, etc.) inside a sandbox.")
        execute_input
    ∷ tool (lit "run_command") (lit "Execute a shell command inside a sandbox.") command_input
    ∷ tool (lit "read_file") (lit "Read a file from the sandbox filesystem.") read_input
    ∷ tool (lit "write_file") (lit "Write a file to the sandbox filesystem.") write_input
    ∷ tool (lit "list_directory") (lit "List contents of a directory in the sandbox.")
        directory_input
    ∷ []

-- A call of a name that is not on the list is answered as that of an unknown tool, and changes
-- nothing.
pub call_tool-unlisted :
    (l : Libraries) (r : Tools) (name : Str) (args : Option r.Arguments) (s : Server) (t : Trace)
    → All (λ i. eq_str name i.name ≡ false) tools_list
    → call_tool l r name args s t ≡ (returned (error (lit "Unknown tool: " ++ name)), s, t)
unfolding call_tool refuse
call_tool-unlisted l r name args s t (a, (b, (c, (d, (e, (f, (g, (h, _)))))))) =
    rw (a, b, c, d, e, f, g, h, call_tool) refl
