-- ===== src/Mcp/Server/Handlers.antt =====
-- The other tools of crates/bouvet-mcp/src/server.rs, and the call of a tool by its name.
use petty.Shared.{ℕ, true, List, [], ◌∷◌, ◌++◌, map, Option, none, some, if◌then◌else◌}
use petty.Shared.Result.{Result, ok, err}
use petty.Text.{Str, lit, eq_str}
use petty.Host.{Uuid}
use petty.Core.Error.{CoreError}
use petty.Core.Client.Methods.{ExecResult, FileEntry}
use petty.Core.Sandbox.{Sandbox, Libraries, state_text}
use petty.Core.Manager.{SandboxManager, new_config, with_sandbox, ManagerMethod}
use petty.Core.Manager
use petty.Mcp.Config.{max_input_size_bytes, max_command_length}
use petty.Mcp.Types.{
  SandboxInfo, ToolResult, destroyed, listed, executed, file_read, file_written, directory_listed,
  FileEntryResponse, ExecuteCodeParams, RunCommandParams, WriteFileParams,
}
use petty.Mcp.Tools.{Tools, CallToolResult, error, returned, panicked}
use petty.Mcp.Server.{
  truncate_for_log, validate_size, required, Tool, refuse, json_result, error_text,
  parse_sandbox_id,
}
use petty.Mcp.Server.Create.{handle_create_sandbox}

abbrev pub file_entry : FileEntry → FileEntryResponse
file_entry e = record { name = e.name; is_dir = e.is_dir; size = e.size }

module _ (l : Libraries) (r : Tools) where
  open r use {Arguments}

  -- The end of the tools that work on one sandbox: a method of the manager under the identifier that
  -- was given, and its result.
  abbrev pub answer_with :
      {R : Type 0} → (R → ToolResult) → Str → Result CoreError R → CallToolResult
  answer_with f failure (ok a) = json_result l r (f a)
  answer_with f failure (err e) = error (failure ++ error_text l r e)

  unfoldable pub on_manager :
      {R : Type 0} → (R → ToolResult) → Str → (Uuid → ManagerMethod R) → Str → Tool
  unfolding json_result refuse
  on_manager f failure method sandbox_id s t = elim (parse_sandbox_id l r sandbox_id) [
    | err e ↦ refuse e s t
    | ok id ↦
        let (a, m, t') = method id s.manager t in
        (returned (answer_with f failure a), record s { manager = m }, t')
  ]

  -- The log line with the beginning of a text, which is only made where it is written.
  unfoldable pub traced : Str → Tool → Tool
  traced content tool s t =
      if r.trace_enabled
      then elim (truncate_for_log content 200) [ none ↦ (panicked, s, t) | some _ ↦ tool s t ]
      else tool s t

  unfoldable pub sized : Str → ℕ → Str → Tool → Tool
  unfolding refuse
  sized content max_bytes field_name tool s t = elim (validate_size content max_bytes field_name) [
    | err e ↦ refuse e s t
    | ok _ ↦ tool s t
  ]

  unfoldable pub handle_destroy_sandbox : Option Arguments → Tool
  unfolding required refuse on_manager
  handle_destroy_sandbox args = elim (required r.destroy_params args) [
    | none ↦ refuse (lit "Missing required parameter: sandbox_id")
    | some p ↦
        on_manager (λ _. destroyed (record { success = true })) (lit "Failed to destroy sandbox: ")
          (Manager.destroy l) p.sandbox_id
  ]

  unfoldable pub sandbox_info : Sandbox → SandboxInfo
  sandbox_info sandbox = record {
    sandbox_id = l.env.uuid_string sandbox.id;
    state = state_text sandbox.state;
    created_at = r.to_rfc3339 sandbox.created_at;
  }

  unfoldable pub infos : SandboxManager → List Uuid → List SandboxInfo
  unfolding sandbox_info
  infos m [] = []
  infos m (id ∷ ids) =
      let rest = infos m ids in
      elim (with_sandbox m id sandbox_info) [ ok info ↦ info ∷ rest | err e ↦ rest ]

  unfoldable pub handle_list_sandboxes : Tool
  unfolding infos json_result
  handle_list_sandboxes s t = (
    returned (
        json_result l r (listed (record { sandboxes = infos s.manager (Manager.list s.manager) }))),
    s,
    t,
  )

  abbrev exec_response : ExecResult → ToolResult
  exec_response e =
      executed (record { exit_code = e.exit_code; stdout = e.stdout; stderr = e.stderr })

  -- The tools that take a text, once its size has been checked.
  unfoldable pub execute_checked : ExecuteCodeParams → Tool
  unfolding on_manager traced
  execute_checked p = traced p.code (
      on_manager exec_response (lit "Execution failed: ")
        (λ id. Manager.execute_code l id p.language p.code) p.sandbox_id)

  unfoldable pub handle_execute_code : Option Arguments → Tool
  unfolding required refuse sized execute_checked
  handle_execute_code args = elim (required r.execute_params args) [
    | none ↦ refuse (lit "Missing required parameters: sandbox_id, language, code")
    | some p ↦ sized p.code max_input_size_bytes (lit "code") (execute_checked p)
  ]

  unfoldable pub command_checked : RunCommandParams → Tool
  unfolding on_manager traced
  command_checked p = traced p.command (
      on_manager exec_response (lit "Execution failed: ") (λ id. Manager.execute l id p.command)
        p.sandbox_id)

  unfoldable pub handle_run_command : Option Arguments → Tool
  unfolding required refuse sized command_checked
  handle_run_command args = elim (required r.command_params args) [
    | none ↦ refuse (lit "Missing required parameters: sandbox_id, command")
    | some p ↦ sized p.command max_command_length (lit "command") (command_checked p)
  ]

  unfoldable pub handle_read_file : Option Arguments → Tool
  unfolding required refuse on_manager
  handle_read_file args = elim (required r.read_params args) [
    | none ↦ refuse (lit "Missing required parameters: sandbox_id, path")
    | some p ↦
        on_manager (λ content. file_read (record { content = content }))
          (lit "Failed to read file: ") (λ id. Manager.read_file l id p.path) p.sandbox_id
  ]

  unfoldable pub write_checked : WriteFileParams → Tool
  unfolding on_manager
  write_checked p =
      on_manager (λ _. file_written (record { success = true })) (lit "Failed to write file: ")
        (λ id. Manager.write_file l id p.path p.content) p.sandbox_id

  unfoldable pub handle_write_file : Option Arguments → Tool
  unfolding required refuse sized write_checked
  handle_write_file args = elim (required r.write_params args) [
    | none ↦ refuse (lit "Missing required parameters: sandbox_id, path, content")
    | some p ↦ sized p.content max_input_size_bytes (lit "content") (write_checked p)
  ]

  unfoldable pub handle_list_directory : Option Arguments → Tool
  unfolding required refuse on_manager
  handle_list_directory args = elim (required r.directory_params args) [
    | none ↦ refuse (lit "Missing required parameters: sandbox_id, path")
    | some p ↦
        on_manager (λ entries. directory_listed (record { entries = map file_entry entries }))
          (lit "Failed to list directory: ") (λ id. Manager.list_dir l id p.path) p.sandbox_id
  ]

  -- `call_tool`.
  unfoldable pub call_tool : Str → Option Arguments → Tool
  unfolding refuse
  call_tool name args s t =
      if eq_str name (lit "create_sandbox")
      then handle_create_sandbox l r args s t
      else if eq_str name (lit "destroy_sandbox")
      then handle_destroy_sandbox args s t
      else if eq_str name (lit "list_sandboxes")
      then handle_list_sandboxes s t
      else if eq_str name (lit "execute_code")
      then handle_execute_code args s t
      else if eq_str name (lit "run_command")
      then handle_run_command args s t
      else if eq_str name (lit "read_file")
      then handle_read_file args s t
      else if eq_str name (lit "write_file")
      then handle_write_file args s t
      else if eq_str name (lit "list_directory")
      then handle_list_directory args s t
      else refuse (lit "Unknown tool: " ++ name) s t
