-- ===== src/Mcp/Server/Cases.antt =====
-- The ways in which a tool may change the server: not at all, by one method of the manager, or by
-- creating a sandbox.
use petty.Shared.{ℕ, Option, none, some, if_both, if◌then◌else◌}
use petty.Shared.Result.{Result, ok, err}
use petty.Text.{Str, lit, eq_str}
use petty.Host.{Uuid, Trace}
use petty.Core.Sandbox.{Libraries}
use petty.Core.Manager.{ManagerMethod}
use petty.Core.Manager.Limit.{Op, step}
use petty.Core.Manager.Owners.{Within}
use petty.Core.Manager.Limit
use petty.Mcp.Types.{CreateSandboxParams, ToolResult}
use petty.Mcp.Tools.{Tools, Outcome, returned, panicked}
use petty.Mcp.Server.{Server, Tool, validate_size, refuse, truncate_for_log, parse_sandbox_id}
use petty.Mcp.Server.Create.{after_pool, from_pool, handle_create_sandbox}
use petty.Mcp.Server.Handlers.{
  call_tool, on_manager, traced, sized, handle_destroy_sandbox, handle_list_sandboxes,
  handle_execute_code, execute_checked, handle_run_command, command_checked, handle_read_file,
  handle_write_file, write_checked, handle_list_directory, answer_with,
}

module _ (l : Libraries) (r : Tools) (Rel : Server → Trace → Outcome × Server × Trace → Type 0)
    (still : (o : Outcome) (s : Server) (t : Trace) → Rel s t (o, s, t))
    (managed : (op : Op)
      → Within op
      → (o : Outcome) (s : Server) (t : Trace)
      → let (m, t') = step l op s.manager t in Rel s t (o, record s { manager = m }, t'))
    (creating : (params : CreateSandboxParams) (s : Server) (t : Trace)
      → Rel s t (after_pool l r params (from_pool l r s.pool s t))) where
  abbrev Related : Tool → Type 0
  Related tool = (s : Server) (t : Trace) → Rel s t (tool s t)

  with_params-Related :
      {P : Type 0} (p : Option P) (message : Str) (tool : P → Tool)
      → ((a : P) → Related (tool a))
      → Related (elim p as (λ _. Tool) [ none ↦ refuse message | some a ↦ tool a ])
  unfolding refuse
  with_params-Related none message tool h s t = still _ s t
  with_params-Related (some a) message tool h s t = h a s t

  traced-Related : (content : Str) (tool : Tool) → Related tool → Related (traced l r content tool)
  unfolding traced
  traced-Related content tool h s t =
      if_both (Rel s t) r.trace_enabled _ (tool s t) (logged (truncate_for_log content 200)) (h s t)
    where
      logged :
          (o : Option Str)
          → Rel s t (elim o as (λ _. Outcome × Server × Trace) [
            | none ↦ (panicked, s, t)
            | some _ ↦ tool s t
          ])
      logged none = still panicked s t
      logged (some x) = h s t

  sized-Related :
      (content : Str) (n : ℕ) (name : Str) (tool : Tool)
      → Related tool
      → Related (sized l r content n name tool)
  unfolding sized refuse
  sized-Related content n name tool h s t = by_size (validate_size content n name)
    where
      by_size :
          (v : Result Str (Unit {0}))
          → Rel s t
              (elim v as (λ _. Outcome × Server × Trace) [ err e ↦ refuse e s t | ok _ ↦ tool s t ])
      by_size (ok u) = h s t
      by_size (err e) = still _ s t

  on_manager-Related :
      {R : Type 0} (f : R → ToolResult) (failure : Str) (method : Uuid → ManagerMethod R) (id : Str)
      → ((u : Uuid) (o : Outcome) (s : Server) (t : Trace)
          → let (_, m, t') = method u s.manager t in Rel s t (o, record s { manager = m }, t'))
      → Related (on_manager l r f failure method id)
  unfolding on_manager refuse
  on_manager-Related f failure method id h s t = by_id (parse_sandbox_id l r id)
    where
      by_id :
          (v : Result Str Uuid)
          → Rel s t (elim v as (λ _. Outcome × Server × Trace) [
            | err e ↦ refuse e s t
            | ok u ↦
                let (a, m, t') = method u s.manager t in
                (returned (answer_with l r f failure a), record s { manager = m }, t')
          ])
      by_id (ok u) = h u _ s t
      by_id (err e) = still _ s t

  handle_destroy_sandbox-Related :
      (args : Option r.Arguments) → Related (handle_destroy_sandbox l r args)
  unfolding handle_destroy_sandbox step
  handle_destroy_sandbox-Related args =
      with_params-Related _ _ _
        (λ p. on_manager-Related _ _ _ _ (λ u. managed (Limit.destroy u) tt))

  handle_execute_code-Related : (args : Option r.Arguments) → Related (handle_execute_code l r args)
  unfolding handle_execute_code execute_checked step
  handle_execute_code-Related args = with_params-Related _ _ _ (λ p. sized-Related _ _ _ _ (
      traced-Related _ _
        (on_manager-Related _ _ _ _ (λ u. managed (Limit.execute_code u p.language p.code) tt))))

  handle_run_command-Related : (args : Option r.Arguments) → Related (handle_run_command l r args)
  unfolding handle_run_command command_checked step
  handle_run_command-Related args = with_params-Related _ _ _ (λ p. sized-Related _ _ _ _ (
      traced-Related _ _
        (on_manager-Related _ _ _ _ (λ u. managed (Limit.execute u p.command) tt))))

  handle_read_file-Related : (args : Option r.Arguments) → Related (handle_read_file l r args)
  unfolding handle_read_file step
  handle_read_file-Related args =
      with_params-Related _ _ _
        (λ p. on_manager-Related _ _ _ _ (λ u. managed (Limit.read_file u p.path) tt))

  handle_write_file-Related : (args : Option r.Arguments) → Related (handle_write_file l r args)
  unfolding handle_write_file write_checked step
  handle_write_file-Related args = with_params-Related _ _ _ (λ p.
      sized-Related _ _ _ _
        (on_manager-Related _ _ _ _ (λ u. managed (Limit.write_file u p.path p.content) tt)))

  handle_list_directory-Related :
      (args : Option r.Arguments) → Related (handle_list_directory l r args)
  unfolding handle_list_directory step
  handle_list_directory-Related args =
      with_params-Related _ _ _
        (λ p. on_manager-Related _ _ _ _ (λ u. managed (Limit.list_dir u p.path) tt))

  -- What holds of a tool that changes nothing, of one that is a method of the manager, and of
  -- `create_sandbox`, holds of `call_tool`.
  pub call_tool-Related :
      (name : Str) (args : Option r.Arguments) → Related (call_tool l r name args)
  unfolding call_tool handle_create_sandbox handle_list_sandboxes refuse
  call_tool-Related name args s t = either (lit "create_sandbox") (creating _ s t) (
      either (lit "destroy_sandbox") (handle_destroy_sandbox-Related args s t) (
        either (lit "list_sandboxes") (still _ s t) (
          either (lit "execute_code") (handle_execute_code-Related args s t) (
            either (lit "run_command") (handle_run_command-Related args s t) (
              either (lit "read_file") (handle_read_file-Related args s t) (
                either (lit "write_file") (handle_write_file-Related args s t) (
                  either (lit "list_directory") (handle_list_directory-Related args s t)
                    (still _ s t))))))))
    where
      either :
          {x y : Outcome × Server × Trace} (text : Str)
          → Rel s t x
          → Rel s t y
          → Rel s t (if eq_str name text then x else y)
      either text a b = if_both (Rel s t) (eq_str name text) _ _ a b
