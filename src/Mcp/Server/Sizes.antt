-- ===== src/Mcp/Server/Sizes.antt =====
-- The tools that take a text: what is too long does not reach a sandbox.
use petty.Shared.{ℕ, ◌<◌, ◌≡◌, refl, some, length, lt→ltb}
use petty.Shared.Result.{ok}
use petty.Text.{Str, lit, eq_str}
use petty.Host.{Trace}
use petty.Core.Sandbox.{Libraries}
use petty.Mcp.Config.{max_input_size_bytes, max_command_length}
use petty.Mcp.Types.{ExecuteCodeParams, RunCommandParams, WriteFileParams}
use petty.Mcp.Tools.{Tools, returned, error}
use petty.Mcp.Server.{Server, Tool, refuse, required, validate_size}
use petty.Mcp.Server.Handlers.{
  sized, execute_checked, command_checked, write_checked, handle_execute_code, handle_run_command,
  handle_write_file, call_tool,
}

module _ (l : Libraries) (r : Tools) where
  -- Nothing was done but to answer with an error.
  abbrev pub Refuses : Tool → Type 0
  Refuses tool =
      (s : Server) (t : Trace) → (message : Str) × (tool s t ≡ (returned (error message), s, t))

  sized-Refuses :
      (content : Str) (n : ℕ) (name : Str) (tool : Tool)
      → n < length content
      → Refuses (sized l r content n name tool)
  unfolding sized validate_size refuse
  sized-Refuses content n name tool h s t = rw (lt→ltb n (length content) h, sized) (_, refl)

  -- A code or a file of more than 10 MiB and a command of more than 1 MiB are refused, and
  -- neither the server nor the host is touched.
  pub oversized-Refuses :
      (a b c : r.Arguments) (p : ExecuteCodeParams) (q : RunCommandParams) (w : WriteFileParams)
      → r.execute_params a ≡ ok p
      → r.command_params b ≡ ok q
      → r.write_params c ≡ ok w
      → max_input_size_bytes < length p.code
      → max_command_length < length q.command
      → max_input_size_bytes < length w.content
      → Refuses (call_tool l r (lit "execute_code") (some a))
        × Refuses (call_tool l r (lit "run_command") (some b))
        × Refuses (call_tool l r (lit "write_file") (some c))
  unfolding call_tool lit eq_str handle_execute_code handle_run_command handle_write_file required
  oversized-Refuses a b c p q w d e f h i j = (
    λ s t.
        rw (d, handle_execute_code, required)
          (sized-Refuses p.code _ _ (execute_checked l r p) h s t),
    λ s t.
        rw (e, handle_run_command, required)
          (sized-Refuses q.command _ _ (command_checked l r q) i s t),
    λ s t.
        rw (f, handle_write_file, required)
          (sized-Refuses w.content _ _ (write_checked l r w) j s t),
  )
