-- ===== src/Mcp/Main.antt =====
-- crates/bouvet-mcp/src/main.rs: the server's start from the environment, and its cleanup after the
-- signal, with no request and no task of the pool running.
pub mod Startup
pub mod Shutdown
pub mod Process
use petty.Shared.{Option, none, some}
use petty.Host.{Trace}
use petty.Core.Sandbox.{Libraries}
use petty.Core.Manager
use petty.Core.Pool.{SandboxPool, signal_shutdown, finish_shutdown}
use petty.Mcp.Config.{Environment, from_env}
use petty.Mcp.Server.{Server, new, start_pool}

-- The server that `main` starts: nothing where `BouvetServer::new` panics.
unfoldable pub start_up : Environment → Option Server
start_up var = elim (new (from_env var)) [ none ↦ none | some s ↦ some (start_pool s) ]

module _ (l : Libraries) where
  -- `shutdown_pool`, where the filler ends at once.
  shutdown_with : Option SandboxPool → Server → Trace → Server × Trace
  shutdown_with none s t = (s, t)
  shutdown_with (some p) s t =
      let (p', t') = finish_shutdown l (signal_shutdown p) t in (record s { pool = some p' }, t')

  unfoldable pub shutdown_pool : Server → Trace → Server × Trace
  unfolding shutdown_with
  shutdown_pool s t = shutdown_with s.pool s t

  -- The cleanup of `main`: an error of `destroy_all` would be logged.
  unfoldable pub clean_up : Server → Trace → Server × Trace
  clean_up s t =
      let (s', t') = shutdown_pool s t in
      let (_, m, t'') = Manager.destroy_all l s'.manager t' in (record s' { manager = m }, t'')
