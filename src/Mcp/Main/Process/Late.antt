-- ===== src/Mcp/Main/Process/Late.antt =====
-- A request whose handler runs after the destruction of all sandboxes.
use petty.Shared.{◌≡◌, refl, List, [], ◌∷◌, none, true}
use petty.Shared.Result.{ok}
use petty.Text.{lit, eq_str}
use petty.Host.{Trace}
use petty.Core.Config.{SandboxConfig, build}
use petty.Core.Sandbox.{Sandbox, Libraries}
use petty.Core.Sandbox
use petty.Core.Manager.{insert, at_limit}
use petty.Core.Manager
use petty.Mcp.Config.{BouvetConfig, TransportMode, http_enabled, stdio, http, both}
use petty.Mcp.Types.{default_params}
use petty.Mcp.Tools.{Tools}
use petty.Mcp.Server.{server_with, start_pool, required}
use petty.Mcp.Server.Create.{
  handle_create_sandbox, params_or_default, from_pool, after_pool, from_cold_start, requested,
}
use petty.Mcp.Server.Handlers.{call_tool}
use petty.Mcp.Session.{Session}
use petty.Mcp.Session
use petty.Mcp.Main.Process.{
  Act, requests, ends, interrupts, proceeds, act, act_on, run, launch, handle_if, interrupt,
  proceed, exit_if, by_http, by_stdio, exited,
}

module _ (l : Libraries) (r : Tools) where
  -- The signal and the cleanup, then the request, the ends of the transports and of `main`.
  abbrev pub late : List (Act l r)
  late =
      interrupts
      ∷ proceeds
      ∷ proceeds
      ∷ proceeds
      ∷ requests by_http (lit "create_sandbox") none
      ∷ ends by_http
      ∷ ends by_stdio
      ∷ proceeds
      ∷ []

  created_cold :
      (c : BouvetConfig) (k : SandboxConfig) (t t' : Trace) (x : Sandbox)
      → build (requested c default_params) ≡ ok k
      → Sandbox.create l (record k { vsock_cid = Manager.first_cid }) t ≡ (ok x, t')
      → (call_tool l r (lit "create_sandbox") none (server_with c none) t).1.manager.sandboxes
        ≡ (x.id, x) ∷ []
  unfolding call_tool handle_create_sandbox params_or_default required from_pool after_pool
      from_cold_start Manager.create at_limit insert eq_str lit build
  created_cold c k t t' x b h = rw (b, h) refl

  -- Where the HTTP transport is configured and the pool is not, if the host boots the sandbox of a
  -- request that asks for none in particular, this run ends with `main` returned after its cleanup, and
  -- the sandbox of a request that an ending HTTP task still served registered and not destroyed.
  pub late_request :
      (c : BouvetConfig) (k : SandboxConfig) (t t' : Trace) (x : Sandbox)
      → http_enabled c.transport_mode ≡ true
      → build (requested c default_params) ≡ ok k
      → Sandbox.create l (record k { vsock_cid = Manager.first_cid }) t ≡ (ok x, t')
      → let y = run l r late (launch c.transport_mode (server_with c none) t) in
        (y.phase ≡ exited) × (y.session.server.manager.sandboxes ≡ (x.id, x) ∷ [])
  unfolding run act act_on handle_if interrupt proceed exit_if launch Session.step Session.on_pool
      start_pool Manager.destroy_all
  late_request c k t t' x e b h = by_mode c.transport_mode e
    where
      by_mode :
          (m : TransportMode)
          → http_enabled m ≡ true
          → let y = run l r late (launch m (server_with c none) t) in
            (y.phase ≡ exited) × (y.session.server.manager.sandboxes ≡ (x.id, x) ∷ [])
      by_mode stdio d = absurd (cc d)
      by_mode http d = (refl, created_cold c k t t' x b h)
      by_mode both d = (refl, created_cold c k t t' x b h)
