-- ===== src/Mcp/Server/Destroyed.antt =====
-- `destroy_sandbox`, of a sandbox that is there and of one that is not.
use petty.Shared.{◌≡◌, refl, true, [], ◌∷◌, ◌++◌, Option, none, some, arith, ==_iff}
use petty.Shared.Result.{ok}
use petty.Text.{Str, lit}
use petty.Host.{Uuid, Trace, drop_machine}
use petty.Core.Error.{core_error_text}
use petty.Core.Sandbox.{Sandbox, Libraries}
use petty.Core.Manager.{Registry, SandboxManager, get, insert, remove}
use petty.Core.Manager
use petty.Core.Manager.Registry.{get-insert}
use petty.Core.Manager.Destroy.{Occurs, Occurs-drop, destroy_result}
use petty.Mcp.Types.{DestroySandboxParams, destroyed}
use petty.Mcp.Tools.{Tools, returned, error}
use petty.Mcp.Server.{Server, required, refuse, json_result, parse_sandbox_id}
use petty.Mcp.Server.Handlers.{on_manager, handle_destroy_sandbox}

remove-insert :
    (k : Uuid) (s : Sandbox) (r : Registry) → get k r ≡ none → remove k (insert k s r) ≡ r
unfolding get insert remove
remove-insert k s [] h = ground (arith, ==_iff k k)
remove-insert k s ((i, v) ∷ r) h = ground (arith, remove-insert k s r)

-- What the answer says of an identifier that does not name a sandbox.
abbrev missing_text : (Uuid → Str) → Option Uuid → Str
missing_text uuid_string none = lit "Sandbox not found or invalid ID"
missing_text uuid_string (some id) =
    lit "Failed to destroy sandbox: " ++ lit "sandbox not found: " ++ uuid_string id

abbrev IsMissing : Registry → Option Uuid → Type 0
IsMissing reg none = Unit
IsMissing reg (some id) = get id reg ≡ none

module _ (l : Libraries) (r : Tools) where
  -- After a sandbox was added to the registry under a new identifier, `destroy_sandbox` for this
  -- identifier succeeds, drops the sandbox's machine, and leaves the registry as it was before.
  pub create-destroy_restores :
      (a : r.Arguments) (p : DestroySandboxParams) (x : Sandbox) (reg : Registry) (s : Server)
      (t : Trace)
      → r.destroy_params a ≡ ok p
      → r.parse_uuid p.sandbox_id ≡ some x.id
      → get x.id reg ≡ none
      → s.manager.sandboxes ≡ insert x.id x reg
      → let (o, s', t') = handle_destroy_sandbox l r (some a) s t in
        (o ≡ returned (json_result l r (destroyed (record { success = true }))))
        × (s'.manager.sandboxes ≡ reg)
        × (s'.pool ≡ s.pool)
        × Occurs (drop_machine x.machine.id) t'
  unfolding handle_destroy_sandbox required on_manager parse_sandbox_id Manager.destroy
  create-destroy_restores a p x reg s t d u n e =
      let there : get x.id s.manager.sandboxes ≡ some x = found in
      rw (d, handle_destroy_sandbox, required)
        (rw (u, there, destroy_result l x t, on_manager, parse_sandbox_id, Manager.destroy)
          (refl, rw e (remove-insert x.id x reg n), refl, Occurs-drop l x t))
    where
      found : get x.id s.manager.sandboxes ≡ some x
      found = rw e (ground (arith, get-insert x.id x.id x reg, ==_iff x.id x.id))

  -- For an identifier that is ill-formed or that no registered sandbox has, `destroy_sandbox` changes
  -- nothing, and its answers tell the two cases apart.
  destroy-IsMissing :
      (a : r.Arguments) (p : DestroySandboxParams) (u : Option Uuid) (s : Server) (t : Trace)
      → r.destroy_params a ≡ ok p
      → r.parse_uuid p.sandbox_id ≡ u
      → IsMissing s.manager.sandboxes u
      → handle_destroy_sandbox l r (some a) s t
        ≡ (returned (error (missing_text l.env.uuid_string u)), s, t)
  unfolding handle_destroy_sandbox required on_manager parse_sandbox_id refuse Manager.destroy
      core_error_text lit
  destroy-IsMissing a p none s t d h n =
      rw (d, handle_destroy_sandbox, required) (rw (h, on_manager, parse_sandbox_id) refl)
  destroy-IsMissing a p (some id) s t d h n =
      rw (d, handle_destroy_sandbox, required)
        (rw (h, n, on_manager, parse_sandbox_id, Manager.destroy) refl)
