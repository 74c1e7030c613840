-- ===== src/Tests/Mcp.antt =====
-- The theorems on the server at a concrete one, with arguments that are one text.
use petty.Shared.{
  ℕ, ◌-◌, ◌<◌, ◌≡◌, refl, ◌+◌, true, false, List, [], ◌∷◌, Option, none, some, arith, All, length,
  suc, zero, if◌then◌else◌,
}
use petty.Shared.Result.{ok}
use petty.Text.{Str, lit, eq_str}
use petty.Text.FilePath.{path_from}
use petty.Host.{Uuid, drop_machine}
use petty.Core.Config.{SandboxConfig, build, validate}
use petty.Core.Sandbox.{Libraries, is_healthy, machine_config}
use petty.Core.Manager.{Registry, get, insert, at_limit, count}
use petty.Core.Manager.Destroy.{Occurs}
use petty.Core.Pool.{SandboxPool, new, acquire, acquire_from, warm_hit}
use petty.Mcp.Config.{BouvetConfig, default_bouvet, Environment, from_env, max_input_size_bytes}
use petty.Mcp.Types.{CreateSandboxParams, default_params, destroyed}
use petty.Mcp.Tools.{Tools, returned, error}
use petty.Mcp.Server.{Server, server_with, pool_of, pool_template, json_result}
use petty.Mcp.Server
use petty.Mcp.Server.Create.{handle_create_sandbox, requested}
use petty.Mcp.Server.Creation.{Answered, create_sandbox-Answered, requested_machine}
use petty.Mcp.Server.Full.{full_destroys_acquired}
use petty.Mcp.Server.Handlers.{handle_destroy_sandbox, call_tool}
use petty.Mcp.Server.Sizes.{Refuses, oversized-Refuses}
use petty.Mcp.Server.Destroyed.{create-destroy_restores}
use petty.Mcp.Session.{Event, calls, starts, fills, signals, finishes, works, run}
use petty.Mcp.Session.Bounds.{Safe, session-Safe, opened}
use petty.Mcp.Main.{clean_up}
use petty.Mcp.Session.Signalled.{IsSignalled}
use petty.Mcp.Main.Shutdown.{clean_up_drops, pooled, Dropped}
use petty.Tests.{host, libraries}
use petty.Tests.Manager.{sandbox_of, two}

abbrev parse_id : Str → Option Uuid
parse_id [] = none
parse_id (c ∷ []) = some (c - 48)
parse_id (c ∷ d ∷ s) = none

abbrev pub tools : Tools
tools = record {
  Arguments = Str;
  create_params = λ a. ok default_params;
  destroy_params = λ a. ok (record { sandbox_id = a });
  execute_params = λ a. ok (record { sandbox_id = lit "3"; language = lit "python"; code = a });
  command_params = λ a. ok (record { sandbox_id = lit "3"; command = a });
  read_params = λ a. ok (record { sandbox_id = lit "3"; path = a });
  write_params = λ a. ok (record { sandbox_id = lit "3"; path = lit "/a"; content = a });
  directory_params = λ a. ok (record { sandbox_id = lit "3"; path = a });
  to_string_pretty = λ x. ok (lit "{}");
  parse_uuid = parse_id;
  to_rfc3339 = λ ms. lit "1970-01-01T00:00:00Z";
  trace_enabled = false;
}

abbrev pub configuration : BouvetConfig
configuration = from_env (λ name. none)

abbrev template : SandboxConfig
template = (pool_template configuration).config

abbrev pub served : Server
served = server_with configuration (some (pool_of configuration template))

pub serves : Server.new configuration ≡ some served
unfolding Server.new build validate from_env default_bouvet path_from lit
serves = refl

abbrev events : List (Event libraries tools)
events =
    starts
    ∷ fills
    ∷ works 1
    ∷ works 0
    ∷ works 0
    ∷ works 0
    ∷ calls (lit "create_sandbox") none
    ∷ calls (lit "destroy_sandbox") (some (lit "7"))
    ∷ calls (lit "create_sandbox") none
    ∷ signals
    ∷ finishes
    ∷ []

session-Safe_example : Safe configuration (run libraries tools events (opened served []))
session-Safe_example = session-Safe libraries tools configuration served events [] serves

create_sandbox-Answered_example :
    Answered libraries tools served.manager (handle_create_sandbox libraries tools none served [])
create_sandbox-Answered_example = create_sandbox-Answered libraries tools none served []

-- A health check that finds the client at work.
abbrev busy : Libraries
busy = record libraries { env = record host { client_busy = λ t id. true } }

abbrev warm : SandboxPool
warm = record (new (pool_of configuration template).config) { queue = sandbox_of 5 ∷ [] }

abbrev pub full : Server
full = record { manager = two; config = configuration; pool = some warm }

two-full : at_limit two ≡ true
unfolding at_limit
two-full = refl

given : (acquire busy warm []).0 ≡ ok (sandbox_of 5)
unfolding acquire acquire_from warm_hit is_healthy
given = refl

full_destroys_acquired_example :
    let (o, s', t') = handle_create_sandbox busy tools none full [] in
    ((message : Str) × (o ≡ returned (error message)))
    × (s'.manager ≡ full.manager)
    × (s'.pool ≡ some (acquire busy warm []).1)
    × Occurs (drop_machine (sandbox_of 5).machine.id) t'
full_destroys_acquired_example =
    full_destroys_acquired busy tools none warm full [] (sandbox_of 5) refl two-full given

unfoldable repeated : ℕ → Str
repeated zero = []
repeated (suc n) = 97 ∷ repeated n

length-repeated : (n : ℕ) → length (repeated n) ≡ n
unfolding repeated
length-repeated zero = refl
length-repeated (suc n) = omega (arith, length-repeated n)

abbrev long : Str
long = repeated (max_input_size_bytes + 1)

long-long : max_input_size_bytes < length long
long-long = omega (arith, length-repeated (max_input_size_bytes + 1))

oversized-Refuses_example :
    Refuses libraries tools (call_tool libraries tools (lit "execute_code") (some long))
    × Refuses libraries tools (call_tool libraries tools (lit "run_command") (some long))
    × Refuses libraries tools (call_tool libraries tools (lit "write_file") (some long))
oversized-Refuses_example =
    oversized-Refuses libraries tools long long long
      (record { sandbox_id = lit "3"; language = lit "python"; code = long })
      (record { sandbox_id = lit "3"; command = long })
      (record { sandbox_id = lit "3"; path = lit "/a"; content = long }) refl refl refl long-long
      (omega (arith, long-long)) long-long

abbrev three : Registry
three = insert 5 (sandbox_of 5) two.sandboxes

abbrev holding : Server
holding = record full { manager = record two { sandboxes = three } }

absent-five : get 5 two.sandboxes ≡ none
unfolding get
absent-five = refl

reads-five : parse_id (lit "5") ≡ some 5
unfolding lit
reads-five = refl

create-destroy_restores_example :
    let (o, s', t') = handle_destroy_sandbox libraries tools (some (lit "5")) holding [] in
    (o ≡ returned (json_result libraries tools (destroyed (record { success = true }))))
    × (s'.manager.sandboxes ≡ two.sandboxes)
    × (s'.pool ≡ holding.pool)
    × Occurs (drop_machine (sandbox_of 5).machine.id) t'
create-destroy_restores_example =
    create-destroy_restores libraries tools (lit "5") (record { sandbox_id = lit "5" })
      (sandbox_of 5) two.sandboxes holding [] refl reads-five absent-five refl

abbrev asked : CreateSandboxParams
asked = record { memory_mib = some 512; vcpu_count = none }

asked-built : build (requested configuration asked) ≡ ok (requested configuration asked).config
unfolding build validate from_env default_bouvet path_from lit
asked-built = refl

requested_machine_example :
    let mc = machine_config host 7 (requested configuration asked).config in
    (mc.kernel_path ≡ configuration.kernel_path)
    × (mc.root_drive.path_on_host ≡ configuration.rootfs_path)
    × (mc.memory_mib ≡ 512)
    × (mc.vcpu_count ≡ 2)
    × (mc.chroot_path ≡ path_from (lit "/tmp/bouvet"))
    × (mc.firecracker_path ≡ path_from (lit "/usr/local/bin/firecracker"))
requested_machine_example =
    requested_machine host 7 configuration asked (requested configuration asked).config asked-built

clean_up_drops_example :
    let (s', t') = clean_up libraries full [] in
    (pooled libraries s'.pool ≡ [])
    × IsSignalled s'.pool
    × (count s'.manager ≡ 0)
    × All (Dropped libraries t') (pooled libraries full.pool)
    × All (λ e. Dropped libraries t' e.1) full.manager.sandboxes
clean_up_drops_example = clean_up_drops libraries full []

-- The variable of the kernel's path is there and empty.
abbrev emptied : Environment
emptied name = if eq_str name (lit "BOUVET_KERNEL") then some [] else none
