-- ===== src/Tests/Owners.antt =====
-- The theorems on the holders of sandboxes, on concurrent requests and on the process at concrete runs.
use petty.Shared.{◌+◌, ◌≤◌, ◌≡◌, refl, List, [], ◌∷◌, none, some, arith, false}
use petty.Shared.Result.{ok}
use petty.Text.{lit}
use petty.Text.FilePath.{path_from}
use petty.Core.Config.{SandboxConfig, build, validate}
use petty.Core.Sandbox
use petty.Shared.Int.{as_i32}
use petty.Text.{starts_with, strip_prefix, eq_str}
use petty.Text.Decimal.{decimal}
use petty.Text.FilePath.{join, parent, path_string}
use petty.Host.{perform, send_put, is_success, read_reply}
use petty.Vm.Api.{configure_machine, put_request, configure_vsock}
use petty.Vm.Config.{for_vm}
use petty.Vm.Config
use petty.Vm.Machine.{create_with_id, build_fp_config}
use petty.Core.Client.{connect, try_connect, call, interpret}
use petty.Core.Client.Methods.{ping}
use petty.Core.Sandbox.{create, machine_config}
use petty.Core.Sandbox.{Sandbox}
use petty.Core.Sandbox.Owners.{Unrepeated}
use petty.Core.Manager.{insert, at_limit}
use petty.Core.Manager.Race.{advance}
use petty.Core.Manager
use petty.Core.Pool.Schedule
use petty.Core.Pool.Schedule.Bounds.{initial}
use petty.Core.Pool.Owners.{held, handed_out}
use petty.Core.Pool.Owners.Distinct.{handed_out_once}
use petty.Mcp.Config.{both, BouvetConfig, default_bouvet, from_env}
use petty.Mcp.Types.{default_params}
use petty.Mcp.Server
use petty.Mcp.Server.{Server, server_with, pool_template}
use petty.Mcp.Server.Create.{requested}
use petty.Mcp.Session.{calls, starts, fills, works}
use petty.Mcp.Session
use petty.Mcp.Session.Bounds.{opened}
use petty.Mcp.Server.Handlers.{call_tool, handle_list_sandboxes}
use petty.Core.Pool.Schedule.{work}
use petty.Core.Pool.{filler_turn, start, task_step, signal_shutdown}
use petty.Mcp.Concurrent.{
  request_step, request_at, start_cold, asks, goes, happens, Move, Hub, begin,
}
use petty.Mcp.Concurrent
use petty.Mcp.Concurrent.Distinct.{all_holders, concurrent_hold_once}
use petty.Mcp.Concurrent.Safe.{Bounded, busiest, concurrent-Bounded}
use petty.Mcp.Main.Shutdown.{pooled}
use petty.Mcp.Main.Process.{
  is_live, Act, Process, requests, ends, interrupts, proceeds, fills_pool, works_at, by_http,
  by_stdio, launch, exited, run, act, act_on, is_live,
}
use petty.Mcp.Session.Signalled.{IsSignalled}
use petty.Mcp.Main.Process.Exit.{run-launch-exited}
use petty.Mcp.Main.Process.Emptied.{Undisturbed, run-launch-emptied}
use petty.Mcp.Main.Process.Late.{late, late_request}
use petty.Tests.{host, libraries}
use petty.Tests.Manager.{sandbox_of}
use petty.Tests.Pool.{pool_config, turns}
use petty.Tests.Mcp.{tools, configuration, served, serves}

unrepeated : Unrepeated libraries
unrepeated t u h = omega arith

handed_out_once_example :
    handed_out 7 libraries turns (initial pool_config [])
      + held 7 (Schedule.run libraries turns (initial pool_config []))
    ≤ 1
handed_out_once_example = handed_out_once libraries unrepeated 7 pool_config turns []

abbrev moves : List (Move libraries tools)
moves =
    happens starts
    ∷ happens fills
    ∷ happens (works 0)
    ∷ happens (works 0)
    ∷ happens (works 0)
    ∷ asks default_params
    ∷ asks default_params
    ∷ goes 1
    ∷ goes 0
    ∷ goes 1
    ∷ goes 0
    ∷ happens (calls (lit "destroy_sandbox") (some (lit "7")))
    ∷ goes 0
    ∷ goes 0
    ∷ []

concurrent_hold_once_example :
    all_holders 7
      (Concurrent.run libraries tools moves (record { session = opened served []; requests = [] }))
    ≤ 1
concurrent_hold_once_example =
    concurrent_hold_once libraries tools unrepeated 7 configuration served moves [] serves

-- Two requests at a server without a pool, both past the check before the first boots.
abbrev unpooled_configuration : BouvetConfig
unpooled_configuration = record configuration { pool_enabled = false }

abbrev cold : Server
cold = server_with unpooled_configuration none

serves_cold : Server.new unpooled_configuration ≡ some cold
unfolding Server.new
serves_cold = refl

abbrev both_past : List (Move libraries tools)
both_past = asks default_params ∷ asks default_params ∷ goes 0 ∷ goes 1 ∷ goes 0 ∷ goes 0 ∷ []

both_past-busiest :
    busiest libraries tools both_past (record { session = opened cold []; requests = [] }) ≡ 2
unfolding busiest Concurrent.move request_step begin start_cold at_limit request_at build validate
    from_env default_bouvet path_from lit create parent for_vm join decimal perform create_with_id
    Config.validate configure_machine put_request send_put is_success configure_vsock connect
    try_connect read_reply machine_config as_i32 path_string starts_with strip_prefix
    build_fp_config ping call interpret eq_str advance
both_past-busiest = refl

concurrent-Bounded_example :
    Bounded unpooled_configuration 2 (
      Concurrent.run libraries tools both_past (record { session = opened cold []; requests = [] }))
concurrent-Bounded_example =
    concurrent-Bounded libraries tools unpooled_configuration cold both_past 2 [] serves_cold
      (omega (arith, both_past-busiest))

abbrev unpooled : Server
unpooled = server_with configuration none

-- A whole run with a pool, whose creation task ends by the shutdown flag.
abbrev acts : List (Act libraries tools)
acts =
    requests by_http (lit "list_sandboxes") none
    ∷ fills_pool
    ∷ interrupts
    ∷ proceeds
    ∷ works_at 0
    ∷ proceeds
    ∷ ends by_http
    ∷ proceeds
    ∷ proceeds
    ∷ ends by_stdio
    ∷ proceeds
    ∷ []

abbrev launched : Process
launched = launch both served []

exits : (run libraries tools acts launched).phase ≡ exited
unfolding run act act_on launch
exits = refl

calm : Undisturbed libraries tools acts launched
unfolding run act act_on launch Session.step call_tool eq_str lit handle_list_sandboxes
    Server.start_pool work filler_turn start from_env task_step signal_shutdown
calm = (tt, (tt, (tt, (tt, (tt, ((tt, tt), (tt, (tt, (tt, (tt, (tt, tt)))))))))))

run-launch-exited_example :
    let y = run libraries tools acts launched in
    (is_live y.http ≡ false) × (is_live y.stdio ≡ false) × IsSignalled y.session.server.pool
run-launch-exited_example = run-launch-exited libraries tools acts both served [] exits

run-launch-emptied_example :
    let z = (run libraries tools acts launched).session.server in
    (z.manager.sandboxes ≡ []) × (pooled libraries z.pool ≡ [])
run-launch-emptied_example = run-launch-emptied libraries tools acts both served [] calm exits

-- A host on which every sandbox boots, and a request after the cleanup.
abbrev requested_now : SandboxConfig
requested_now = (requested configuration default_params).config

requested-built : build (requested configuration default_params) ≡ ok requested_now
unfolding build validate from_env default_bouvet path_from lit
requested-built = refl

abbrev first_created : SandboxConfig
first_created = record requested_now { vsock_cid = Manager.first_cid }

abbrev created_late : Sandbox
created_late = record (sandbox_of 7) {
  config = first_created;
  machine = record ((sandbox_of 7).machine) {
    config = Sandbox.machine_config host 7 first_created;
  };
}

creates_late :
    Sandbox.create libraries first_created []
    ≡ (ok created_late, (Sandbox.create libraries first_created []).1)
unfolding create parent for_vm join path_from lit decimal perform create_with_id Config.validate
    configure_machine put_request send_put is_success configure_vsock connect try_connect read_reply
    machine_config as_i32 path_string starts_with strip_prefix build_fp_config ping call interpret
    eq_str from_env default_bouvet
creates_late = refl

late_request_example :
    let y =
      run libraries tools
        (late libraries tools)
        (launch configuration.transport_mode unpooled []) in
    (y.phase ≡ exited) × (y.session.server.manager.sandboxes ≡ (created_late.id, created_late) ∷ [])
unfolding from_env
late_request_example =
    late_request libraries tools configuration requested_now []
      (Sandbox.create libraries first_created []).1 created_late refl requested-built creates_late
