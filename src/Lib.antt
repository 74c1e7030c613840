-- ===== src/Lib.antt =====
-- petty: a verification of the crates that run sandboxes in microVMs.
--
-- The program boots Firecracker microVMs through the firepilot library (crates/bouvet-vm), and
-- builds sandboxes on them (crates/bouvet-core): a sandbox is a microVM together with a client of
-- the agent (crates/bouvet-agent) that answers inside it. A manager keeps a registry of sandboxes
-- by identifier under a limit, and a warm pool boots sandboxes ahead of their use. The server
-- (crates/bouvet-mcp) offers sandboxes as tools: `create_sandbox` takes a sandbox of the pool and
-- registers it with the manager, or has the manager create one, and the other tools are methods of
-- the manager.
--
-- Which file models which part:
--
-- Vm.Config, Vm.Builder: crates/bouvet-vm/src/config.rs and builder.rs. `MachineConfig` with its
-- parts and defaults, `validate`, and the setters of `VmBuilder`.
-- Vm.Api: crates/bouvet-vm/src/machine_config.rs and vsock.rs. The two PUT requests to
-- Firecracker's API socket, `configure_machine` and `configure_vsock`.
-- Vm.Machine, Vm.Error: crates/bouvet-vm/src/machine.rs and error.rs. `create_with_id` in two
-- halves, `build_fp_config` and `boot`; `start_vm`, `stop_vm`, `kill_vm` and `destroy_vm` are the
-- methods of those names. Vm.Machine.Boot is about booting, Vm.Machine.Life about what comes after
-- it.
-- Core.Config, Core.Error: crates/bouvet-core/src/config.rs and error.rs.
-- Core.Client: crates/bouvet-core/src/client.rs. `connect` with its retries, `try_connect` with the
-- handshake, and `call`, the JSON-RPC request; Core.Client.Methods has the methods of the agent.
-- Core.Sandbox: crates/bouvet-core/src/sandbox.rs. `create`, `destroy`, `is_healthy`, and the
-- operations, which `when_ready` guards as `ensure_ready` does. Core.Sandbox.Owners counts who
-- holds a sandbox of a given identifier; Host.Growth, Core.Client.Growth and Core.Sandbox.Growth
-- are about how the trace goes on.
-- Core.Manager: crates/bouvet-core/src/manager.rs. The registry is an association list. A method
-- runs with no other method of the manager between its steps. Core.Manager.Race splits `create` and
-- `register` where they may be suspended, so that calls run at the same time. Core.Manager.Limit is
-- about any sequence of the methods, with a slack by which calls in flight may pass the limit, and
-- Core.Manager.Cids about the CIDs that they give.
-- Core.Pool: crates/bouvet-core/src/pool.rs. The filler and the creation tasks that it spawns are
-- split where they may be suspended, and so is `acquire` in Core.Pool.Caller, next to the whole
-- `acquire` of Core.Pool, which runs with no other in between. Core.Pool.Schedule puts the pool,
-- the filler's turns and the steps of tasks and callers together under any interleaving;
-- Core.Pool.Owners follows a sandbox through it.
-- Agent: crates/bouvet-agent. Agent.Protocol is src/protocol.rs, Agent.Exec and Agent.Run are
-- src/exec.rs, Agent.Files is src/fs.rs, Agent.Handler is src/handler.rs, and Agent.Handshake and
-- Agent.Connection are `handle_connection` of src/main.rs: its first line, and the loop over the
-- others, with the panic of the slice in its log line. Agent.Accept is `async_main`, the agent's
-- start and its loop over connections. Agent.Os stands for the operating system and serde_json
-- there; texts that it gives are what `from_utf8_lossy` has read.
-- Mcp.Config, Mcp.Types: crates/bouvet-mcp/src/config.rs and types.rs. The environment is a
-- function from names to texts, and what exists in the file system is an argument of `validate`.
-- Mcp.Server: crates/bouvet-mcp/src/server.rs. Mcp.Server.Create is `handle_create_sandbox`, and
-- Mcp.Server.Handlers has the other tools and `call_tool`. Mcp.Server.Listed is `build_tools_list`.
-- A tool that panics in its log line ends with `panicked`. Mcp.Tools stands for rmcp's arguments,
-- the derived decoders and encoders, and the uuid and chrono crates, and is a parameter of the
-- tools. Mcp.Session puts tool calls and the steps of the pool's filler and tasks in any order; a
-- tool call runs with none of these between its steps.
-- Mcp.Concurrent: concurrent `create_sandbox` requests, each split where `handle_create_sandbox`,
-- the pool's `acquire` and the manager's `register` and `create` may be suspended, with all of the
-- session between their steps. The server's lock of its pool, which is held through `acquire`, is
-- left out, so more orders are allowed than the program has.
-- Mcp.Main: crates/bouvet-mcp/src/main.rs. The server that is started, and the cleanup after the
-- signal on its own. Mcp.Main.Process is the process: the tasks of its transports with the requests
-- that they hand on, the pool's tasks, the signal with the broadcast that ends the transports, the
-- parts of the cleanup, and the return; a request runs there as a whole, and Mcp.Concurrent is
-- about requests at the same time. Mcp.Session.Signalled is about a session whose pool is told to
-- shut down.
-- Remote: the client of crates/bouvet-core against the agent, by one request over a connection.
-- Shared, Text: Rust's `Result`, actions that pass a state, integers, text as its bytes, paths,
-- decimals and IP addresses. Text.Utf8 says which bytes are well-formed UTF-8.
-- Host: what the program calls and does not implement. Every call on the host, to firepilot,
-- Firecracker, the file system or a socket, goes on a trace, and an `Env` answers it by the trace
-- before it. Host.Json stands for serde_json. Both are parameters of all definitions.
-- Tests: a host on which every call succeeds, and the theorems at concrete data.
--
-- Bounds. Counters wrap: CIDs modulo 2 ^ 32, request identifiers and statistics modulo 2 ^ 64. The
-- loop of `connect` has 101 rounds of fuel: a round that goes on sleeps 100 ms, and the loop gives
-- up once 10 s have gone by. Printing a decimal has one round more than its number, which halts
-- earlier, and all other loops follow a list.
--
-- The read of the answer to a handshake has no timeout. An `Env` says where it waits without end;
-- the rounds of `connect` then give nothing, and `connect`, which is to give something, a value
-- that stands for no outcome.
--
-- That a host draws no identifier twice stands for the uuid crate's random identifiers: it is a
-- hypothesis, by name, of the theorems on who holds a sandbox.
--
-- Not modelled: logging; the HTTP client and JSON text behind the requests, of which only the
-- errors are kept; of the server, the routes and limits that crates/bouvet-mcp/src/http.rs gives to
-- axum and tower, the set-up of logging in main.rs, the schemas of the tools and the server's
-- description of itself; of the pool's statistics, the hit rate, which is a float. Tool calls but
-- `create_sandbox` run without interruption.
pub mod Shared
pub mod Text
pub mod Host
pub mod Vm
pub mod Core
pub mod Agent
pub mod Mcp
pub mod Remote
pub mod Tests
