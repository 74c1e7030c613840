-- ===== src/Core/Pool.antt =====
-- crates/bouvet-core/src/pool.rs: the warm pool, its filler task and the creation tasks that the
-- filler spawns. What runs on its own between two points where it may be suspended is one step.
pub mod Acquire
pub mod Caller
pub mod Schedule
pub mod Owners
use petty.Shared.{
  ℕ, zero, suc, ◌+◌, ◌-◌, ◌%◌, ◌^◌, Bool, true, false, not, ◌&&◌, List, [], ◌∷◌, ◌++◌, Option, none,
  some, leb, ltb, ◌==◌, if◌then◌else◌, length,
}
use petty.Shared.Result.{Result, ok, err}
use petty.Host.{Trace}
use petty.Core.Error.{CoreError}
use petty.Core.Config.{SandboxConfig, default_config}
use petty.Core.Sandbox.{Sandbox, Libraries}
use petty.Core.Sandbox
use petty.Core.Manager.{next_cid}

pub record PoolConfig : Type 0 where
  pub min_size : ℕ
  pub max_concurrent_boots : ℕ
  pub fill_interval : ℕ
  pub sandbox_config : SandboxConfig

abbrev pub default_pool : PoolConfig
default_pool = record {
  min_size = 3;
  max_concurrent_boots = 2;
  fill_interval = 1000;
  sandbox_config = default_config;
}

-- Counters of 64 bits.
pub record PoolStats : Type 0 where
  pub warm_hits : ℕ
  pub cold_misses : ℕ
  pub created : ℕ
  pub destroyed : ℕ

abbrev pub no_stats : PoolStats
no_stats = record { warm_hits = 0; cold_misses = 0; created = 0; destroyed = 0 }

-- `fetch_add(n)` on an `AtomicU64`.
abbrev pub add_u64 : ℕ → ℕ → ℕ
add_u64 n k = (n + k) % 2 ^ 64

-- A creation task: not yet begun, with a booted sandbox that it has not yet checked the shutdown
-- flag for, and about to lock the pool. A task holds a boot permit until it ends.
pub data Task : Type 0 where
  spawned : SandboxConfig → Task
  booted adding : Sandbox → Task

-- The filler's handle, as long as it has not been taken by a shutdown.
pub data Filler : Type 0 where
  absent running exited : Filler

pub record SandboxPool : Type 0 where
  pub queue : List Sandbox
  pub config : PoolConfig
  pub shutdown : Bool
  pub permits : ℕ
  pub filler : Filler
  pub stats : PoolStats
  pub cid_counter : ℕ  -- AtomicU32

abbrev pub first_cid : ℕ
first_cid = 10000

-- `SandboxPool::new`.
abbrev pub new : PoolConfig → SandboxPool
new c = record {
  queue = [];
  config = c;
  shutdown = false;
  permits = c.max_concurrent_boots;
  filler = absent;
  stats = no_stats;
  cid_counter = first_cid;
}

-- `SandboxPool::start`: a second start does nothing.
abbrev started : Filler → Filler
started absent = running
started running = running
started exited = exited

unfoldable pub start : SandboxPool → SandboxPool
start p = record p { filler = started p.filler }

abbrev has_handle : Filler → Bool
has_handle absent = false
has_handle running = true
has_handle exited = true

-- `SandboxPool::is_running` and `size`.
unfoldable pub is_running : SandboxPool → Bool
is_running p = has_handle p.filler && not p.shutdown

unfoldable pub size : SandboxPool → ℕ
size p = length p.queue

-- The spawning loop of a fill: each round takes a permit and a CID for its task, or is skipped.
unfoldable pub spawn_rounds : ℕ → SandboxPool → List Task → SandboxPool × List Task
spawn_rounds zero p ts = (p, ts)
spawn_rounds (suc needed) p ts = elim (p.permits == 0) [
  | true ↦ spawn_rounds needed p ts
  | false ↦
      spawn_rounds needed
        (record p { permits = p.permits - 1; cid_counter = next_cid p.cid_counter })
        (ts ++ spawned (record (p.config.sandbox_config) { vsock_cid = p.cid_counter }) ∷ [])
]

-- One turn of the filler loop after its sleep: the flag stops it, a full pool needs nothing.
unfoldable pub fill : SandboxPool → List Task → SandboxPool × List Task
unfolding spawn_rounds
fill p ts = elim (p.shutdown) [
  | true ↦ (record p { filler = exited }, ts)
  | false ↦
      if leb p.config.min_size (length p.queue)
      then (p, ts)
      else spawn_rounds (p.config.min_size - length p.queue) p ts
]

abbrev turn : Filler → SandboxPool → List Task → SandboxPool × List Task
turn running p ts = fill p ts
turn absent p ts = (p, ts)
turn exited p ts = (p, ts)

unfoldable pub filler_turn : SandboxPool → List Task → SandboxPool × List Task
unfolding fill
filler_turn p ts = turn p.filler p ts

-- A task that ends gives its permit back.
abbrev release : SandboxPool → SandboxPool
release p = record p { permits = p.permits + 1 }

abbrev pub count_destroyed : SandboxPool → SandboxPool
count_destroyed p = record p {
  stats = record (p.stats) { destroyed = add_u64 p.stats.destroyed 1 };
}

-- `SandboxPool::shutdown`, in the two parts between which it waits for the filler.
unfoldable pub signal_shutdown : SandboxPool → SandboxPool
signal_shutdown p = record p { shutdown = true }

module _ (l : Libraries) where
  -- `let _ = sandbox.destroy().await`.
  abbrev pub discard : Sandbox → Trace → Trace
  discard s t = (Sandbox.destroy l s t).1

  abbrev pub TaskStep : Type 0
  TaskStep = Option Task × SandboxPool × Trace

  boot_done : SandboxPool → Result CoreError Sandbox × Trace → TaskStep
  boot_done p (ok s, t) = (some (booted s), p, t)
  boot_done p (err x, t) = (none, release p, t)

  -- One step of a creation task. `none` says that it has ended.
  unfoldable pub task_step : Task → SandboxPool → Trace → TaskStep
  unfolding boot_done
  task_step (spawned c) p t =
      if p.shutdown then (none, release p, t) else boot_done p (Sandbox.create l c t)
  task_step (booted s) p t =
      if p.shutdown then (none, release p, discard s t) else (some (adding s), p, t)
  task_step (adding s) p t =
      if leb p.config.min_size (length p.queue) then (none, release p, discard s t) else (
        none,
        release (record p {
          queue = p.queue ++ s ∷ [];
          stats = record (p.stats) { created = add_u64 p.stats.created 1 };
        }),
        t,
      )

  abbrev pub PoolMethod : Type 0
  PoolMethod = SandboxPool → Trace → Result CoreError Sandbox × SandboxPool × Trace

  -- The end of `acquire`, when the pool is empty.
  unfoldable pub cold_start : PoolMethod
  cold_start p t =
      let (r, t') =
        Sandbox.create l (record (p.config.sandbox_config) { vsock_cid = p.cid_counter }) t in
      (
        r,
        record p {
          cid_counter = next_cid p.cid_counter;
          stats = record (p.stats) { cold_misses = add_u64 p.stats.cold_misses 1 };
        },
        t',
      )

  unfoldable pub warm_hit :
      Sandbox → List Sandbox → SandboxPool → Trace → Result CoreError Sandbox × SandboxPool × Trace
  warm_hit s rest p t = (
    ok s,
    record p { queue = rest; stats = record (p.stats) { warm_hits = add_u64 p.stats.warm_hits 1 } },
    t,
  )

  -- The loop of `acquire` over the queue, while no other task changes it.
  unfoldable pub acquire_from : List Sandbox → PoolMethod
  unfolding cold_start warm_hit
  acquire_from [] p t = cold_start (record p { queue = [] }) t
  acquire_from (s ∷ rest) p t =
      let (healthy, s', t') = Sandbox.is_healthy l s t in
      let next = acquire_from rest (count_destroyed p) (discard s' t') in
      if healthy then warm_hit s' rest p t' else next

  -- `SandboxPool::acquire`.
  unfoldable pub acquire : PoolMethod
  unfolding acquire_from
  acquire p t = acquire_from p.queue p t

  -- The draining loop of `shutdown`, whose errors are logged.
  unfoldable pub drain : List Sandbox → Trace → Trace
  drain [] t = t
  drain (s ∷ ss) t = drain ss (discard s t)

  unfoldable pub finish_shutdown : SandboxPool → Trace → SandboxPool × Trace
  unfolding drain
  finish_shutdown p t = (
    record p {
      queue = [];
      filler = absent;
      stats = record (p.stats) { destroyed = add_u64 p.stats.destroyed (length p.queue) };
    },
    drain p.queue t,
  )
