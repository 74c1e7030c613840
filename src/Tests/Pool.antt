-- ===== src/Tests/Pool.antt =====
-- The theorems on the warm pool at a concrete pool.
use petty.Shared.{◌≡◌, refl, List, [], ◌∷◌, true, arith, length}
use petty.Core.Sandbox
use petty.Core.Sandbox.{Sandbox}
use petty.Core.Pool.{PoolConfig, SandboxPool, default_pool, new, acquire, absent, booted, spawned}
use petty.Core.Pool.Acquire.{Account, acquire-Account}
use petty.Core.Pool.Caller.{trying}
use petty.Core.Pool.Schedule.{
  asks, System, Turn, starts, fills, acquires, signals, finishes, works, run,
}
use petty.Core.Pool.Schedule.Bounds.{Inv, initial, run-initial-Inv}
use petty.Core.Pool.Schedule.Shutdown.{Closed, run-Closed, late, late_sandbox}
use petty.Core.Pool.Schedule.Fills.{rounds, rounds-fill}
use petty.Tests.Boots.{still, boots}
use petty.Tests.{libraries, sandbox_config}
use petty.Tests.Manager.{sandbox_of, creates}

abbrev pub pool_config : PoolConfig
pool_config = record default_pool { sandbox_config = sandbox_config }

abbrev pub turns : List Turn
turns =
    starts
    ∷ fills
    ∷ works 1
    ∷ works 0
    ∷ works 1
    ∷ works 1
    ∷ acquires
    ∷ asks 0
    ∷ fills
    ∷ asks 0
    ∷ signals
    ∷ works 0
    ∷ finishes
    ∷ []

run-initial-Inv_example : Inv pool_config (run libraries turns (initial pool_config []))
run-initial-Inv_example = run-initial-Inv libraries pool_config turns []

abbrev stocked : SandboxPool
stocked = record (new pool_config) {
  queue = record (sandbox_of 3) { state = Sandbox.destroyed } ∷ sandbox_of 4 ∷ [];
}

acquire-Account_example : Account libraries stocked stocked.queue [] (acquire libraries stocked [])
acquire-Account_example = acquire-Account libraries stocked [] (omega arith)

abbrev closed : System
closed = record {
  pool = record (new pool_config) { shutdown = true };
  tasks = booted (sandbox_of 3) ∷ spawned sandbox_config ∷ [];
  callers = trying ∷ [];
  trace = [];
}

run-Closed_example : Closed (run libraries turns closed)
run-Closed_example =
    run-Closed libraries turns closed
      (record { flagged = refl; emptied = refl; early = (tt, (tt, tt)) })

late_sandbox_example :
    let y = run libraries late (initial pool_config []) in
    (y.pool.shutdown ≡ true) × (y.pool.filler ≡ absent) × (y.pool.queue ≡ sandbox_of 7 ∷ [])
late_sandbox_example =
    late_sandbox libraries pool_config [] (Sandbox.create libraries sandbox_config []).1
      (sandbox_of 7) 2 1 refl refl creates

rounds-fill_example :
    let y = run still (starts ∷ rounds 3 2) (initial pool_config []) in
    (length y.pool.queue ≡ 3) × (y.pool.permits ≡ 2) × (length y.tasks ≡ 0)
rounds-fill_example = rounds-fill still pool_config [] boots (omega arith) (omega arith)
