-- ===== src/Core/Pool/Schedule/Spawns.antt =====
-- What a turn of the filler spawns in a pool that is open.
use petty.Shared.{
  ℕ, zero, suc, ◌+◌, ◌-◌, ◌^◌, ◌≤◌, ◌<◌, ◌≡◌, refl, sym, ◌∙◌, ap, subst, false, true, List, [], ◌∷◌,
  ◌++◌, arith, length, length-append, All, All-append, Bool-cases, inl, inr, ◌==◌, leb,
  if◌then◌else◌,
}
use petty.Core.Pool.{
  SandboxPool, PoolConfig, Task, spawned, running, filler_turn, fill, spawn_rounds,
}
use petty.Core.Manager.{next_cid}
use petty.Core.Pool.Schedule.Bounds.{spawn_rounds-keeps}

-- The pool of a configuration in operation, with so many free permits and so many sandboxes.
pub record Open (c : PoolConfig) (permits size : ℕ) (p : SandboxPool) : Type 0 where
  pub config : p.config ≡ c
  pub flag : p.shutdown ≡ false
  pub filler : p.filler ≡ running
  pub free : p.permits ≡ permits
  pub held : length p.queue ≡ size

pub Open-at :
    {c : PoolConfig} {permits permits' size size' : ℕ} {p : SandboxPool}
    → Open c permits size p
    → permits ≡ permits'
    → size ≡ size'
    → Open c permits' size' p
Open-at v e f = record {
  config = v.config;
  flag = v.flag;
  filler = v.filler;
  free = v.free ∙ e;
  held = v.held ∙ f;
}

-- A task that has not begun, with a CID that a VM accepts.
abbrev pub IsFresh : PoolConfig → Task → Type 0
IsFresh c (spawned k) = (cid : ℕ) × (3 ≤ cid) × (k ≡ record (c.sandbox_config) { vsock_cid = cid })
IsFresh c _ = ⊥

-- The next CIDs are enough to fill the pool from so many sandboxes without a wrap.
abbrev pub Ample : PoolConfig → ℕ → SandboxPool → Type 0
Ample c size p = (3 ≤ p.cid_counter) × (p.cid_counter + c.min_size < 2 ^ 32 + size)

next_cid_small : (n : ℕ) → n + 1 < 2 ^ 32 → next_cid n ≡ n + 1
unfolding next_cid
next_cid_small n h = omega arith

abbrev next_task : SandboxPool → Task
next_task p = spawned (record (p.config.sandbox_config) { vsock_cid = p.cid_counter })

next_task-IsFresh :
    (c : PoolConfig) (p : SandboxPool) → p.config ≡ c → 3 ≤ p.cid_counter → IsFresh c (next_task p)
next_task-IsFresh c p e h =
    (p.cid_counter, h, ap (λ z. record (z.sandbox_config) { vsock_cid = p.cid_counter }) e)

abbrev after_one : SandboxPool → SandboxPool
after_one p = record p { permits = p.permits - 1; cid_counter = next_cid p.cid_counter }

-- What the spawning loop of `n` rounds leaves.
record Fresh (c : PoolConfig) (n : ℕ) (p : SandboxPool) (ts : List Task) (p' : SandboxPool)
    (ts' : List Task) : Type 0 where
  flag : p'.shutdown ≡ p.shutdown
  filler : p'.filler ≡ p.filler
  tasks : All (IsFresh c) ts'
  cids : p'.cid_counter + length ts ≡ p.cid_counter + length ts'
  low : length ts ≤ length ts'
  high : length ts' ≤ length ts + n

spawn_rounds-Fresh :
    (c : PoolConfig) (n : ℕ) (p : SandboxPool) (ts : List Task)
    → p.config ≡ c
    → 3 ≤ p.cid_counter
    → p.cid_counter + n < 2 ^ 32
    → All (IsFresh c) ts
    → let (p', ts') = spawn_rounds n p ts in Fresh c n p ts p' ts'
unfolding spawn_rounds
spawn_rounds-Fresh c zero p ts e h k a = record {
  flag = refl;
  filler = refl;
  tasks = a;
  cids = refl;
  low = omega arith;
  high = omega arith;
}
spawn_rounds-Fresh c (suc n) p ts e h k a = elim (Bool-cases (p.permits == 0)) [
  | inl full ↦
      let v = spawn_rounds-Fresh c n p ts e h (omega (arith, k)) a in
      rw (full, spawn_rounds)
        (record {
          flag = v.flag;
          filler = v.filler;
          tasks = v.tasks;
          cids = v.cids;
          low = v.low;
          high = omega (arith, v.high);
        })
  | inr free ↦
      let small = next_cid_small p.cid_counter (omega (arith, k)) in
      let v =
        spawn_rounds-Fresh c n (after_one p) (ts ++ next_task p ∷ []) e (omega (arith, small, h))
          (omega (arith, small, k))
          (All-append (IsFresh c) ts (next_task p ∷ []) a (next_task-IsFresh c p e h, tt)) in
      let m = length-append ts (next_task p ∷ []) in
      rw (free, spawn_rounds)
        (record {
          flag = v.flag;
          filler = v.filler;
          tasks = v.tasks;
          cids = omega (arith, v.cids, small, m);
          low = omega (arith, m, v.low);
          high = omega (arith, m, v.high);
        })
]

spawn_rounds-longer :
    (n : ℕ) (p : SandboxPool) (ts : List Task) → length ts ≤ length (spawn_rounds n p ts).1
unfolding spawn_rounds
spawn_rounds-longer zero p ts = omega arith
spawn_rounds-longer (suc n) p ts = elim (Bool-cases (p.permits == 0)) [
  | inl full ↦ rw (full, spawn_rounds) (spawn_rounds-longer n p ts)
  | inr free ↦
      rw (free, spawn_rounds)
        (omega (
          arith,
          spawn_rounds-longer n (after_one p) (ts ++ next_task p ∷ []),
          length-append ts (next_task p ∷ []),
        ))
]

-- A free permit is used.
spawn_rounds-progress :
    (n : ℕ) (p : SandboxPool) (ts : List Task)
    → 1 ≤ p.permits
    → length ts < length (spawn_rounds (suc n) p ts).1
unfolding spawn_rounds
spawn_rounds-progress n p ts h =
    let free : (p.permits == 0) ≡ false = ground arith in
    rw (free, spawn_rounds)
      (omega (
        arith,
        spawn_rounds-longer n (after_one p) (ts ++ next_task p ∷ []),
        length-append ts (next_task p ∷ []),
      ))

-- What a turn of the filler leaves when no task is there.
abbrev pub Spawned : PoolConfig → ℕ → ℕ → SandboxPool × List Task → Type 0
Spawned c permits size (p, ts) =
    (k : ℕ) × Open c k size p
    × (k + length ts ≡ permits)
    × Ample c (size + length ts) p
    × All (IsFresh c) ts
    × (size + length ts ≤ c.min_size)
    × (size < c.min_size → 1 ≤ permits → 1 ≤ length ts)

open_turn :
    (p : SandboxPool)
    → p.filler ≡ running
    → p.shutdown ≡ false
    → filler_turn p [] ≡ (
        if leb p.config.min_size (length p.queue)
        then (p, [])
        else spawn_rounds (p.config.min_size - length p.queue) p [])
unfolding filler_turn fill
open_turn p r f = simp (r, f, filler_turn, fill)

spawn-Spawned :
    (c : PoolConfig) (permits size n : ℕ) (p : SandboxPool)
    → Open c permits size p
    → size + suc n ≡ c.min_size
    → Ample c size p
    → Spawned c permits size (spawn_rounds (suc n) p [])
spawn-Spawned c permits size n p v e (x, y) =
    let (g, q, k) = spawn_rounds-keeps (suc n) p [] in
    let w = spawn_rounds-Fresh c (suc n) p [] v.config x (omega (arith, y, e)) tt in
    (
      (spawn_rounds (suc n) p []).0.permits,
      record {
        config = g ∙ v.config;
        flag = w.flag ∙ v.flag;
        filler = w.filler ∙ v.filler;
        free = refl;
        held = ap length q ∙ v.held;
      },
      omega (arith, k, v.free),
      (omega (arith, w.cids, x), omega (arith, w.cids, y)),
      w.tasks,
      omega (arith, w.high, e),
      λ _ h. spawn_rounds-progress n p [] (omega (arith, v.free, h)),
    )

pub filler_turn-Spawned :
    (c : PoolConfig) (permits size : ℕ) (p : SandboxPool)
    → Open c permits size p
    → size ≤ c.min_size
    → Ample c size p
    → Spawned c permits size (filler_turn p [])
filler_turn-Spawned c permits size p v h x =
    subst (Spawned c permits size) (sym (open_turn p v.filler v.flag)) (by_need _ refl)
  where
    m : p.config.min_size ≡ c.min_size
    m = ap (λ z. z.min_size) v.config

    by_need :
        (n : ℕ)
        → p.config.min_size - length p.queue ≡ n
        → Spawned c permits size
            (if leb p.config.min_size (length p.queue) then (p, []) else spawn_rounds n p [])
    by_need zero e =
        let full : leb p.config.min_size (length p.queue) ≡ true = ground arith in
        rw full (
          permits,
          v,
          omega arith,
          (x.0, omega (arith, x.1)),
          tt,
          omega (arith, h),
          λ a b. omega (arith, e, m, v.held, a, h),
        )
    by_need (suc n) e =
        let short : leb p.config.min_size (length p.queue) ≡ false = ground arith in
        rw short (spawn-Spawned c permits size n p v (omega (arith, e, m, v.held, h)) x)
