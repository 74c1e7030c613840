-- ===== src/Core/Pool/Acquire.antt =====
-- What `acquire` gives, and how it accounts for every sandbox that leaves the queue.
use petty.Shared.{
  ℕ, ◌+◌, ◌≤◌, ◌≡◌, refl, ◌⊎◌, inl, inr, ap, Bool, true, false, List, [], ◌∷◌, ◌++◌, arith, length,
  if◌then◌else◌,
}
use petty.Shared.Result.{Result, ok}
use petty.Host.{Trace}
use petty.Core.Error.{CoreError}
use petty.Core.Sandbox.{Sandbox, Libraries}
use petty.Core.Sandbox
use petty.Core.Manager.{next_cid}
use petty.Core.Pool.{
  SandboxPool, add_u64, acquire_from, acquire, cold_start, warm_hit, count_destroyed, discard,
}

-- The counters stay below 2 ^ 64.
abbrev pub u64_max : ℕ
u64_max = 18446744073709551615

pub is_healthy_same :
    (l : Libraries) (s : Sandbox) (t : Trace)
    → let (_, s', _) = Sandbox.is_healthy l s t in
      (s'.id ≡ s.id) × (s'.state ≡ s.state) × (s'.machine ≡ s.machine) × (s'.config ≡ s.config)
unfolding Sandbox.is_healthy
is_healthy_same l s t = ground arith

-- These sandboxes, from the front of the queue, each failed the health check and was destroyed, one
-- after the other, between the two traces.
pub data Discards (l : Libraries) : List Sandbox → Trace → Trace → Type 0 where
  none_left : (t : Trace) → Discards l [] t t
  discarding :
      (s s' : Sandbox) (rest : List Sandbox) (t t' u : Trace)
      → Sandbox.is_healthy l s t ≡ (false, s', t')
      → Discards l rest (Sandbox.destroy l s' t').1 u
      → Discards l (s ∷ rest) t u

-- A warm sandbox that was healthy: the unhealthy ones, which were destroyed, then it, stood at the front
-- of the queue, and nothing has been done after its check.
pub record Warm (l : Libraries) (p p' : SandboxPool) (s : Sandbox) (t t' : Trace)
    (queue : List Sandbox) : Type 0 where
  pub unhealthy : List Sandbox
  pub taken : Sandbox
  pub front : queue ≡ unhealthy ++ taken ∷ p'.queue
  pub before : Trace
  pub discards : Discards l unhealthy t before
  pub healthy : Sandbox.is_healthy l taken before ≡ (true, s, t')
  pub same : (s.id ≡ taken.id) × (s.state ≡ taken.state) × (s.machine ≡ taken.machine)
  pub hits : p'.stats.warm_hits ≡ add_u64 p.stats.warm_hits 1
  pub misses : p'.stats.cold_misses ≡ p.stats.cold_misses
  pub lost : p'.stats.destroyed ≡ p.stats.destroyed + length unhealthy
  pub cid : p'.cid_counter ≡ p.cid_counter

-- A cold start: every sandbox of the queue was unhealthy and destroyed, and then the new one was
-- created with the next CID.
pub record Cold (l : Libraries) (p p' : SandboxPool) (r : Result CoreError Sandbox) (t t' : Trace)
    (queue : List Sandbox) : Type 0 where
  pub before : Trace
  pub discards : Discards l queue t before
  pub made :
      Sandbox.create l (record (p.config.sandbox_config) { vsock_cid = p.cid_counter }) before
      ≡ (r, t')
  pub emptied : p'.queue ≡ []
  pub hits : p'.stats.warm_hits ≡ p.stats.warm_hits
  pub misses : p'.stats.cold_misses ≡ add_u64 p.stats.cold_misses 1
  pub lost : p'.stats.destroyed ≡ p.stats.destroyed + length queue
  pub cid : p'.cid_counter ≡ next_cid p.cid_counter

abbrev pub Account :
    Libraries
    → SandboxPool
    → List Sandbox
    → Trace
    → Result CoreError Sandbox × SandboxPool × Trace
    → Type 0
Account l p queue t (r, p', t') =
    ((s : Sandbox) × (r ≡ ok s) × Warm l p p' s t t' queue) ⊎ Cold l p p' r t t' queue

module _ (l : Libraries) where
  warm-Account :
      (s s' : Sandbox) (rest : List Sandbox) (p : SandboxPool) (t t' : Trace)
      → Sandbox.is_healthy l s t ≡ (true, s', t')
      → (s'.id ≡ s.id) × (s'.state ≡ s.state) × (s'.machine ≡ s.machine) × (s'.config ≡ s.config)
      → Account l p (s ∷ rest) t (warm_hit l s' rest p t')
  unfolding warm_hit
  warm-Account s s' rest p t t' c h = inl (
    s',
    refl,
    record {
      unhealthy = [];
      taken = s;
      front = refl;
      before = t;
      discards = none_left t;
      healthy = c;
      same = (h.0, h.1, h.2);
      hits = refl;
      misses = refl;
      lost = omega arith;
      cid = refl;
    },
  )

  cold-Account :
      (p : SandboxPool) (t : Trace) → Account l p [] t (cold_start l (record p { queue = [] }) t)
  unfolding cold_start
  cold-Account p t = inr (record {
    before = t;
    discards = none_left t;
    made = refl;
    emptied = refl;
    hits = refl;
    misses = refl;
    lost = omega arith;
    cid = refl;
  })

  discarded-Account :
      (s s' : Sandbox) (rest : List Sandbox) (p : SandboxPool) (t t' : Trace)
      (o : Result CoreError Sandbox × SandboxPool × Trace)
      → Sandbox.is_healthy l s t ≡ (false, s', t')
      → p.stats.destroyed + 1 ≤ u64_max
      → Account l (count_destroyed p) rest (Sandbox.destroy l s' t').1 o
      → Account l p (s ∷ rest) t o
  discarded-Account s s' rest p t t' (r, p', u) k b (inl (x, e, w)) = inl (
    x,
    e,
    record {
      unhealthy = s ∷ w.unhealthy;
      taken = w.taken;
      front = ap (◌∷◌ s) w.front;
      before = w.before;
      discards = discarding s s' w.unhealthy t t' w.before k w.discards;
      healthy = w.healthy;
      same = w.same;
      hits = w.hits;
      misses = w.misses;
      lost = omega (arith, w.lost);
      cid = w.cid;
    },
  )
  discarded-Account s s' rest p t t' (r, p', u) k b (inr c) = inr (record {
    before = c.before;
    discards = discarding s s' rest t t' c.before k c.discards;
    made = c.made;
    emptied = c.emptied;
    hits = c.hits;
    misses = c.misses;
    lost = omega (arith, c.lost);
    cid = c.cid;
  })

  acquire_from-Account :
      (queue : List Sandbox) (p : SandboxPool) (t : Trace)
      → p.stats.destroyed + length queue ≤ u64_max
      → Account l p queue t (acquire_from l queue p t)
  unfolding acquire_from
  acquire_from-Account [] p t b = cold-Account p t
  acquire_from-Account (s ∷ rest) p t b =
      let (healthy, s', t') = Sandbox.is_healthy l s t in
      by_health healthy s' t' refl (is_healthy_same l s t)
        (acquire_from-Account rest (count_destroyed p) (discard l s' t') (omega arith))
    where
      by_health :
          (healthy : Bool) (s' : Sandbox) (t' : Trace)
          → Sandbox.is_healthy l s t ≡ (healthy, s', t')
          → (s'.id ≡ s.id)
            × (s'.state ≡ s.state)
            × (s'.machine ≡ s.machine)
            × (s'.config ≡ s.config)
          → Account l
              (count_destroyed p)
              rest
              (discard l s' t')
              (acquire_from l rest (count_destroyed p) (discard l s' t'))
          → Account l p (s ∷ rest) t (
              let next = acquire_from l rest (count_destroyed p) (discard l s' t') in
              if healthy then warm_hit l s' rest p t' else next)
      by_health true s' t' c h a = warm-Account s s' rest p t t' c h
      by_health false s' t' c h a = discarded-Account s s' rest p t t' _ c (omega arith) a

  -- `acquire` either gives the first sandbox of the queue that answers its health check, after each of
  -- those that stood before it has failed its check and been destroyed, one after the other, leaves all
  -- behind it queued, counts the destroyed ones and one warm hit, and does nothing else on the host; or each
  -- of the queue has failed its check and been destroyed and counted, it counts one cold miss, and its
  -- result is that of creating a sandbox then under the next CID, which moves on. The counter of destroyed
  -- sandboxes is not to wrap.
  pub acquire-Account :
      (p : SandboxPool) (t : Trace)
      → p.stats.destroyed + length p.queue ≤ u64_max
      → Account l p p.queue t (acquire l p t)
  unfolding acquire
  acquire-Account p t b = acquire_from-Account p.queue p t b
