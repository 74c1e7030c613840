-- ===== src/Core/Pool/Owners/Moves.antt =====
-- Each turn of the pool moves sandboxes between their holders, and draws at most one identifier.
use petty.Shared.{
  ℕ, zero, suc, ◌+◌, ◌-◌, ◌≤◌, ◌≡◌, refl, inl, inr, List, [], ◌∷◌, ◌++◌, Option, none, some,
  if◌then◌else◌, ◌==◌, length, Bool, true, false, Bool-cases, if_both, arith, leb,
}
use petty.Shared.Result.{Result, ok, err}
use petty.Host.{Uuid, Trace}
use petty.Core.Error.{CoreError}
use petty.Core.Sandbox.{Sandbox, Libraries}
use petty.Core.Sandbox
use petty.Core.Sandbox.Owners.{of_answer, Moves, same-Moves, Moves-beside, created-Moves}
use petty.Core.Sandbox.Growth.{destroy-Grows, is_healthy-Grows}
use petty.Core.Manager.{next_cid}
use petty.Core.Pool.{
  SandboxPool, Task, spawned, booted, adding, Filler, absent, running, exited, turn, fill,
  spawn_rounds, start, filler_turn, task_step, boot_done, cold_start, signal_shutdown,
  finish_shutdown, drain, discard, count_destroyed,
}
use petty.Core.Pool.Acquire.{is_healthy_same}
use petty.Core.Pool.Caller.{
  Caller, trying, checking, caller_step, take_front, ask, stay, answer, answer_front, answer_at,
  count_hit,
}
use petty.Core.Pool.Schedule.{
  System, Turn, starts, fills, acquires, signals, finishes, works, asks, work, step, replace,
}
use petty.Core.Pool.Owners.{in_queue, of_task, in_tasks, of_caller, in_callers, held, given}

module _ (i : Uuid) where
  in_queue-append : (q r : List Sandbox) → in_queue i (q ++ r) ≡ in_queue i q + in_queue i r
  in_queue-append [] r = omega arith
  in_queue-append (s ∷ q) r = omega (arith, in_queue-append q r)

  in_tasks-append : (q r : List Task) → in_tasks i (q ++ r) ≡ in_tasks i q + in_tasks i r
  in_tasks-append [] r = omega arith
  in_tasks-append (s ∷ q) r = omega (arith, in_tasks-append q r)

  in_callers-append : (q r : List Caller) → in_callers i (q ++ r) ≡ in_callers i q + in_callers i r
  in_callers-append [] r = omega arith
  in_callers-append (s ∷ q) r = omega (arith, in_callers-append q r)

  -- What a turn of the filler does.
  abbrev Filled : SandboxPool → List Task → SandboxPool × List Task → Type 0
  Filled p ts (p', ts') = (p'.queue ≡ p.queue) × (in_tasks i ts' ≡ in_tasks i ts)

  spawn_rounds-Filled :
      (n : ℕ) (p : SandboxPool) (ts : List Task) → Filled p ts (spawn_rounds n p ts)
  unfolding spawn_rounds
  spawn_rounds-Filled zero p ts = (refl, refl)
  spawn_rounds-Filled (suc n) p ts = elim (Bool-cases (p.permits == 0)) [
    | inl full ↦ rw (full, spawn_rounds) (spawn_rounds-Filled n p ts)
    | inr free ↦
        let task = spawned (record (p.config.sandbox_config) { vsock_cid = p.cid_counter }) in
        let (a, b) =
          spawn_rounds-Filled n
            (record p { permits = p.permits - 1; cid_counter = next_cid p.cid_counter })
            (ts ++ task ∷ []) in
        rw (free, spawn_rounds) (a, omega (arith, b, in_tasks-append ts (task ∷ [])))
  ]

  fill-Filled : (p : SandboxPool) (ts : List Task) → Filled p ts (fill p ts)
  unfolding fill
  fill-Filled p ts = by_flag p.shutdown
    where
      by_flag :
          (b : Bool)
          → Filled p ts (elim b as (λ _. SandboxPool × List Task) [
            | true ↦ (record p { filler = exited }, ts)
            | false ↦
                if leb p.config.min_size (length p.queue)
                then (p, ts)
                else spawn_rounds (p.config.min_size - length p.queue) p ts
          ])
      by_flag true = (refl, refl)
      by_flag false =
          if_both (Filled p ts) (leb p.config.min_size (length p.queue)) (p, ts) _ (refl, refl)
            (spawn_rounds-Filled (p.config.min_size - length p.queue) p ts)

  filler_turn-Filled : (p : SandboxPool) (ts : List Task) → Filled p ts (filler_turn p ts)
  unfolding filler_turn
  filler_turn-Filled p ts = by_filler p.filler
    where
      by_filler : (f : Filler) → Filled p ts (turn f p ts)
      by_filler absent = (refl, refl)
      by_filler exited = (refl, refl)
      by_filler running = fill-Filled p ts

abbrev of_option : Uuid → Option Task → ℕ
of_option i none = 0
of_option i (some x) = of_task i x

abbrev pub of_calls : Uuid → Option Caller → ℕ
of_calls i none = 0
of_calls i (some c) = of_caller i c

module _ (l : Libraries) (i : Uuid) where
  boot_done-Moves :
      (p : SandboxPool) (t : Trace) (n : ℕ) (r : Result CoreError Sandbox × Trace)
      → Moves l i t n r.1 (n + of_answer i (some r.0))
      → let (o, p', t') = boot_done l p r in
        (in_queue i p'.queue ≡ in_queue i p.queue) × Moves l i t n t' (n + of_option i o)
  unfolding boot_done
  boot_done-Moves p t n (ok s, u) h = (refl, h)
  boot_done-Moves p t n (err x, u) h = (refl, h)

  abbrev Worked : Task → SandboxPool → Trace → Option Task × SandboxPool × Trace → Type 0
  Worked x p t (o, p', t') =
      Moves l i t (of_task i x + in_queue i p.queue) t' (of_option i o + in_queue i p'.queue)

  task_step-Moves : (x : Task) (p : SandboxPool) (t : Trace) → Worked x p t (task_step l x p t)
  unfolding task_step
  task_step-Moves (spawned c) p t =
      let (same, m) = boot_done-Moves p t 0 (Sandbox.create l c t) (created-Moves l i 0 c t) in
      if_both (Worked (spawned c) p t) p.shutdown _ _
        (same-Moves l i t t _ _ (omega arith) (omega arith))
        (Moves-beside l i t _ _ _ (in_queue i p.queue) _ _ (omega arith) (omega (arith, same)) m)
  task_step-Moves (booted s) p t =
      if_both (Worked (booted s) p t) p.shutdown _ (some (adding s), p, t)
        (same-Moves l i t _ _ _ (destroy-Grows l s t) (omega arith))
        (same-Moves l i t t _ _ (omega arith) (omega arith))
  task_step-Moves (adding s) p t =
      if_both (Worked (adding s) p t) (leb p.config.min_size (length p.queue)) _ _
        (same-Moves l i t _ _ _ (destroy-Grows l s t) (omega arith))
        (same-Moves l i t t _ _ (omega arith) (omega (arith, in_queue-append i p.queue (s ∷ []))))

  work-Moves :
      (k : ℕ) (ts : List Task) (p : SandboxPool) (t : Trace)
      → let (ts', p', t') = work l k ts p t in
        Moves l i t (in_tasks i ts + in_queue i p.queue) t' (in_tasks i ts' + in_queue i p'.queue)
  unfolding work
  work-Moves k [] p t = same-Moves l i t t _ _ (omega arith) (omega arith)
  work-Moves zero (x ∷ ts) p t =
      Moves-beside l i t _ _ _ (in_tasks i ts) _ _ (omega arith)
        (replaced (task_step l x p t).0 (in_queue i (task_step l x p t).1.queue))
        (task_step-Moves x p t)
    where
      replaced :
          (o : Option Task) (n : ℕ)
          → (of_option i o + n) + in_tasks i ts ≡ in_tasks i (replace o ts) + n
      replaced none n = omega arith
      replaced (some y) n = omega arith
  work-Moves (suc k) (x ∷ ts) p t =
      Moves-beside l i t _ _ _ (of_task i x) _ _ (omega arith) (omega arith) (work-Moves k ts p t)

  abbrev pub Asked :
      Caller
      → SandboxPool
      → Trace
      → Option (Result CoreError Sandbox)
      → Option Caller × SandboxPool × Trace
      → Type 0
  Asked c p t a (o, p', t') =
      Moves l i t (of_caller i c + in_queue i p.queue) t'
        (of_calls i o + in_queue i p'.queue + of_answer i a)

  take_front-Moves :
      (q : List Sandbox) (p : SandboxPool) (t : Trace)
      → p.queue ≡ q
      → Asked trying p t (answer_front l q p t) (take_front l q p t)
  unfolding take_front answer_front cold_start
  take_front-Moves [] p t e = Moves-beside l i t _ _ _ 0 _ _ (omega arith) (omega arith) (
      created-Moves l i (in_queue i p.queue)
        (record (p.config.sandbox_config) { vsock_cid = p.cid_counter }) t)
  take_front-Moves (s ∷ rest) p t e = same-Moves l i t t _ _ (omega arith) (rw e (omega arith))

  pub caller_step-Moves :
      (c : Caller) (p : SandboxPool) (t : Trace)
      → Asked c p t (answer l c p t) (caller_step l c p t)
  unfolding caller_step answer
  caller_step-Moves trying p t = take_front-Moves p.queue p t refl
  caller_step-Moves (checking s) p t =
      let (healthy, s', t') = Sandbox.is_healthy l s t in
      by_health healthy s' t' (is_healthy_same l s t).0 (is_healthy-Grows l s t)
    where
      by_health :
          (healthy : Bool) (s' : Sandbox) (t' : Trace)
          → s'.id ≡ s.id
          → length t ≤ length t'
          → Asked (checking s) p t (if healthy then some (ok s') else none) (
              if healthy
              then (none, count_hit p, t')
              else (some trying, count_destroyed p, discard l s' t'))
      by_health true s' t' e g = same-Moves l i t t' _ _ g (ground arith)
      by_health false s' t' e g =
          same-Moves l i t _ _ _ (omega (arith, g, destroy-Grows l s' t')) (omega arith)

  ask-Moves :
      (k : ℕ) (cs : List Caller) (p : SandboxPool) (t : Trace)
      → let (cs', p', t') = ask l k cs p t in
        Moves l i t
          (in_callers i cs + in_queue i p.queue)
          t'
          (in_callers i cs' + in_queue i p'.queue + of_answer i (answer_at l k cs p t))
  unfolding ask answer_at
  ask-Moves k [] p t = same-Moves l i t t _ _ (omega arith) (omega arith)
  ask-Moves zero (c ∷ cs) p t =
      Moves-beside l i t _ _ _ (in_callers i cs) _ _ (omega arith)
        (stayed (caller_step l c p t).0 (in_queue i (caller_step l c p t).1.queue)
          (of_answer i (answer l c p t)))
        (caller_step-Moves c p t)
    where
      stayed :
          (o : Option Caller) (n k : ℕ)
          → (of_calls i o + n + k) + in_callers i cs ≡ in_callers i (stay l o cs) + n + k
      stayed none n k = omega arith
      stayed (some y) n k = omega arith
  ask-Moves (suc k) (c ∷ cs) p t =
      Moves-beside l i t _ _ _ (of_caller i c) _ _ (omega arith) (omega arith) (ask-Moves k cs p t)

  drain-Grows : (q : List Sandbox) (t : Trace) → length t ≤ length (drain l q t)
  unfolding drain
  drain-Grows [] t = omega arith
  drain-Grows (s ∷ q) t = omega (arith, destroy-Grows l s t, drain-Grows q (discard l s t))

  -- One turn, with what it returns to a caller.
  pub step-Moves :
      (o : Turn) (y : System)
      → Moves l i y.trace (held i y) (step l o y).trace (given i l o y + held i (step l o y))
  unfolding step start signal_shutdown finish_shutdown
  step-Moves starts y = same-Moves l i y.trace y.trace _ _ (omega arith) (omega arith)
  step-Moves fills y =
      let (same, kept) = filler_turn-Filled i y.pool y.tasks in
      same-Moves l i y.trace y.trace _ _ (omega arith) (rw same (omega (arith, kept)))
  step-Moves acquires y =
      same-Moves l i y.trace y.trace _ _ (omega arith)
        (omega (arith, in_callers-append i y.callers (trying ∷ [])))
  step-Moves signals y = same-Moves l i y.trace y.trace _ _ (omega arith) (omega arith)
  step-Moves finishes y =
      same-Moves l i y.trace _ _ _ (drain-Grows y.pool.queue y.trace) (omega arith)
  step-Moves (works k) y =
      Moves-beside l i y.trace _ _ _ (in_callers i y.callers) _ _ (omega arith) (omega arith)
        (work-Moves k y.tasks y.pool y.trace)
  step-Moves (asks k) y =
      Moves-beside l i y.trace _ _ _ (in_tasks i y.tasks) _ _ (omega arith) (omega arith)
        (ask-Moves k y.callers y.pool y.trace)
