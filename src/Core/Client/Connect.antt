-- ===== src/Core/Client/Connect.antt =====
-- Connecting ends: the rounds of `connect` are enough where the clock goes on.
use petty.Shared.{
  false, ℕ, zero, suc, ◌+◌, ◌-◌, ◌*◌, ◌≤◌, ◌≡◌, refl, ap, some, arith, inl, inr, ◌⊎◌,
}
use petty.Shared.Result.{Result, ok, err}
use petty.Text.FilePath.{FilePath}
use petty.Host.{Trace, Env, perform, read_reply, sleep_for, WellClocked}
use petty.Core.Error.{CoreError, agent_timeout}
use petty.Core.Client.{
  AgentClient, Round, connected, timed_out, again, stuck, stuck_after, is_stuck, open_socket,
  try_connect, after_attempt, connect_rounds, connect, connect_timeout, retry_interval, most_rounds,
}

module _ (e : Env) (w : WellClocked e) (answers : (t : Trace) → e.never_answers t ≡ false) where
  unstuck : (path : FilePath) (t : Trace) → is_stuck e path t ≡ false
  unfolding is_stuck
  unstuck path t = by_result (open_socket e path t)
    where
      by_result : (o : Result CoreError (Unit {0}) × Trace) → stuck_after e o ≡ false
      by_result (ok _, u) = answers u
      by_result (err x, u) = refl

  never_stuck :
      (start : ℕ) (r : Result CoreError AgentClient) (t : Trace)
      → after_attempt e start false r t ≡ stuck
      → ⊥
  unfolding after_attempt
  never_stuck start r t h = ground arith

  -- The clock does not go back during an attempt.
  try_connect-now : (path : FilePath) (t : Trace) → e.now t ≤ e.now (try_connect e path t).1
  unfolding try_connect perform read_reply
  try_connect-now path t = grind (arith, w.forward)

  try_connect-after :
      (path : FilePath) (t : Trace) (start rounds : ℕ)
      → start ≤ e.now t
      → start + connect_timeout ≤ rounds * retry_interval + e.now t
      → (r : Result CoreError AgentClient)
      → after_attempt e start false r (try_connect e path t).1 ≡ again
      → (1 ≤ rounds)
        × (start ≤ e.now (sleep_for retry_interval (try_connect e path t).1))
        × (start + connect_timeout
            ≤ (rounds - 1) * retry_interval
              + e.now (sleep_for retry_interval (try_connect e path t).1))
  unfolding after_attempt
  try_connect-after path t start rounds a c r h =
      ground (arith, try_connect-now path t, w.slept retry_interval (try_connect e path t).1)

  abbrev pub Ends : ℕ → Result CoreError AgentClient × Trace → Type 0
  Ends start r =
      (r.0 ≡ ok (record { next_id = 1 }))
      ⊎ ((r.0 ≡ err (agent_timeout connect_timeout)) × (start + connect_timeout ≤ e.now r.1))

  first_client :
      (path : FilePath) (t : Trace) (start : ℕ) (c : AgentClient)
      → after_attempt e start false (try_connect e path t).0 (try_connect e path t).1 ≡ connected c
      → c ≡ record { next_id = 1 }
  unfolding after_attempt try_connect
  first_client path t start c h = ground arith

  out_of_time :
      (start : ℕ) (r : Result CoreError AgentClient) (t : Trace)
      → after_attempt e start false r t ≡ timed_out
      → start + connect_timeout ≤ e.now t
  unfolding after_attempt
  out_of_time start r t h = ground arith

  connect_rounds_total :
      (path : FilePath) (start rounds : ℕ) (t : Trace)
      → start ≤ e.now t
      → 1 ≤ rounds
      → start + connect_timeout ≤ (rounds - 1) * retry_interval + e.now t
      → (r : Result CoreError AgentClient × Trace) × (connect_rounds e path start rounds t ≡ some r)
        × Ends start r
  unfolding connect_rounds
  connect_rounds_total path start zero t a b c = absurd (omega arith)
  connect_rounds_total path start (suc rounds) t a b c =
      by_round (after_attempt e start false (try_connect e path t).0 (try_connect e path t).1) refl
        (connect_rounds_total path start rounds (sleep_for retry_interval (try_connect e path t).1))
    where
      by_round :
          (o : Round)
          → after_attempt e start false (try_connect e path t).0 (try_connect e path t).1 ≡ o
          → (start ≤ e.now (sleep_for retry_interval (try_connect e path t).1)
              → 1 ≤ rounds
              → start + connect_timeout
                ≤ (rounds - 1) * retry_interval
                  + e.now (sleep_for retry_interval (try_connect e path t).1)
              → (r : Result CoreError AgentClient × Trace) × (connect_rounds e path start rounds
                    (sleep_for retry_interval (try_connect e path t).1)
                  ≡ some r)
                × Ends start r)
          → (r : Result CoreError AgentClient × Trace) × (connect_rounds e path start (suc rounds) t
              ≡ some r)
            × Ends start r
      by_round (connected k) h next = (
        (ok k, (try_connect e path t).1),
        rw (unstuck path t, h, connect_rounds),
        inl (ap ok (first_client path t start k h)),
      )
      by_round timed_out h next = (
        (err (agent_timeout connect_timeout), (try_connect e path t).1),
        rw (unstuck path t, h, connect_rounds),
        inr (refl, out_of_time start _ (try_connect e path t).1 h),
      )
      by_round stuck h next = absurd (never_stuck _ _ _ h)
      by_round again h next =
          let (x, y, z) = try_connect-after path t start rounds a (omega arith) _ h in
          let (r, k, l) = next y x z in (r, rw (unstuck path t, h, connect_rounds) k, l)

  -- Where the clock never goes back, a sleep lasts as long as asked, and no read of a handshake's answer
  -- waits without end, the 101 rounds of `connect` are enough: its loop ends. It ends with a client whose next request has id 1, or with the
  -- timeout error, and then no earlier than ten seconds after it began.
  pub connect-Ends :
      (path : FilePath) (t : Trace)
      → (connect_rounds e path (e.now t) most_rounds t ≡ some (connect e path t))
        × Ends (e.now t) (connect e path t)
  unfolding connect
  connect-Ends path t =
      let (r, h, l) =
        connect_rounds_total path (e.now t) most_rounds t (omega arith) (omega arith)
          (omega arith) in
      (rw h, rw h l)
