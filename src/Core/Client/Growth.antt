-- ===== src/Core/Client/Growth.antt =====
-- The client's calls only add to the host's trace.
use petty.Shared.{ℕ, zero, suc, ◌≤◌, ◌≡◌, refl, arith, length, Option, none, some, subst, []}
use petty.Shared.Result.{Result, ok, err, some-injective}
use petty.Text.{Str, lit}
use petty.Text.FilePath.{FilePath}
use petty.Host.{Trace, Env, perform, read_reply, sleep_for}
use petty.Host.Json.{SerdeJson}
use petty.Host.Growth.{Grows, sleep_for-Grows}
use petty.Core.Error.{CoreError, agent_timeout}
use petty.Core.Client.{
  AgentClient, Round, connected, timed_out, again, stuck, is_stuck, try_connect, after_attempt,
  connect_rounds, connect, connect_timeout, retry_interval, most_rounds, or_else, read_response,
  exchange, call,
}
use petty.Core.Client.Methods.{Decoders, ping, exec, exec_code, read_file, write_file, list_dir}

try_connect-Grows : (e : Env) (path : FilePath) → Grows (try_connect e path)
unfolding try_connect perform read_reply
try_connect-Grows e path t = grind arith

connect_rounds-Grows :
    (e : Env) (path : FilePath) (start rounds : ℕ) (t : Trace)
    → (r : Result CoreError AgentClient × Trace) → connect_rounds e path start rounds t ≡ some r
    → length t ≤ length r.1
unfolding connect_rounds
connect_rounds-Grows e path start zero t r h = absurd (cc h)
connect_rounds-Grows e path start (suc rounds) t r h =
    by_round
      (after_attempt e start (is_stuck e path t) (try_connect e path t).0 (try_connect e path t).1)
      h (try_connect-Grows e path t)
      (connect_rounds-Grows e path start rounds (sleep_for retry_interval (try_connect e path t).1)
        r)
  where
    by_round :
        (o : Round)
        → (elim o as (λ _. Option (Result CoreError AgentClient × Trace)) [
          | connected c ↦ some (ok c, (try_connect e path t).1)
          | timed_out ↦ some (err (agent_timeout connect_timeout), (try_connect e path t).1)
          | again ↦
              connect_rounds e path start rounds (sleep_for retry_interval (try_connect e path t).1)
          | stuck ↦ none
        ])
          ≡ some r
        → length t ≤ length (try_connect e path t).1
        → (connect_rounds e path start rounds (sleep_for retry_interval (try_connect e path t).1)
              ≡ some r
            → length (sleep_for retry_interval (try_connect e path t).1) ≤ length r.1)
        → length t ≤ length r.1
    by_round (connected c) k g next = subst (λ x. length t ≤ length x.1) (some-injective k) g
    by_round timed_out k g next = subst (λ x. length t ≤ length x.1) (some-injective k) g
    by_round again k g next =
        omega (arith, next k, sleep_for-Grows retry_interval (try_connect e path t).1)
    by_round stuck k g next = absurd (cc k)

pub connect-Grows : (e : Env) (path : FilePath) → Grows (connect e path)
unfolding connect
connect-Grows e path t =
    by_rounds (connect_rounds e path (e.now t) most_rounds t)
      (connect_rounds-Grows e path (e.now t) most_rounds t)
  where
    by_rounds :
        (o : Option (Result CoreError AgentClient × Trace))
        → ((r : Result CoreError AgentClient × Trace) → o ≡ some r → length t ≤ length r.1)
        → length t ≤ length (or_else (err (agent_timeout connect_timeout), t) o).1
    by_rounds none h = omega arith
    by_rounds (some r) h = h r refl

module _ (j : SerdeJson) (e : Env) where
  call-Grows :
      {R : Type 0} (decode : j.Value → Result Str R) (method : Str) (params : j.Value)
      (c : AgentClient) (t : Trace)
      → length t ≤ length (call j e decode method params c t).2
  unfolding call exchange perform read_response
  call-Grows decode method params c t = grind arith

  module _ (d : Decoders j) (c : AgentClient) (t : Trace) where
    pub ping-Grows : length t ≤ length (ping j d e c t).2
    unfolding ping
    ping-Grows = call-Grows d.pong (lit "ping") (j.object []) c t

    pub exec-Grows : (cmd : Str) → length t ≤ length (exec j d e cmd c t).2
    unfolding exec
    exec-Grows cmd = call-Grows _ _ _ c t

    pub exec_code-Grows : (lang code : Str) → length t ≤ length (exec_code j d e lang code c t).2
    unfolding exec_code
    exec_code-Grows lang code = call-Grows _ _ _ c t

    pub read_file-Grows : (path : Str) → length t ≤ length (read_file j d e path c t).2
    unfolding read_file
    read_file-Grows path = call-Grows _ _ _ c t

    pub write_file-Grows :
        (path content : Str) → length t ≤ length (write_file j d e path content c t).2
    unfolding write_file
    write_file-Grows path content = call-Grows d.written _ _ c t

    pub list_dir-Grows : (path : Str) → length t ≤ length (list_dir j d e path c t).2
    unfolding list_dir
    list_dir-Grows path = call-Grows _ _ _ c t
