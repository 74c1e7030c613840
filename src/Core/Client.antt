-- ===== src/Core/Client.antt =====
-- crates/bouvet-core/src/client.rs: the client of the guest agent, over a socket that Firecracker
-- connects to the guest.
pub mod Connect
pub mod Reply
pub mod Methods
pub mod Growth
use petty.Shared.{
  ℕ, zero, suc, ◌+◌, ◌-◌, ◌%◌, ◌^◌, Bool, true, false, List, [], ◌∷◌, ◌++◌, Option, none, some, leb,
  if◌then◌else◌,
}
use petty.Shared.Int.{ℤ, pos, negsuc, wrap_i32}
use petty.Shared.Result.{Result, ok, err, map_err, and_then, Action, ◌>>=◌, ◌>>◌, pure, throw, lift}
use petty.Text.{Str, lit, starts_with}
use petty.Text.Trim.{trim}
use petty.Text.Decimal.{decimal}
use petty.Text.FilePath.{FilePath}
use petty.Host.{
  Trace, Env, Call, perform, connect_socket, write_socket, flush_socket, read_socket, is_ok,
  read_reply, sleep_for,
}
use petty.Host.Json.{SerdeJson}
use petty.Core.Error.{CoreError, connection, agent_timeout, rpc, json, io}

abbrev pub guest_port : ℕ
guest_port = 52

-- Milliseconds.
abbrev pub connect_timeout : ℕ
connect_timeout = 10000

abbrev pub retry_interval : ℕ
retry_interval = 100

abbrev pub rpc_timeout : ℕ
rpc_timeout = 30000

-- `AgentClient`: the two halves of its socket are the host's, so what is left is the counter.
pub record AgentClient : Type 0 where
  pub next_id : ℕ  -- u64

-- A call on the host, with the error that its failure becomes.
abbrev pub on_host :
    {A : Type 0} → (Str → CoreError) → Action Trace Str A → Action Trace CoreError A
on_host wrap m t = let (r, t') = m t in (map_err wrap r, t')

abbrev pub handshake : Str
handshake = lit "CONNECT " ++ decimal guest_port ++ lit "\n"

-- What the handshake makes of the agent's line.
unfoldable pub check_handshake : Str → Result CoreError AgentClient
check_handshake response =
    if starts_with response (lit "OK ")
    then ok (record { next_id = 1 })
    else err (connection (lit "handshake failed: " ++ trim response))

-- `AgentClient::try_connect`, in two parts: up to its read of the answer, and that read.
open_socket : Env → FilePath → Action Trace CoreError (Unit {0})
open_socket e vsock_path = do
  on_host (λ x. connection (lit "socket connect failed: " ++ x))
      (perform e (connect_socket vsock_path))
  on_host (λ x. connection (lit "handshake write failed: " ++ x))
      (perform e (write_socket handshake))
  on_host io (perform e flush_socket)

unfoldable pub try_connect : Env → FilePath → Action Trace CoreError AgentClient
unfolding check_handshake open_socket
try_connect e vsock_path = do
  open_socket e vsock_path
  response ← on_host io (read_reply e)
  lift (check_handshake response)

-- Whether an attempt reaches its read and waits there without end.
abbrev stuck_after : Env → Result CoreError (Unit {0}) × Trace → Bool
stuck_after e (ok _, t) = e.never_answers t
stuck_after e (err x, t) = false

is_stuck : Env → FilePath → Trace → Bool
unfolding open_socket
is_stuck e vsock_path t = stuck_after e (open_socket e vsock_path t)

-- One round of the loop of `connect`, after the attempt: done, out of time, once more, or without end.
pub data Round : Type 0 where
  connected : AgentClient → Round
  timed_out again stuck : Round

after_attempt : Env → ℕ → Bool → Result CoreError AgentClient → Trace → Round
after_attempt e start true r t = stuck
after_attempt e start false (ok c) t = connected c
after_attempt e start false (err x) t =
    if leb connect_timeout (e.now t - start) then timed_out else again

-- The loop of `connect`, with a bound on its rounds: `none` when the bound is reached, or where an
-- attempt does not end.
pub connect_rounds : Env → FilePath → ℕ → ℕ → Trace → Option (Result CoreError AgentClient × Trace)
unfolding after_attempt is_stuck
connect_rounds e path start zero t = none
connect_rounds e path start (suc rounds) t =
    let (r, t') = try_connect e path t in
    elim (after_attempt e start (is_stuck e path t) r t') [
      | connected c ↦ some (ok c, t')
      | timed_out ↦ some (err (agent_timeout connect_timeout), t')
      | again ↦ connect_rounds e path start rounds (sleep_for retry_interval t')
      | stuck ↦ none
    ]

-- One round each 100 ms for 10 s, and one at the end.
abbrev pub most_rounds : ℕ
most_rounds = 101

abbrev or_else {ℓ} : {A : Type ℓ} → A → Option A → A
or_else a none = a
or_else a (some b) = b

-- `AgentClient::connect`. The bound is not reached where the clock is well behaved, so that the
-- value for it stands for no outcome of the code; nor does it where an attempt does not end.
unfoldable pub connect : Env → FilePath → Action Trace CoreError AgentClient
unfolding connect_rounds
connect e path t =
    or_else (err (agent_timeout connect_timeout), t) (connect_rounds e path (e.now t) most_rounds t)

-- What `call` makes of a response.
abbrev int_or : Option ℤ → ℤ
int_or none = negsuc 0
int_or (some n) = n

abbrev text_or : Option Str → Str
text_or none = lit "unknown error"
text_or (some s) = s

abbrev pub read_outcome : Option (Result Str Str) → Result CoreError Str
read_outcome none = err (rpc (negsuc 0) (lit "response timeout"))
read_outcome (some r) = map_err io r

read_response : Env → Action Trace CoreError Str
read_response e t =
    let r : Result CoreError Str = read_outcome (e.read_line_within rpc_timeout t) in
    (r, record { call = read_socket; succeeded = is_ok r } ∷ t)

module _ (j : SerdeJson) where
  open j use {Value}

  abbrev field_of {ℓ} : {A : Type ℓ} → Option Value → (Value → Option A) → Option A
  field_of none f = none
  field_of (some v) f = f v

  rpc_error : Value → CoreError
  rpc_error error =
      rpc (wrap_i32 (int_or (field_of (j.get error (lit "code")) j.as_i64)))
        (text_or (field_of (j.get error (lit "message")) j.as_str))

  -- The fields `error` and `result` of a response, in that order.
  abbrev result_of :
      {R : Type 0} → (Value → Result Str R) → Option Value → Option Value → Result CoreError R
  result_of decode (some error) _ = err (rpc_error error)
  result_of decode none none = err (rpc (negsuc 0) (lit "missing result in response"))
  result_of decode none (some v) = map_err json (decode v)

  unfoldable pub interpret : {R : Type 0} → (Value → Result Str R) → Str → Result CoreError R
  unfolding rpc_error
  interpret decode response_str =
      and_then (map_err json (j.from_str response_str))
        λ response. result_of decode (j.get response (lit "error")) (j.get response (lit "result"))

  unfoldable pub request : ℕ → Str → Value → Value
  request id method params = j.object (
      (lit "jsonrpc", j.string (lit "2.0"))
      ∷ (lit "id", j.number id)
      ∷ (lit "method", j.string method)
      ∷ (lit "params", params)
      ∷ [])

  -- The part of `call` that talks to the agent.
  exchange : {R : Type 0} → Env → (Value → Result Str R) → Value → Action Trace CoreError R
  unfolding read_response
  exchange e decode req = do
    request_str ← lift (map_err json (j.to_string req))
    on_host io (perform e (write_socket request_str))
    on_host io (perform e (write_socket (lit "\n")))
    on_host io (perform e flush_socket)
    response_str ← read_response e
    lift (interpret decode response_str)

  -- `AgentClient::call`. The counter moves on whatever becomes of the request.
  unfoldable pub call :
      {R : Type 0}
      → Env
      → (Value → Result Str R)
      → Str
      → Value
      → AgentClient
      → Trace
      → Result CoreError R × AgentClient × Trace
  unfolding exchange
  call e decode method params c t =
      let (r, t') = exchange e decode (request c.next_id method params) t in
      (r, record c { next_id = (c.next_id + 1) % 2 ^ 64 }, t')
