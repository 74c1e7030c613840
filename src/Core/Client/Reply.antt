-- ===== src/Core/Client/Reply.antt =====
-- What the client makes of the agent's replies, and which of them it takes for an answer.
use petty.Shared.{◌+◌, ◌%◌, ◌^◌, ◌≡◌, refl, none, true, arith, ◌∷◌}
use petty.Shared.Result.{Result, ok, and_then}
use petty.Text.{Str, lit}
use petty.Host.{Trace, Env, Event, Call, perform, write_socket, flush_socket}
use petty.Host.Json.{SerdeJson}
use petty.Core.Client.{
  AgentClient, call, request, interpret, exchange, read_response, rpc_timeout, read_outcome,
}

-- The socket takes all that is written to it.
pub record IsOpen (e : Env) : Type 0 where
  pub writes : (t : Trace) (s : Str) → e.respond t (write_socket s) ≡ none
  pub flushes : (t : Trace) → e.respond t flush_socket ≡ none

abbrev done : Call → Event
done c = record { call = c; succeeded = true }

-- The trace when a request has been sent.
abbrev pub sent : Str → Trace → Trace
sent text t = done flush_socket ∷ done (write_socket (lit "\n")) ∷ done (write_socket text) ∷ t

module _ (j : SerdeJson) where
  open j use {Value}

  -- On an open socket the result of a call is what its reply says, or the error of the read or of its
  -- timeout, and the counter has moved on by one, modulo 2 ^ 64, in each of these cases.
  pub call_outcome :
      {R : Type 0} (e : Env) (decode : Value → Result Str R) (method : Str) (params : Value)
      (c : AgentClient) (t : Trace) (text : Str)
      → IsOpen e
      → j.to_string (request j c.next_id method params) ≡ ok text
      → ((call j e decode method params c t).0
          ≡ and_then
              (read_outcome (e.read_line_within rpc_timeout (sent text t)))
              (interpret j decode))
        × ((call j e decode method params c t).1.next_id ≡ (c.next_id + 1) % 2 ^ 64)
  unfolding call perform
  call_outcome e decode method params c t text o h =
      (simp (o.writes, o.flushes, h, perform, exchange, read_response) (ground arith), refl)
