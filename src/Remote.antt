-- ===== src/Remote.antt =====
-- The client of crates/bouvet-core/src/client.rs against the agent of crates/bouvet-agent: one
-- request over a connection, from the client's method to the operation in the microVM and back.
pub mod Operations
use petty.Shared.{
  ℕ, ◌≡◌, refl, ◌∙◌, Bool, true, false, List, [], ◌∷◌, ◌++◌, Option, none, some, arith, sym, ap,
  subst, ◌⊎◌, inl, inr,
}
use petty.Shared.Int.{ℤ, wrap_i32}
use petty.Shared.Result.{Result, ok, err, map_err, and_then}
use petty.Text.{Str, lit, eq_str}
use petty.Text.Trim.{trim}
use petty.Host.{Trace, Env}
use petty.Host.Json.{SerdeJson}
use petty.Core.Error.{CoreError, rpc, json}
use petty.Core.Client.{AgentClient, call, request, interpret, read_outcome, rpc_timeout}
use petty.Core.Client.Methods.{Decoders}
use petty.Core.Client.Methods
use petty.Core.Client.Reply.{IsOpen, sent, call_outcome}
use petty.Agent.Protocol.{
  Request, Response, RpcError, success_response, error_response, internal_error,
}
use petty.Agent.Protocol
use petty.Agent.Os.{Os, Json}
use petty.Agent.Run.{exec_command}
use petty.Agent.Files.{read_file}
use petty.Agent.Handler.{handle_request}
use petty.Agent.Connection.{Connection, Socket, previewable, answer_request}
use petty.Agent.Connection.Replies.{answer_request_ok}

module _ (j : SerdeJson) (a : Json) where
  -- The client's value for a response of the agent: an error has no `result` and a result no `error`.
  pub record Reads (value : a.Value → j.Value) (reply : j.Value) (r : Response a.Value)
      : Type 0 where
    pub success :
        (v : a.Value)
        → r.error ≡ none
        → r.result ≡ some v
        → (j.get reply (lit "error") ≡ none) × (j.get reply (lit "result") ≡ some (value v))
    pub failure :
        (x : RpcError a.Value)
        → r.error ≡ some x
        → (error : j.Value) × (code : j.Value) × (message : j.Value) × (j.get reply (lit "error")
            ≡ some error)
          × (j.get error (lit "code") ≡ some code)
          × (j.as_i64 code ≡ some x.code)
          × (j.get error (lit "message") ≡ some message)
          × (j.as_str message ≡ some x.message)

module _ (j : SerdeJson) (a : Json) (e : Env) (os : Os) where
  open os use {World}

  -- A request that serde_json writes in one library's values and reads in the other's, the agent's
  -- response to it in the world `w`, and its way back to the client.
  pub record Carried (id : ℕ) (method : Str) (params : j.Value) (w : World) (t : Trace)
      : Type 0 where
    pub text : Str
    pub written : j.to_string (request j id method params) ≡ ok text
    pub framed : trim (text ++ lit "\n") ≡ text
    pub shown : previewable text ≡ true
    pub arrived : a.Value
    pub read :
        a.from_str text
        ≡ ok (record { jsonrpc = lit "2.0"; id = id; method = method; params = arrived })
    pub response : Response a.Value
    pub world : World
    pub handled :
        handle_request os a
          (record { jsonrpc = lit "2.0"; id = id; method = method; params = arrived })
          w
        ≡ (response, world)
    pub reply : Str
    pub encoded : a.to_string response ≡ ok reply
    pub returned : e.read_line_within rpc_timeout (sent text t) ≡ some (ok (reply ++ lit "\n"))
    pub received : j.Value
    pub parsed : j.from_str (reply ++ lit "\n") ≡ ok received
    pub value : a.Value → j.Value
    pub reads : Reads j a value received response

  module _ (o : IsOpen e) (c : AgentClient) (t : Trace) (w : World) (method : Str)
      (params : j.Value) (x : Carried c.next_id method params w t) where
    text-sends :
        (socket : Socket os a) (sent_lines : List Str)
        → ((before : List Str) (s : Str) → socket before s ≡ none)
        → answer_request os a socket x.text (record { world = w; sent = sent_lines })
          ≡ (ok tt, record { world = x.world; sent = (x.reply ++ lit "\n") ∷ sent_lines })
    text-sends socket sent_lines takes =
        answer_request_ok os a socket x.text x.reply _ x.response x.world _ x.shown x.read x.handled
          x.encoded (takes sent_lines (x.reply ++ lit "\n"))

    -- The agent sends the reply that the client reads.
    pub answer_request-sends :
        (socket : Socket os a) (sent_lines : List Str)
        → ((before : List Str) (s : Str) → socket before s ≡ none)
        → answer_request os a socket
            (trim (x.text ++ lit "\n"))
            (record { world = w; sent = sent_lines })
          ≡ (ok tt, record { world = x.world; sent = (x.reply ++ lit "\n") ∷ sent_lines })
    answer_request-sends socket sent_lines takes = rw x.framed (text-sends socket sent_lines takes)

    pub call-success :
        {R : Type 0} (decode : j.Value → Result Str R) (v : a.Value)
        → x.response.error ≡ none
        → x.response.result ≡ some v
        → (call j e decode method params c t).0 ≡ map_err json (decode (x.value v))
    unfolding interpret
    call-success decode v n s =
        let (p, q) = x.reads.success v n s in
        (call_outcome j e decode method params c t x.text o x.written).0
        ∙ rw x.returned (rw (x.parsed, interpret) (simp (p, q)))

    pub call-failure :
        {R : Type 0} (decode : j.Value → Result Str R) (y : RpcError a.Value)
        → x.response.error ≡ some y
        → (call j e decode method params c t).0 ≡ err (rpc (wrap_i32 y.code) y.message)
    unfolding interpret
    call-failure decode y s =
        let (error, code, message, p, q, u, v, z) = x.reads.failure y s in
        (call_outcome j e decode method params c t x.text o x.written).0
        ∙ rw x.returned (rw (x.parsed, interpret) (simp (p, q, u, v, z)))
