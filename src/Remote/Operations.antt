-- ===== src/Remote/Operations.antt =====
-- The client's methods against the operations that the agent runs for them.
use petty.Shared.{ℕ, ◌≡◌, refl, ◌∙◌, ap, sym, List, [], ◌∷◌, ◌++◌, none}
use petty.Shared.Int.{wrap_i32}
use petty.Shared.Result.{Result, ok, err, map_err}
use petty.Text.{Str, lit, eq_str}
use petty.Host.{Trace, Env}
use petty.Host.Json.{SerdeJson}
use petty.Core.Error.{CoreError, rpc, json}
use petty.Core.Client.{AgentClient, call}
use petty.Core.Client.Methods.{Decoders}
use petty.Core.Client.Methods
use petty.Core.Client.Reply.{IsOpen}
use petty.Agent.Protocol.{ExecResult, success_response, error_response, internal_error}
use petty.Agent.Os.{Os, Json}
use petty.Agent.Run.{exec_command}
use petty.Agent.Files.{read_file}
use petty.Agent.Handler.{handle_request}
use petty.Remote.{Carried, call-success, call-failure, answer_request-sends}
use petty.Agent.Connection.{Socket, answer_request}
use petty.Text.Trim.{trim}

-- The two crates' types of a command's result.
abbrev pub as_client : ExecResult → Methods.ExecResult
as_client r = record { exit_code = r.exit_code; stdout = r.stdout; stderr = r.stderr }

module _ (os : Os) (a : Json) where
  open os use {World}
  open a use {Value}

  exec-handled :
      (id : ℕ) (params : Value) (w : World) (cmd : Str) (v : Value)
      → a.exec_params params ≡ ok cmd
      → a.exec_result (exec_command os cmd w).0 ≡ ok v
      → handle_request os a
          (record { jsonrpc = lit "2.0"; id = id; method = lit "exec"; params = params })
          w
        ≡ (success_response id v, (exec_command os cmd w).1)
  unfolding handle_request eq_str lit
  exec-handled id params w cmd v p q = rw (p, q) refl

  read_file-handled :
      (id : ℕ) (params : Value) (w : World) (path text : Str)
      → a.path_params params ≡ ok path
      → read_file os path w ≡ ok text
      → handle_request os a
          (record { jsonrpc = lit "2.0"; id = id; method = lit "read_file"; params = params })
          w
        ≡ (success_response id (a.content text), w)
  unfolding handle_request eq_str lit
  read_file-handled id params w path text p q = rw (p, q) refl

  read_file-failed :
      (id : ℕ) (params : Value) (w : World) (path m : Str)
      → a.path_params params ≡ ok path
      → read_file os path w ≡ err m
      → handle_request os a
          (record { jsonrpc = lit "2.0"; id = id; method = lit "read_file"; params = params })
          w
        ≡ (error_response id internal_error m, w)
  unfolding handle_request eq_str lit
  read_file-failed id params w path m p q = rw (p, q) refl

module _ (j : SerdeJson) (d : Decoders j) (a : Json) (e : Env) (os : Os) (o : IsOpen e)
    (c : AgentClient) (t : Trace) (w : os.World) where
  -- On a socket that takes all writes, where serde_json carries the request and the response, its derived
  -- encoders and decoders of the parameters and of the result agree, and no character of the request is
  -- cut for the log: the agent answers the client's line by the line that the client reads, its world is
  -- then the one after the command, and `exec` of the client returns the result of the command that the
  -- agent ran in its microVM.
  pub exec_remote :
      (cmd : Str) (v : a.Value)
      (x : Carried j a e os c.next_id (lit "exec") (j.object ((lit "cmd", j.string cmd) ∷ [])) w t)
      (socket : Socket os a) (lines : List Str)
      → a.exec_params x.arrived ≡ ok cmd
      → a.exec_result (exec_command os cmd w).0 ≡ ok v
      → d.exec_result (x.value v) ≡ ok (as_client (exec_command os cmd w).0)
      → ((before : List Str) (s : Str) → socket before s ≡ none)
      → (answer_request os a socket (trim (x.text ++ lit "\n")) (record { world = w; sent = lines })
          ≡ (
            ok tt,
            record { world = (exec_command os cmd w).1; sent = (x.reply ++ lit "\n") ∷ lines },
          ))
        × ((Methods.exec j d e cmd c t).0 ≡ ok (as_client (exec_command os cmd w).0))
  unfolding Methods.exec
  exec_remote cmd v x socket lines p q k takes =
      let h = sym x.handled ∙ exec-handled os a c.next_id x.arrived w cmd v p q in
      (
        answer_request-sends j a e os o c t w (lit "exec") _ x socket lines takes
            ∙ ap (λ y. (ok tt, record { world = y.1; sent = (x.reply ++ lit "\n") ∷ lines })) h,
        call-success j a e os o c t w (lit "exec") _ x d.exec_result v (ap (λ y. y.0.error) h)
              (ap (λ y. y.0.result) h)
            ∙ ap (map_err json) k,
      )

  abbrev file_outcome : Result Str Str → Result CoreError Str
  file_outcome (ok text) = ok text
  file_outcome (err m) = err (rpc internal_error m)

  -- Where serde_json carries the request and the response, and its derived encoders and decoders of
  -- the parameters and of the content agree, `read_file` of the client returns the text that the agent
  -- reads in its microVM, or the agent's message under the code of an internal error.
  read_file_remote :
      (path : Str)
      (x : Carried j a e os c.next_id
        (lit "read_file")
        (j.object ((lit "path", j.string path) ∷ []))
        w
        t)
      → a.path_params x.arrived ≡ ok path
      → ((text : Str) → d.content (x.value (a.content text)) ≡ ok text)
      → (Methods.read_file j d e path c t).0 ≡ file_outcome (read_file os path w)
  unfolding Methods.read_file wrap_i32
  read_file_remote path x p k = by_file (read_file os path w) refl
    where
      by_file :
          (f : Result Str Str)
          → read_file os path w ≡ f
          → (call j e d.content
              (lit "read_file")
              (j.object ((lit "path", j.string path) ∷ []))
              c
              t).0
            ≡ file_outcome f
      by_file (ok text) h =
          let g = sym x.handled ∙ read_file-handled os a c.next_id x.arrived w path text p h in
          call-success j a e os o c t w (lit "read_file") _ x d.content (a.content text)
            (ap (λ y. y.0.error) g) (ap (λ y. y.0.result) g)
          ∙ ap (map_err json) (k text)
      by_file (err m) h =
          let g = sym x.handled ∙ read_file-failed os a c.next_id x.arrived w path m p h in
          call-failure j a e os o c t w (lit "read_file") _ x d.content
            (record { code = internal_error; message = m; error_data = none })
            (ap (λ y. y.0.error) g)
