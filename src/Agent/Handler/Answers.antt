-- ===== src/Agent/Handler/Answers.antt =====
-- What a response of the agent is: the outcome of the operation that the request names, or a refusal
-- that has done nothing.
use petty.Shared.{◌≡◌, ◌≢◌, refl, List, [], ◌∷◌, ◌++◌, All, if◌then◌else◌, Bool-cases, inl, inr}
use petty.Shared.Result.{Result, ok, err}
use petty.Text.{Str, eq_str, eq_str_iff, lit}
use petty.Agent.Protocol.{
  Request, success_response, error_response, method_not_found, invalid_params, internal_error,
}
use petty.Agent.Os.{Os, Json}
use petty.Agent.Run.{exec_command, exec_code}
use petty.Agent.Files.{read_file, write_file, list_dir}
use petty.Agent.Handler.{
  Handled, with_params, respond, respond_with, handle_exec, handle_exec_code, handle_read_file,
  handle_write_file, handle_list_dir, handle_request,
}

-- The methods of the agent.
abbrev pub methods : List Str
methods =
    lit "ping"
    ∷ lit "exec"
    ∷ lit "exec_code"
    ∷ lit "read_file"
    ∷ lit "write_file"
    ∷ lit "list_dir"
    ∷ []

-- The value of an operation, where it succeeds.
abbrev pub map_ok : {A B : Type 0} → (A → B) → Result Str A → Result Str B
map_ok f (ok a) = ok (f a)
map_ok f (err e) = err e

module _ (os : Os) (j : Json) where
  open os use {World}
  open j use {Value}

  -- The operation that a request names, run on the parameters that it has, from the world `w`: the value
  -- or the message that it ends with, and the world after it.
  pub data Ran (req : Request Value) (w : World) : Result Str Value → World → Type 0 where
    pinged : req.method ≡ lit "ping" → Ran req w (ok j.pong) w
    executed :
        (cmd : Str)
        → req.method ≡ lit "exec"
        → j.exec_params req.params ≡ ok cmd
        → Ran req w (j.exec_result (exec_command os cmd w).0) (exec_command os cmd w).1
    executed_code :
        (lang code : Str)
        → req.method ≡ lit "exec_code"
        → j.exec_code_params req.params ≡ ok (lang, code)
        → Ran req w (j.exec_result (exec_code os lang code w).0) (exec_code os lang code w).1
    read :
        (path : Str)
        → req.method ≡ lit "read_file"
        → j.path_params req.params ≡ ok path
        → Ran req w (map_ok j.content (read_file os path w)) w
    wrote :
        (path text : Str)
        → req.method ≡ lit "write_file"
        → j.write_file_params req.params ≡ ok (path, text)
        → Ran req w (map_ok j.written (write_file os path text w).0) (write_file os path text w).1
    listed :
        (path : Str)
        → req.method ≡ lit "list_dir"
        → j.path_params req.params ≡ ok path
        → Ran req w (map_ok j.entries (list_dir os path w)) w

  -- The parameters of a request cannot be read as those of its method.
  pub data Unreadable (req : Request Value) (e : Str) : Type 0 where
    of_exec : req.method ≡ lit "exec" → j.exec_params req.params ≡ err e → Unreadable req e
    of_exec_code :
        req.method ≡ lit "exec_code" → j.exec_code_params req.params ≡ err e → Unreadable req e
    of_read_file :
        req.method ≡ lit "read_file" → j.path_params req.params ≡ err e → Unreadable req e
    of_write_file :
        req.method ≡ lit "write_file" → j.write_file_params req.params ≡ err e → Unreadable req e
    of_list_dir : req.method ≡ lit "list_dir" → j.path_params req.params ≡ err e → Unreadable req e

  -- The response to a request: the value or the message of its operation; or a refusal of its
  -- parameters, or of a method that the agent does not have, with the world as it was.
  pub data Answers (req : Request Value) (w : World) : Handled os j → Type 0 where
    succeeded :
        (v : Value) (w' : World)
        → Ran req w (ok v) w'
        → Answers req w (success_response req.id v, w')
    failed :
        (m : Str) (w' : World)
        → Ran req w (err m) w'
        → Answers req w (error_response req.id internal_error m, w')
    refused :
        (e : Str)
        → Unreadable req e
        → Answers req w (error_response req.id invalid_params (lit "invalid params: " ++ e), w)
    unknown :
        All (λ m. req.method ≢ m) methods
        → Answers req w
            (error_response req.id method_not_found (lit "method not found: " ++ req.method), w)

  respond-Answers :
      (req : Request Value) (r : Result Str Value) (w w' : World)
      → Ran req w r w'
      → Answers req w (respond os j req.id r, w')
  unfolding respond
  respond-Answers req (ok v) w w' h = succeeded v w' h
  respond-Answers req (err e) w w' h = failed e w' h

  respond_with-Answers :
      {A : Type 0} (req : Request Value) (f : A → Value) (r : Result Str A) (w w' : World)
      → Ran req w (map_ok f r) w'
      → Answers req w (respond_with os j req.id f r, w')
  unfolding respond_with
  respond_with-Answers req f (ok a) w w' h = succeeded (f a) w' h
  respond_with-Answers req f (err e) w w' h = failed e w' h

  with_params-Answers :
      {P : Type 0} (req : Request Value) (r : Result Str P) (f : P → World → Handled os j)
      (w : World)
      → ((p : P) → r ≡ ok p → Answers req w (f p w))
      → ((e : Str) → r ≡ err e → Unreadable req e)
      → Answers req w (with_params os j req.id r f w)
  unfolding with_params
  with_params-Answers req (ok p) f w h k = h p refl
  with_params-Answers req (err e) f w h k = refused e (k e refl)

  handle_exec-Answers :
      (req : Request Value) (w : World)
      → req.method ≡ lit "exec"
      → Answers req w (handle_exec os j req.id req.params w)
  unfolding handle_exec
  handle_exec-Answers req w m =
      with_params-Answers req (j.exec_params req.params)
        (λ p u.
          (respond os j req.id (j.exec_result (exec_command os p u).0), (exec_command os p u).1))
        w (λ p h. respond-Answers req _ w (exec_command os p w).1 (executed p m h))
        (λ e h. of_exec m h)

  handle_exec_code-Answers :
      (req : Request Value) (w : World)
      → req.method ≡ lit "exec_code"
      → Answers req w (handle_exec_code os j req.id req.params w)
  unfolding handle_exec_code
  handle_exec_code-Answers req w m =
      with_params-Answers req (j.exec_code_params req.params)
        (λ p u. (
          respond os j req.id (j.exec_result (exec_code os p.0 p.1 u).0),
          (exec_code os p.0 p.1 u).1,
        ))
        w (λ p h. respond-Answers req _ w (exec_code os p.0 p.1 w).1 (executed_code p.0 p.1 m h))
        (λ e h. of_exec_code m h)

  handle_read_file-Answers :
      (req : Request Value) (w : World)
      → req.method ≡ lit "read_file"
      → Answers req w (handle_read_file os j req.id req.params w)
  unfolding handle_read_file
  handle_read_file-Answers req w m =
      with_params-Answers req (j.path_params req.params)
        (λ path u. (respond_with os j req.id j.content (read_file os path u), u)) w
        (λ path h. respond_with-Answers req j.content (read_file os path w) w w (read path m h))
        (λ e h. of_read_file m h)

  handle_write_file-Answers :
      (req : Request Value) (w : World)
      → req.method ≡ lit "write_file"
      → Answers req w (handle_write_file os j req.id req.params w)
  unfolding handle_write_file
  handle_write_file-Answers req w m =
      with_params-Answers req (j.write_file_params req.params)
        (λ p u. (
          respond_with os j req.id j.written (write_file os p.0 p.1 u).0,
          (write_file os p.0 p.1 u).1,
        ))
        w
        (λ p h.
          respond_with-Answers req j.written (write_file os p.0 p.1 w).0 w
            (write_file os p.0 p.1 w).1 (wrote p.0 p.1 m h))
        (λ e h. of_write_file m h)

  handle_list_dir-Answers :
      (req : Request Value) (w : World)
      → req.method ≡ lit "list_dir"
      → Answers req w (handle_list_dir os j req.id req.params w)
  unfolding handle_list_dir
  handle_list_dir-Answers req w m =
      with_params-Answers req (j.path_params req.params)
        (λ path u. (respond_with os j req.id j.entries (list_dir os path u), u)) w
        (λ path h. respond_with-Answers req j.entries (list_dir os path w) w w (listed path m h))
        (λ e h. of_list_dir m h)

  -- By whether the method is this one.
  by_method :
      (req : Request Value) (w : World) (m : Str) {x y : Handled os j}
      → (req.method ≡ m → Answers req w x)
      → (req.method ≢ m → Answers req w y)
      → Answers req w (if eq_str req.method m then x else y)
  by_method req w m p q = elim (Bool-cases (eq_str req.method m)) [
    | inl h ↦ rw h (p ((eq_str_iff req.method m).0 h))
    | inr h ↦ rw h (q (λ e. absurd (cc ((eq_str_iff req.method m).1 e, h))))
  ]

  -- Every request is answered under its own identifier, and by its method: a method of the agent's whose
  -- parameters can be read by the value of its operation or its message under the code of an internal
  -- error, and the world is the one after that operation; one whose parameters cannot be read by the
  -- refusal of these, and any other method by that of the method, and then nothing has been done.
  pub handle_request-Answers :
      (req : Request Value) (w : World) → Answers req w (handle_request os j req w)
  unfolding handle_request
  handle_request-Answers req w =
      by_method req w (lit "ping") (λ m. succeeded j.pong w (pinged m))
        λ a. by_method req w (lit "exec") (handle_exec-Answers req w) λ b.
          by_method req w (lit "exec_code") (handle_exec_code-Answers req w) λ c.
            by_method req w (lit "read_file") (handle_read_file-Answers req w) λ d.
              by_method req w (lit "write_file") (handle_write_file-Answers req w) λ e.
                by_method req w (lit "list_dir") (handle_list_dir-Answers req w)
                  λ f. unknown (a, (b, (c, (d, (e, (f, tt))))))
