-- ===== src/Agent/Handler.antt =====
-- crates/bouvet-agent/src/handler.rs: the dispatch of requests.
pub mod Answers
use petty.Shared.{ℕ, Bool, List, ◌++◌, Option, if◌then◌else◌}
use petty.Shared.Result.{Result, ok, err}
use petty.Text.{Str, lit, eq_str}
use petty.Agent.Protocol.{
  Request, Response, ExecResult, FileEntry, success_response, error_response, method_not_found,
  invalid_params, internal_error,
}
use petty.Agent.Os.{Os, Json}
use petty.Agent.Run.{exec_command, exec_code}
use petty.Agent.Files.{read_file, write_file, list_dir}

module _ (os : Os) (j : Json) where
  open os use {World}
  open j use {Value}

  abbrev pub Handled : Type 0
  Handled = Response Value × World

  -- The parameters that were asked for, or the refusal of those that were sent.
  with_params : {P : Type 0} → ℕ → Result Str P → (P → World → Handled) → World → Handled
  with_params id (ok p) f w = f p w
  with_params id (err e) f w = (error_response id invalid_params (lit "invalid params: " ++ e), w)

  respond : ℕ → Result Str Value → Response Value
  respond id (ok v) = success_response id v
  respond id (err e) = error_response id internal_error e

  respond_with : {A : Type 0} → ℕ → (A → Value) → Result Str A → Response Value
  respond_with id encode (ok a) = success_response id (encode a)
  respond_with id encode (err e) = error_response id internal_error e

  handle_exec : ℕ → Value → World → Handled
  unfolding with_params respond
  handle_exec id params =
      with_params id (j.exec_params params)
        λ cmd w. let (r, w') = exec_command os cmd w in (respond id (j.exec_result r), w')

  handle_exec_code : ℕ → Value → World → Handled
  unfolding with_params respond
  handle_exec_code id params =
      with_params id (j.exec_code_params params)
        λ p w. let (r, w') = exec_code os p.0 p.1 w in (respond id (j.exec_result r), w')

  handle_read_file : ℕ → Value → World → Handled
  unfolding with_params respond_with
  handle_read_file id params =
      with_params id (j.path_params params)
        λ path w. (respond_with id j.content (read_file os path w), w)

  handle_write_file : ℕ → Value → World → Handled
  unfolding with_params respond_with
  handle_write_file id params =
      with_params id (j.write_file_params params)
        λ p w. let (r, w') = write_file os p.0 p.1 w in (respond_with id j.written r, w')

  handle_list_dir : ℕ → Value → World → Handled
  unfolding with_params respond_with
  handle_list_dir id params =
      with_params id (j.path_params params)
        λ path w. (respond_with id j.entries (list_dir os path w), w)

  unfoldable pub handle_request : Request Value → World → Handled
  unfolding handle_exec handle_exec_code handle_read_file handle_write_file handle_list_dir
  handle_request req w =
      if eq_str req.method (lit "ping")
      then (success_response req.id j.pong, w)
      else if eq_str req.method (lit "exec")
      then handle_exec req.id req.params w
      else if eq_str req.method (lit "exec_code")
      then handle_exec_code req.id req.params w
      else if eq_str req.method (lit "read_file")
      then handle_read_file req.id req.params w
      else if eq_str req.method (lit "write_file")
      then handle_write_file req.id req.params w
      else if eq_str req.method (lit "list_dir")
      then handle_list_dir req.id req.params w
      else (error_response req.id method_not_found (lit "method not found: " ++ req.method), w)
