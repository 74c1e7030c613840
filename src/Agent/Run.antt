-- ===== src/Agent/Run.antt =====
-- crates/bouvet-agent/src/exec.rs: running commands and code.
use petty.Shared.{[], ◌∷◌, ◌++◌, map, Option, none, some, if◌then◌else◌}
use petty.Shared.Int.{ℤ, negsuc}
use petty.Shared.Result.{Result, ok, err}
use petty.Text.{Str, lit, eq_str, lower}
use petty.Agent.Protocol.{ExecResult, failed_exec}
use petty.Agent.Os.{Os, Output}
use petty.Agent.Exec.{truncate_output, max_output_size}

abbrev exit_code_or : Option ℤ → ℤ
exit_code_or none = negsuc 0
exit_code_or (some n) = n

finished : Output → ExecResult
finished out = record {
  exit_code = exit_code_or out.code;
  stdout = truncate_output out.stdout max_output_size;
  stderr = truncate_output out.stderr max_output_size;
}

-- The interpreter of a language, and the flag before the code.
abbrev Interpreter : Type 0
Interpreter = Str × Str

-- The arms of the match on the language's name.
by_name : Str → Option Interpreter
by_name lang =
    if eq_str lang (lit "python")
    then some (lit "python3", lit "-c")
    else if eq_str lang (lit "python3")
    then some (lit "python3", lit "-c")
    else if eq_str lang (lit "node")
    then some (lit "node", lit "-e")
    else if eq_str lang (lit "javascript")
    then some (lit "node", lit "-e")
    else if eq_str lang (lit "js")
    then some (lit "node", lit "-e")
    else if eq_str lang (lit "bash")
    then some (lit "bash", lit "-c")
    else if eq_str lang (lit "sh")
    then some (lit "sh", lit "-c")
    else none

unfoldable pub interpreter : Str → Option Interpreter
unfolding by_name
interpreter lang = by_name (map lower lang)

module _ (os : Os) where
  open os use {World}

  exec_result : (Str → Str) → Result Str Output × World → ExecResult × World
  exec_result failure (ok out, w) = (finished out, w)
  exec_result failure (err e, w) = (failed_exec (failure e), w)

  unfoldable pub exec_command : Str → World → ExecResult × World
  unfolding exec_result finished
  exec_command cmd w = exec_result (λ e. e) (os.output (lit "sh") (lit "-c" ∷ cmd ∷ []) w)

  unfoldable pub exec_code : Str → Str → World → ExecResult × World
  unfolding exec_result finished
  exec_code lang code w = elim (interpreter lang) [
    | none ↦ (failed_exec (lit "unsupported language: " ++ lang), w)
    | some (program, flag) ↦
        exec_result (λ e. lit "failed to execute " ++ program ++ lit ": " ++ e)
          (os.output program (flag ∷ code ∷ []) w)
  ]
