-- ===== src/Core/Client/Methods.antt =====
-- crates/bouvet-core/src/client.rs: the methods of the agent, each one call.
use petty.Shared.{ℕ, Bool, false, List, [], ◌∷◌, ◌==◌}
use petty.Shared.Int.{ℤ, pos, negsuc}
use petty.Shared.Result.{Result, ok, err}
use petty.Text.{Str, lit}
use petty.Host.{Trace, Env}
use petty.Host.Json.{SerdeJson}
use petty.Core.Error.{CoreError}
use petty.Core.Client.{AgentClient, call}

pub record ExecResult : Type 0 where
  pub exit_code : ℤ  -- i32
  pub stdout : Str
  pub stderr : Str

-- `ExecResult::success`.
unfoldable pub success : ExecResult → Bool
success r = elim (r.exit_code) [ pos n ↦ n == 0 | negsuc n ↦ false ]

pub record FileEntry : Type 0 where
  pub name : Str
  pub is_dir : Bool
  pub size : ℕ  -- u64

-- The derived decoders of the response types.
pub record Decoders (j : SerdeJson) : Type 0 where
  pub pong : j.Value → Result Str Bool
  pub exec_result : j.Value → Result Str ExecResult
  pub content : j.Value → Result Str Str
  pub written : j.Value → Result Str Bool
  pub entries : j.Value → Result Str (List FileEntry)

abbrev pub ClientMethod : Type 0 → Type 0
ClientMethod R = AgentClient → Trace → Result CoreError R × AgentClient × Trace

abbrev forget : {R : Type 0} → Result CoreError R → Result CoreError (Unit {0})
forget (ok _) = ok tt
forget (err x) = err x

-- `let _ = ...?; Ok(())`.
abbrev discard : {R : Type 0} → ClientMethod R → ClientMethod (Unit {0})
discard m c t = let (r, c', t') = m c t in (forget r, c', t')

strings : (j : SerdeJson) → List (Str × Str) → List (Str × j.Value)
strings j [] = []
strings j ((k, v) ∷ rest) = (k, j.string v) ∷ strings j rest

module _ (j : SerdeJson) (d : Decoders j) (e : Env) where
  params : List (Str × Str) → j.Value
  unfolding strings
  params ps = j.object (strings j ps)

  unfoldable pub ping : ClientMethod (Unit {0})
  ping = discard (call j e d.pong (lit "ping") (j.object []))

  unfoldable pub exec : Str → ClientMethod ExecResult
  unfolding params
  exec cmd = call j e d.exec_result (lit "exec") (params ((lit "cmd", cmd) ∷ []))

  unfoldable pub exec_code : Str → Str → ClientMethod ExecResult
  unfolding params
  exec_code lang code =
      call j e d.exec_result (lit "exec_code")
        (params ((lit "lang", lang) ∷ (lit "code", code) ∷ []))

  unfoldable pub read_file : Str → ClientMethod Str
  unfolding params
  read_file path = call j e d.content (lit "read_file") (params ((lit "path", path) ∷ []))

  unfoldable pub write_file : Str → Str → ClientMethod (Unit {0})
  unfolding params
  write_file path content = discard (
      call j e d.written (lit "write_file")
        (params ((lit "path", path) ∷ (lit "content", content) ∷ [])))

  unfoldable pub list_dir : Str → ClientMethod (List FileEntry)
  unfolding params
  list_dir path = call j e d.entries (lit "list_dir") (params ((lit "path", path) ∷ []))
