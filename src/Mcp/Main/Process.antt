-- ===== src/Mcp/Main/Process.antt =====
-- crates/bouvet-mcp/src/main.rs: the process of the server. Its transports run as tasks beside
-- `main`, which waits for the signal, tells them to end, cleans up, and waits for them.
pub mod Exit
pub mod Emptied
pub mod Late
use petty.Shared.{ℕ, Bool, true, false, List, [], ◌∷◌, Option, none, some, if◌then◌else◌}
use petty.Text.{Str}
use petty.Host.{Trace}
use petty.Core.Sandbox.{Libraries}
use petty.Mcp.Config.{TransportMode, http_enabled, stdio_enabled}
use petty.Mcp.Tools.{Tools}
use petty.Mcp.Server.{Server, start_pool}
use petty.Mcp.Session.{Session, calls, fills, signals, finishes, works, clears}
use petty.Mcp.Session

-- The task of a transport: not spawned, serving, told to end, or ended. One that was told to end may
-- still run the handler of a request that had begun.
pub data Transport : Type 0 where
  absent serving closing ended : Transport

-- `main` waits for the signal, has told the transports to end, has shut the pool down in two parts,
-- has destroyed the manager's sandboxes, or has returned, with the error of `ctrl_c` or without.
pub data Phase : Type 0 where
  waiting announced flagged drained cleaned exited : Phase
  failed : Str → Phase

pub record Process : Type 0 where
  pub phase : Phase
  pub http : Transport
  pub stdio : Transport
  pub session : Session

abbrev pub is_over : Phase → Bool
is_over exited = true
is_over (failed e) = true
is_over _ = false

abbrev spawn : Bool → Transport
spawn true = serving
spawn false = absent

-- `main` up to its wait, with the transports of the configuration.
unfoldable pub launch : TransportMode → Server → Trace → Process
launch mode s t = record {
  phase = waiting;
  http = spawn (http_enabled mode);
  stdio = spawn (stdio_enabled mode);
  session = record { server = start_pool s; tasks = []; trace = t };
}

-- The broadcast reaches a transport that serves.
abbrev pub close : Transport → Transport
close serving = closing
close absent = absent
close closing = closing
close ended = ended

-- A transport's task ends by itself as well: it could not bind, or its peer is gone.
abbrev finish : Transport → Transport
finish serving = ended
finish absent = absent
finish closing = ended
finish ended = ended

-- Whether a task runs handlers.
abbrev pub is_live : Transport → Bool
is_live serving = true
is_live closing = true
is_live absent = false
is_live ended = false

pub data Side : Type 0 where
  by_http by_stdio : Side

abbrev pub of_side : Side → Process → Transport
of_side by_http y = y.http
of_side by_stdio y = y.stdio

abbrev ending : Side → Process → Process
ending by_http y = record y { http = finish y.http }
ending by_stdio y = record y { stdio = finish y.stdio }

module _ (l : Libraries) (r : Tools) where
  open r use {Arguments}

  -- What happens next: a request that a transport hands on, the end of a transport's task, a turn of
  -- the pool's filler, a step of a creation task, the signal or the error of waiting for it, or the
  -- next part of `main`.
  pub data Act : Type 0 where
    requests : Side → Str → Option Arguments → Act
    ends : Side → Act
    fills_pool : Act
    works_at : ℕ → Act
    interrupts proceeds : Act
    fails : Str → Act

  abbrev pub in_session : Session.Event l r → Process → Process
  in_session e y = record y { session = Session.step l r e y.session }

  handle_if : Bool → Str → Option Arguments → Process → Process
  handle_if true name args y = in_session (calls name args) y
  handle_if false name args y = y

  -- The signal: the broadcast to both transports.
  interrupt : Phase → Process → Process
  interrupt waiting y = record y { phase = announced; http = close y.http; stdio = close y.stdio }
  interrupt _ y = y

  fail : Phase → Str → Process → Process
  fail waiting e y = record y { phase = failed e }
  fail _ e y = y

  -- The end of `main`, once neither transport runs.
  exit_if : Bool → Bool → Process → Process
  exit_if false false y = record y { phase = exited }
  exit_if true _ y = y
  exit_if false true y = y

  -- The cleanup after the broadcast, one part at a time.
  proceed : Phase → Process → Process
  unfolding exit_if
  proceed announced y = record (in_session signals y) { phase = flagged }
  proceed flagged y = record (in_session finishes y) { phase = drained }
  proceed drained y = record (in_session clears y) { phase = cleaned }
  proceed cleaned y = exit_if (is_live y.http) (is_live y.stdio) y
  proceed _ y = y

  -- The next thing, while `main` has not returned; its return ends every task. A request runs as a whole,
  -- though the transports serve requests at the same time: Mcp.Concurrent has their steps.
  unfoldable pub act_on : Act → Process → Process
  unfolding handle_if interrupt fail proceed
  act_on (requests side name args) y = handle_if (is_live (of_side side y)) name args y
  act_on (ends side) y = ending side y
  act_on fills_pool y = in_session fills y
  act_on (works_at i) y = in_session (works i) y
  act_on interrupts y = interrupt y.phase y
  act_on proceeds y = proceed y.phase y
  act_on (fails e) y = fail y.phase e y

  unfoldable pub act : Act → Process → Process
  act a y = if is_over y.phase then y else act_on a y

  unfoldable pub run : List Act → Process → Process
  run [] y = y
  run (a ∷ as_) y = run as_ (act a y)
