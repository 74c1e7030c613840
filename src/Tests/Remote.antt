-- ===== src/Tests/Remote.antt =====
-- The theorems on the client against the agent at concrete ones.
use petty.Shared.{◌≡◌, refl, ◌++◌, [], ◌∷◌, none, some}
use petty.Shared.Result.{ok}
use petty.Text.{lit, eq_str}
use petty.Text.Trim.{trim}
use petty.Host.{Env}
use petty.Core.Client.{AgentClient}
use petty.Core.Client.Methods
use petty.Core.Client.Reply.{IsOpen}
use petty.Agent.Run.{exec_command}
use petty.Agent.Exec.{truncate_output}
use petty.Agent.Handler.{handle_request}
use petty.Agent.Connection.{Socket, answer_request, previewable}
use petty.Remote.{Carried}
use petty.Remote.Operations.{as_client, exec_remote}
use petty.Tests.{host, serde, decoders}
use petty.Tests.Agent.{os, json}

-- The host reads the line that the agent sends.
abbrev linked : Env
linked = record host { read_line_within = λ ms t. some (ok (lit "{}\n")) }

linked-IsOpen : IsOpen linked
linked-IsOpen = record { writes = λ t s. refl; flushes = λ t. refl }

abbrev ninth : AgentClient
ninth = record { next_id = 9 }

carried : Carried serde json linked os 9 (lit "exec") tt 0 []
unfolding trim previewable handle_request eq_str lit exec_command
carried = record {
  text = lit "{}";
  written = refl;
  framed = refl;
  shown = refl;
  arrived = lit "{}";
  read = refl;
  response =
      (handle_request os json
        (record { jsonrpc = lit "2.0"; id = 9; method = lit "exec"; params = lit "{}" }) 0).0;
  world = 1;
  handled = refl;
  reply = lit "{}";
  encoded = refl;
  returned = refl;
  received = tt;
  parsed = refl;
  value = λ v. tt;
  reads = record { success = λ v e s. (refl, refl); failure = λ x e. absurd (cc e) };
}

abbrev silent : Socket os json
silent = λ before s. none

exec_remote_example :
    (answer_request os json silent (trim (lit "{}" ++ lit "\n")) (record { world = 0; sent = [] })
      ≡ (
        ok tt,
        record { world = (exec_command os (lit "{}") 0).1; sent = (lit "{}" ++ lit "\n") ∷ [] },
      ))
    × ((Methods.exec serde decoders linked (lit "{}") ninth []).0
        ≡ ok (as_client (exec_command os (lit "{}") 0).0))
unfolding exec_command lit carried truncate_output
exec_remote_example =
    exec_remote serde decoders json linked os linked-IsOpen ninth [] 0 (lit "{}") (lit "{}") carried
      silent [] refl refl refl (λ before s. refl)
