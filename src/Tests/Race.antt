-- ===== src/Tests/Race.antt =====
-- The theorems on concurrent calls of the manager at concrete calls.
use petty.Shared.{ℕ, ◌+◌, ◌<◌, ◌≡◌, ◌≢◌, refl, List, [], ◌∷◌, arith, length}
use petty.Shared.Result.{ok}
use petty.Shared.Int.{as_i32}
use petty.Text.{lit, starts_with, strip_prefix, eq_str}
use petty.Text.Decimal.{decimal}
use petty.Text.FilePath.{path_from, join, parent, path_string}
use petty.Host.{perform, send_put, is_success, read_reply, Trace}
use petty.Vm.Api.{configure_machine, put_request, configure_vsock}
use petty.Vm.Config.{validate, for_vm}
use petty.Vm.Machine
use petty.Vm.Machine.{create_with_id, build_fp_config, api_socket}
use petty.Core.Config.{SandboxConfig}
use petty.Core.Client.{connect, try_connect, call, interpret}
use petty.Core.Client.Methods.{ping}
use petty.Core.Sandbox.{Sandbox, ready, machine_config, create}
use petty.Core.Manager.{ManagerConfig, new}
use petty.Core.Manager.Race.{Step, creates, registers, continues, destroys, run}
use petty.Core.Manager.Race.Alone.{calm}
use petty.Core.Manager.Race.Bounds.{busiest, run-calm-below}
use petty.Core.Manager.Race.Exceeded.{two_exceed_one}
use petty.Tests.{host, libraries, sandbox_config}
use petty.Tests.Manager.{sandbox_of, manager_config}

abbrev steps : List Step
steps =
    creates sandbox_config
    ∷ registers (sandbox_of 3)
    ∷ continues 1
    ∷ creates sandbox_config
    ∷ continues 0
    ∷ continues 1
    ∷ destroys 3
    ∷ continues 0
    ∷ []

run-calm-below_example :
    length (run libraries steps (calm (new manager_config) [])).manager.sandboxes
    < 2 + busiest libraries steps (calm (new manager_config) [])
run-calm-below_example = run-calm-below libraries manager_config steps [] (omega arith)

abbrev single : ManagerConfig
single = record manager_config { max_sandboxes = 1 }

abbrev with_cid : ℕ → SandboxConfig
with_cid cid = record sandbox_config { vsock_cid = cid }

abbrev sandbox_at : ℕ → ℕ → Sandbox
sandbox_at cid id = record {
  id = id;
  machine = record {
    id = id;
    config = machine_config host id (with_cid cid);
    state = Machine.running;
    socket_path = api_socket host id (machine_config host id (with_cid cid));
  };
  client = record { next_id = 2 };
  config = with_cid cid;
  state = ready;
  created_at = 0;
}

abbrev after_first : Trace
after_first = (create libraries (with_cid 3) []).1

abbrev second_id : ℕ
second_id = length after_first + 7

first_boots : create libraries (with_cid 3) [] ≡ (ok (sandbox_at 3 7), after_first)
unfolding create parent for_vm join path_from lit decimal perform create_with_id validate
    configure_machine put_request send_put is_success configure_vsock connect try_connect read_reply
    machine_config as_i32 path_string starts_with strip_prefix build_fp_config ping call interpret
    eq_str
first_boots = refl

second_boots :
    create libraries (with_cid 4) after_first
    ≡ (ok (sandbox_at 4 second_id), (create libraries (with_cid 4) after_first).1)
unfolding create parent for_vm join path_from lit decimal perform create_with_id validate
    configure_machine put_request send_put is_success configure_vsock connect try_connect read_reply
    machine_config as_i32 path_string starts_with strip_prefix build_fp_config ping call interpret
    eq_str
second_boots = refl

later : 7 ≢ second_id
unfolding create parent for_vm join path_from lit decimal perform create_with_id validate
    configure_machine put_request send_put is_success configure_vsock connect try_connect read_reply
    machine_config as_i32 path_string starts_with strip_prefix build_fp_config ping call interpret
    eq_str
later e = absurd (omega (arith, e))

two_exceed_one_example :
    length
      (run libraries
        (creates sandbox_config
          ∷ creates sandbox_config
          ∷ continues 0
          ∷ continues 1
          ∷ continues 0
          ∷ continues 0
          ∷ [])
        (calm (new single) [])).manager.sandboxes
    ≡ 2
two_exceed_one_example =
    two_exceed_one libraries single sandbox_config [] after_first
      (create libraries (with_cid 4) after_first).1 (sandbox_at 3 7) (sandbox_at 4 second_id) refl
      first_boots second_boots later
