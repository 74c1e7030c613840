-- ===== src/Tests/Boots.antt =====
-- A host on which every sandbox boots.
use petty.Shared.{ℕ, ◌≤◌, ◌≡◌, refl, true, [], arith}
use petty.Shared.Result.{ok}
use petty.Shared.Int.{as_i32}
use petty.Text.{lit, starts_with, strip_prefix, eq_str}
use petty.Text.Decimal.{decimal}
use petty.Text.FilePath.{path_from, join, parent, path_string}
use petty.Host.{is_ok, Trace, perform, send_put, is_success, read_reply}
use petty.Vm.Api.{configure_machine, put_request, configure_vsock}
use petty.Vm.Config.{validate, for_vm}
use petty.Vm.Machine.{create_with_id, build_fp_config}
use petty.Core.Client.{connect, try_connect, call, interpret}
use petty.Core.Client.Methods.{ping}
use petty.Core.Sandbox.{Libraries, machine_config, create}
use petty.Core.Sandbox.Create.{machine_config_valid}
use petty.Tests.{host, libraries, sandbox_config}

abbrev pub still : Libraries
still = record libraries { env = record host { now = λ t. 0; uuid_string = λ id. [] } }

valid :
    (id cid : ℕ)
    → 3 ≤ cid
    → validate (machine_config still.env id (record sandbox_config { vsock_cid = cid })) ≡ ok tt
valid id cid h =
    (machine_config_valid still.env id (record sandbox_config { vsock_cid = cid })).1
      (omega arith, omega arith, omega arith, omega arith, h)

pub boots :
    (cid : ℕ) (t : Trace)
    → 3 ≤ cid
    → is_ok (create still (record sandbox_config { vsock_cid = cid }) t).0 ≡ true
unfolding create parent for_vm join path_from lit decimal perform create_with_id configure_machine
    put_request send_put is_success configure_vsock connect try_connect read_reply machine_config
    as_i32 path_string starts_with strip_prefix build_fp_config ping call interpret eq_str
boots cid t h = rw (valid (still.env.new_uuid t) cid h) refl
