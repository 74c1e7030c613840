-- ===== src/Vm/Api.antt =====
-- crates/bouvet-vm/src/machine_config.rs and vsock.rs: the two requests to Firecracker's API socket.
use petty.Shared.{ℕ, ◌++◌, if◌then◌else◌}
use petty.Shared.Int.{as_i32}
use petty.Shared.Result.{Result, ok, err, map_err, failing, Action, ◌>>=◌, ◌>>◌, lift}
use petty.Text.{Str, lit}
use petty.Text.FilePath.{FilePath, path_string}
use petty.Host.{Trace, Env, ApiRequest, machine_config, vsock, HttpResponse, send_put, is_success}
use petty.Vm.Error.{VmError, config, firepilot}
use petty.Vm.Config.{VsockConfig}

-- The texts of the four errors of a request.
pub record Messages : Type 0 where
  pub serialize : Str
  pub build : Str
  pub request : Str
  pub refused : Str

send : Env → FilePath → ApiRequest → Messages → Action Trace VmError HttpResponse
send e socket_path r m t =
    let (answer, t') = send_put e socket_path r t in
    (map_err (λ x. firepilot (m.request ++ x)) answer, t')

check_status : Messages → HttpResponse → Result VmError (Unit {0})
check_status m response =
    if is_success response.status
    then ok tt
    else err (firepilot (m.refused ++ response.status_text ++ lit ": " ++ response.body))

-- The body that the two functions share.
unfoldable pub put_request :
    Env → FilePath → ApiRequest → Messages → Action Trace VmError (Unit {0})
unfolding send check_status
put_request e socket_path r m = do
  lift (map_err (λ x. config (m.serialize ++ x)) (failing (e.json_error r)))
  lift (map_err (λ x. config (m.build ++ x)) (failing (e.request_error socket_path r)))
  response ← send e socket_path r m
  lift (check_status m response)

abbrev machine_messages : Messages
machine_messages = record {
  serialize = lit "failed to serialize machine config: ";
  build = lit "failed to build machine config request: ";
  request = lit "machine config request failed: ";
  refused = lit "machine config failed with status ";
}

abbrev vsock_messages : Messages
vsock_messages = record {
  serialize = lit "failed to serialize vsock config: ";
  build = lit "failed to build vsock request: ";
  request = lit "vsock configuration request failed: ";
  refused = lit "vsock configuration failed with status ";
}

abbrev pub machine_request : ℕ → ℕ → ApiRequest
machine_request vcpu_count mem_size_mib = machine_config (as_i32 mem_size_mib) (as_i32 vcpu_count)

abbrev pub vsock_request : VsockConfig → ApiRequest
vsock_request c = vsock (as_i32 c.guest_cid) (path_string c.uds_path)

unfoldable pub configure_machine : Env → FilePath → ℕ → ℕ → Action Trace VmError (Unit {0})
configure_machine e socket_path vcpu_count mem_size_mib =
    put_request e socket_path (machine_request vcpu_count mem_size_mib) machine_messages

unfoldable pub configure_vsock : Env → FilePath → VsockConfig → Action Trace VmError (Unit {0})
configure_vsock e socket_path c = put_request e socket_path (vsock_request c) vsock_messages
