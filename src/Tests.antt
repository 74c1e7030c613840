-- ===== src/Tests.antt =====
-- Concrete data: a host on which every call succeeds, and configurations for it.
mod Agent
mod Vm
mod Client
mod Manager
mod Pool
mod Boots
mod Mcp
mod Race
mod Owners
mod Remote
use petty.Shared.{
  ℕ, ◌+◌, ◌≤◌, List, [], ◌∷◌, Bool, true, false, Option, none, some, arith, length, ◌&&◌,
  if◌then◌else◌,
}
use petty.Shared.Int.{pos}
use petty.Shared.Result.{Result, ok, err}
use petty.Text.{Str, lit, eq_str}
use petty.Text.FilePath.{FilePath, path_from}
use petty.Host.{Trace, Event, Env, Call, sleep, WellClocked, sleep_for}
use petty.Host.Json.{SerdeJson}
use petty.Core.Config.{SandboxConfig, default_config}
use petty.Core.Client.Methods.{Decoders}
use petty.Core.Sandbox.{Libraries}

abbrev duration : Call → ℕ
duration (sleep ms) = ms
duration _ = 0

-- The time that the sleeps have taken.
abbrev slept : Trace → ℕ
slept [] = 0
slept (ev ∷ t) = duration ev.call + slept t

abbrev pub host : Env
host = record {
  respond = λ t c. none;
  put_response = λ t path r. ok (record { status = 204; status_text = []; body = [] });
  read_line = λ t. ok (lit "OK 52");
  never_answers = λ t. false;
  read_line_within = λ ms t. some (ok (lit "{}"));
  client_busy = λ t id. false;
  new_uuid = λ t. length t + 7;
  now = slept;
  uuid_string = λ id. (48 + id) ∷ [];
  kernel_error = λ kernel boot_args. none;
  drive_error = λ d. none;
  executor_error = λ chroot binary. none;
  interface_error = λ n. none;
  json_error = λ r. none;
  request_error = λ path r. none;
}

pub host-WellClocked : WellClocked host
unfolding sleep_for
host-WellClocked = record { forward = λ ev t. omega arith; slept = λ ms t. omega arith }

-- JSON texts that all read as one value, of which every field but `error` is there.
abbrev pub serde : SerdeJson
serde = record {
  Value = Unit {0};
  number = λ n. tt;
  string = λ s. tt;
  object = λ o. tt;
  get = λ v k. if eq_str k (lit "error") then none else some tt;
  as_i64 = λ v. some (pos 0);
  as_str = λ v. some [];
  to_string = λ v. ok (lit "{}");
  from_str = λ s. ok tt;
}

abbrev pub decoders : Decoders serde
decoders = record {
  pong = λ v. ok true;
  exec_result = λ v. ok (record { exit_code = pos 0; stdout = []; stderr = [] });
  content = λ v. ok [];
  written = λ v. ok true;
  entries = λ v. ok [];
}

abbrev pub libraries : Libraries
libraries = record { env = host; serde = serde; decoders = decoders }

abbrev pub sandbox_config : SandboxConfig
sandbox_config = record default_config {
  kernel_path = path_from (lit "/images/vmlinux");
  rootfs_path = path_from (lit "/images/debian.ext4");
  vsock_cid = 10000;
}
