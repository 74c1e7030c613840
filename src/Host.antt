-- ===== src/Host.antt =====
-- What the crates call and do not implement: the host's file system, clock and sockets, the
-- firepilot library, Firecracker's API socket, and UUIDs. A trace holds the calls made so far,
-- newest first, each with its success. An `Env` answers each call by the trace before it, so that
-- it may answer every call in its own way.
pub mod Json
pub mod Growth
use petty.Shared.{ℕ, ◌+◌, ◌≤◌, Bool, true, false, List, ◌∷◌, Option, ◌&&◌, leb, ltb}
use petty.Shared.Result.{Result, ok, err, failing, Action}
use petty.Shared.Int.{ℤ}
use petty.Text.{Str}
use petty.Text.FilePath.{FilePath}

-- A 128-bit identifier.
abbrev pub Uuid : Type 0
Uuid = ℕ

-- What firepilot's `DriveBuilder` is given.
pub record FpDrive : Type 0 where
  pub drive_id : Str
  pub path_on_host : FilePath
  pub root_device : Bool
  pub read_only : Bool

-- What firepilot's `NetworkInterfaceBuilder` is given.
pub record FpInterface : Type 0 where
  pub iface_id : Str
  pub host_dev_name : Str
  pub guest_mac : Option Str

-- firepilot's `Configuration`.
pub record FpConfig : Type 0 where
  pub vm_id : Str
  pub kernel_image_path : Str
  pub boot_args : Str
  pub chroot : Str
  pub exec_binary : FilePath
  pub drives : List FpDrive
  pub interfaces : List FpInterface

-- The bodies of the two PUT requests: `MachineConfiguration` and `Vsock` of firepilot_models.
pub data ApiRequest : Type 0 where
  machine_config : ℤ → ℤ → ApiRequest
  vsock : ℤ → Str → ApiRequest

pub record HttpResponse : Type 0 where
  pub status : ℕ
  pub status_text : Str
  pub body : Str

pub data Call : Type 0 where
  create_machine : FpConfig → Call
  start_machine stop_machine kill_machine drop_machine : Uuid → Call
  put : FilePath → ApiRequest → Call
  create_dir_all remove_dir_all : FilePath → Call
  connect_socket : FilePath → Call
  write_socket : Str → Call
  flush_socket read_socket : Call
  sleep : ℕ → Call

pub record Event : Type 0 where
  pub call : Call
  pub succeeded : Bool

abbrev pub Trace : Type 0
Trace = List Event

pub record Env : Type 0 where
  -- the text of the error with which a call fails
  pub respond : Trace → Call → Option Str
  pub put_response : Trace → FilePath → ApiRequest → Result Str HttpResponse
  -- the line that a read gives, and the same under a timeout in milliseconds that may pass first
  pub read_line : Trace → Result Str Str
  -- whether a read without a timeout waits for its line without end
  pub never_answers : Trace → Bool
  pub read_line_within : ℕ → Trace → Option (Result Str Str)
  -- whether `try_lock` of a sandbox's client finds it locked
  pub client_busy : Trace → Uuid → Bool
  pub new_uuid : Trace → Uuid
  -- milliseconds
  pub now : Trace → ℕ
  pub uuid_string : Uuid → Str
  pub kernel_error : Str → Str → Option Str
  pub drive_error : FpDrive → Option Str
  pub executor_error : Str → FilePath → Option Str
  pub interface_error : FpInterface → Option Str
  pub json_error : ApiRequest → Option Str
  pub request_error : FilePath → ApiRequest → Option Str

abbrev pub is_ok {ℓ κ} : {E : Type ℓ} {A : Type κ} → Result E A → Bool
is_ok (ok a) = true
is_ok (err e) = false

-- A call that returns nothing on success.
unfoldable pub perform : Env → Call → Action Trace Str (Unit {0})
perform e c t =
    let r : Result Str (Unit {0}) = failing (e.respond t c) in
    (r, record { call = c; succeeded = is_ok r } ∷ t)

-- `StatusCode::is_success`.
unfoldable pub is_success : ℕ → Bool
is_success status = leb 200 status && ltb status 300

abbrev accepted : Result Str HttpResponse → Bool
accepted (ok r) = is_success r.status
accepted (err m) = false

-- The request succeeds as an event where the response has a success status.
unfoldable pub send_put : Env → FilePath → ApiRequest → Action Trace Str HttpResponse
send_put e socket r t =
    let answer : Result Str HttpResponse = e.put_response t socket r in
    (answer, record { call = put socket r; succeeded = accepted answer } ∷ t)

-- `BufReader::read_line`, with no timeout, where it returns.
unfoldable pub read_reply : Env → Action Trace Str Str
read_reply e t =
    let r : Result Str Str = e.read_line t in
    (r, record { call = read_socket; succeeded = is_ok r } ∷ t)

-- `tokio::time::sleep`.
unfoldable pub sleep_for : ℕ → Trace → Trace
sleep_for ms t = record { call = sleep ms; succeeded = true } ∷ t

-- The clock never goes back, and a sleep lasts at least as long as it was asked to.
pub record WellClocked (e : Env) : Type 0 where
  pub forward : (ev : Event) (t : Trace) → e.now t ≤ e.now (ev ∷ t)
  pub slept : (ms : ℕ) (t : Trace) → e.now t + ms ≤ e.now (sleep_for ms t)
