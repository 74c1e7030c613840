-- ===== src/Core/Error.antt =====
-- crates/bouvet-core/src/error.rs.
use petty.Shared.{ℕ, ◌++◌}
use petty.Shared.Int.{ℤ}
use petty.Text.{Str, lit}
use petty.Text.Duration.{debug_millis, show_int}
use petty.Host.{Uuid}
use petty.Vm.Error.{VmError, vm_error_text}

-- `CoreError`. JSON and I/O errors are their texts, and the time of a timeout is in milliseconds.
pub data CoreError : Type 0 where
  vm : VmError → CoreError
  connection : Str → CoreError
  agent_timeout : ℕ → CoreError
  rpc : ℤ → Str → CoreError
  not_found : Uuid → CoreError
  invalid_state : Str → Str → CoreError
  json io : Str → CoreError

-- The derived `Display`, with the text of an identifier.
unfoldable pub core_error_text : (Uuid → Str) → CoreError → Str
unfolding vm_error_text
core_error_text uuid_string (vm e) = lit "VM error: " ++ vm_error_text e
core_error_text uuid_string (connection m) = lit "connection failed: " ++ m
core_error_text uuid_string (agent_timeout ms) = lit "agent timeout after " ++ debug_millis ms
core_error_text uuid_string (rpc code message) =
    lit "RPC error " ++ show_int code ++ lit ": " ++ message
core_error_text uuid_string (not_found id) = lit "sandbox not found: " ++ uuid_string id
core_error_text uuid_string (invalid_state expected actual) =
    lit "invalid state: expected " ++ expected ++ lit ", got " ++ actual
core_error_text uuid_string (json m) = lit "JSON error: " ++ m
core_error_text uuid_string (io m) = lit "I/O error: " ++ m
