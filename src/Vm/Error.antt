-- ===== src/Vm/Error.antt =====
-- crates/bouvet-vm/src/error.rs.
use petty.Shared.{ℕ, ◌++◌}
use petty.Text.{Str, lit}
use petty.Text.Duration.{debug_millis}

-- `VmError`. An I/O error is its text, and the time of a timeout is in milliseconds.
pub data VmError : Type 0 where
  create start stop config firepilot io : Str → VmError
  invalid_state : Str → Str → VmError
  timeout : ℕ → VmError

-- The derived `Display`.
unfoldable pub vm_error_text : VmError → Str
vm_error_text (create m) = lit "failed to create VM: " ++ m
vm_error_text (start m) = lit "failed to start VM: " ++ m
vm_error_text (stop m) = lit "failed to stop VM: " ++ m
vm_error_text (config m) = lit "configuration error: " ++ m
vm_error_text (firepilot m) = lit "firepilot error: " ++ m
vm_error_text (io m) = lit "I/O error: " ++ m
vm_error_text (invalid_state expected actual) =
    lit "invalid VM state: expected " ++ expected ++ lit ", got " ++ actual
vm_error_text (timeout ms) = lit "operation timed out after " ++ debug_millis ms
