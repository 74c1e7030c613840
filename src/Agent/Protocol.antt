-- ===== src/Agent/Protocol.antt =====
-- crates/bouvet-agent/src/protocol.rs: requests, responses and the types of their contents.
use petty.Shared.{ℕ, Bool, Option, none, some, []}
use petty.Shared.Int.{ℤ, negsuc}
use petty.Text.{Str, lit}

-- The error codes; `negsuc n` is -(n + 1).
abbrev pub parse_error : ℤ
parse_error = negsuc 32699

abbrev pub method_not_found : ℤ
method_not_found = negsuc 32600

abbrev pub invalid_params : ℤ
invalid_params = negsuc 32601

abbrev pub internal_error : ℤ
internal_error = negsuc 32602

pub record Request (Value : Type 0) : Type 0 where
  pub jsonrpc : Str
  pub id : ℕ  -- u64
  pub method : Str
  pub params : Value

pub record RpcError (Value : Type 0) : Type 0 where
  pub code : ℤ  -- i32
  pub message : Str
  pub error_data : Option Value

pub record Response (Value : Type 0) : Type 0 where
  pub jsonrpc : Str
  pub id : ℕ
  pub result : Option Value
  pub error : Option (RpcError Value)

module _ {Value : Type 0} where
  -- `Response::success` and `Response::error`.
  abbrev pub success_response : ℕ → Value → Response Value
  success_response id result = record {
    jsonrpc = lit "2.0";
    id = id;
    result = some result;
    error = none;
  }

  abbrev pub error_response : ℕ → ℤ → Str → Response Value
  error_response id code message = record {
    jsonrpc = lit "2.0";
    id = id;
    result = none;
    error = some (record { code = code; message = message; error_data = none });
  }

pub record ExecResult : Type 0 where
  pub exit_code : ℤ  -- i32
  pub stdout : Str
  pub stderr : Str

-- `ExecResult::error`.
abbrev pub failed_exec : Str → ExecResult
failed_exec message = record { exit_code = negsuc 0; stdout = []; stderr = message }

pub record FileEntry : Type 0 where
  pub name : Str
  pub is_dir : Bool
  pub size : ℕ  -- u64
