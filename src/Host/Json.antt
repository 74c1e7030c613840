-- ===== src/Host/Json.antt =====
-- serde_json: its values, and the reading and writing of text. The derived encoders and decoders of
-- the program's types are functions on these values, and parameters where they are used.
use petty.Shared.{ℕ, List, Option}
use petty.Shared.Int.{ℤ}
use petty.Shared.Result.{Result}
use petty.Text.{Str}

pub record SerdeJson : Type 1 where
  pub Value : Type 0
  pub number : ℕ → Value
  pub string : Str → Value
  pub object : List (Str × Value) → Value
  -- `Value::get`, `as_i64` and `as_str`
  pub get : Value → Str → Option Value
  pub as_i64 : Value → Option ℤ
  pub as_str : Value → Option Str
  pub to_string : Value → Result Str Str
  pub from_str : Str → Result Str Value
