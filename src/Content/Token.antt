-- ===== src/Content/Token.antt =====
-- `Operand`, `Token` and `OperatorName` of crates/core/src/content.rs. The name of an operator is kept
-- as its bytes: `from_utf8_lossy` makes no ASCII name of other bytes, and names are compared with
-- ASCII names only.
use pdfv.Base.{ℕ, zero, suc, ◌+◌, ◌/◌, Bytes, ◌||◌, ltb, ◌==◌, if◌then◌else◌, length}
use pdfv.Int.{ℤ, pos, negsuc}
use pdfv.Limits.{ResourceLimits}
use pdfv.Error.{Result, ok, err, limit_exceeded}

pub data Operand : Type 0 where
  name_operand : Bytes → Operand
  integer_operand : ℤ → Operand
  bytes_operand : ℕ → Operand
  composite_operand : Bytes → Operand
  keyword_operand : Bytes → Operand

pub data Token : Type 0 where
  operand : Operand → Token
  operator : Bytes → ℕ → Token

-- The decimal digits of a number, which for an `i64` are 19 at most.
abbrev digits : ℕ → ℕ → ℕ
digits zero n = 1
digits (suc fuel) n = let more = suc (digits fuel (n / 10)) in if ltb n 10 then 1 else more

-- `value.to_string().len()`
abbrev decimal_length : ℤ → ℕ
decimal_length (pos n) = digits 20 n
decimal_length (negsuc n) = 1 + digits 20 (n + 1)

unfoldable pub byte_len : Operand → ℕ
byte_len (name_operand name) = length name
byte_len (integer_operand value) = decimal_length value
byte_len (bytes_operand count) = count
byte_len (composite_operand bytes) = length bytes
byte_len (keyword_operand bytes) = length bytes

unfoldable pub new_operator_name : ResourceLimits → Bytes → Result Bytes
new_operator_name limits bytes =
    if length bytes == 0 || ltb limits.max_content_stream_operator_name_bytes (length bytes)
    then err (limit_exceeded "max_content_stream_operator_name_bytes")
    else ok bytes
