-- ===== src/Bytes.antt =====
-- The byte tests and hexadecimal digits of crates/core/src/parser.rs.
use pdfv.Base.{
  ℕ, ◌+◌, ◌-◌, ◌*◌, ◌<◌, Bool, ◌&&◌, ◌||◌, Option, none, some, ◌≡◌, arith, leb, ◌==◌, if◌then◌else◌,
}
use Prim.Native.Nat.{min}

unfoldable pub is_ws : ℕ → Bool
is_ws byte =
    byte == 0 || byte == b'\t' || byte == b'\n' || byte == 0x0c || byte == b'\r' || byte == b' '

unfoldable pub is_delimiter : ℕ → Bool
is_delimiter byte =
    byte == b'('
    || byte == b')'
    || byte == b'<'
    || byte == b'>'
    || byte == b'['
    || byte == b']'
    || byte == b'{'
    || byte == b'}'
    || byte == b'/'
    || byte == b'%'

abbrev pub within : ℕ → ℕ → ℕ → Bool
within lo hi byte = leb lo byte && leb byte hi

abbrev pub is_ascii_digit : ℕ → Bool
is_ascii_digit = within b'0' b'9'

unfoldable pub decode_hex_digit : ℕ → Option ℕ
decode_hex_digit byte =
    if within b'0' b'9' byte
    then some (byte - b'0')
    else if within b'a' b'f' byte
    then some (byte - b'a' + 10)
    else if within b'A' b'F' byte
    then some (byte - b'A' + 10)
    else none

-- `high.saturating_mul(16).saturating_add(low)` on `u8`.
abbrev pub hex_byte : ℕ → ℕ → ℕ
hex_byte high low = min 255 (min 255 (high * 16) + low)

unfoldable pub decode_hex_pair : ℕ → ℕ → Option ℕ
decode_hex_pair high low = elim (decode_hex_digit high) [
  | none ↦ none
  | some h ↦ elim (decode_hex_digit low) [ none ↦ none | some l ↦ some (hex_byte h l) ]
]

pub decode_hex_digit-lt : (byte : ℕ) {n : ℕ} → decode_hex_digit byte ≡ some n → n < 16
unfolding decode_hex_digit
decode_hex_digit-lt byte h = ground arith

pub decode_hex_pair-lt : (high low : ℕ) {n : ℕ} → decode_hex_pair high low ≡ some n → n < 256
unfolding decode_hex_pair decode_hex_digit
decode_hex_pair-lt high low h = ground arith
