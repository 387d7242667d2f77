-- ===== src/Lexer/Text.antt =====
-- The string tokens of crates/core/src/parser.rs: `parse_literal_string` and `parse_hex_string`.
use pdfv.Base.{
  ℕ, ◌+◌, ◌-◌, ◌%◌, Bytes, Bool, true, false, ◌&&◌, [], ◌∷◌, ◌++◌, ltb, ◌==◌, if◌then◌else◌, length,
}
use pdfv.Bytes.{is_ws, decode_hex_pair}
use pdfv.Name.{codes}
use pdfv.Limits.{ResourceLimits}
use pdfv.Error.{Result, ok, err, ◌>>=◌, ◌>>◌, ensure, text, malformed, arithmetic_overflow, ok_or}
use pdfv.Cursor.{Cursor, at, position, remaining, consume_bytes}
use pdfv.Lexer.{string_limit, escaped_byte}

-- The loop of `parse_literal_string`, within `depth` parentheses: `bytes` are decoded, and
-- `escaping` says that the byte before is a backslash that escapes.
unfoldable pub literal_loop :
    ResourceLimits → Bool → ℕ → Bytes → ℕ → Bytes → Result (Bytes × Cursor)
unfolding escaped_byte
literal_loop limits true depth bytes p [] = err (malformed (text "truncated string escape"))
literal_loop limits false depth bytes p [] = err (malformed (text "unterminated literal string"))
literal_loop limits true depth bytes p (escaped ∷ rest) = do
  string_limit limits (bytes ++ escaped_byte escaped ∷ [])
  literal_loop limits false depth (bytes ++ escaped_byte escaped ∷ []) (p + 1) rest
literal_loop limits false depth bytes p (byte ∷ rest) =
    let escape = literal_loop limits true depth bytes (p + 1) rest in
    if byte == b'\\'
    then escape
    else if byte == b'('
    then (do
      ensure (ltb (depth + 1) 4294967296) (arithmetic_overflow "string nesting")
      string_limit limits (bytes ++ byte ∷ [])
      literal_loop limits false (depth + 1) (bytes ++ byte ∷ []) (p + 1) rest)
    else if byte == b')' && depth - 1 == 0
    then (do string_limit limits bytes; ok (bytes, at (p + 1) rest))
    else do
      string_limit limits (bytes ++ byte ∷ [])
      literal_loop limits false (if byte == b')' then depth - 1 else depth) (bytes ++ byte ∷ [])
          (p + 1) rest

unfoldable pub parse_literal_string : ResourceLimits → Cursor → Result (Bytes × Cursor)
unfolding literal_loop consume_bytes
parse_literal_string limits c = do
  start ← consume_bytes (codes "(") c
  literal_loop limits false 1 [] (position start) (remaining start)

-- The bytes up to the mark `>` or to the end of the source, less the white space.
unfoldable pub hex_nibbles : ℕ → Bytes → Bytes × Cursor
hex_nibbles p [] = ([], at p [])
hex_nibbles p (byte ∷ rest) =
    let more = hex_nibbles (p + 1) rest in
    if byte == b'>'
    then ([], at (p + 1) rest)
    else if is_ws byte
    then more
    else (byte ∷ more.0, more.1)

-- The loop over `nibbles.chunks(2)`.
unfoldable pub hex_pairs : Bytes → Result Bytes
hex_pairs [] = ok []
hex_pairs (high ∷ []) = err (malformed (text "invalid hex string"))
hex_pairs (high ∷ low ∷ nibbles) = do
  decoded ← ok_or (decode_hex_pair high low) (malformed (text "invalid hex string"))
  bytes ← hex_pairs nibbles
  ok (decoded ∷ bytes)

abbrev pub pad_nibbles : Bytes → Bytes
pad_nibbles nibbles = if length nibbles % 2 == 0 then nibbles else nibbles ++ b'0' ∷ []

unfoldable pub parse_hex_string : ResourceLimits → Cursor → Result (Bytes × Cursor)
unfolding hex_nibbles hex_pairs consume_bytes
parse_hex_string limits c = do
  start ← consume_bytes (codes "<") c
  let scanned = hex_nibbles (position start) (remaining start)
  bytes ← hex_pairs (pad_nibbles scanned.0)
  string_limit limits bytes
  ok (bytes, scanned.1)
