-- ===== src/Lexer.antt =====
-- The tokens of crates/core/src/parser.rs: `parse_unsigned`, `parse_fixed_digits`, `parse_name`,
-- `parse_literal_string`, `parse_hex_string`, `parse_number_token`.
pub mod Text
pub mod Number
pub mod Moves
pub mod RoundTrip
use pdfv.Base.{
  ℕ, zero, suc, ◌+◌, ◌-◌, ◌*◌, ◌/◌, ◌%◌, Bytes, Bool, true, false, not, ◌&&◌, ◌||◌, Option, none,
  some, List, [], ◌∷◌, ◌++◌, ltb, leb, ◌==◌, if◌then◌else◌, length, take, drop,
}
use pdfv.Bytes.{is_ws, is_delimiter, is_ascii_digit, decode_hex_pair}
use pdfv.Name.{codes}
use pdfv.Int.{ℤ, pos, negsuc}
use pdfv.Float.{Float}
use pdfv.Limits.{ResourceLimits}
use pdfv.Error.{
  Result, ok, err, ◌>>=◌, ◌>>◌, ensure, text, malformed, limit_exceeded, arithmetic_overflow, ok_or,
}
use pdfv.Cursor.{Cursor, at, position, remaining, skip_ws_and_comments, consume_bytes, next_byte}

-- The bytes while `test` holds, and the cursor after them.
unfoldable pub take_while : (ℕ → Bool) → ℕ → Bytes → Bytes × Cursor
take_while test p [] = ([], at p [])
take_while test p (b ∷ rest) =
    let more = take_while test (p + 1) rest in
    if test b then (b ∷ more.0, more.1) else ([], at p (b ∷ rest))

-- `str::parse` on digits, with no bound yet.
unfoldable pub decimal : ℕ → Bytes → ℕ
decimal value [] = value
decimal value (d ∷ digits) = decimal (value * 10 + (d - b'0')) digits

-- `parse_unsigned` for the unsigned integers below `modulus`.
unfoldable pub parse_unsigned : ℕ → Cursor → Result (Option ℕ × Cursor)
unfolding take_while decimal skip_ws_and_comments
parse_unsigned modulus c =
    let start = skip_ws_and_comments c in
    let token = take_while is_ascii_digit (position start) (remaining start) in
    let value = decimal 0 token.0 in
    if length token.0 == 0
    then ok (none, token.1)
    else if ltb value modulus
    then ok (some value, token.1)
    else err (malformed (text "unsigned integer out of range"))

abbrev pub parse_unsigned_u32 : Cursor → Result (Option ℕ × Cursor)
parse_unsigned_u32 = parse_unsigned 4294967296

abbrev pub parse_unsigned_u16 : Cursor → Result (Option ℕ × Cursor)
parse_unsigned_u16 = parse_unsigned 65536

unfoldable pub all_digits : Bytes → Bool
all_digits [] = true
all_digits (b ∷ bytes) = is_ascii_digit b && all_digits bytes

-- `None` leaves the position as it is.
unfoldable pub parse_fixed_digits : ℕ → Cursor → Option ℕ × Cursor
unfolding decimal all_digits
parse_fixed_digits len c =
    let slice = take len (remaining c) in
    if leb len (length (remaining c)) && all_digits slice
    then (some (decimal 0 slice), at (position c + len) (drop len (remaining c)))
    else (none, c)

abbrev pub is_stop : ℕ → Bool
is_stop b = is_delimiter b || is_ws b

-- `PdfName::new` and `PdfString::new`, and the test in the loops of the parser.
abbrev pub name_limit : ResourceLimits → Bytes → Result (Unit {0})
name_limit limits bytes =
    ensure (leb (length bytes) limits.max_name_bytes) (limit_exceeded "max_name_bytes")

abbrev pub string_limit : ResourceLimits → Bytes → Result (Unit {0})
string_limit limits bytes =
    ensure (leb (length bytes) limits.max_string_bytes) (limit_exceeded "max_string_bytes")

-- The loop of `parse_name`: `bytes` are decoded.
unfoldable pub name_loop : ResourceLimits → Bytes → ℕ → Bytes → Result (Bytes × Cursor)
name_loop limits bytes p [] = ok (bytes, at p [])
name_loop limits bytes p (b ∷ []) =
    if is_stop b
    then ok (bytes, at p (b ∷ []))
    else if b == b'#'
    then err (malformed (text "truncated name escape"))
    else do name_limit limits (bytes ++ b ∷ []); ok (bytes ++ b ∷ [], at (p + 1) [])
name_loop limits bytes p (b ∷ high ∷ []) =
    let plain = name_loop limits (bytes ++ b ∷ []) (p + 1) (high ∷ []) in
    if is_stop b
    then ok (bytes, at p (b ∷ high ∷ []))
    else if b == b'#'
    then err (malformed (text "truncated name escape"))
    else do name_limit limits (bytes ++ b ∷ []); plain
name_loop limits bytes p (b ∷ high ∷ low ∷ rest) =
    let plain = name_loop limits (bytes ++ b ∷ []) (p + 1) (high ∷ low ∷ rest) in
    if is_stop b
    then ok (bytes, at p (b ∷ high ∷ low ∷ rest))
    else if b == b'#'
    then (do
      decoded ← ok_or (decode_hex_pair high low) (malformed (text "invalid name escape"))
      name_limit limits (bytes ++ decoded ∷ [])
      name_loop limits (bytes ++ decoded ∷ []) (p + 3) rest)
    else do name_limit limits (bytes ++ b ∷ []); plain

unfoldable pub parse_name : ResourceLimits → Cursor → Result (Bytes × Cursor)
unfolding name_loop consume_bytes
parse_name limits c = do
  start ← consume_bytes (codes "/") c
  (bytes, after) ← name_loop limits [] (position start) (remaining start)
  name_limit limits bytes
  ok (bytes, after)

unfoldable pub escaped_byte : ℕ → ℕ
escaped_byte escaped =
    if escaped == b'n'
    then b'\n'
    else if escaped == b'r'
    then b'\r'
    else if escaped == b't'
    then b'\t'
    else if escaped == b'b'
    then 0x08
    else if escaped == b'f'
    then 0x0c
    else escaped
