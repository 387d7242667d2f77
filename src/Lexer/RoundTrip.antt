-- ===== src/Lexer/RoundTrip.antt =====
-- Writing a name or a string, and reading it back with crates/core/src/parser.rs.
use mathlib.Core.List.{append_assoc, append-nil}
use pdfv.Base.{
  ℕ, suc, ◌+◌, ◌-◌, ◌/◌, ◌%◌, ◌≤◌, ◌<◌, Bytes, IsBytes, true, false, ◌||◌, some, [], ◌∷◌, ◌++◌, ◌≡◌,
  refl, ap, ◌∙◌, inl, inr, arith, leb, ltb, ◌==◌, length, length-append, Bool-cases, if◌then◌else◌,
}
use pdfv.Bytes.{is_ws, is_delimiter, decode_hex_digit, decode_hex_pair, hex_byte}
use pdfv.Limits.{ResourceLimits}
use pdfv.Error.{ok}
use pdfv.Cursor.{at}
use pdfv.Lexer.{is_stop, name_loop, parse_name, escaped_byte}
use pdfv.Lexer.Text.{literal_loop, parse_literal_string}

abbrev pub hex_digit : ℕ → ℕ
hex_digit n = if ltb n 10 then b'0' + n else b'A' + (n - 10)

-- A name as a PDF file writes it: the bytes that end a name, and the mark of an escape, are escaped.
unfoldable pub write_name : Bytes → Bytes
write_name [] = []
write_name (b ∷ name) =
    let more = write_name name in
    if is_stop b || b == b'#'
    then b'#' ∷ hex_digit (b / 16) ∷ hex_digit (b % 16) ∷ more
    else b ∷ more

-- What follows a name ends it.
abbrev pub EndsName : Bytes → Type 0
EndsName [] = Unit
EndsName (b ∷ rest) = is_stop b ≡ true

decode_hex_digit-write : (n : ℕ) → n < 16 → decode_hex_digit (hex_digit n) ≡ some n
unfolding decode_hex_digit
decode_hex_digit-write n h = ground arith

decode_hex_pair-digits :
    (high low h l : ℕ)
    → decode_hex_digit high ≡ some h
    → decode_hex_digit low ≡ some l
    → decode_hex_pair high low ≡ some (hex_byte h l)
unfolding decode_hex_pair
decode_hex_pair-digits high low h l e e' = rw (decode_hex_pair, e, e') refl

pub decode_hex_pair-write :
    (b : ℕ) → b < 256 → decode_hex_pair (hex_digit (b / 16)) (hex_digit (b % 16)) ≡ some b
decode_hex_pair-write b h =
    let high = decode_hex_digit-write (b / 16) (omega arith) in
    let low = decode_hex_digit-write (b % 16) (omega arith) in
    let same : hex_byte (b / 16) (b % 16) ≡ b = omega arith in
    decode_hex_pair-digits _ _ (b / 16) (b % 16) high low ∙ ap some same

name_loop-plain :
    (limits : ResourceLimits) (bytes : Bytes) (p b : ℕ) (rest : Bytes)
    → is_stop b ≡ false
    → (b == b'#') ≡ false
    → length (bytes ++ b ∷ []) ≤ limits.max_name_bytes
    → name_loop limits bytes p (b ∷ rest) ≡ name_loop limits (bytes ++ b ∷ []) (p + 1) rest
unfolding name_loop
name_loop-plain limits bytes p b [] stop mark small =
    let fits : leb (length (bytes ++ b ∷ [])) limits.max_name_bytes ≡ true = ground arith in
    rw (stop, mark, fits) refl
name_loop-plain limits bytes p b (high ∷ []) stop mark small =
    let fits : leb (length (bytes ++ b ∷ [])) limits.max_name_bytes ≡ true = ground arith in
    rw (stop, mark, fits) refl
name_loop-plain limits bytes p b (high ∷ low ∷ rest) stop mark small =
    let fits : leb (length (bytes ++ b ∷ [])) limits.max_name_bytes ≡ true = ground arith in
    rw (stop, mark, fits) refl

mark-plain : is_stop b'#' ≡ false
unfolding is_ws is_delimiter
mark-plain = refl

name_loop-escape :
    (limits : ResourceLimits) (bytes : Bytes) (p b : ℕ) (rest : Bytes)
    → b < 256
    → length (bytes ++ b ∷ []) ≤ limits.max_name_bytes
    → name_loop limits bytes p (b'#' ∷ hex_digit (b / 16) ∷ hex_digit (b % 16) ∷ rest)
      ≡ name_loop limits (bytes ++ b ∷ []) (p + 3) rest
unfolding name_loop
name_loop-escape limits bytes p b rest h small =
    let fits : leb (length (bytes ++ b ∷ [])) limits.max_name_bytes ≡ true = ground arith in
    rw (mark-plain, decode_hex_pair-write b h, fits) refl

name_loop-end :
    (limits : ResourceLimits) (bytes : Bytes) (p : ℕ) (rest : Bytes)
    → EndsName rest
    → name_loop limits bytes p rest ≡ ok (bytes, at p rest)
unfolding name_loop
name_loop-end limits bytes p [] h = refl
name_loop-end limits bytes p (b ∷ []) h = rw (h) refl
name_loop-end limits bytes p (b ∷ high ∷ []) h = rw (h) refl
name_loop-end limits bytes p (b ∷ high ∷ low ∷ rest) h = rw (h) refl

name_loop-write :
    (limits : ResourceLimits) (name bytes : Bytes) (p : ℕ) (rest : Bytes)
    → IsBytes name
    → EndsName rest
    → length bytes + length name ≤ limits.max_name_bytes
    → name_loop limits bytes p (write_name name ++ rest)
      ≡ ok (bytes ++ name, at (p + length (write_name name)) rest)
unfolding write_name
name_loop-write limits [] bytes p rest h e small =
    let same : p + 0 ≡ p = omega arith in
    rw (same, append-nil bytes) (name_loop-end limits bytes p rest e)
name_loop-write limits (b ∷ name) bytes p rest h e small =
    let size = length-append bytes (b ∷ []) in
    let more = bytes ++ b ∷ [] in
    let joined = append_assoc bytes (b ∷ []) name in
    let n = length (write_name name) in
    elim (Bool-cases (is_stop b || b == b'#')) [
      | inl special ↦
          let same : p + suc (suc (suc n)) ≡ p + 3 + n = omega arith in
          rw
            (
              special,
              same,
              name_loop-escape limits bytes p b (write_name name ++ rest) h.0 (omega arith),
              ← joined,
            )
            (name_loop-write limits name more (p + 3) rest h.1 e (omega arith))
      | inr plain ↦
          let stop : is_stop b ≡ false = ground arith in
          let mark : (b == b'#') ≡ false = ground arith in
          let same : p + suc n ≡ p + 1 + n = omega arith in
          rw
            (
              plain,
              same,
              name_loop-plain limits bytes p b (write_name name ++ rest) stop mark (omega arith),
              ← joined,
            )
            (name_loop-write limits name more (p + 1) rest h.1 e (omega arith))
    ]

-- A name within the limit is read back from what is written for it, and the rest is left.
pub parse_name-write :
    (limits : ResourceLimits) (name : Bytes) (p : ℕ) (rest : Bytes)
    → IsBytes name
    → EndsName rest
    → length name ≤ limits.max_name_bytes
    → parse_name limits (at p (b'/' ∷ (write_name name ++ rest)))
      ≡ ok (name, at (p + 1 + length (write_name name)) rest)
unfolding parse_name
parse_name-write limits name p rest h e small =
    let fits : leb (length name) limits.max_name_bytes ≡ true = ground arith in
    rw (name_loop-write limits name [] (p + 1) rest h e (omega arith), fits) refl

-- A string as a PDF file writes it: every parenthesis and backslash is escaped.
unfoldable pub write_string : Bytes → Bytes
write_string [] = []
write_string (b ∷ bytes) =
    let more = write_string bytes in
    if b == b'\\' || b == b'(' || b == b')' then b'\\' ∷ b ∷ more else b ∷ more

escaped_byte-special : (b : ℕ) → (b == b'\\' || b == b'(' || b == b')') ≡ true → escaped_byte b ≡ b
unfolding escaped_byte
escaped_byte-special b h = ground arith

literal_loop-write :
    (limits : ResourceLimits) (string bytes : Bytes) (p : ℕ) (rest : Bytes)
    → length bytes + length string ≤ limits.max_string_bytes
    → literal_loop limits false 1 bytes p (write_string string ++ b')' ∷ rest)
      ≡ ok (bytes ++ string, at (p + length (write_string string) + 1) rest)
unfolding write_string literal_loop
literal_loop-write limits [] bytes p rest small =
    let same : p + 0 ≡ p = omega arith in
    let fits : leb (length bytes) limits.max_string_bytes ≡ true = ground arith in
    rw (same, append-nil bytes, fits) refl
literal_loop-write limits (b ∷ string) bytes p rest small =
    let size = length-append bytes (b ∷ []) in
    let fits : leb (length (bytes ++ b ∷ [])) limits.max_string_bytes ≡ true = ground arith in
    let joined = append_assoc bytes (b ∷ []) string in
    let n = length (write_string string) in
    elim (Bool-cases (b == b'\\' || b == b'(' || b == b')')) [
      | inl special ↦
          let same : p + suc (suc n) ≡ p + 1 + 1 + n = omega arith in
          rw (special, same, escaped_byte-special b special, fits, ← joined)
            (literal_loop-write limits string (bytes ++ b ∷ []) (p + 1 + 1) rest (omega arith))
      | inr plain ↦
          let backslash : (b == b'\\') ≡ false = ground arith in
          let opening : (b == b'(') ≡ false = ground arith in
          let closing : (b == b')') ≡ false = ground arith in
          let same : p + suc n ≡ p + 1 + n = omega arith in
          rw (plain, backslash, opening, closing, same, fits, ← joined)
            (literal_loop-write limits string (bytes ++ b ∷ []) (p + 1) rest (omega arith))
    ]

-- A string within the limit is read back from what is written for it, and the rest is left.
pub parse_literal_string-write :
    (limits : ResourceLimits) (string : Bytes) (p : ℕ) (rest : Bytes)
    → length string ≤ limits.max_string_bytes
    → parse_literal_string limits (at p (b'(' ∷ (write_string string ++ b')' ∷ rest)))
      ≡ ok (string, at (p + 1 + length (write_string string) + 1) rest)
unfolding parse_literal_string
parse_literal_string-write limits string p rest small =
    rw (literal_loop-write limits string [] (p + 1) rest (omega arith)) refl
