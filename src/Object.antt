-- ===== src/Object.antt =====
-- `parse_number_or_reference`, `parse_object`, `parse_dictionary` and `parse_array` of
-- crates/core/src/parser.rs. The recursion is on fuel: one unit for each level of nesting, and in a
-- loop one for each entry.
pub mod Numbers
pub mod Fits
pub mod Bounds
pub mod References
use Prim.Native.Nat.{min}
use pdfv.Base.{
  ℕ, zero, suc, ◌+◌, Bytes, Bool, true, false, not, ◌&&◌, ◌||◌, Option, none, some, List, [], ◌∷◌,
  ltb, leb, ◌==◌, if◌then◌else◌, length,
}
use pdfv.Bytes.{is_ascii_digit}
use pdfv.Name.{codes}
use pdfv.Int.{ℤ, pos, negsuc}
use pdfv.Float.{Float}
use pdfv.Limits.{ResourceLimits}
use pdfv.Error.{
  Result, ok, err, diverged, ◌>>=◌, ◌>>◌, ensure, text, with_number, malformed, limit_exceeded,
  ok_or,
}
use pdfv.Cursor.{
  Cursor, at, position, remaining, peek_byte, starts_with, consume_bytes, skip_ws_and_comments,
  skip_required_ws,
}
use pdfv.Cos.{
  CosObject, null, boolean, integer, real, name, string, array, dictionary, reference, CosArray,
  nil, cons, Dictionary, empty, insert, dict_len, push, array_len, ObjectKey,
}
use pdfv.Cos.Fields.{to_unsigned}
use pdfv.Lexer.{parse_unsigned_u16, parse_name}
use pdfv.Lexer.Text.{parse_literal_string, parse_hex_string}
use pdfv.Lexer.Number.{NumberToken, integer_token, real_token, parse_number_token}

abbrev pub u32_max : ℕ
u32_max = 4294967295

module _ (float : Float) where
  abbrev pub Object : Type 0
  Object = CosObject float.F64

  abbrev pub number_object : NumberToken float.F64 → Object
  number_object (integer_token value) = integer value
  number_object (real_token value) = real value

  -- The second parse of the token, from the place of the first.
  abbrev pub parse_number : Cursor → Result (Object × Cursor)
  parse_number first_start = do
    (token, after) ← parse_number_token float first_start
    ok (number_object token, after)

  -- At the letter `R`: the reference, unless its number is 0.
  abbrev pub finish_reference : Cursor → ℤ → ℕ → Cursor → Result (Object × Cursor)
  finish_reference first_start value generation c = do
    after ← consume_bytes (codes "R") c
    number ←
        ok_or (to_unsigned 4294967296 value)
          (malformed (text "reference object number out of range"))
    (let plain = parse_number first_start in
        if number == 0
        then plain
        else ok (reference (record { number = number; generation = generation }), after))

  -- After the second number.
  abbrev pub try_reference : Cursor → ℤ → Option ℕ → Cursor → Result (Object × Cursor)
  try_reference first_start value none c = parse_number first_start
  try_reference first_start value (some generation) c = elim (skip_required_ws c) [
    | none ↦ parse_number first_start
    | some marker ↦
        if starts_with (codes "R") marker
        then finish_reference first_start value generation marker
        else parse_number first_start
  ]

  -- After the first number.
  abbrev pub after_integer : Cursor → ℤ → Option Cursor → Result (Object × Cursor)
  after_integer first_start value none = parse_number first_start
  after_integer first_start value (some second_start) = do
    (generation, after) ← parse_unsigned_u16 second_start
    try_reference first_start value generation after

  abbrev pub after_number : Cursor → NumberToken float.F64 → Cursor → Result (Object × Cursor)
  after_number first_start (real_token value) after_first = parse_number first_start
  after_number first_start (integer_token value) after_first =
      after_integer first_start value (skip_required_ws after_first)

  unfoldable pub parse_number_or_reference : Cursor → Result (Object × Cursor)
  parse_number_or_reference first_start = do
    (first, after_first) ← parse_number_token float first_start
    after_number first_start first after_first

  abbrev pub starts_number : ℕ → Bool
  starts_number b = b == b'-' || b == b'+' || b == b'.' || is_ascii_digit b

  module _ (limits : ResourceLimits) where
    -- The loop of `parse_array`, with the parser of the elements.
    unfoldable pub array_loop :
        (Cursor → Result (Object × Cursor))
        → ℕ
        → CosArray float.F64
        → Cursor
        → Result (CosArray float.F64 × Cursor)
    unfolding skip_ws_and_comments consume_bytes push
    array_loop element zero values c = diverged
    array_loop element (suc fuel) values c =
        let start = skip_ws_and_comments c in
        if starts_with (codes "]") start
        then (do after ← consume_bytes (codes "]") start; ok (values, after))
        else do
          (value, after) ← element start
          ensure (leb (array_len values + 1) limits.max_array_len) (limit_exceeded "max_array_len")
          array_loop element fuel (push values value) after

    unfoldable pub dictionary_loop :
        (Cursor → Result (Object × Cursor))
        → ℕ
        → Dictionary float.F64
        → Cursor
        → Result (Dictionary float.F64 × Cursor)
    unfolding skip_ws_and_comments consume_bytes insert dict_len parse_name
    dictionary_loop element zero entries c = diverged
    dictionary_loop element (suc fuel) entries c =
        let start = skip_ws_and_comments c in
        if starts_with (codes ">>") start
        then (do after ← consume_bytes (codes ">>") start; ok (entries, after))
        else do
          (key, after_key) ← parse_name limits start
          (value, after) ← element after_key
          ensure (leb (dict_len entries + 1) limits.max_dict_entries)
              (limit_exceeded "max_dict_entries")
          dictionary_loop element fuel (insert key value entries) after

    unfoldable pub parse_array :
        (Cursor → Result (Object × Cursor)) → Cursor → Result (CosArray float.F64 × Cursor)
    unfolding array_loop
    parse_array element c = do
      start ← consume_bytes (codes "[") c
      array_loop element (suc (length (remaining start))) nil start

    unfoldable pub parse_dictionary :
        (Cursor → Result (Object × Cursor)) → Cursor → Result (Dictionary float.F64 × Cursor)
    unfolding dictionary_loop
    parse_dictionary element c = do
      start ← consume_bytes (codes "<<") c
      dictionary_loop element (suc (length (remaining start))) empty start

    abbrev pub keyword : Bytes → Object → Cursor → Result (Object × Cursor)
    keyword expected object c = do after ← consume_bytes expected c; ok (object, after)

    -- The `match` on the next byte.
    unfoldable pub parse_token : Cursor → Result (Object × Cursor)
    unfolding parse_name parse_literal_string parse_hex_string parse_number_or_reference
    parse_token (at p []) = err (malformed (with_number "unexpected token at" p))
    parse_token (at p (b ∷ rest)) =
        let c = at p (b ∷ rest) in
        if b == b'/'
        then (do (bytes, after) ← parse_name limits c; ok (name bytes, after))
        else if b == b'('
        then (do (bytes, after) ← parse_literal_string limits c; ok (string bytes, after))
        else if b == b'<'
        then (do (bytes, after) ← parse_hex_string limits c; ok (string bytes, after))
        else if starts_with (codes "true") c
        then keyword (codes "true") (boolean true) c
        else if starts_with (codes "false") c
        then keyword (codes "false") (boolean false) c
        else if starts_with (codes "null") c
        then keyword (codes "null") null c
        else if starts_number b
        then parse_number_or_reference c
        else err (malformed (with_number "unexpected token at" p))

    -- `depth.saturating_add(1)` on `u32`.
    abbrev pub deeper : ℕ → ℕ
    deeper depth = min u32_max (depth + 1)

    unfoldable pub parse_object : ℕ → ℕ → Cursor → Result (Object × Cursor)
    unfolding parse_array parse_dictionary parse_token
    parse_object zero depth c = diverged
    parse_object (suc fuel) depth c =
        let element = parse_object fuel (deeper depth) in
        let start = skip_ws_and_comments c in
        if ltb limits.max_object_depth depth
        then err (limit_exceeded "max_object_depth")
        else if starts_with (codes "<<") start
        then (do (entries, after) ← parse_dictionary element start; ok (dictionary entries, after))
        else if starts_with (codes "[") start
        then (do (values, after) ← parse_array element start; ok (array values, after))
        else parse_token start
