-- ===== src/Lexer/Number.antt =====
-- The number tokens of crates/core/src/parser.rs: `parse_number_token`.
use pdfv.Base.{
  ℕ, zero, suc, ◌+◌, Bytes, Bool, true, false, not, ◌||◌, Option, none, some, [], ◌∷◌, ltb, leb,
  ◌==◌, if◌then◌else◌, length,
}
use pdfv.Bytes.{is_ascii_digit}
use pdfv.Int.{ℤ, pos, negsuc}
use pdfv.Float.{Float}
use pdfv.Error.{Result, ok, ◌>>=◌, ◌>>◌, ensure, text, malformed, ok_or}
use pdfv.Cursor.{Cursor, at, skip_ws_and_comments}
use pdfv.Lexer.{decimal, all_digits}

pub data NumberToken (F : Type 0) : Type 0 where
  integer_token : ℤ → NumberToken F
  real_token : F → NumberToken F

pub record NumberText : Type 0 where
  pub token : Bytes
  pub has_dot : Bool
  pub after : Cursor

-- The loop over digits and dots.
unfoldable pub number_digits : ℕ → Bytes → NumberText
number_digits p [] = record { token = []; has_dot = false; after = at p [] }
number_digits p (b ∷ rest) =
    let more = number_digits (p + 1) rest in
    if b == b'.'
    then record { token = b ∷ more.token; has_dot = true; after = more.after }
    else if is_ascii_digit b
    then record { token = b ∷ more.token; has_dot = more.has_dot; after = more.after }
    else record { token = []; has_dot = false; after = at p (b ∷ rest) }

unfoldable pub number_text : Cursor → NumberText
unfolding number_digits
number_text (at p []) = number_digits p []
number_text (at p (b ∷ rest)) =
    let signed = number_digits (p + 1) rest in
    if b == b'+' || b == b'-'
    then record { token = b ∷ signed.token; has_dot = signed.has_dot; after = signed.after }
    else number_digits p (b ∷ rest)

abbrev negative : ℕ → ℤ
negative zero = pos 0
negative (suc n) = negsuc n

abbrev parse_digits : Bytes → Option ℕ
parse_digits digits =
    if length digits == 0 || not (all_digits digits) then none else some (decimal 0 digits)

abbrev bounded_integer : Bool → Option ℕ → Option ℤ
bounded_integer minus none = none
bounded_integer true (some n) = if leb n 9223372036854775808 then some (negative n) else none
bounded_integer false (some n) = if ltb n 9223372036854775808 then some (pos n) else none

-- `str::parse::<i64>`
unfoldable pub parse_i64 : Bytes → Option ℤ
unfolding decimal all_digits
parse_i64 [] = none
parse_i64 (b ∷ digits) =
    if b == b'-'
    then bounded_integer true (parse_digits digits)
    else if b == b'+'
    then bounded_integer false (parse_digits digits)
    else bounded_integer false (parse_digits (b ∷ digits))

-- The token has signs, digits and dots only, so it is ASCII.
module _ (float : Float) where
  unfoldable pub number_value : NumberText → Result (NumberToken float.F64)
  unfolding parse_i64
  number_value number =
      if number.has_dot
      then (do
        value ← ok_or (float.parse_f64 number.token) (malformed (text "invalid real number"))
        ensure (float.is_finite value) (malformed (text "non-finite real number"))
        ok (real_token value))
      else (do
        value ← ok_or (parse_i64 number.token) (malformed (text "invalid integer"))
        ok (integer_token value))

  unfoldable pub parse_number_token : Cursor → Result (NumberToken float.F64 × Cursor)
  unfolding number_text number_value skip_ws_and_comments
  parse_number_token c = do
    let number = number_text (skip_ws_and_comments c)
    value ← number_value number
    ok (value, number.after)
