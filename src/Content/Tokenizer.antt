-- ===== src/Content/Tokenizer.antt =====
-- `ContentTokenizer` of crates/core/src/content.rs, whose state is a cursor in the decoded bytes.
pub mod Progress
pub mod RoundTrip
use pdfv.Base.{
  ℕ, zero, suc, ◌+◌, ◌-◌, Bytes, Bool, true, false, not, ◌&&◌, ◌||◌, Option, none, some, List, [],
  ◌∷◌, ltb, leb, ◌==◌, if◌then◌else◌, length, take, drop,
}
use pdfv.Bytes.{is_ws, is_delimiter, decode_hex_pair}
use pdfv.Name.{codes, bytes_eq}
use pdfv.Limits.{ResourceLimits}
use pdfv.Float.{Float}
use pdfv.Error.{
  Result, ok, err, diverged, ◌>>=◌, ◌>>◌, ensure, text, malformed, limit_exceeded,
  arithmetic_overflow,
}
use pdfv.Cursor.{Cursor, at, position, remaining, is_eol}
use pdfv.Lexer.{take_while, name_limit}
use pdfv.Lexer.Number.{parse_i64}
use pdfv.Content.Token.{
  Operand, name_operand, integer_operand, bytes_operand, composite_operand, keyword_operand, Token,
  operand, operator, new_operator_name,
}

-- White space and comments; `comment` says that the loop over a comment runs.
unfoldable pub skip_blanks : Bool → ℕ → Bytes → Cursor
skip_blanks comment p [] = at p []
skip_blanks true p (b ∷ rest) = skip_blanks (not (is_eol b)) (p + 1) rest
skip_blanks false p (b ∷ rest) =
    let more = skip_blanks (b == b'%') (p + 1) rest in
    if is_ws b || b == b'%' then more else at p (b ∷ rest)

-- The bytes of `consume_until_delimiter`, and the cursor after them.
abbrev pub is_regular : ℕ → Bool
is_regular b = not (is_ws b) && not (is_delimiter b)

abbrev pub consume_until_delimiter : Cursor → Bytes × Cursor
consume_until_delimiter c = take_while is_regular (position c) (remaining c)

abbrev next_depth : ℕ → ℕ → ℕ
next_depth b depth =
    if b == b'\\'
    then depth
    else if b == b'('
    then depth + 1
    else if b == b')'
    then depth - 1
    else depth

-- The loop of `consume_literal_string`; `escaped` says that the byte follows a backslash.
unfoldable pub literal_rest : Bool → ℕ → ℕ → Bytes → Result Cursor
literal_rest escaped depth p [] =
    err (malformed (text "unterminated literal string in content stream"))
literal_rest true depth p (b ∷ rest) = literal_rest false depth (p + 1) rest
literal_rest false depth p (b ∷ rest) =
    let more = literal_rest (b == b'\\') (next_depth b depth) (p + 1) rest in
    if b == b'(' && leb 4294967295 depth
    then err (arithmetic_overflow "literal string depth")
    else if b == b')' && depth - 1 == 0
    then ok (at (p + 1) rest)
    else more

-- The loop of `consume_hex_string`.
unfoldable pub hex_rest : ℕ → Bytes → Result Cursor
hex_rest p [] = err (malformed (text "unterminated hex string in content stream"))
hex_rest p (b ∷ rest) =
    let more = hex_rest (p + 1) rest in if b == b'>' then ok (at (p + 1) rest) else more

-- A round of `consume_composite_range` ends the operand, or leaves delimiters open.
pub data Composite : Type 0 where
  closed : Cursor → Composite
  unclosed : List ℕ → Cursor → Composite

abbrev first_is : ℕ → Bytes → Bool
first_is b [] = false
first_is b (c ∷ rest) = c == b

abbrev closing : List ℕ → Cursor → Composite
closing [] c = closed c
closing (delimiter ∷ stack) c = unclosed (delimiter ∷ stack) c

-- `stack.pop()` must give this delimiter.
abbrev close : ℕ → Result Composite → List ℕ → Cursor → Result Composite
close delimiter mismatched [] c = mismatched
close delimiter mismatched (top ∷ stack) c =
    if top == delimiter then ok (closing stack c) else mismatched

unfoldable pub composite_step : List ℕ → Cursor → Result Composite
composite_step stack (at p []) = err (malformed (text "unterminated composite operand"))
composite_step stack (at p (b ∷ rest)) =
    let two = at (p + 2) (drop 1 rest) in
    if b == b'['
    then ok (unclosed (b']' ∷ stack) (at (p + 1) rest))
    else if b == b'<' && first_is b'<' rest
    then ok (unclosed (b'>' ∷ stack) two)
    else if b == b']'
    then close b']' (err (malformed (text "mismatched array delimiter"))) stack (at (p + 1) rest)
    else if b == b'>' && first_is b'>' rest
    then close b'>' (err (malformed (text "mismatched dictionary delimiter"))) stack two
    else if b == b'('
    then literal_rest false 1 (p + 1) rest >>= (λ after. ok (unclosed stack after))
    else if b == b'<'
    then hex_rest (p + 1) rest >>= (λ after. ok (unclosed stack after))
    else ok (unclosed stack (at (p + 1) rest))

abbrev pub after_round :
    ResourceLimits → (List ℕ → Cursor → Result Cursor) → Composite → Result Cursor
after_round limits again (closed after) = ok after
after_round limits again (unclosed stack after) =
    if leb (length stack) limits.max_object_depth
    then again stack after
    else err (limit_exceeded "max_object_depth")

-- Each round takes a byte, so the fuel for the bytes that are left suffices.
unfoldable pub composite_loop : ResourceLimits → ℕ → List ℕ → Cursor → Result Cursor
unfolding composite_step
composite_loop limits zero stack c = diverged
composite_loop limits (suc fuel) stack c =
    composite_step stack c >>= after_round limits (composite_loop limits fuel)

unfoldable pub consume_composite_range : ResourceLimits → Cursor → Result Cursor
consume_composite_range limits c = composite_loop limits (suc (length (remaining c))) [] c

-- `checked_slice_len(start, end)` of a cursor and a later one.
abbrev pub span : Cursor → Cursor → ℕ
span start end = position end - position start

unfoldable pub consume_composite : ResourceLimits → Cursor → Result (ℕ × Cursor)
consume_composite limits c = do after ← consume_composite_range limits c; ok (span c after, after)

unfoldable pub consume_composite_bytes : ResourceLimits → Cursor → Result (Bytes × Cursor)
consume_composite_bytes limits c = do
  after ← consume_composite_range limits c
  ensure (leb (span c after) limits.max_content_stream_operand_bytes)
      (limit_exceeded "max_content_stream_operand_bytes")
  ok (take (span c after) (remaining c), after)

-- The loop of `decode_name`: an escape that is not hexadecimal stays as it is.
unfoldable pub decode_name_loop : Bytes → Bytes
decode_name_loop [] = []
decode_name_loop (b ∷ []) = b ∷ []
decode_name_loop (b ∷ high ∷ []) = b ∷ high ∷ []
decode_name_loop (b ∷ high ∷ low ∷ rest) =
    let plain = b ∷ decode_name_loop (high ∷ low ∷ rest) in
    let escape : Bytes = elim (decode_hex_pair high low) [
      | none ↦ b ∷ decode_name_loop (high ∷ low ∷ rest)
      | some decoded ↦ decoded ∷ decode_name_loop rest
    ] in
    if b == b'#' then escape else plain

unfoldable pub decode_name : ResourceLimits → Bytes → Result Bytes
unfolding decode_name_loop
decode_name limits bytes = do
  let decoded = decode_name_loop bytes
  name_limit limits decoded
  ok decoded

abbrev pub is_keyword_operand : Bytes → Bool
is_keyword_operand bytes =
    bytes_eq bytes (codes "true")
    || bytes_eq bytes (codes "false")
    || bytes_eq bytes (codes "null")
    || bytes_eq bytes (codes "R")

module _ (float : Float) (limits : ResourceLimits) where
  abbrev finite : Option float.F64 → Bool
  finite none = false
  finite (some value) = float.is_finite value

  unfoldable pub is_number_like : Bytes → Bool
  is_number_like bytes = finite (float.parse_f64 bytes)

  unfoldable pub regular_token : ℕ → Bytes → Result Token
  unfolding is_number_like new_operator_name parse_i64 bytes_eq
  regular_token start slice =
      if is_keyword_operand slice
      then ok (operand (keyword_operand slice))
      else elim (parse_i64 slice) [
        | some value ↦ ok (operand (integer_operand value))
        | none ↦
            if is_number_like slice
            then ok (operand (bytes_operand (length slice)))
            else (do name ← new_operator_name limits slice; ok (operator name start))
      ]

  unfoldable pub consume_regular_token : Cursor → Result (Token × Cursor)
  unfolding regular_token take_while
  consume_regular_token c = do
    let token = consume_until_delimiter c
    result ← regular_token (position c) token.0
    ok (result, token.1)

  unfoldable pub name_token : Cursor → Result (Token × Cursor)
  unfolding decode_name take_while
  name_token c = do
    let token = consume_until_delimiter c
    bytes ← decode_name limits token.0
    name_limit limits bytes
    ok (operand (name_operand bytes), token.1)

  abbrev bytes_token : Cursor → Cursor → Result (Token × Cursor)
  bytes_token start after = ok (operand (bytes_operand (span start after)), after)

  -- A token that begins with this byte.
  unfoldable pub token_at : ℕ → ℕ → Bytes → Result (Token × Cursor)
  unfolding name_token literal_rest hex_rest consume_composite consume_composite_bytes
      consume_regular_token
  token_at p b rest =
      let start = at p (b ∷ rest) in
      if b == b'/'
      then name_token (at (p + 1) rest)
      else if b == b'('
      then literal_rest false 1 (p + 1) rest >>= bytes_token start
      else if b == b'<' && not (first_is b'<' rest)
      then hex_rest (p + 1) rest >>= bytes_token start
      else if b == b'['
      then (do
        (count, after) ← consume_composite limits start
        ok (operand (bytes_operand count), after))
      else if b == b'<'
      then (do
        (bytes, after) ← consume_composite_bytes limits start
        ok (operand (composite_operand bytes), after))
      else consume_regular_token start

  abbrev pub first_token : Cursor → Result (Option Token × Cursor)
  first_token (at p []) = ok (none, at p [])
  first_token (at p (b ∷ rest)) = do (token, after) ← token_at p b rest; ok (some token, after)

  unfoldable pub next_token : Cursor → Result (Option Token × Cursor)
  unfolding skip_blanks
  next_token c = first_token (skip_blanks false (position c) (remaining c))
