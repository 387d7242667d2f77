-- ===== src/Profile/Parser/Tokens.antt =====
-- The tokens of `ExprParser` in crates/core/src/profile.rs. The state of the parser is the text that
-- is left (`remaining`), and each function gives what is left after it.
pub mod Progress
pub mod Quotes
use Prim.Native.Nat.{min}
use pdfv.Base.{
  ℕ, ◌+◌, ◌-◌, Bytes, Bool, true, false, not, ◌&&◌, ◌||◌, List, [], ◌∷◌, ◌++◌, ◌⊎◌, inl, inr, ◌==◌,
  if◌then◌else◌, length, drop,
}
use pdfv.Bytes.{within, is_ascii_digit}
use pdfv.Cursor.{is_prefix}
use pdfv.Profile.Rule.{BinaryOp}
use pdfv.Profile.Texts.{max_profile_string_bytes}
use pdfv.Profile.Parser.Outcome.{Parsed, ok, refused, panicked, ◌>>=◌, bounded}
use pdfv.Profile.Parser.Lambda.{is_word_byte, max_regex_pattern_bytes}

-- `u8::is_ascii_whitespace`
abbrev is_ascii_whitespace : ℕ → Bool
is_ascii_whitespace b = b == b' ' || b == b'\t' || b == b'\n' || b == 0x0c || b == b'\r'

unfoldable pub skip_ws : Bytes → Bytes
skip_ws [] = []
skip_ws (b ∷ rest) = if is_ascii_whitespace b then skip_ws rest else b ∷ rest

-- Whether the token comes next, and the text after it, or after the white space.
unfoldable pub consume : Bytes → Bytes → Bool × Bytes
unfolding skip_ws is_prefix
consume token text =
    let after = skip_ws text in
    if is_prefix token after then (true, drop (length token) after) else (false, after)

-- The first operator of the list whose token comes next.
abbrev pub or_operator :
    BinaryOp → Bool × Bytes → (Bytes → (BinaryOp × Bytes) ⊎ Bytes) → (BinaryOp × Bytes) ⊎ Bytes
or_operator op (true, after) next = inl (op, after)
or_operator op (false, after) next = next after

unfoldable pub read_operator : List (Bytes × BinaryOp) → Bytes → (BinaryOp × Bytes) ⊎ Bytes
unfolding consume
read_operator [] text = inr text
read_operator ((token, op) ∷ more) text =
    or_operator op (consume token text) (λ after. read_operator more after)

-- The longest prefix of such bytes, and the text after it.
unfoldable pub span : (ℕ → Bool) → Bytes → Bytes × Bytes
span p [] = ([], [])
span p (b ∷ rest) =
    let (taken, after) = span p rest in if p b then (b ∷ taken, after) else ([], b ∷ rest)

-- One such byte, if it comes next.
unfoldable pub optional : (ℕ → Bool) → Bytes → Bytes × Bytes
optional p [] = ([], [])
optional p (b ∷ rest) = if p b then (b ∷ [], rest) else ([], b ∷ rest)

abbrev pub non_empty : Bytes × Bytes → Parsed (Bytes × Bytes)
non_empty ([], after) = refused "expected expression"
non_empty (b ∷ taken, after) = ok (b ∷ taken, after)

unfoldable pub parse_identifier : Bytes → Parsed (Bytes × Bytes)
unfolding span
parse_identifier text = non_empty (span is_word_byte text)

-- A text cannot start with this byte, which is not the first of its character.
abbrev pub is_continuation : ℕ → Bool
is_continuation b = within 0x80 0xbf b

-- The loops of `parse_string` and `parse_regex_literal`, from after the first delimiter.
unfoldable pub string_rest : ℕ → Bytes → Parsed (Bytes × Bytes)
string_rest quote [] = refused "unterminated string literal"
string_rest quote (b ∷ rest) =
    let more = (do (value, after) ← string_rest quote rest; ok (b ∷ value, after)) in
    if is_continuation b then panicked else if b == quote then ok ([], rest) else more

unfoldable pub regex_rest : Bool → Bytes → Parsed (Bytes × Bytes)
regex_rest escaped [] = refused "unterminated regex literal"
regex_rest escaped (b ∷ rest) =
    let more = (do
      (value, after) ← regex_rest (b == b'\\' && not escaped) rest
      ok (b ∷ value, after)) in
    if is_continuation b then panicked else if b == b'/' && not escaped then ok ([], rest) else more

unfoldable pub parse_string : Bytes → Parsed (Bytes × Bytes)
unfolding string_rest bounded
parse_string [] = refused "expected string quote"
parse_string (quote ∷ text) = do
  (value, after) ← string_rest quote text
  kept ← bounded value max_profile_string_bytes "string literal exceeds limit"
  ok (kept, after)

unfoldable pub parse_regex_literal : Bytes → Parsed (Bytes × Bytes)
unfolding regex_rest bounded
parse_regex_literal text = do
  (value, after) ← regex_rest false (drop 1 text)
  kept ← bounded value max_regex_pattern_bytes "regex literal exceeds limit"
  ok (kept, after)

-- The exponent of a number, if there is one.
abbrev pub exponent_digits : Bytes → Bytes × Bytes → Parsed (Bytes × Bytes)
exponent_digits front ([], after) = refused "invalid exponent literal"
exponent_digits front (b ∷ digits, after) = ok (front ++ b ∷ digits, after)

abbrev pub exponent_of : Bytes × Bytes → Parsed (Bytes × Bytes)
exponent_of ([], after) = ok ([], after)
exponent_of (e ∷ _, after) =
    let (sign, digits) = optional (λ b. b == b'+' || b == b'-') after in
    exponent_digits (e ∷ sign) (span is_ascii_digit digits)

-- The bytes of a number, and the text after it.
unfoldable pub number_text : Bytes → Parsed (Bytes × Bytes)
unfolding optional span
number_text text =
    let (sign, unsigned) = optional (λ b. b == b'-') text in
    let (digits, rest) = span (λ b. is_ascii_digit b || b == b'.') unsigned in
    exponent_of (optional (λ b. b == b'e' || b == b'E') rest)
    >>= (λ (exponent, after). ok (sign ++ digits ++ exponent, after))

-- The place in a call that `take_call_content_after_open` has come to: outside of literals, or in a
-- string or a regex, after a backslash or not.
pub data Place : Type 0 where
  outside : Place
  quoted : ℕ → Bool → Place
  in_regex : Bool → Place

abbrev pub next_place : ℕ → Place → Place
next_place b (quoted quote escaped) =
    if b == quote && not escaped then outside else quoted quote (b == b'\\' && not escaped)
next_place b (in_regex escaped) =
    if b == b'/' && not escaped then outside else in_regex (b == b'\\' && not escaped)
next_place b outside =
    if b == b'\'' || b == b'"'
    then quoted b false
    else if b == b'/'
    then in_regex false
    else outside

abbrev pub is_outside : Place → Bool
is_outside outside = true
is_outside _ = false

-- The open parentheses after this byte.
abbrev pub next_open : ℕ → Place → ℕ → ℕ
next_open b place depth =
    if is_outside place && b == b'('
    then min 4294967295 (depth + 1)
    else if is_outside place && b == b')'
    then depth - 1
    else depth

unfoldable pub call_content : Place → ℕ → Bytes → Parsed (Bytes × Bytes)
call_content place depth [] = refused "missing call closing parenthesis"
call_content place depth (b ∷ rest) =
    let more = (do
      (content, after) ← call_content (next_place b place) (next_open b place depth) rest
      ok (b ∷ content, after)) in
    if is_continuation b
    then panicked
    else if is_outside place && b == b')' && depth == 0
    then refused "missing call opening parenthesis"
    else if is_outside place && b == b')' && depth == 1
    then ok ([], rest)
    else more

unfoldable pub take_call_content_after_open : Bytes → Parsed (Bytes × Bytes)
unfolding call_content
take_call_content_after_open text = call_content outside 1 text
