-- ===== src/Content/Tokenizer/RoundTrip.antt =====
-- A name that is written with escapes, read back by the tokenizer of crates/core/src/content.rs.
use pdfv.Base.{
  ℕ, suc, ◌+◌, ◌/◌, ◌%◌, ◌≤◌, ◌<◌, Bytes, IsBytes, All, Bool, true, false, not, ◌&&◌, ◌||◌, some,
  [], ◌∷◌, ◌++◌, ◌≡◌, refl, ap, ◌∙◌, inl, inr, arith, leb, ◌==◌, length, Bool-cases,
}
use pdfv.Bytes.{is_ws, is_delimiter}
use pdfv.Limits.{ResourceLimits}
use pdfv.Float.{Float}
use pdfv.Error.{ok}
use pdfv.Cursor.{Cursor, at}
use pdfv.Lexer.{take_while, is_stop}
use pdfv.Lexer.RoundTrip.{hex_digit, write_name, EndsName, decode_hex_pair-write}
use pdfv.Content.Token.{operand, name_operand}
use pdfv.Content.Tokenizer.{
  is_regular, decode_name_loop, decode_name, name_token, token_at, skip_blanks, next_token,
}

not_either : (x y : Bool) → (y || x) ≡ false → (not x && not y) ≡ true
not_either true true h = cc
not_either true false h = cc
not_either false true h = cc
not_either false false h = refl

either : (x y : Bool) → (y || x) ≡ true → (not x && not y) ≡ false
either true y h = refl
either false true h = refl
either false false h = cc

-- A byte that is regular, by the test of the parser's names.
regular_of_stop : (b : ℕ) → is_stop b ≡ false → is_regular b ≡ true
regular_of_stop b h = not_either (is_ws b) (is_delimiter b) h

irregular_of_stop : (b : ℕ) → is_stop b ≡ true → is_regular b ≡ false
irregular_of_stop b h = either (is_ws b) (is_delimiter b) h

decode_name_loop-plain :
    (b : ℕ) (rest : Bytes)
    → (b == b'#') ≡ false
    → decode_name_loop (b ∷ rest) ≡ b ∷ decode_name_loop rest
unfolding decode_name_loop
decode_name_loop-plain b [] h = refl
decode_name_loop-plain b (x ∷ []) h = refl
decode_name_loop-plain b (x ∷ y ∷ rest) h = rw h refl

decode_name_loop-escape :
    (b : ℕ) (rest : Bytes)
    → b < 256
    → decode_name_loop (b'#' ∷ hex_digit (b / 16) ∷ hex_digit (b % 16) ∷ rest)
      ≡ b ∷ decode_name_loop rest
unfolding decode_name_loop
decode_name_loop-escape b rest h = rw (decode_hex_pair-write b h) refl

either_false : (x y : Bool) → (x || y) ≡ false → (x ≡ false) × (y ≡ false)
either_false true y h = cc
either_false false y h = (refl, h)

decode_name_loop-nil : decode_name_loop [] ≡ []
unfolding decode_name_loop
decode_name_loop-nil = refl

decode_name_loop-write : (name : Bytes) → IsBytes name → decode_name_loop (write_name name) ≡ name
unfolding write_name
decode_name_loop-write [] h = decode_name_loop-nil
decode_name_loop-write (b ∷ name) (byte, bytes) = elim (Bool-cases (is_stop b || b == b'#')) [
  | inl special ↦ rw special (
      decode_name_loop-escape b (write_name name) byte
      ∙ ap (λ n. b ∷ n) (decode_name_loop-write name bytes))
  | inr plain ↦
      let unmarked = either_false (is_stop b) (b == b'#') plain in
      rw plain (
        decode_name_loop-plain b (write_name name) unmarked.1
        ∙ ap (λ n. b ∷ n) (decode_name_loop-write name bytes))
]

hex_digit-regular : (n : ℕ) → n < 16 → is_regular (hex_digit n) ≡ true
unfolding is_ws is_delimiter
hex_digit-regular n h = ground arith

mark-regular : is_regular b'#' ≡ true
unfolding is_ws is_delimiter
mark-regular = refl

write_name-regular :
    (name : Bytes) → IsBytes name → All (λ b. is_regular b ≡ true) (write_name name)
unfolding write_name
write_name-regular [] h = tt
write_name-regular (b ∷ name) (byte, bytes) = elim (Bool-cases (is_stop b || b == b'#')) [
  | inl special ↦ rw special (
    mark-regular,
    (
      hex_digit-regular (b / 16) (omega arith),
      (hex_digit-regular (b % 16) (omega arith), write_name-regular name bytes),
    ),
  )
  | inr plain ↦
      let unmarked = either_false (is_stop b) (b == b'#') plain in
      rw plain (regular_of_stop b unmarked.0, write_name-regular name bytes)
]

take_while-end :
    (p : ℕ) (rest : Bytes) → EndsName rest → take_while is_regular p rest ≡ ([], at p rest)
unfolding take_while
take_while-end p [] h = refl
take_while-end p (b ∷ rest) h = rw (irregular_of_stop b h) refl

take_while-cons :
    (p b : ℕ) (rest : Bytes)
    → is_regular b ≡ true
    → take_while is_regular p (b ∷ rest)
      ≡ (b ∷ (take_while is_regular (p + 1) rest).0, (take_while is_regular (p + 1) rest).1)
unfolding take_while
take_while-cons p b rest h = rw h refl

take_while-regular :
    (p : ℕ) (text rest : Bytes)
    → All (λ b. is_regular b ≡ true) text
    → EndsName rest
    → take_while is_regular p (text ++ rest) ≡ (text, at (p + length text) rest)
take_while-regular p [] rest h ends =
    take_while-end p rest ends ∙ ap (λ q. ([], at q rest)) (omega arith)
take_while-regular p (b ∷ text) rest (regular, h) ends =
    let same : p + 1 + length text ≡ p + suc (length text) = omega arith in
    take_while-cons p b (text ++ rest) regular
    ∙ ap (λ (r : Bytes × Cursor). (b ∷ r.0, r.1)) (take_while-regular (p + 1) text rest h ends)
    ∙ ap (λ q. (b ∷ text, at q rest)) same

module _ (float : Float) (limits : ResourceLimits) where
  name_token-write :
      (p : ℕ) (name rest : Bytes)
      → IsBytes name
      → length name ≤ limits.max_name_bytes
      → EndsName rest
      → name_token float limits (at p (write_name name ++ rest))
        ≡ ok (operand (name_operand name), at (p + length (write_name name)) rest)
  unfolding name_token decode_name
  name_token-write p name rest bytes small ends =
      let taken =
        take_while-regular p (write_name name) rest (write_name-regular name bytes) ends in
      let decoded = decode_name_loop-write name bytes in
      let fits : leb (length name) limits.max_name_bytes ≡ true = ground arith in
      rw (taken, decoded, fits, fits) refl

  pub next_token-write :
      (p : ℕ) (name rest : Bytes)
      → IsBytes name
      → length name ≤ limits.max_name_bytes
      → EndsName rest
      → next_token float limits (at p (b'/' ∷ write_name name ++ rest))
        ≡ ok (some (operand (name_operand name)), at (p + 1 + length (write_name name)) rest)
  unfolding next_token skip_blanks token_at is_ws
  next_token-write p name rest bytes small ends =
      rw (name_token-write (p + 1) name rest bytes small ends) refl
