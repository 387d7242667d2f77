-- ===== src/Object/Numbers.antt =====
-- Number tokens and references of crates/core/src/parser.rs: what they read, and their ranges.
use pdfv.Base.{
  ℕ, ◌+◌, ◌<◌, Bytes, true, ◌||◌, Option, none, some, [], ◌∷◌, ◌≡◌, refl, inl, inr, arith, ◌==◌,
  length, Bool-cases, Option-cases,
}
use pdfv.Bytes.{is_ascii_digit}
use pdfv.Name.{codes}
use pdfv.Int.{ℤ, pos, negsuc}
use pdfv.Float.{Float}
use pdfv.Error.Meets.{Meets, returned, Meets-bind, Meets-if, Meets-ensure, Meets-ok_or}
use pdfv.Cursor.{Cursor, at, remaining, starts_with, skip_ws_and_comments, skip_required_ws}
use pdfv.Cursor.Moves.{
  Moves, here, over, Moves-trans, consume_bytes-Meets, skip_ws_and_comments-Moves,
  skip_required_ws-Moves,
}
use pdfv.Cos.{integer, real, reference, ObjectKey}
use pdfv.Cos.Fields.{to_unsigned}
use pdfv.Lexer.Moves.{Ahead, Moves-Ahead, Ahead-Moves, parse_unsigned-Meets}
use pdfv.Lexer.Number.{
  NumberToken, integer_token, real_token, NumberText, number_digits, number_text, parse_i64,
  number_value, parse_number_token,
}
use pdfv.Object.{
  Object, number_object, parse_number, finish_reference, try_reference, after_number,
  parse_number_or_reference,
}

-- The range of `i64`.
abbrev pub IsI64 : ℤ → Type 0
IsI64 (pos n) = n < 9223372036854775808
IsI64 (negsuc n) = n < 9223372036854775808

-- A `NonZeroU32` and a `u16`.
abbrev pub IsKey : ObjectKey → Type 0
IsKey key = (0 < key.number) × (key.number < 4294967296) × (key.generation < 65536)

-- The bytes of the token are those between the cursors.
abbrev Reads : Cursor → NumberText → Type 0
Reads c n =
    Moves c n.after
    × (length (remaining n.after) + length n.token ≡ length (remaining c))
    × (n.has_dot ≡ true → 0 < length n.token)

number_digits-Reads : (p : ℕ) (rest : Bytes) → Reads (at p rest) (number_digits p rest)
unfolding number_digits
number_digits-Reads p [] = (here, omega arith, λ h. cc)
number_digits-Reads p (b ∷ rest) =
    let (m, size, dot) = number_digits-Reads (p + 1) rest in
    elim (Bool-cases (b == b'.')) [
      | inl point ↦ rw point (over m, omega arith, λ _. omega arith)
      | inr other ↦ elim (Bool-cases (is_ascii_digit b)) [
        | inl digit ↦ rw (other, digit) (over m, omega arith, λ _. omega arith)
        | inr end ↦ rw (other, end) (here, omega arith, λ h. cc)
      ]
    ]

number_text-Reads : (c : Cursor) → Reads c (number_text c)
unfolding number_text
number_text-Reads (at p []) = number_digits-Reads p []
number_text-Reads (at p (b ∷ rest)) =
    let (m, size, dot) = number_digits-Reads (p + 1) rest in
    elim (Bool-cases (b == b'+' || b == b'-')) [
      | inl sign ↦ rw sign (over m, omega arith, λ _. omega arith)
      | inr plain ↦ rw plain (number_digits-Reads p (b ∷ rest))
    ]

parse_i64-lem :
    (token : Bytes) (value : ℤ) → parse_i64 token ≡ some value → (0 < length token) × IsI64 value
unfolding parse_i64
parse_i64-lem [] value h = cc
parse_i64-lem (b ∷ digits) (pos n) h = ground arith
parse_i64-lem (b ∷ digits) (negsuc n) h = ground arith

module _ (float : Float) where
  abbrev pub IsToken : NumberToken float.F64 → Type 0
  IsToken (integer_token value) = IsI64 value
  IsToken (real_token value) = float.is_finite value ≡ true

  number_value-Meets :
      (n : NumberText)
      → (n.has_dot ≡ true → 0 < length n.token)
      → Meets
          (λ (t : NumberToken float.F64). (0 < length n.token) × IsToken t)
          (number_value float n)
  unfolding number_value
  number_value-Meets n dot =
      Meets-if n.has_dot
        (λ h.
          Meets-ok_or (float.parse_f64 n.token) _ _
            λ value _. Meets-ensure (float.is_finite value) _ _ λ finite. returned (dot h, finite))
        λ _.
          Meets-ok_or (parse_i64 n.token) _ _
            λ value found. returned (parse_i64-lem n.token value found)

  pub parse_number_token-Meets :
      (c : Cursor)
      → Meets
          (λ (r : NumberToken float.F64 × Cursor). Ahead c r.1 × IsToken r.0)
          (parse_number_token float c)
  unfolding parse_number_token
  parse_number_token-Meets c =
      let start = skip_ws_and_comments c in
      let (m, size, dot) = number_text-Reads start in
      Meets-bind _ (number_value-Meets (number_text start) dot) λ t (some_token, valid).
        returned (Moves-Ahead (skip_ws_and_comments-Moves c) (m, omega arith), valid)

  -- The object of a number token or a reference.
  abbrev pub IsNumber : Object float → Type 0
  IsNumber (integer value) = IsI64 value
  IsNumber (real value) = float.is_finite value ≡ true
  IsNumber (reference key) = IsKey key
  IsNumber _ = ⊥

  abbrev Read : Cursor → Object float × Cursor → Type 0
  Read c r = Ahead c r.1 × IsNumber r.0

  number_object-IsNumber :
      (t : NumberToken float.F64) → IsToken t → IsNumber (number_object float t)
  number_object-IsNumber (integer_token value) h = h
  number_object-IsNumber (real_token value) h = h

  parse_number-Meets : (c : Cursor) → Meets (Read c) (parse_number float c)
  parse_number-Meets c =
      Meets-bind _ (parse_number_token-Meets c)
        λ r (ahead, valid). returned (ahead, number_object-IsNumber r.0 valid)

  to_unsigned-lt :
      (modulus : ℕ) (value : ℤ) (n : ℕ) → to_unsigned modulus value ≡ some n → n < modulus
  to_unsigned-lt modulus (pos v) n h = ground arith
  to_unsigned-lt modulus (negsuc v) n h = cc

  finish_reference-Meets :
      (start : Cursor) (value : ℤ) (generation : ℕ) (c : Cursor)
      → generation < 65536
      → Ahead start c
      → Meets (Read start) (finish_reference float start value generation c)
  finish_reference-Meets start value generation c small ahead =
      Meets-bind _ (consume_bytes-Meets (codes "R") c) λ after moved.
        Meets-ok_or (to_unsigned 4294967296 value) _ _ λ number found.
          let below = to_unsigned-lt 4294967296 value number found in
          Meets-if (number == 0) (λ _. parse_number-Meets start)
            λ nonzero. returned (Ahead-Moves ahead moved.0, (ground arith, below, small))

  try_reference-Meets :
      (start : Cursor) (value : ℤ) (generation : Option ℕ) (c : Cursor)
      → ((n : ℕ) → generation ≡ some n → n < 65536)
      → Ahead start c
      → Meets (Read start) (try_reference float start value generation c)
  try_reference-Meets start value none c small ahead = parse_number-Meets start
  try_reference-Meets start value (some generation) c small ahead =
      elim (Option-cases (skip_required_ws c)) [
        | inl e ↦ rw (e, try_reference) (parse_number-Meets start)
        | inr (marker, e) ↦
            rw (e, try_reference)
              (let moved = skip_required_ws-Moves c marker e in
                Meets-if (starts_with (codes "R") marker)
                  (λ _.
                    finish_reference-Meets start value generation marker (small generation refl)
                      (Ahead-Moves ahead moved))
                  λ _. parse_number-Meets start)
      ]

  after_number-Meets :
      (start : Cursor) (first : NumberToken float.F64) (c : Cursor)
      → Ahead start c
      → Meets (Read start) (after_number float start first c)
  after_number-Meets start (real_token value) c ahead = parse_number-Meets start
  after_number-Meets start (integer_token value) c ahead =
      elim (Option-cases (skip_required_ws c)) [
        | inl e ↦ rw e (parse_number-Meets start)
        | inr (second, e) ↦ rw e (
            let moved = skip_required_ws-Moves c second e in
            Meets-bind _ (parse_unsigned-Meets 65536 second) λ r (moved', small).
              try_reference-Meets start value r.0 r.1 small
                (Ahead-Moves ahead (Moves-trans moved moved')))
      ]

  -- A number or a reference takes a byte at least, and is in its range: an `i64`, a finite number, or
  -- a key with a number that is not 0.
  pub parse_number_or_reference-Meets :
      (c : Cursor)
      → Meets
          (λ (r : Object float × Cursor). Ahead c r.1 × IsNumber r.0)
          (parse_number_or_reference float c)
  unfolding parse_number_or_reference
  parse_number_or_reference-Meets c =
      Meets-bind _ (parse_number_token-Meets c)
        λ r (ahead, valid). after_number-Meets c r.0 r.1 ahead
