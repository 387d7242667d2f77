-- ===== src/Content/Tokenizer/Progress.antt =====
-- Where the tokens of crates/core/src/content.rs leave the cursor.
use pdfv.Base.{
  ℕ, zero, suc, ◌+◌, ◌-◌, ◌≤◌, ◌<◌, Bytes, Bool, true, false, not, ◌&&◌, ◌||◌, Option, none, some,
  List, [], ◌∷◌, ◌≡◌, ◌≢◌, arith, inl, inr, leb, ltb, ◌==◌, length, drop, Bool-cases, Option-cases,
}
use pdfv.Bytes.{is_ws}
use pdfv.Name.{bytes_eq}
use pdfv.Limits.{ResourceLimits}
use pdfv.Float.{Float}
use pdfv.Error.{Result}
use pdfv.Error.Meets.{Meets, returned, raised, Meets-bind, Meets-mono, Meets-if, Meets-ensure}
use pdfv.Cursor.{Cursor, at, remaining}
use pdfv.Cursor.Moves.{Moves, here, over, Moves-length}
use pdfv.Lexer.{take_while}
use pdfv.Lexer.Moves.{Ahead, Moves-Ahead, take_while-Moves, name_limit-Meets}
use pdfv.Lexer.Number.{parse_i64}
use pdfv.Content.Token.{Token, new_operator_name}
use pdfv.Content.Tokenizer.{
  skip_blanks, is_regular, literal_rest, hex_rest, Composite, closed, unclosed, close, first_is,
  composite_step, after_round, composite_loop, consume_composite_range, span, consume_composite,
  consume_composite_bytes, decode_name, is_keyword_operand, is_number_like, regular_token,
  first_token, consume_regular_token, name_token, token_at, next_token,
}

skip_blanks-Moves :
    (comment : Bool) (p : ℕ) (rest : Bytes) → Moves (at p rest) (skip_blanks comment p rest)
unfolding skip_blanks
skip_blanks-Moves true p [] = here
skip_blanks-Moves false p [] = here
skip_blanks-Moves true p (b ∷ rest) = over (skip_blanks-Moves _ (p + 1) rest)
skip_blanks-Moves false p (b ∷ rest) = elim (Bool-cases (is_ws b || b == b'%')) [
  | inl blank ↦ rw blank (over (skip_blanks-Moves (b == b'%') (p + 1) rest))
  | inr token ↦ rw token here
]

one_byte :
    {p b : ℕ} {rest : Bytes} {d : Cursor} → Moves (at (p + 1) rest) d → Ahead (at p (b ∷ rest)) d
one_byte m = (over m, omega (arith, Moves-length m))

literal_rest-Meets :
    (escaped : Bool) (depth p : ℕ) (rest : Bytes)
    → Meets (Moves (at p rest)) (literal_rest escaped depth p rest)
unfolding literal_rest
literal_rest-Meets true depth p [] = raised
literal_rest-Meets false depth p [] = raised
literal_rest-Meets true depth p (b ∷ rest) =
    Meets-mono (literal_rest-Meets false depth (p + 1) rest) (λ d m. over m)
literal_rest-Meets false depth p (b ∷ rest) =
    Meets-if (b == b'(' && leb 4294967295 depth) (λ _. raised)
      λ _.
        Meets-if (b == b')' && depth - 1 == 0) (λ _. returned (over here))
          λ _. Meets-mono (literal_rest-Meets (b == b'\\') _ (p + 1) rest) (λ d m. over m)

hex_rest-Meets : (p : ℕ) (rest : Bytes) → Meets (Moves (at p rest)) (hex_rest p rest)
unfolding hex_rest
hex_rest-Meets p [] = raised
hex_rest-Meets p (b ∷ rest) =
    Meets-if (b == b'>') (λ _. returned (over here))
      λ _. Meets-mono (hex_rest-Meets (p + 1) rest) (λ d m. over m)

abbrev end_of : Composite → Cursor
end_of (closed c) = c
end_of (unclosed stack c) = c

two_bytes :
    {p a : ℕ} (test : Bool) (b : ℕ) (rest : Bytes)
    → (test && first_is b rest) ≡ true
    → Ahead (at p (a ∷ rest)) (at (p + 2) (drop 1 rest))
two_bytes test b [] h = absurd (absent test (cc))
  where
    absent : (t : Bool) → (t && false) ≢ true
    absent true = cc
    absent false = cc
two_bytes {p} test b (c ∷ rest) h =
    let same : p + 2 ≡ p + 1 + 1 = omega arith in (rw same (over (over here)), omega arith)

close-Meets :
    (c : Cursor) (delimiter : ℕ) {mismatched : Result Composite} (stack : List ℕ) (d : Cursor)
    → Meets (λ round. Ahead c (end_of round)) mismatched
    → Ahead c d
    → Meets (λ round. Ahead c (end_of round)) (close delimiter mismatched stack d)
close-Meets c delimiter [] d h a = h
close-Meets c delimiter (top ∷ []) d h a = Meets-if (top == delimiter) (λ _. returned a) (λ _. h)
close-Meets c delimiter (top ∷ next ∷ stack) d h a =
    Meets-if (top == delimiter) (λ _. returned a) (λ _. h)

composite_step-Meets :
    (stack : List ℕ) (c : Cursor) → Meets (λ round. Ahead c (end_of round)) (composite_step stack c)
unfolding composite_step
composite_step-Meets stack (at p []) = raised
composite_step-Meets stack (at p (b ∷ rest)) =
    Meets-if (b == b'[') (λ _. returned (one_byte here))
      λ _.
        Meets-if (b == b'<' && first_is b'<' rest)
          (λ two. returned (two_bytes (b == b'<') b'<' rest two))
          λ _.
            Meets-if (b == b']') (λ _. close-Meets _ b']' stack _ raised (one_byte here))
              λ _.
                Meets-if (b == b'>' && first_is b'>' rest)
                  (λ two. close-Meets _ b'>' stack _ raised (two_bytes (b == b'>') b'>' rest two))
                  λ _.
                    Meets-if (b == b'(')
                      (λ _.
                        Meets-bind _ (literal_rest-Meets false 1 (p + 1) rest)
                          (λ d m. returned (one_byte m)))
                      λ _.
                        Meets-if (b == b'<')
                          (λ _.
                            Meets-bind _ (hex_rest-Meets (p + 1) rest)
                              (λ d m. returned (one_byte m)))
                          λ _. returned (one_byte here)

after_round-Meets :
    (limits : ResourceLimits) (again : List ℕ → Cursor → Result Cursor) (c : Cursor)
    (round : Composite)
    → Ahead c (end_of round)
    → ((stack : List ℕ) (d : Cursor)
        → length (remaining d) < length (remaining c)
        → Meets (Ahead d) (again stack d))
    → Meets (Ahead c) (after_round limits again round)
after_round-Meets limits again c (closed after) ahead h = returned ahead
after_round-Meets limits again c (unclosed stack after) ahead h =
    Meets-if (leb (length stack) limits.max_object_depth)
      (λ _. Meets-mono (h stack after ahead.1) (λ d a. Moves-Ahead ahead.0 a)) (λ _. raised)

composite_loop-Meets :
    (limits : ResourceLimits) (fuel : ℕ) (stack : List ℕ) (c : Cursor)
    → length (remaining c) < fuel
    → Meets (Ahead c) (composite_loop limits fuel stack c)
unfolding composite_loop
composite_loop-Meets limits zero stack c enough = absurd (omega arith)
composite_loop-Meets limits (suc fuel) stack c enough =
    Meets-bind _ (composite_step-Meets stack c) λ round ahead.
      after_round-Meets limits _ c round ahead
        λ stack' d less. composite_loop-Meets limits fuel stack' d (omega arith)

consume_composite-Meets :
    (limits : ResourceLimits) (c : Cursor)
    → Meets (λ (r : ℕ × Cursor). Ahead c r.1) (consume_composite limits c)
unfolding consume_composite consume_composite_range
consume_composite-Meets limits c =
    Meets-bind _ (composite_loop-Meets limits _ [] c (omega arith)) (λ d ahead. returned ahead)

-- The bytes that are kept are within the limit.
consume_composite_bytes-Meets :
    (limits : ResourceLimits) (c : Cursor)
    → Meets (λ (r : Bytes × Cursor). Ahead c r.1) (consume_composite_bytes limits c)
unfolding consume_composite_bytes consume_composite_range
consume_composite_bytes-Meets limits c =
    Meets-bind _ (composite_loop-Meets limits _ [] c (omega arith)) λ d ahead.
      Meets-ensure (leb (span c d) limits.max_content_stream_operand_bytes) _ _
        (λ _. returned ahead)

-- Of the bytes that are left, some are taken and the others stay.
take_while-length :
    (test : ℕ → Bool) (p : ℕ) (rest : Bytes)
    → length (take_while test p rest).0 + length (remaining (take_while test p rest).1)
      ≡ length rest
unfolding take_while
take_while-length test p [] = omega arith
take_while-length test p (b ∷ rest) = elim (Bool-cases (test b)) [
  | inl holds ↦ rw holds (omega (arith, take_while-length test (p + 1) rest))
  | inr fails ↦ rw fails (omega arith)
]

module _ (float : Float) (limits : ResourceLimits) where
  name-Meets :
      (bytes : Bytes) → Meets (λ (name : Bytes). 0 < length bytes) (new_operator_name limits bytes)
  unfolding new_operator_name
  name-Meets [] = raised
  name-Meets (b ∷ bytes) =
      Meets-if
        (length (b ∷ bytes) == 0
          || ltb limits.max_content_stream_operator_name_bytes (length (b ∷ bytes)))
        (λ _. raised) (λ _. returned (omega arith))

  regular_token-nonempty :
      float.parse_f64 [] ≡ none
      → (start : ℕ) (slice : Bytes)
      → Meets (λ (t : Token). 0 < length slice) (regular_token float limits start slice)
  unfolding regular_token new_operator_name is_number_like parse_i64 bytes_eq
  regular_token-nonempty h start [] = rw h raised
  regular_token-nonempty h start (b ∷ slice) =
      Meets-if (is_keyword_operand (b ∷ slice)) (λ _. returned (omega arith))
        λ _. elim (Option-cases (parse_i64 (b ∷ slice))) [
          | inl e ↦ rw e (
              Meets-if (is_number_like float limits (b ∷ slice)) (λ _. returned (omega arith))
                λ _. Meets-bind _ (name-Meets (b ∷ slice)) (λ _ _. returned (omega arith)))
          | inr (n, e) ↦ rw e (returned (omega arith))
        ]

  consume_regular_token-Meets :
      float.parse_f64 [] ≡ none
      → (c : Cursor)
      → Meets (λ (r : Token × Cursor). Ahead c r.1) (consume_regular_token float limits c)
  unfolding consume_regular_token
  consume_regular_token-Meets h (at p rest) =
      Meets-bind _ (regular_token-nonempty h p (take_while is_regular p rest).0) λ t some_bytes.
        returned (
          take_while-Moves is_regular p rest,
          omega (arith, take_while-length is_regular p rest, some_bytes),
        )

  decode_name-Meets :
      (bytes : Bytes)
      → Meets (λ (name : Bytes). length name ≤ limits.max_name_bytes) (decode_name limits bytes)
  unfolding decode_name
  decode_name-Meets bytes = name_limit-Meets limits _ _ (λ small. returned small)

  name_token-Meets :
      (c : Cursor) → Meets (λ (r : Token × Cursor). Moves c r.1) (name_token float limits c)
  unfolding name_token
  name_token-Meets (at p rest) =
      let moved = take_while-Moves is_regular p rest in
      Meets-bind _ (decode_name-Meets (take_while is_regular p rest).0)
        λ bytes small. name_limit-Meets limits bytes _ (λ _. returned moved)

  token_at-Meets :
      float.parse_f64 [] ≡ none
      → (p b : ℕ) (rest : Bytes)
      → Meets (λ (r : Token × Cursor). Ahead (at p (b ∷ rest)) r.1) (token_at float limits p b rest)
  unfolding token_at
  token_at-Meets h p b rest =
      Meets-if (b == b'/')
        (λ _. Meets-mono (name_token-Meets (at (p + 1) rest)) (λ r m. one_byte m))
        λ _.
          Meets-if (b == b'(')
            (λ _.
              Meets-bind _ (literal_rest-Meets false 1 (p + 1) rest) (λ d m. returned (one_byte m)))
            λ _.
              Meets-if (b == b'<' && not (first_is b'<' rest))
                (λ _. Meets-bind _ (hex_rest-Meets (p + 1) rest) (λ d m. returned (one_byte m)))
                λ _.
                  Meets-if (b == b'[')
                    (λ _.
                      Meets-bind _ (consume_composite-Meets limits (at p (b ∷ rest)))
                        (λ r a. returned a))
                    λ _.
                      Meets-if (b == b'<')
                        (λ _.
                          Meets-bind _ (consume_composite_bytes-Meets limits (at p (b ∷ rest)))
                            (λ r a. returned a))
                        λ _. consume_regular_token-Meets h (at p (b ∷ rest))

  -- At a token the cursor moves over a byte at least.
  abbrev pub Takes : Cursor → Option Token × Cursor → Type 0
  Takes c (none, d) = Moves c d
  Takes c (some token, d) = Ahead c d

  pub next_token-Meets :
      float.parse_f64 [] ≡ none → (c : Cursor) → Meets (Takes c) (next_token float limits c)
  unfolding next_token
  next_token-Meets h (at p rest) = first (skip_blanks false p rest) (skip_blanks-Moves false p rest)
    where
      first :
          (d : Cursor)
          → Moves (at p rest) d
          → Meets (Takes (at p rest)) (first_token float limits d)
      first (at q []) m = returned m
      first (at q (b ∷ more)) m =
          Meets-bind _ (token_at-Meets h q b more) (λ r a. returned (Moves-Ahead m a))
