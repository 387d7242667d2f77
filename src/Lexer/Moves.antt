-- ===== src/Lexer/Moves.antt =====
-- Where the tokens of crates/core/src/parser.rs leave the cursor.
use pdfv.Base.{
  ℕ, ◌+◌, ◌-◌, ◌≤◌, ◌<◌, Bytes, Bool, true, false, ◌&&◌, Option, some, [], ◌∷◌, ◌++◌, ◌≡◌, inl, inr,
  arith, ◌==◌, ltb, leb, length, Bool-cases,
}
use pdfv.Bytes.{is_ws, is_ascii_digit, decode_hex_pair}
use pdfv.Name.{codes}
use pdfv.Limits.{ResourceLimits}
use pdfv.Error.{Result, ◌>>◌}
use pdfv.Error.Meets.{
  Meets, returned, raised, Meets-bind, Meets-mono, Meets-if, Meets-ensure, Meets-ok_or,
}
use pdfv.Cursor.{Cursor, at, position, remaining, skip_ws_and_comments}
use pdfv.Cursor.Moves.{
  Moves, here, over, Moves-trans, Moves-length, Moves-at, consume_bytes-Meets,
  skip_ws_and_comments-Moves,
}
use pdfv.Lexer.{
  take_while, decimal, parse_unsigned, is_stop, name_loop, parse_name, name_limit, string_limit,
}
use pdfv.Lexer.Text.{
  literal_loop, parse_literal_string, hex_nibbles, hex_pairs, pad_nibbles, parse_hex_string,
}

-- The second cursor is after the first, by a byte at least.
abbrev pub Ahead : Cursor → Cursor → Type 0
Ahead c d = Moves c d × (length (remaining d) < length (remaining c))

pub Moves-Ahead : {c d e : Cursor} → Moves c d → Ahead d e → Ahead c e
Moves-Ahead m a = (Moves-trans m a.0, omega (arith, Moves-length m, a.1))

pub Ahead-Moves : {c d e : Cursor} → Ahead c d → Moves d e → Ahead c e
Ahead-Moves a m = (Moves-trans a.0 m, omega (arith, Moves-length m, a.1))

pub take_while-Moves :
    (test : ℕ → Bool) (p : ℕ) (rest : Bytes) → Moves (at p rest) ((take_while test p rest).1)
unfolding take_while
take_while-Moves test p [] = here
take_while-Moves test p (b ∷ rest) = elim (Bool-cases (test b)) [
  | inl holds ↦ rw holds (over (take_while-Moves test (p + 1) rest))
  | inr fails ↦ rw fails here
]

-- The number that is read is below the modulus.
pub parse_unsigned-Meets :
    (modulus : ℕ) (c : Cursor)
    → Meets
        (λ (r : Option ℕ × Cursor). Moves c r.1 × ((n : ℕ) → r.0 ≡ some n → n < modulus))
        (parse_unsigned modulus c)
unfolding parse_unsigned
parse_unsigned-Meets modulus c =
    let start = skip_ws_and_comments c in
    let token = take_while is_ascii_digit (position start) (remaining start) in
    let digits = take_while-Moves is_ascii_digit (position start) (remaining start) in
    let moved = Moves-trans (skip_ws_and_comments-Moves c) (Moves-at start digits) in
    Meets-if (length token.0 == 0) (λ _. returned (moved, λ n h. cc))
      λ _.
        Meets-if (ltb (decimal 0 token.0) modulus) (λ small. returned (moved, λ n h. ground arith))
          λ _. raised

pub name_limit-Meets :
    {B : Type 0} {Q : B → Type 0} (limits : ResourceLimits) (bytes : Bytes) (next : Result B)
    → (length bytes ≤ limits.max_name_bytes → Meets Q next)
    → Meets Q (name_limit limits bytes >> next)
name_limit-Meets limits bytes next h =
    Meets-ensure (leb (length bytes) limits.max_name_bytes) _ _ λ small. h (ground arith)

string_limit-Meets :
    {B : Type 0} {Q : B → Type 0} (limits : ResourceLimits) (bytes : Bytes) (next : Result B)
    → (length bytes ≤ limits.max_string_bytes → Meets Q next)
    → Meets Q (string_limit limits bytes >> next)
string_limit-Meets limits bytes next h =
    Meets-ensure (leb (length bytes) limits.max_string_bytes) _ _ λ small. h (ground arith)

triple :
    (p b high low : ℕ) (rest : Bytes) {d : Cursor}
    → Moves (at (p + 3) rest) d
    → Moves (at p (b ∷ high ∷ low ∷ rest)) d
triple p b high low rest m =
    let same : p + 3 ≡ p + 1 + 1 + 1 = omega arith in over (over (over (rw (← same) m)))

name_loop-Meets :
    (limits : ResourceLimits) (bytes : Bytes) (p : ℕ) (rest : Bytes)
    → Meets (λ (r : Bytes × Cursor). Moves (at p rest) r.1) (name_loop limits bytes p rest)
unfolding name_loop
name_loop-Meets limits bytes p [] = returned here
name_loop-Meets limits bytes p (b ∷ []) =
    Meets-if (is_stop b) (λ _. returned here)
      λ _.
        Meets-if (b == b'#') (λ _. raised)
          λ _. name_limit-Meets limits _ _ λ _. returned (over here)
name_loop-Meets limits bytes p (b ∷ high ∷ []) =
    Meets-if (is_stop b) (λ _. returned here)
      λ _.
        Meets-if (b == b'#') (λ _. raised)
          λ _. name_limit-Meets limits _ _ λ _.
            Meets-mono (name_loop-Meets limits (bytes ++ b ∷ []) (p + 1) (high ∷ [])) λ _ m. over m
name_loop-Meets limits bytes p (b ∷ high ∷ low ∷ rest) =
    Meets-if (is_stop b) (λ _. returned here)
      λ _.
        Meets-if (b == b'#')
          (λ _. Meets-ok_or (decode_hex_pair high low) _ _ λ decoded _.
            name_limit-Meets limits _ _ λ _.
              Meets-mono (name_loop-Meets limits (bytes ++ decoded ∷ []) (p + 3) rest)
                λ _ m. triple p b high low rest m)
          λ _. name_limit-Meets limits _ _ λ _.
            Meets-mono (name_loop-Meets limits (bytes ++ b ∷ []) (p + 1) (high ∷ low ∷ rest))
              λ _ m. over m

-- A name has bytes within the limit, and takes the solidus at least.
pub parse_name-Meets :
    (limits : ResourceLimits) (c : Cursor)
    → Meets
        (λ (r : Bytes × Cursor). Ahead c r.1 × (length r.0 ≤ limits.max_name_bytes))
        (parse_name limits c)
unfolding parse_name
parse_name-Meets limits c = Meets-bind _ (consume_bytes-Meets (codes "/") c) λ d start.
    Meets-bind _ (name_loop-Meets limits [] (position d) (remaining d)) λ r m.
      name_limit-Meets limits r.0 _
        λ small. returned (Ahead-Moves (start.0, omega (arith, start.1)) (Moves-at d m), small)

literal_loop-Meets :
    (limits : ResourceLimits) (escaping : Bool) (depth : ℕ) (bytes : Bytes) (p : ℕ) (rest : Bytes)
    → Meets
        (λ (r : Bytes × Cursor). Moves (at p rest) r.1 × (length r.0 ≤ limits.max_string_bytes))
        (literal_loop limits escaping depth bytes p rest)
unfolding literal_loop
literal_loop-Meets limits true depth bytes p [] = raised
literal_loop-Meets limits false depth bytes p [] = raised
literal_loop-Meets limits true depth bytes p (escaped ∷ rest) =
    string_limit-Meets limits _ _
      λ _. Meets-mono (literal_loop-Meets limits false depth _ (p + 1) rest) λ _ m. (over m.0, m.1)
literal_loop-Meets limits false depth bytes p (byte ∷ rest) =
    Meets-if (byte == b'\\')
      (λ _.
        Meets-mono (literal_loop-Meets limits true depth bytes (p + 1) rest) λ _ m. (over m.0, m.1))
      λ _.
        Meets-if (byte == b'(')
          (λ _. Meets-ensure (ltb (depth + 1) 4294967296) _ _ λ _.
            string_limit-Meets limits _ _ λ _.
              Meets-mono (literal_loop-Meets limits false (depth + 1) _ (p + 1) rest)
                λ _ m. (over m.0, m.1))
          λ _.
            Meets-if (byte == b')' && depth - 1 == 0)
              (λ _. string_limit-Meets limits bytes _ λ small. returned (over here, small))
              λ _. string_limit-Meets limits _ _ λ _.
                Meets-mono (literal_loop-Meets limits false _ _ (p + 1) rest) λ _ m. (over m.0, m.1)

pub parse_literal_string-Meets :
    (limits : ResourceLimits) (c : Cursor)
    → Meets
        (λ (r : Bytes × Cursor). Ahead c r.1 × (length r.0 ≤ limits.max_string_bytes))
        (parse_literal_string limits c)
unfolding parse_literal_string
parse_literal_string-Meets limits c = Meets-bind _ (consume_bytes-Meets (codes "(") c) λ d start.
    Meets-mono (literal_loop-Meets limits false 1 [] (position d) (remaining d))
      λ r m. (Ahead-Moves (start.0, omega (arith, start.1)) (Moves-at d m.0), m.1)

hex_nibbles-Moves : (p : ℕ) (rest : Bytes) → Moves (at p rest) ((hex_nibbles p rest).1)
unfolding hex_nibbles
hex_nibbles-Moves p [] = here
hex_nibbles-Moves p (byte ∷ rest) =
    let more = over (hex_nibbles-Moves (p + 1) rest) in
    elim (Bool-cases (byte == b'>')) [
      | inl end ↦ rw end (over here)
      | inr other ↦ elim (Bool-cases (is_ws byte)) [
        | inl ws ↦ rw (other, ws) more
        | inr digit ↦ rw (other, digit) more
      ]
    ]

hex_pairs-Meets : (nibbles : Bytes) → Meets (λ (bytes : Bytes). Unit {0}) (hex_pairs nibbles)
unfolding hex_pairs
hex_pairs-Meets [] = returned tt
hex_pairs-Meets (high ∷ []) = raised
hex_pairs-Meets (high ∷ low ∷ nibbles) =
    Meets-ok_or (decode_hex_pair high low) _ _
      λ decoded _. Meets-bind _ (hex_pairs-Meets nibbles) λ _ _. returned tt

pub parse_hex_string-Meets :
    (limits : ResourceLimits) (c : Cursor)
    → Meets
        (λ (r : Bytes × Cursor). Ahead c r.1 × (length r.0 ≤ limits.max_string_bytes))
        (parse_hex_string limits c)
unfolding parse_hex_string
parse_hex_string-Meets limits c = Meets-bind _ (consume_bytes-Meets (codes "<") c) λ d start.
    Meets-bind _ (hex_pairs-Meets (pad_nibbles ((hex_nibbles (position d) (remaining d)).0)))
      λ bytes _. string_limit-Meets limits bytes _ λ small.
        let moved = Moves-at d (hex_nibbles-Moves (position d) (remaining d)) in
        returned (Ahead-Moves (start.0, omega (arith, start.1)) moved, small)
