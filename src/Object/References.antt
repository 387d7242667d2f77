-- ===== src/Object/References.antt =====
-- References in crates/core/src/parser.rs: two numbers and the letter R, and what the parser makes
-- of two numbers without it.
use pdfv.Base.{
  Bool, none, drop, ℕ, suc, ◌+◌, ◌<◌, Bytes, true, false, some, [], ◌∷◌, ◌++◌, ◌≡◌, refl, ap, inl,
  inr, arith, ltb, ◌==◌, length, All, List-cases, Bool-cases, lt→ltb, ◌||◌, if◌then◌else◌,
}
use pdfv.Bytes.{is_ws, is_ascii_digit}
use pdfv.Int.{pos}
use pdfv.Float.{Float}
use pdfv.Error.{Result, ok, err, malformed, text}
use pdfv.Cursor.{
  Cursor, at, skip_ws_and_comments, skip_required_ws, skip_blank, skip_ws, consume_bytes, is_prefix,
}
use pdfv.Cos.{integer, reference}
use pdfv.Lexer.{take_while, decimal, parse_unsigned, all_digits}
use pdfv.Lexer.Number.{
  integer_token, number_digits, number_text, parse_i64, number_value, parse_number_token,
}
use pdfv.Name.{codes}
use pdfv.Object.{Object, parse_number, parse_number_or_reference, after_number, try_reference}

-- Some digits.
abbrev pub IsDigits : Bytes → Type 0
IsDigits digits = (all_digits digits ≡ true) × (0 < length digits)

-- Some white space.
abbrev pub IsSpaces : Bytes → Type 0
IsSpaces spaces = All (λ b. is_ws b ≡ true) spaces × (0 < length spaces)

digit-point : (d : ℕ) → is_ascii_digit d ≡ true → (d == b'.') ≡ false
digit-point d h = ground arith

digit-sign : (d : ℕ) → is_ascii_digit d ≡ true → ((d == b'+' || d == b'-') ≡ false)
digit-sign d h = ground arith

digit-ws : (d : ℕ) → is_ascii_digit d ≡ true → is_ws d ≡ false
unfolding is_ws
digit-ws d h = ground arith

ws-digit : (b : ℕ) → is_ws b ≡ true → is_ascii_digit b ≡ false
unfolding is_ws
ws-digit b h = ground arith

ws-point : (b : ℕ) → is_ws b ≡ true → (b == b'.') ≡ false
unfolding is_ws
ws-point b h = ground arith

ws-letter : is_ws b'R' ≡ false
unfolding is_ws
ws-letter = refl

all_digits-cons :
    (d : ℕ) (digits : Bytes)
    → all_digits (d ∷ digits) ≡ true
    → (is_ascii_digit d ≡ true) × (all_digits digits ≡ true)
unfolding all_digits
all_digits-cons d digits h = elim (Bool-cases (is_ascii_digit d)) [
  | inl digit ↦ (digit, rw (digit) at h)
  | inr other ↦ let h' : false ≡ true = rw (other) at h in cc
]

number_digits-append :
    (digits : Bytes) (p b : ℕ) (rest : Bytes)
    → all_digits digits ≡ true
    → is_ascii_digit b ≡ false
    → (b == b'.') ≡ false
    → number_digits p (digits ++ b ∷ rest)
      ≡ record { token = digits; has_dot = false; after = at (p + length digits) (b ∷ rest) }
unfolding number_digits all_digits
number_digits-append [] p b rest h k l = let same : p + 0 ≡ p = omega arith in rw (l, k, same) refl
number_digits-append (d ∷ digits) p b rest h k l =
    let (digit, more) = all_digits-cons d digits h in
    let same : p + suc (length digits) ≡ p + 1 + length digits = omega arith in
    rw (digit-point d digit, digit, number_digits-append digits (p + 1) b rest more k l, same) refl

-- The text does not go on with a digit, or with white space.
abbrev pub NoDigit : Bytes → Type 0
NoDigit [] = Unit
NoDigit (b ∷ rest) = is_ascii_digit b ≡ false

abbrev NoSpace : Bytes → Type 0
NoSpace [] = Unit
NoSpace (b ∷ rest) = is_ws b ≡ false

take_while-append :
    (digits : Bytes) (p : ℕ) (rest : Bytes)
    → all_digits digits ≡ true
    → NoDigit rest
    → take_while is_ascii_digit p (digits ++ rest) ≡ (digits, at (p + length digits) rest)
unfolding take_while all_digits
take_while-append [] p [] h k = let same : p + 0 ≡ p = omega arith in rw same refl
take_while-append [] p (b ∷ rest) h k = let same : p + 0 ≡ p = omega arith in rw (k, same) refl
take_while-append (d ∷ digits) p rest h k =
    let (digit, more) = all_digits-cons d digits h in
    let same : p + suc (length digits) ≡ p + 1 + length digits = omega arith in
    rw (digit, take_while-append digits (p + 1) rest more k, same) refl

skip_digit :
    (d p : ℕ) (rest : Bytes)
    → is_ascii_digit d ≡ true
    → skip_ws_and_comments (at p (d ∷ rest)) ≡ at p (d ∷ rest)
unfolding skip_ws_and_comments skip_blank is_ws is_prefix
skip_digit d p rest h = ground arith

parse_i64-digits :
    (digits : Bytes)
    → IsDigits digits
    → decimal 0 digits < 9223372036854775808
    → parse_i64 digits ≡ some (pos (decimal 0 digits))
unfolding parse_i64 all_digits
parse_i64-digits [] h k = absurd (omega arith)
parse_i64-digits (d ∷ digits) h k =
    let (digit, more) = all_digits-cons d digits h.0 in
    let minus : (d == b'-') ≡ false = ground arith in
    let plus : (d == b'+') ≡ false = ground arith in
    let bound = lt→ltb _ _ k in
    let some_digits : (length (d ∷ digits) == 0) ≡ false = ground arith in
    rw (minus, plus, some_digits, digit, more, bound) refl

-- A token of digits before white space is an integer.
parse_number_token-digits :
    (float : Float) (digits : Bytes) (p b : ℕ) (rest : Bytes)
    → IsDigits digits
    → decimal 0 digits < 9223372036854775808
    → is_ws b ≡ true
    → parse_number_token float (at p (digits ++ b ∷ rest))
      ≡ ok (integer_token (pos (decimal 0 digits)), at (p + length digits) (b ∷ rest))
unfolding parse_number_token number_text number_value
parse_number_token-digits float [] p b rest h k ws = absurd (omega arith)
parse_number_token-digits float (d ∷ digits) p b rest h k ws =
    let (digit, more) = all_digits-cons d digits h.0 in
    let scanned = number_digits-append (d ∷ digits) p b rest h.0 (ws-digit b ws) (ws-point b ws) in
    rw
      (
        skip_digit d p (digits ++ b ∷ rest) digit,
        digit-sign d digit,
        scanned,
        parse_i64-digits (d ∷ digits) h k,
      )
      refl

skip_ws-spaces :
    (spaces : Bytes) (p : ℕ) (rest : Bytes)
    → All (λ b. is_ws b ≡ true) spaces
    → NoSpace rest
    → skip_ws p (spaces ++ rest) ≡ at (p + length spaces) rest
unfolding skip_ws
skip_ws-spaces [] p [] h k = let same : p + 0 ≡ p = omega arith in rw same refl
skip_ws-spaces [] p (b ∷ rest) h k = let same : p + 0 ≡ p = omega arith in rw (k, same) refl
skip_ws-spaces (b ∷ spaces) p rest (first, others) k =
    let same : p + suc (length spaces) ≡ p + 1 + length spaces = omega arith in
    rw (first, skip_ws-spaces spaces (p + 1) rest others k, same) refl

-- All of the white space is skipped.
skip_required_ws-spaces :
    (spaces : Bytes) (p : ℕ) (rest : Bytes)
    → IsSpaces spaces
    → NoSpace rest
    → skip_required_ws (at p (spaces ++ rest)) ≡ some (at (p + length spaces) rest)
unfolding skip_required_ws
skip_required_ws-spaces [] p rest h k = absurd (omega arith)
skip_required_ws-spaces (b ∷ spaces) p rest ((first, others), some_space) k =
    let same : p + suc (length spaces) ≡ p + 1 + length spaces = omega arith in
    rw (first, skip_ws-spaces spaces (p + 1) rest others k, same) refl

digits-NoSpace : (digits rest : Bytes) → IsDigits digits → NoSpace (digits ++ rest)
digits-NoSpace [] rest h = absurd (omega arith)
digits-NoSpace (d ∷ digits) rest h = digit-ws d (all_digits-cons d digits h.0).0

spaces-NoDigit : (spaces rest : Bytes) → IsSpaces spaces → NoDigit (spaces ++ rest)
spaces-NoDigit [] rest h = absurd (omega arith)
spaces-NoDigit (b ∷ spaces) rest h = ws-digit b h.0.0

parse_unsigned-digits :
    (modulus : ℕ) (digits : Bytes) (p : ℕ) (rest : Bytes)
    → IsDigits digits
    → NoDigit rest
    → parse_unsigned modulus (at p (digits ++ rest)) ≡ (
        if ltb (decimal 0 digits) modulus
        then ok (some (decimal 0 digits), at (p + length digits) rest)
        else err (malformed (text "unsigned integer out of range")))
unfolding parse_unsigned
parse_unsigned-digits modulus [] p rest h end = absurd (omega arith)
parse_unsigned-digits modulus (d ∷ digits) p rest h end =
    let (digit, more) = all_digits-cons d digits h.0 in
    let some_digits : (length (d ∷ digits) == 0) ≡ false = ground arith in
    let scanned = take_while-append (d ∷ digits) p rest h.0 end in
    rw (skip_digit d p (digits ++ rest) digit, scanned, some_digits) refl

module _ (float : Float) (first spaces second : Bytes) (p : ℕ) (rest : Bytes) (h : IsDigits first)
    (s : IsSpaces spaces) (k : IsDigits second) where
  -- After the first number, the second one decides.
  after_first :
      decimal 0 first < 9223372036854775808
      → parse_number_or_reference float (at p (first ++ (spaces ++ (second ++ rest))))
        ≡ after_number float
            (at p (first ++ (spaces ++ (second ++ rest))))
            (integer_token (pos (decimal 0 first)))
            (at (p + length first) (spaces ++ (second ++ rest)))
  unfolding parse_number_or_reference
  after_first small = elim (List-cases spaces) [
    | inl e ↦ let none_left = ap length e in absurd (omega (arith, s.1))
    | inr (b, more, e) ↦
        let spaces_hold : IsSpaces (b ∷ more) = rw (e) at s in
        rw
          (
            e,
            parse_number_token-digits float first p b (more ++ (second ++ rest)) h small
                spaces_hold.0.0,
          )
          refl
  ]

  skip_to_second :
      skip_required_ws (at (p + length first) (spaces ++ (second ++ rest)))
      ≡ some (at (p + length first + length spaces) (second ++ rest))
  skip_to_second =
      skip_required_ws-spaces spaces (p + length first) (second ++ rest) s
        (digits-NoSpace second rest k)

  -- The parser goes back to the first number.
  plain_number :
      decimal 0 first < 9223372036854775808
      → parse_number float (at p (first ++ (spaces ++ (second ++ rest))))
        ≡ ok (integer (pos (decimal 0 first)), at (p + length first) (spaces ++ (second ++ rest)))
  plain_number small = elim (List-cases spaces) [
    | inl e ↦ let none_left = ap length e in absurd (omega (arith, s.1))
    | inr (b, more, e) ↦
        let spaces_hold : IsSpaces (b ∷ more) = rw (e) at s in
        rw
          (
            e,
            parse_number_token-digits float first p b (more ++ (second ++ rest)) h small
                spaces_hold.0.0,
          )
          refl
  ]

-- Whether the second number is followed by white space and the letter R.
abbrev pub marked : Bytes → Bytes → Bool
marked [] tail = false
marked (b ∷ spaces) tail = is_prefix (codes "R") tail

abbrev pub PairResult : Float → Type 0
PairResult float = Result (Object float × Cursor)

-- What two numbers are read as, where the second value is a generation: `plain` is the first number, with the cursor
-- after it, and `after` the cursor after the letter R.
abbrev pub key_outcome :
    (float : Float) → ℕ → ℕ → Bool → Object float × Cursor → Cursor → PairResult float
key_outcome float number generation is_marked plain after =
    if is_marked
    then if ltb number 4294967296
      then if number == 0
        then ok plain
        else ok (reference (record { number = number; generation = generation }), after)
      else err (malformed (text "reference object number out of range"))
    else ok plain

-- What two numbers are read as.
abbrev pub pair_outcome :
    (float : Float) → ℕ → ℕ → Bool → Object float × Cursor → Cursor → PairResult float
pair_outcome float number generation is_marked plain after =
    if ltb generation 65536
    then key_outcome float number generation is_marked plain after
    else err (malformed (text "unsigned integer out of range"))

skip_required_ws-none : (p : ℕ) (rest : Bytes) → NoSpace rest → skip_required_ws (at p rest) ≡ none
unfolding skip_required_ws
skip_required_ws-none p [] h = refl
skip_required_ws-none p (b ∷ rest) h = rw h refl

-- After the second number.
try_reference-outcome :
    (float : Float) (start : Cursor) (number generation : ℕ) (spaces : Bytes) (p : ℕ) (tail : Bytes)
    (plain : Object float × Cursor)
    → All (λ b. is_ws b ≡ true) spaces
    → NoSpace tail
    → parse_number float start ≡ ok plain
    → try_reference float start (pos number) (some generation) (at p (spaces ++ tail))
      ≡ key_outcome float number generation
          (marked spaces tail)
          plain
          (at (p + length spaces + 1) (drop 1 tail))
unfolding consume_bytes
try_reference-outcome float start number generation [] p tail plain h k e =
    rw (try_reference, skip_required_ws-none p tail k, e) refl
try_reference-outcome float start number generation (b ∷ spaces) p tail plain h k e =
    let skipped = skip_required_ws-spaces (b ∷ spaces) p tail (h, omega arith) k in
    elim (Bool-cases (is_prefix (codes "R") tail)) [
      | inr absent ↦ rw (try_reference, skipped, absent, e) refl
      | inl found ↦ elim (Bool-cases (ltb number 4294967296)) [
        | inr large ↦ rw (try_reference, skipped, found, large) refl
        | inl fits ↦ rw (try_reference, skipped, found, fits, e) refl
      ]
    ]

-- Two strings of digits, the first of a value below 2 ^ 63 and the second with no digit after it,
-- with white space of one byte at least between them: the parser fails where the second value is
-- 65536 or more, without going back to the first number. Where white space and the letter R follow,
-- it fails for a first value of 2 ^ 32 or more, and otherwise gives the reference with these values,
-- unless the first is 0. In all other cases it gives the first number, and stands after it. All of
-- the white space after the second number is taken, of any number of bytes.
pub number_pair_outcome :
    (float : Float) (first spaces second spaces' : Bytes) (p : ℕ) (tail : Bytes)
    → IsDigits first
    → IsSpaces spaces
    → IsDigits second
    → All (λ b. is_ws b ≡ true) spaces'
    → NoSpace tail
    → NoDigit (spaces' ++ tail)
    → decimal 0 first < 9223372036854775808
    → parse_number_or_reference float (at p (first ++ (spaces ++ (second ++ (spaces' ++ tail)))))
      ≡ pair_outcome float
          (decimal 0 first)
          (decimal 0 second)
          (marked spaces' tail)
          (
            integer (pos (decimal 0 first)),
            at (p + length first) (spaces ++ (second ++ (spaces' ++ tail))),
          )
          (at (p + length first + length spaces + length second + length spaces' + 1) (drop 1 tail))
number_pair_outcome float first spaces second spaces' p tail h s k s' solid end small =
    let rest = spaces' ++ tail in
    let at_first = after_first float first spaces second p rest h s k small in
    let skipped = skip_to_second float first spaces second p rest h s k in
    let at_second =
      parse_unsigned-digits 65536 second (p + length first + length spaces) rest k end in
    elim (Bool-cases (ltb (decimal 0 second) 65536)) [
      | inr large ↦ rw (at_first, after_number, skipped, at_second, large) refl
      | inl fits ↦
          rw (at_first, after_number, skipped, at_second, fits)
            (try_reference-outcome float _ (decimal 0 first) (decimal 0 second) spaces'
              (p + length first + length spaces + length second) tail _ s' solid
              (plain_number float first spaces second p rest h s k small))
    ]

-- Digits with a value from 1 to 2 ^ 32 - 1, white space, digits with a value below 65536, white space
-- and the letter R are read as the reference with these values, and what follows is left. Each white
-- space is any number of bytes, one at least.
pub reference_read :
    (float : Float) (first spaces second spaces' : Bytes) (p : ℕ) (rest : Bytes)
    → IsDigits first
    → IsSpaces spaces
    → IsDigits second
    → IsSpaces spaces'
    → 0 < decimal 0 first
    → decimal 0 first < 4294967296
    → decimal 0 second < 65536
    → parse_number_or_reference float
        (at p (first ++ (spaces ++ (second ++ (spaces' ++ b'R' ∷ rest)))))
      ≡ ok (
        reference (record { number = decimal 0 first; generation = decimal 0 second }),
        at (p + length first + length spaces + length second + length spaces' + 1) rest,
      )
unfolding consume_bytes
reference_read float first spaces second spaces' p rest h s k s' nonzero small small' =
    let end = spaces-NoDigit spaces' (b'R' ∷ rest) s' in
    let tail = spaces' ++ b'R' ∷ rest in
    let at_marker = p + length first + length spaces + length second in
    let some_number : (decimal 0 first == 0) ≡ false = ground arith in
    rw
      (
        after_first float first spaces second p tail h s k (omega arith),
        after_number,
        skip_to_second float first spaces second p tail h s k,
        parse_unsigned-digits 65536 second (p + length first + length spaces) tail k end,
        lt→ltb (decimal 0 second) 65536 small',
        try_reference,
        skip_required_ws-spaces spaces' at_marker (b'R' ∷ rest) s' ws-letter,
        lt→ltb (decimal 0 first) 4294967296 small,
        some_number,
      )
      refl
