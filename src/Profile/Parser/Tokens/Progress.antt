-- ===== src/Profile/Parser/Tokens/Progress.antt =====
-- The text that the tokens of crates/core/src/profile.rs leave.
use pdfv.Base.{
  ℕ, ◌+◌, ◌≤◌, ◌<◌, Bytes, Bool, true, false, not, ◌&&◌, ◌||◌, List, [], ◌∷◌, ◌≡◌, ◌⊎◌, inl, inr,
  ◌==◌, refl, arith, length, drop, length-drop, All, Bool-cases,
}
use pdfv.Bytes.{is_ascii_digit}
use pdfv.Cursor.{is_prefix}
use pdfv.Cursor.Moves.{is_prefix-length}
use pdfv.Profile.Rule.{BinaryOp}
use pdfv.Profile.Texts.{max_profile_string_bytes}
use pdfv.Profile.Parser.Outcome.{bounded}
use pdfv.Profile.Parser.Lambda.{is_word_byte, max_regex_pattern_bytes}
use pdfv.Profile.Parser.Meets.{
  Leaves, Answers, found, refusal, panic, Answers-any, Answers-if, Answers-bind,
}
use pdfv.Profile.Parser.Tokens.{
  skip_ws, consume, or_operator, read_operator, span, optional, non_empty, parse_identifier,
  is_continuation, is_outside, string_rest, regex_rest, parse_string, parse_regex_literal,
  exponent_of, exponent_digits, number_text, Place, call_content, take_call_content_after_open,
}

pub skip_ws-le : (text : Bytes) → length (skip_ws text) ≤ length text
unfolding skip_ws
skip_ws-le [] = omega arith
skip_ws-le (b ∷ rest) = ground (arith, skip_ws-le rest)

module _ (token text : Bytes) where
  pub consume-true :
      (consume token text).0 ≡ true → length token + length ((consume token text).1) ≤ length text
  unfolding consume
  consume-true h = elim (Bool-cases (is_prefix token (skip_ws text))) [
    | inl here ↦ rw here (
        omega (
          arith,
          is_prefix-length token (skip_ws text) here,
          length-drop (length token) (skip_ws text),
          skip_ws-le text,
        ))
    | inr absent ↦ cc (rw (absent) at h)
  ]

  pub consume-le : length ((consume token text).1) ≤ length text
  unfolding consume
  consume-le = elim (Bool-cases (is_prefix token (skip_ws text))) [
    | inl here ↦ rw here (omega (arith, length-drop (length token) (skip_ws text), skip_ws-le text))
    | inr absent ↦ rw absent (skip_ws-le text)
  ]

-- An operator takes a byte at least.
abbrev pub Moves : Bytes → (BinaryOp × Bytes) ⊎ Bytes → Type 0
Moves text (inl (op, after)) = length after < length text
Moves text (inr after) = length after ≤ length text

or_operator-Moves :
    (op : BinaryOp) (text : Bytes) (taken : Bool × Bytes)
    (next : Bytes → (BinaryOp × Bytes) ⊎ Bytes)
    → (taken.0 ≡ true → length (taken.1) < length text)
    → ((after : Bytes) → length after ≤ length text → Moves text (next after))
    → length (taken.1) ≤ length text
    → Moves text (or_operator op taken next)
or_operator-Moves op text (true, after) next h k le = h refl
or_operator-Moves op text (false, after) next h k le = k after le

Moves-later :
    (text after : Bytes) (m : (BinaryOp × Bytes) ⊎ Bytes)
    → length after ≤ length text
    → Moves after m
    → Moves text m
Moves-later text after (inl (op, rest)) h k = omega arith
Moves-later text after (inr rest) h k = omega arith

pub read_operator-Moves :
    (operators : List (Bytes × BinaryOp))
    → All (λ operator. 0 < length (operator.0)) operators
    → (text : Bytes) → Moves text (read_operator operators text)
unfolding read_operator
read_operator-Moves [] h text = omega arith
read_operator-Moves ((token, op) ∷ more) (first, rest) text =
    or_operator-Moves op text (consume token text) (λ after. read_operator more after)
      (λ yes. omega (arith, consume-true token text yes))
      (λ after le. Moves-later text after _ le (read_operator-Moves more rest after))
      (consume-le token text)

span-le : (p : ℕ → Bool) (text : Bytes) → length ((span p text).1) ≤ length text
unfolding span
span-le p [] = omega arith
span-le p (b ∷ rest) = elim (Bool-cases (p b)) [
  | inl here ↦ rw here (omega (arith, span-le p rest))
  | inr absent ↦ rw absent (omega arith)
]

optional-le : (p : ℕ → Bool) (text : Bytes) → length ((optional p text).1) ≤ length text
unfolding optional
optional-le p [] = omega arith
optional-le p (b ∷ rest) = elim (Bool-cases (p b)) [
  | inl here ↦ rw here (omega arith)
  | inr absent ↦ rw absent (omega arith)
]

non_empty-Answers :
    (n : ℕ) (taken : Bytes × Bytes) → length (taken.1) ≤ n → Answers (Leaves n) (non_empty taken)
non_empty-Answers n ([], after) h = refusal
non_empty-Answers n (b ∷ taken, after) h = found h

pub parse_identifier-Leaves :
    (text : Bytes) → Answers (Leaves (length text)) (parse_identifier text)
unfolding parse_identifier
parse_identifier-Leaves text = non_empty-Answers _ (span is_word_byte text) (span-le _ text)

string_rest-Leaves :
    (quote : ℕ) (text : Bytes) → Answers (Leaves (length text)) (string_rest quote text)
unfolding string_rest
string_rest-Leaves quote [] = refusal
string_rest-Leaves quote (b ∷ rest) =
    Answers-if (is_continuation b) (λ _. panic)
      λ _.
        Answers-if (b == quote) (λ _. found (omega arith))
          λ _.
            Answers-bind _ (string_rest-Leaves quote rest) (λ (value, after) h. found (omega arith))

regex_rest-Leaves :
    (text : Bytes) (escaped : Bool) → Answers (Leaves (length text)) (regex_rest escaped text)
unfolding regex_rest
regex_rest-Leaves [] escaped = refusal
regex_rest-Leaves (b ∷ rest) escaped =
    Answers-if (is_continuation b) (λ _. panic)
      λ _.
        Answers-if (b == b'/' && not escaped) (λ _. found (omega arith))
          λ _. Answers-bind _ (regex_rest-Leaves rest _) (λ (value, after) h. found (omega arith))

pub parse_string-Leaves : (text : Bytes) → Answers (Leaves (length text)) (parse_string text)
unfolding parse_string
parse_string-Leaves [] = refusal
parse_string-Leaves (quote ∷ text) =
    Answers-bind _ (string_rest-Leaves quote text) λ (value, after) h.
      Answers-bind _ (Answers-any (bounded value max_profile_string_bytes _))
        λ kept _. found (omega arith)

pub parse_regex_literal-Leaves :
    (text : Bytes) → Answers (Leaves (length text)) (parse_regex_literal text)
unfolding parse_regex_literal
parse_regex_literal-Leaves text =
    Answers-bind _ (regex_rest-Leaves (drop 1 text) false) λ (value, after) h.
      Answers-bind _ (Answers-any (bounded value max_regex_pattern_bytes _))
        λ kept _. found (omega (arith, length-drop 1 text, h))

exponent_digits-Leaves :
    (n : ℕ) (front : Bytes) (taken : Bytes × Bytes)
    → length (taken.1) ≤ n
    → Answers (Leaves n) (exponent_digits front taken)
exponent_digits-Leaves n front ([], after) h = refusal
exponent_digits-Leaves n front (b ∷ digits, after) h = found h

exponent_of-Leaves :
    (n : ℕ) (taken : Bytes × Bytes) → length (taken.1) ≤ n → Answers (Leaves n) (exponent_of taken)
exponent_of-Leaves n ([], after) h = found h
exponent_of-Leaves n (e ∷ more, after) h =
    let (sign, digits) = optional (λ b. b == b'+' || b == b'-') after in
    exponent_digits-Leaves n (e ∷ sign) (span is_ascii_digit digits) (
      omega
        (arith, span-le is_ascii_digit digits, optional-le (λ b. b == b'+' || b == b'-') after, h))

pub number_text-Leaves : (text : Bytes) → Answers (Leaves (length text)) (number_text text)
unfolding number_text
number_text-Leaves text =
    let (_, unsigned) = optional (λ b. b == b'-') text in
    let (_, rest) = span (λ b. is_ascii_digit b || b == b'.') unsigned in
    let unread : length ((optional (λ b. b == b'e' || b == b'E') rest).1) ≤ length text = omega (
      arith,
      optional-le (λ b. b == b'-') text,
      span-le (λ b. is_ascii_digit b || b == b'.') unsigned,
      optional-le (λ b. b == b'e' || b == b'E') rest,
    ) in
    Answers-bind _
      (exponent_of-Leaves (length text) (optional (λ b. b == b'e' || b == b'E') rest) unread)
      λ (exponent, after) h. found h

call_content-Leaves :
    (text : Bytes) (place : Place) (depth : ℕ)
    → Answers (Leaves (length text)) (call_content place depth text)
unfolding call_content
call_content-Leaves [] place depth = refusal
call_content-Leaves (b ∷ rest) place depth =
    Answers-if (is_continuation b) (λ _. panic)
      λ _.
        Answers-if (is_outside place && b == b')' && depth == 0) (λ _. refusal)
          λ _.
            Answers-if (is_outside place && b == b')' && depth == 1)
              (λ _. found {a = ([], rest)} (omega arith))
              λ _.
                Answers-bind _ (call_content-Leaves rest _ _)
                  λ (content, after) h. found {a = (b ∷ content, after)} (omega (arith, h))

pub take_call_content_after_open-Leaves :
    (text : Bytes) → Answers (Leaves (length text)) (take_call_content_after_open text)
unfolding take_call_content_after_open
take_call_content_after_open-Leaves text = call_content-Leaves text Place.outside 1
