-- ===== src/Tests/Contents.antt =====
-- Content streams of crates/core/src/content.rs at concrete inputs.
use pdfv.Base.{
  ℕ, ◌+◌, Bytes, Bool, true, false, Option, none, some, [], ◌∷◌, ◌++◌, ◌≡◌, refl, arith, length,
}
use pdfv.Bytes.{is_ws, is_delimiter}
use pdfv.Name.{codes}
use pdfv.Cos.{ObjectKey}
use pdfv.Float.{Float}
use pdfv.Error.{Result, ok}
use pdfv.Error.Meets.{Meets}
use pdfv.Cursor.{at}
use pdfv.Lexer.RoundTrip.{write_name}
use pdfv.Content.Token.{operand, name_operand}
use pdfv.Content.Tokenizer.{next_token, token_at}
use pdfv.Content.Tokenizer.RoundTrip.{next_token-write}
use pdfv.Content.Summary.{ContentStreamSummary}
use pdfv.Content.Operators.{apply_operator, classify_operator}
use pdfv.Content.Operands.{first_name_operand}
use pdfv.Content.Summarize.{summarize_loop, run_operator, push_operand, summarize_content_stream}
use pdfv.Content.Summarize.Counts.{IsSummary, summarize_content_stream-Meets}
use pdfv.Tests.{test_limits}

abbrev digit_float : Bytes → Option ℕ
digit_float [] = none
digit_float (b ∷ rest) = some b

abbrev nonempty_float : Float
nonempty_float = record {
  F64 = ℕ;
  parse_f64 = λ (text : Bytes). digit_float text;
  is_finite = λ (value : ℕ). false;
}

abbrev stream_key : ObjectKey
stream_key = record { number = 4; generation = 0 }

-- Five operators, where four are allowed.
abbrev five_operators : Bytes
five_operators = codes "q BT /F1 1 Tf ET Q"

abbrev seen_of : Result ContentStreamSummary → ℕ × Bool × ℕ
seen_of (ok s) = (s.operators_seen, s.truncated, length s.facts)
seen_of _ = (0, false, 0)

five_operators_truncated :
    seen_of (summarize_content_stream nonempty_float test_limits stream_key [] five_operators)
    ≡ (4, true, 4)
unfolding summarize_content_stream summarize_loop next_token token_at run_operator classify_operator
    apply_operator push_operand is_ws is_delimiter first_name_operand
five_operators_truncated = refl

summarize_content_stream-Meets_example :
    Meets
      (IsSummary test_limits)
      (summarize_content_stream nonempty_float test_limits stream_key [] five_operators)
summarize_content_stream-Meets_example =
    summarize_content_stream-Meets nonempty_float test_limits refl stream_key [] five_operators

next_token-write_example :
    next_token nonempty_float test_limits (at 3 (b'/' ∷ write_name (codes "a b") ++ codes " x"))
    ≡ ok (
      some (operand (name_operand (codes "a b"))),
      at (3 + 1 + length (write_name (codes "a b"))) (codes " x"),
    )
unfolding is_ws is_delimiter
next_token-write_example =
    next_token-write nonempty_float test_limits 3 (codes "a b") (codes " x") (omega arith)
      (omega arith) refl
