-- ===== src/Tests/Syntax.antt =====
-- The syntax of crates/core/src/parser.rs at concrete inputs.
use pdfv.Trailer.{parse_xref_and_trailer}
use pdfv.Trailer.Total.{parse_xref_and_trailer_total}
use pdfv.Base.{Bytes, ◌≢◌, ◌↔◌, [], ◌∷◌, ◌++◌, ◌≡◌, refl, arith, length, ◌≤◌, ◌<◌, ◌+◌}
use pdfv.Bytes.{is_ws, is_delimiter}
use pdfv.Name.{codes}
use pdfv.Error.{diverged, ok, err, malformed, text}
use pdfv.Error.Meets.{Meets}
use pdfv.Cursor.{is_prefix, Cursor, at, remaining, skip_ws_and_comments}
use pdfv.Cursor.Moves.{Moves}
use pdfv.Cursor.Blanks.{Skipped, skip_ws_and_comments_iff}
use pdfv.Int.{pos}
use pdfv.Cos.{integer, reference}
use pdfv.Lexer.{parse_name, decimal, all_digits}
use pdfv.Lexer.{parse_unsigned}
use pdfv.Lexer.Number.{parse_number_token}
use pdfv.Cursor.{skip_required_ws, consume_bytes}
use pdfv.Lexer.Text.{parse_literal_string}
use pdfv.Lexer.RoundTrip.{write_name, parse_name-write, write_string, parse_literal_string-write}
use pdfv.Object.{Object, parse_object, parse_number_or_reference}
use pdfv.Object.Numbers.{IsNumber, parse_number_or_reference-Meets}
use pdfv.Object.Fits.{Fits}
use pdfv.Object.Bounds.{parse_object-Meets}
use pdfv.Object.References.{reference_read, number_pair_outcome}
use pdfv.Tests.{test_limits, test_float}

abbrev nested : Cursor
nested = at 0 (codes "[1 0 R <</A (b)>>] ")

parse_object-Meets_example :
    Meets
      (λ (r : Object test_float × Cursor).
        (0 ≤ 4)
        × ((Moves nested r.1 × (length (remaining r.1) < length (remaining nested)))
            × Fits test_float test_limits 0 r.0))
      (parse_object test_float test_limits 6 0 nested)
parse_object-Meets_example =
    parse_object-Meets test_float test_limits 6 0 nested (omega arith) (omega arith) (omega arith)

parse_number_or_reference-Meets_example :
    Meets
      (λ (r : Object test_float × Cursor).
        (Moves (at 0 (codes "12 0 R")) r.1
          × (length (remaining r.1) < length (remaining (at 0 (codes "12 0 R")))))
        × IsNumber test_float r.0)
      (parse_number_or_reference test_float (at 0 (codes "12 0 R")))
parse_number_or_reference-Meets_example =
    parse_number_or_reference-Meets test_float (at 0 (codes "12 0 R"))

reference_read_example :
    parse_number_or_reference test_float (at 0 (codes "12 \n0  R]"))
    ≡ ok (reference (record { number = 12; generation = 0 }), at 8 (codes "]"))
unfolding decimal all_digits is_ws
reference_read_example =
    reference_read test_float (codes "12") (codes " \n") (codes "0") (codes "  ") 0 (codes "]")
      (refl, omega arith) ((refl, (refl, tt)), omega arith) (refl, omega arith)
      ((refl, (refl, tt)), omega arith) (omega arith) (omega arith) (omega arith)

number_pair_outcome_example :
    parse_number_or_reference test_float (at 1 (codes "1  70000 2]"))
    ≡ err (malformed (text "unsigned integer out of range"))
unfolding decimal all_digits is_ws is_prefix
number_pair_outcome_example =
    number_pair_outcome test_float (codes "1") (codes "  ") (codes "70000") (codes " ") 1
      (codes "2]") (refl, omega arith) ((refl, (refl, tt)), omega arith) (refl, omega arith)
      (refl, tt) refl refl (omega arith)

-- Two numbers with no reference, and the reference to an object 0.
two_numbers :
    parse_number_or_reference test_float (at 0 (codes "7 8 ]"))
    ≡ ok (integer (pos 7), at 1 (codes " 8 ]"))
unfolding parse_number_or_reference is_ws parse_number_token skip_required_ws parse_unsigned
    consume_bytes
two_numbers = refl

object_zero :
    parse_number_or_reference test_float (at 0 (codes "0 0 R"))
    ≡ ok (integer (pos 0), at 1 (codes " 0 R"))
unfolding parse_number_or_reference is_ws parse_number_token skip_required_ws parse_unsigned
    consume_bytes
object_zero = refl

parse_name-write_example :
    parse_name test_limits (at 0 (b'/' ∷ (write_name (codes "A B#") ++ codes " 1")))
    ≡ ok (codes "A B#", at (0 + 1 + length (write_name (codes "A B#"))) (codes " 1"))
unfolding is_ws is_delimiter
parse_name-write_example =
    parse_name-write test_limits (codes "A B#") 0 (codes " 1") (ground arith) refl (omega arith)

parse_literal_string-write_example :
    parse_literal_string test_limits
      (at 0 (b'(' ∷ (write_string (codes "a)b") ++ b')' ∷ codes " 1")))
    ≡ ok (codes "a)b", at (0 + 1 + length (write_string (codes "a)b")) + 1) (codes " 1"))
parse_literal_string-write_example =
    parse_literal_string-write test_limits (codes "a)b") 0 (codes " 1") (omega arith)

skip_ws_and_comments_iff_example :
    (skip_ws_and_comments (at 0 (codes " % note\n12")) ≡ at 8 (codes "12")) ↔ (
      (skipped : Bytes) × (codes " % note\n12" ≡ skipped ++ codes "12")
      × (8 ≡ 0 + length skipped)
      × Skipped skipped (codes "12"))
skip_ws_and_comments_iff_example = skip_ws_and_comments_iff 0 8 (codes " % note\n12") (codes "12")

-- The marker of the end of the file is not a comment.
marker_kept : skip_ws_and_comments (at 0 (codes " %a\n%%EOF\n")) ≡ at 4 (codes "%%EOF\n")
unfolding skip_ws_and_comments is_ws
marker_kept = refl

abbrev table_text : Bytes
table_text = codes "xref\n0 1\n0000000000 65535 f \ntrailer\n<</Size 1>>"

parse_xref_and_trailer_total_example :
    parse_xref_and_trailer test_float table_text test_limits
      (at 0 table_text)
      (record { parse_facts = []; warnings = [] })
    ≢ diverged
parse_xref_and_trailer_total_example =
    parse_xref_and_trailer_total test_float table_text test_limits (omega arith) (at 0 table_text)
      (record { parse_facts = []; warnings = [] })
