-- ===== src/Tests/Streams.antt =====
-- Streams and cross-reference streams of crates/core/src/parser.rs at concrete inputs.
use pdfv.Base.{
  All, ◌*◌, ℕ, zero, suc, Bytes, true, false, some, List, [], ◌∷◌, ◌≡◌, refl, arith, length, ◌≤◌,
}
use pdfv.Int.{pos}
use pdfv.Name.{codes, bytes_eq}
use pdfv.Error.{Result, ok}
use pdfv.Cursor.{Cursor, at, is_prefix, consume_bytes, skip_ws_and_comments}
use pdfv.Fact.{
  StreamFact, ParseFact, post_eof_data, filter_decoded, stream_fact, stream_length, keyword_spacing,
  parse_fact_cap_reached,
}
use pdfv.Cos.{
  name, array, integer, dictionary, Dictionary, empty, entry, get, nil, cons, StreamData, ObjectKey,
}
use pdfv.Bytes.{is_ws, decode_hex_digit}
use pdfv.Cos.Fields.{integer_from_dictionary}
use pdfv.Filter.Output.{enforce_decoded_len, push_limited_byte}
use pdfv.Filter.AsciiHex.{ascii_hex_decode}
use pdfv.Filter.Params.{default_params}
use pdfv.Stream.{
  stream_filters, stream_decode_params, decode_params_from_dictionary, is_identity_crypt_filter,
  params_at,
}
use pdfv.Stream.Alignment.{name_array, aligned_without_crypt, misaligned_after_crypt}
use pdfv.Decode.{
  Inflater, default_registry, decoder, decode_filters, raw_bytes, decoded_bytes_with_registry,
  filter_identifier, filter_fact,
}
use pdfv.Decode.Chain.{FactChain, decoded_bytes_with_registry-chain}
use pdfv.Log.{Log, push_fact, push_facts}
use pdfv.Log.Cap.{push_facts-take}
use pdfv.Xref.{Widths, summarize_entries}
use pdfv.Xref.Entries.{summarize_entries_complete}
use pdfv.Source.{memory, endstream_after_optional_eol, stream_source, has_eol_before}
use pdfv.Body.{IndirectObject, parse_stream, stream_end}
use pdfv.Body.Ranges.{parse_stream-raw_bytes}
use pdfv.Error.Meets.{Meets}
use pdfv.ObjectStream.{parse_object_stream}
use pdfv.ObjectStream.Bounds.{IsMember, parse_object_stream-Meets}
use pdfv.Tests.{test_limits, test_float}

abbrev three_facts : List ParseFact
three_facts = post_eof_data 1 ∷ post_eof_data 2 ∷ post_eof_data 3 ∷ []

push_facts-take_example :
    push_facts test_limits three_facts (record { parse_facts = []; warnings = [] }) ≡ record {
      parse_facts = post_eof_data 1 ∷ post_eof_data 2 ∷ [];
      warnings = parse_fact_cap_reached 2 ∷ [];
    }
push_facts-take_example = push_facts-take test_limits three_facts

abbrev small_widths : Widths
small_widths = record { kind = 1; second = 2; third = 0 }

summarize_entries_complete_example :
    (compressed : ℕ) × (summarize_entries test_limits small_widths
        ((0, 2) ∷ [])
        3
        (1 ∷ 0 ∷ 9 ∷ 2 ∷ 0 ∷ 4 ∷ [])
      ≡ ok (record { decoded_bytes = 6; entries = 2; compressed_entries = compressed }))
    × (compressed ≤ 2)
summarize_entries_complete_example =
    summarize_entries_complete test_limits small_widths ((0, 2) ∷ []) (1 ∷ 0 ∷ 9 ∷ 2 ∷ 0 ∷ 4 ∷ [])
      (omega arith, omega arith, omega arith) (ground arith) (omega arith) (omega arith)
      (omega arith) (omega arith)

-- A cross-reference of two filters and their parameters.
abbrev two_filters : Dictionary ℕ
two_filters =
    entry (codes "DecodeParms")
      (array (cons (dictionary (entry (codes "Columns") (integer (pos 4)) empty)) nil))
      (entry (codes "Filter") (array (name_array (codes "ASCIIHexDecode" ∷ codes "LZWDecode" ∷ [])))
        empty)

not_crypt : (i : ℕ) → is_identity_crypt_filter two_filters i ≡ false
unfolding is_identity_crypt_filter get bytes_eq
not_crypt zero = refl
not_crypt (suc zero) = refl
not_crypt (suc (suc i)) = refl

aligned_without_crypt_example :
    (stream_filters two_filters ≡ codes "ASCIIHexDecode" ∷ codes "LZWDecode" ∷ [])
    × (params_at (stream_decode_params two_filters 2) 0 ≡ record default_params { columns = 4 })
unfolding get bytes_eq decode_params_from_dictionary integer_from_dictionary
aligned_without_crypt_example =
    aligned_without_crypt two_filters (codes "ASCIIHexDecode" ∷ codes "LZWDecode" ∷ [])
      (cons (dictionary (entry (codes "Columns") (integer (pos 4)) empty)) nil) refl refl not_crypt
      0 (omega arith)

abbrev crypt_first : Dictionary ℕ
crypt_first =
    entry (codes "DecodeParms")
      (array (
        cons (dictionary (entry (codes "Name") (name (codes "Identity")) empty))
          (cons (dictionary (entry (codes "Predictor") (integer (pos 12)) empty)) nil)))
      (entry (codes "Filter") (array (name_array (codes "Crypt" ∷ codes "FlateDecode" ∷ []))) empty)

misaligned_after_crypt_example :
    (stream_filters crypt_first ≡ codes "FlateDecode" ∷ [])
    × (stream_decode_params crypt_first (length (stream_filters crypt_first))
        ≡ decode_params_from_dictionary {F = ℕ}
            (entry (codes "Name") (name (codes "Identity")) empty)
          ∷ [])
unfolding get bytes_eq
misaligned_after_crypt_example =
    misaligned_after_crypt crypt_first (entry (codes "Name") (name (codes "Identity")) empty)
      (entry (codes "Predictor") (integer (pos 12)) empty) (codes "FlateDecode") refl refl refl refl

-- An inflater that gives nothing.
abbrev no_inflater : Inflater
no_inflater input = []

abbrev hex_source : Bytes
hex_source = codes "..48 49>"

abbrev hex_run : Result (Bytes × List StreamFact)
hex_run =
    decoded_bytes_with_registry (default_registry no_inflater no_inflater) test_limits hex_source
      (record { start = 2; end = 8 }) (codes "AHx" ∷ []) (default_params ∷ [])

abbrev hex_facts : List StreamFact
hex_facts = filter_decoded (codes "AHx") 6 2 ∷ []

hex_runs : hex_run ≡ ok (codes "HI", hex_facts)
unfolding decoded_bytes_with_registry decode_filters raw_bytes filter_fact default_registry decoder
    bytes_eq ascii_hex_decode enforce_decoded_len filter_identifier push_limited_byte
    decode_hex_digit is_ws
hex_runs = refl

decoded_bytes_with_registry-chain_example :
    (raw : Bytes) × (raw_bytes hex_source (record { start = 2; end = 8 }) ≡ ok raw)
    × FactChain 100 (length raw) (codes "AHx" ∷ []) hex_facts 2
    × (2 ≤ 100)
decoded_bytes_with_registry-chain_example =
    decoded_bytes_with_registry-chain (default_registry no_inflater no_inflater) test_limits
      (default_params ∷ []) hex_source (record { start = 2; end = 8 }) (codes "AHx" ∷ [])
      (codes "HI") hex_facts hex_runs

abbrev stream_text : Bytes
stream_text = codes "stream\nabc\nendstream"

abbrev three_bytes : Dictionary ℕ
three_bytes = entry (codes "Length") (integer (pos 3)) empty

abbrev stream_run : Result (StreamData × (Cursor × Log))
stream_run =
    parse_stream (memory stream_text) test_limits (record { number = 1; generation = 0 })
      three_bytes (at 0 stream_text) (record { parse_facts = []; warnings = [] })

abbrev three_byte_stream : StreamData
three_byte_stream = record {
  raw_range = record { start = 7; end = 10 };
  declared_length = some 3;
  discovered_length = 3;
  filters = [];
  decode_params = [];
  raw_source = stream_text;
  stream_keyword_crlf_compliant = false;
  endstream_keyword_eol_compliant = true;
}

abbrev one : ObjectKey
one = record { number = 1; generation = 0 }

abbrev three_byte_log : Log
three_byte_log = record {
  parse_facts =
      stream_fact one (stream_length 3 3) ∷ stream_fact one (keyword_spacing false true) ∷ [];
  warnings = [];
}

stream_runs : stream_run ≡ ok (three_byte_stream, (at 20 [], three_byte_log))
unfolding parse_stream skip_ws_and_comments consume_bytes is_ws is_prefix get bytes_eq
    stream_filters stream_decode_params stream_end endstream_after_optional_eol stream_source
    has_eol_before push_fact
stream_runs = refl

parse_stream-raw_bytes_example :
    (bytes : Bytes) × (raw_bytes stream_text (record { start = 7; end = 10 }) ≡ ok bytes)
    × (length bytes ≡ 3)
parse_stream-raw_bytes_example =
    parse_stream-raw_bytes (memory stream_text) test_limits one three_bytes (at 0 stream_text)
      (record { parse_facts = []; warnings = [] }) three_byte_stream (at 20 [], three_byte_log)
      stream_runs

abbrev one_object : Dictionary test_float.F64
one_object = entry (codes "First") (integer (pos 4)) (entry (codes "N") (integer (pos 1)) empty)

parse_object_stream-Meets_example :
    Meets
      (λ (objects : List (IndirectObject test_float.F64)).
        (length objects ≤ 10)
        × (length objects * 4 ≤ 8)
        × All (IsMember test_float test_limits one (codes "5 0 true") (omega arith)) objects)
      (parse_object_stream test_float test_limits one (codes "5 0 true") 100 one_object)
parse_object_stream-Meets_example =
    parse_object_stream-Meets test_float test_limits one (codes "5 0 true") (omega arith) 100
      one_object
