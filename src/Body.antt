-- ===== src/Body.antt =====
-- The body of a PDF file in crates/core/src/parser.rs: `parse_header`, `parse_stream` and
-- `parse_indirect_object`.
pub mod Ranges
use Prim.Native.Nat.{min}
use pdfv.Base.{
  ℕ, zero, suc, ◌+◌, ◌-◌, Bytes, Bool, true, false, not, ◌&&◌, ◌||◌, Option, none, some, [], ◌∷◌,
  ◌++◌, ltb, leb, ◌==◌, if◌then◌else◌, length,
}
use pdfv.Bytes.{is_ascii_digit}
use pdfv.Name.{codes}
use pdfv.Int.{ℤ}
use pdfv.Float.{Float}
use pdfv.Limits.{ResourceLimits}
use pdfv.Error.{
  Result, ok, err, ◌>>=◌, ◌>>◌, ensure, text, malformed, limit_exceeded, ok_or, u64_modulus,
}
use pdfv.Cursor.{
  Cursor, at, cursor_at, position, remaining, peek_byte, starts_with, consume_bytes, advance,
  skip_ws_and_comments, skip_required_ws,
}
use pdfv.Source.{
  SourceStorage, source_bytes, find_bytes, has_eol_before, endstream_marker,
  endstream_after_optional_eol, trim_eol_before, stream_source,
}
use pdfv.Fact.{PdfVersion, stream_length, keyword_spacing, stream_fact, general}
use pdfv.Cos.{CosObject, dictionary, stream, Dictionary, ObjectKey, StreamData}
use pdfv.Cos.Fields.{to_unsigned, integer_from_dictionary}
use pdfv.Stream.{stream_filters, stream_decode_params}
use pdfv.Log.{Log, push_fact}
use pdfv.Lexer.{parse_unsigned_u32, parse_unsigned_u16}
use pdfv.Object.{Object, parse_object}

abbrev pub header_marker : Bytes
header_marker = codes "%PDF-"

abbrev version_digit : Cursor → Option ℕ × Cursor
version_digit (at p []) = (none, at p [])
version_digit (at p (b ∷ rest)) =
    if is_ascii_digit b then (some (b - b'0'), at (p + 1) rest) else (none, at p (b ∷ rest))

abbrev is_some : Option ℕ → Bool
is_some none = false
is_some (some n) = true

abbrev digit_or : Option ℕ → ℕ → ℕ
digit_or none d = d
digit_or (some n) d = n

-- The offset of the header, its version, and the cursor after it.
unfoldable pub parse_header : Bytes → Log → Result ((ℕ × PdfVersion) × (Cursor × Log))
parse_header source log = do
  header_pos ←
      ok_or (find_bytes source header_marker 0 (length source))
        (malformed (text "missing PDF header"))
  let major = version_digit (cursor_at source (header_pos + 5))
  let dotted = starts_with (b'.' ∷ []) major.1
  let minor = version_digit (if dotted then advance 1 major.1 else major.1)
  let malformed_version = not (is_some major.0 && dotted && is_some minor.0)
  let warning = general (text "malformed PDF header version recovered as 1.4")
  let log' : Log = record log {
    warnings = log.warnings ++ (if malformed_version then warning ∷ [] else []);
  }
  let version : PdfVersion = record { major = digit_or major.0 1; minor = digit_or minor.0 4 }
  ok ((header_pos, version), (minor.1, log'))

-- After the keyword: one end of line, `\r\n` at once.
abbrev pub skip_stream_eol : Cursor → Cursor
skip_stream_eol c =
    if starts_with (b'\r' ∷ b'\n' ∷ []) c
    then advance 2 c
    else if starts_with (b'\n' ∷ []) c || starts_with (b'\r' ∷ []) c
    then advance 1 c
    else c

abbrev pub declared_of : Option ℤ → Option ℕ
declared_of none = none
declared_of (some value) = to_unsigned u64_modulus value

abbrev pub exceeds : Option ℕ → ℕ → Bool
exceeds none limit = false
exceeds (some n) limit = ltb limit n

-- `data_start.checked_add(length)`
abbrev pub declared_end : ℕ → Option ℕ → Option ℕ
declared_end data_start none = none
declared_end data_start (some n) =
    if ltb (data_start + n) u64_modulus then some (data_start + n) else none

-- The keyword `endstream` by search, and the end of the data before it.
unfoldable pub scan_endstream : Bytes → ResourceLimits → ℕ → Result (ℕ × ℕ)
scan_endstream source limits data_start = do
  let end = data_start + limits.max_stream_declared_bytes
  let scan_end = if ltb end u64_modulus then min end (length source) else length source
  keyword_pos ←
      ok_or (find_bytes source endstream_marker data_start scan_end)
        (malformed (text "missing endstream"))
  ok (trim_eol_before source data_start keyword_pos, keyword_pos)

-- The end of the data and the place of the keyword: by the declared length if the keyword is there.
unfoldable pub stream_end : Bytes → ResourceLimits → ℕ → Option ℕ → Result (ℕ × ℕ)
unfolding scan_endstream
stream_end source limits data_start none = scan_endstream source limits data_start
stream_end source limits data_start (some data_end) =
    elim (endstream_after_optional_eol source data_end) [
      | none ↦ scan_endstream source limits data_start
      | some keyword_pos ↦ ok (data_end, keyword_pos)
    ]

module _ {F : Type 0} where
  unfoldable pub parse_stream :
      SourceStorage
      → ResourceLimits
      → ObjectKey
      → Dictionary F
      → Cursor
      → Log
      → Result (StreamData × (Cursor × Log))
  parse_stream storage limits key entries c log = do
    let source = source_bytes storage
    after_keyword ← consume_bytes (codes "stream") (skip_ws_and_comments c)
    let crlf = starts_with (b'\r' ∷ b'\n' ∷ []) after_keyword
    let data_start = position (skip_stream_eol after_keyword)
    let declared = declared_of (integer_from_dictionary entries "Length")
    ensure (not (exceeds declared limits.max_stream_declared_bytes))
        (limit_exceeded "max_stream_declared_bytes")
    (data_end, endstream_pos) ←
        stream_end source limits data_start (declared_end data_start declared)
    let compliant = has_eol_before source endstream_pos
    let discovered = data_end - data_start
    after ← consume_bytes endstream_marker (cursor_at source endstream_pos)
    let filters = stream_filters entries
    let length_fact = stream_fact key (stream_length (digit_or declared discovered) discovered)
    let spacing_fact = stream_fact key (keyword_spacing crlf compliant)
    let log' = push_fact limits spacing_fact (push_fact limits length_fact log)
    (raw_source, raw_range) ← stream_source storage data_start data_end
    ok (
      record {
        raw_range = raw_range;
        declared_length = declared;
        discovered_length = discovered;
        filters = filters;
        decode_params = stream_decode_params entries (length filters);
        raw_source = raw_source;
        stream_keyword_crlf_compliant = crlf;
        endstream_keyword_eol_compliant = compliant;
      },
      (after, log'),
    )

pub record IndirectObject (F : Type 0) : Type 0 where
  pub key : ObjectKey
  pub offset : ℕ
  pub object : CosObject F

module _ (float : Float) (storage : SourceStorage) (limits : ResourceLimits) where
  -- `peek_stream_marker`
  abbrev at_stream : Cursor → Bool
  at_stream c = starts_with (codes "stream") (skip_ws_and_comments c)

  abbrev with_stream :
      ObjectKey → Object float → Cursor → Log → Result (Object float × (Cursor × Log))
  with_stream key (dictionary entries) c log =
      if at_stream c
      then (do
        (parsed, after) ← parse_stream storage limits key entries c log
        ok (stream entries parsed, after))
      else ok (dictionary entries, (c, log))
  with_stream key object c log = ok (object, (c, log))

  -- `endobj` may be missing.
  abbrev skip_endobj : Cursor → Result Cursor
  skip_endobj c =
      let start = skip_ws_and_comments c in
      if starts_with (codes "endobj") start then consume_bytes (codes "endobj") start else ok start

  -- After the keyword `obj`: the object, and the fuel for its nesting.
  abbrev numbered_object :
      ℕ → ℕ → ℕ → Cursor → Log → Result (Option (IndirectObject float.F64) × (Cursor × Log))
  numbered_object offset number generation c log = do
    ensure (not (number == 0)) (malformed (text "object number must be non-zero"))
    let key : ObjectKey = record { number = number; generation = generation }
    (parsed, after) ← parse_object float limits (limits.max_object_depth + 2) 0 c
    (object, (after', log')) ← with_stream key parsed after log
    end ← skip_endobj after'
    ok (some (record { key = key; offset = offset; object = object }), (end, log'))

  abbrev after_generation :
      Cursor
      → ℕ
      → Option ℕ
      → Cursor
      → Log
      → Result (Option (IndirectObject float.F64) × (Cursor × Log))
  after_generation start number none c log = ok (none, (start, log))
  after_generation start number (some generation) c log = do
    keyword ← ok_or (skip_required_ws c) (malformed (text "expected whitespace"))
    (if starts_with (codes "obj") keyword
        then (do
          after ← consume_bytes (codes "obj") keyword
          numbered_object (position start) number generation after log)
        else ok (none, (start, log)))

  abbrev after_object_number :
      Cursor → Option ℕ → Cursor → Log → Result (Option (IndirectObject float.F64) × (Cursor × Log))
  after_object_number start none c log = ok (none, (c, log))
  after_object_number start (some number) c log = do
    second ← ok_or (skip_required_ws c) (malformed (text "expected whitespace"))
    (generation, after) ← parse_unsigned_u16 second
    after_generation start number generation after log

  -- `parse_indirect_object`; without a number, the cursor stays after the white space.
  unfoldable pub parse_indirect_object :
      Cursor → Log → Result (Option (IndirectObject float.F64) × (Cursor × Log))
  parse_indirect_object start log = do
    (number, after) ← parse_unsigned_u32 start
    after_object_number start number after log
