-- ===== src/ObjectStream.antt =====
-- Object streams: `parse_object_stream` of crates/core/src/parser.rs.
pub mod Bounds
use pdfv.Base.{
  ℕ, zero, suc, ◌+◌, ◌/◌, Bytes, Bool, not, ◌&&◌, List, [], ◌∷◌, ltb, leb, ◌==◌, length,
}
use pdfv.Float.{Float}
use pdfv.Limits.{ResourceLimits}
use pdfv.Error.{
  Result, ok, ◌>>=◌, ◌>>◌, ensure, text, malformed, limit_exceeded, arithmetic_overflow,
  u64_modulus, checked_add, ok_or,
}
use pdfv.Cursor.{Cursor, cursor_at, skip_required_ws}
use pdfv.Cos.{ObjectKey, Dictionary}
use pdfv.Cos.Fields.{non_negative_u64_from_dictionary, non_negative_usize_from_dictionary}
use pdfv.Lexer.{parse_unsigned, parse_unsigned_u32}
use pdfv.Object.{parse_object}
use pdfv.Body.{IndirectObject}

abbrev pub key_eq : ObjectKey → ObjectKey → Bool
key_eq j k = j.number == k.number && j.generation == k.generation

-- The loop over the headers: `count` are left.
unfoldable pub stream_headers : ℕ → Cursor → Result (List (ObjectKey × ℕ))
stream_headers zero c = ok []
stream_headers (suc count) c = do
  (some_number, after_number) ← parse_unsigned_u32 c
  number ← ok_or some_number (malformed (text "object stream missing object number"))
  second ← ok_or (skip_required_ws after_number) (malformed (text "expected whitespace"))
  (some_offset, after) ← parse_unsigned u64_modulus second
  relative_offset ← ok_or some_offset (malformed (text "object stream missing object offset"))
  ensure (not (number == 0)) (malformed (text "object number must be non-zero"))
  rest ← stream_headers count after
  ok ((record { number = number; generation = 0 }, relative_offset) ∷ rest)

module _ (float : Float) (limits : ResourceLimits) (stream_key : ObjectKey) (decoded : Bytes) where
  -- The loop over the objects. The stream's bytes begin at `start` in its source.
  unfoldable pub stream_objects :
      ℕ → ℕ → List (ObjectKey × ℕ) → Result (List (IndirectObject float.F64))
  stream_objects start first [] = ok []
  stream_objects start first (header ∷ headers) = do
    object_pos ← checked_add first header.1 (arithmetic_overflow "object stream offset")
    ensure (ltb object_pos (length decoded))
        (malformed (text "object stream object offset exceeds decoded bytes"))
    (object, after) ←
        parse_object float limits (limits.max_object_depth + 2) 0 (cursor_at decoded object_pos)
    offset ← checked_add start object_pos (arithmetic_overflow "object stream object offset")
    ensure (not (key_eq header.0 stream_key))
        (malformed (text "object stream cannot contain itself"))
    rest ← stream_objects start first headers
    ok (record { key = header.0; offset = offset; object = object } ∷ rest)

  unfoldable pub parse_object_stream :
      ℕ → Dictionary float.F64 → Result (List (IndirectObject float.F64))
  parse_object_stream start entries = do
    count ← non_negative_u64_from_dictionary entries "N"
    ensure (leb count limits.max_objects) (limit_exceeded "max_objects")
    first ← non_negative_usize_from_dictionary entries "First"
    ensure (leb first (length decoded))
        (malformed (text "object stream first offset exceeds decoded bytes"))
    ensure (not (ltb 0 count && ltb (first / 4) count))
        (malformed (text "object stream header too short for object count"))
    headers ← stream_headers count (cursor_at decoded 0)
    stream_objects start first headers
