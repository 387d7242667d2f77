-- ===== src/Xref.antt =====
-- Cross-reference streams of crates/core/src/parser.rs: `xref_widths`, `xref_indexes`,
-- `read_be_uint` and `parse_xref_stream`.
pub mod Entries
use pdfv.Base.{
  ℕ, zero, suc, ◌+◌, ◌-◌, ◌*◌, ◌%◌, Bytes, Bool, not, ◌&&◌, Option, none, some, List, [], ◌∷◌, ltb,
  leb, ◌==◌, if◌then◌else◌, length, take, drop,
}
use pdfv.Limits.{ResourceLimits}
use pdfv.Error.{
  Result, ok, err, ◌>>=◌, ◌>>◌, ensure, text, malformed, limit_exceeded, arithmetic_overflow,
  u64_modulus, checked_add, checked_mul, ok_or,
}
use pdfv.Name.{codes}
use pdfv.Cos.{
  CosObject, integer, array, CosArray, nil, cons, Dictionary, StreamData, ObjectKey, get, array_len,
}
use pdfv.Cos.Fields.{to_unsigned, integer_value, non_negative_u64_from_dictionary}
use pdfv.Decode.{DecoderRegistry}
use pdfv.Log.{Log, decode_stream}

pub record Widths : Type 0 where
  pub kind : ℕ
  pub second : ℕ
  pub third : ℕ

module _ {F : Type 0} where
  unfoldable pub xref_width : CosObject F → Result ℕ
  xref_width (integer value) = do
    width ←
        ok_or (to_unsigned u64_modulus value)
          (malformed (text "xref stream W entry must be non-negative"))
    ensure (leb width 8) (malformed (text "xref stream W entry exceeds supported width"))
    ok width
  xref_width _ = err (malformed (text "xref stream W entry must be integer"))

  abbrev three_widths : CosArray F → Result Widths
  three_widths (cons a (cons b (cons c nil))) = do
    kind ← xref_width a
    second ← xref_width b
    third ← xref_width c
    ok (record { kind = kind; second = second; third = third })
  three_widths _ = err (malformed (text "xref stream W array must have three entries"))

  abbrev widths_of : Option (CosObject F) → Result Widths
  widths_of (some (array values)) = three_widths values
  widths_of _ = err (malformed (text "xref stream missing W array"))

  unfoldable pub xref_widths : Dictionary F → Result Widths
  unfolding xref_width
  xref_widths dictionary = widths_of (get (codes "W") dictionary)

  -- The loop over `values.chunks(2)`.
  unfoldable pub index_pairs : CosArray F → Result (List (ℕ × ℕ))
  index_pairs nil = ok []
  index_pairs (cons a nil) = do
    first ← integer_value (some a) (malformed (text "xref stream Index first must be integer"))
    count ← integer_value {F = F} none (malformed (text "xref stream Index count must be integer"))
    err (malformed (text "xref stream Index count must be integer"))
  index_pairs (cons a (cons b values)) = do
    first ← integer_value (some a) (malformed (text "xref stream Index first must be integer"))
    count ← integer_value (some b) (malformed (text "xref stream Index count must be integer"))
    first' ←
        ok_or (to_unsigned u64_modulus first)
          (malformed (text "xref stream Index first must be non-negative"))
    count' ←
        ok_or (to_unsigned u64_modulus count)
          (malformed (text "xref stream Index count must be non-negative"))
    end ← checked_add first' count' (arithmetic_overflow "xref stream Index")
    rest ← index_pairs values
    ok ((first', count') ∷ rest)

  abbrev indexes_of : Option (CosObject F) → ℕ → Result (List (ℕ × ℕ))
  indexes_of none size = ok ((0, size) ∷ [])
  indexes_of (some (array values)) size = do
    ensure (array_len values % 2 == 0) (malformed (text "xref stream Index must contain pairs"))
    index_pairs values
  indexes_of (some _) size = err (malformed (text "xref stream Index must be an array"))

  unfoldable pub xref_indexes : Dictionary F → ℕ → Result (List (ℕ × ℕ))
  unfolding index_pairs
  xref_indexes dictionary size = indexes_of (get (codes "Index") dictionary) size

-- The fold over the bytes of a field, checked at 64 bits.
unfoldable pub be_value : ℕ → Bytes → Result ℕ
be_value value [] = ok value
be_value value (b ∷ field) = do
  shifted ← checked_mul value 256 (arithmetic_overflow "xref stream field")
  next ← checked_add shifted b (arithmetic_overflow "xref stream field")
  be_value next field

-- The field's value, and the position after it.
unfoldable pub read_be_uint : Bytes → ℕ → ℕ → Result (ℕ × ℕ)
read_be_uint bytes pos width = do
  end ← checked_add pos width (arithmetic_overflow "xref stream field")
  ensure (leb end (length bytes)) (malformed (text "xref stream field out of bounds"))
  value ← be_value 0 (take width (drop pos bytes))
  ok (value, end)

abbrev entry_kind : Bytes → ℕ → ℕ → Result (ℕ × ℕ)
entry_kind decoded pos width = if width == 0 then ok (1, pos) else read_be_uint decoded pos width

-- `count` entries from `pos` on: the position after them, and the compressed entries so far.
unfoldable pub read_entries : Widths → Bytes → ℕ → ℕ → ℕ → Result (ℕ × ℕ)
read_entries widths decoded zero pos compressed = ok (pos, compressed)
read_entries widths decoded (suc count) pos compressed = do
  (kind, after_kind) ← entry_kind decoded pos widths.kind
  (field_two, after_two) ← read_be_uint decoded after_kind widths.second
  (field_three, after_three) ← read_be_uint decoded after_two widths.third
  (let add = arithmetic_overflow "compressed xref entries" in
      if kind == 2
      then (do
        more ← checked_add compressed 1 add
        read_entries widths decoded count after_three more)
      else read_entries widths decoded count after_three compressed)

unfoldable pub read_sections : Widths → Bytes → List (ℕ × ℕ) → ℕ → ℕ → Result (ℕ × ℕ)
read_sections widths decoded [] pos compressed = ok (pos, compressed)
read_sections widths decoded (section ∷ sections) pos compressed = do
  (after, more) ← read_entries widths decoded section.1 pos compressed
  read_sections widths decoded sections after more

unfoldable pub entry_width : Widths → Result ℕ
entry_width widths = do
  two ← checked_add widths.kind widths.second (arithmetic_overflow "xref stream entry width")
  checked_add two widths.third (arithmetic_overflow "xref stream entry width")

unfoldable pub total_entries : ℕ → List (ℕ × ℕ) → Result ℕ
total_entries sum [] = ok sum
total_entries sum (section ∷ sections) = do
  next ← checked_add sum section.1 (arithmetic_overflow "xref stream entries")
  total_entries next sections

pub record XrefStreamSummary : Type 0 where
  pub decoded_bytes : ℕ
  pub entries : ℕ
  pub compressed_entries : ℕ

-- `parse_xref_stream` from the decoded bytes on.
unfoldable pub summarize_entries :
    ResourceLimits → Widths → List (ℕ × ℕ) → ℕ → Bytes → Result XrefStreamSummary
summarize_entries limits widths indexes width decoded = do
  total ← total_entries 0 indexes
  ensure (leb total limits.max_objects) (limit_exceeded "max_objects")
  required ← checked_mul total width (arithmetic_overflow "xref stream bytes")
  ensure (leb required (length decoded))
      (malformed (text "xref stream data shorter than declared entries"))
  (pos, compressed) ← read_sections widths decoded indexes 0 0
  ok (record { decoded_bytes = length decoded; entries = total; compressed_entries = compressed })

unfoldable pub parse_xref_stream :
    {F : Type 0}
    → DecoderRegistry
    → ResourceLimits
    → ObjectKey
    → Dictionary F
    → StreamData
    → Log
    → Result (XrefStreamSummary × Log)
unfolding summarize_entries
parse_xref_stream registry limits key dictionary stream log = do
  size ← non_negative_u64_from_dictionary dictionary "Size"
  ensure (leb size limits.max_objects) (limit_exceeded "max_objects")
  widths ← xref_widths dictionary
  indexes ← xref_indexes dictionary size
  width ← entry_width widths
  ensure (not (width == 0)) (malformed (text "xref stream entry width must be non-zero"))
  (decoded, log') ← decode_stream registry limits key stream log
  summary ← summarize_entries limits widths indexes width decoded
  ok (summary, log')
