-- ===== src/Source.antt =====
-- Searching the source: `find_bytes`, `has_eol_before`, `line_had_eol`, `trim_eol_before`,
-- `endstream_after_optional_eol` and `count_trailing_ws` of crates/core/src/parser.rs.
use pdfv.Base.{
  ℕ, zero, suc, ◌+◌, ◌-◌, Bytes, Bool, true, false, ◌&&◌, ◌||◌, Option, none, some, [], ◌∷◌, ltb,
  leb, ◌==◌, if◌then◌else◌, length, take, drop, get_elem?,
}
use pdfv.Bytes.{is_ws}
use pdfv.Name.{codes, bytes_eq}
use pdfv.Error.{Result, ok, err, ◌>>=◌, text, malformed}
use pdfv.Cos.{StreamRange}
use pdfv.Cursor.{is_prefix, is_eol, cursor_at, starts_with}

-- `SourceStorage::find_bytes`: the first place at which `needle` stands between `start` and `end`.
unfoldable pub find_from : Bytes → ℕ → Bytes → Option ℕ
find_from needle pos [] = none
find_from needle pos (b ∷ rest) =
    let later = find_from needle (pos + 1) rest in
    if is_prefix needle (b ∷ rest) then some pos else later

unfoldable pub find_bytes : Bytes → Bytes → ℕ → ℕ → Option ℕ
unfolding find_from is_prefix
find_bytes source needle start end =
    if length needle == 0 || ltb end start || ltb (length source) end
    then none
    else find_from needle start (take (end - start) (drop start source))

abbrev eol_at : Option ℕ → Bool
eol_at none = false
eol_at (some b) = is_eol b

unfoldable pub has_eol_before : Bytes → ℕ → Bool
has_eol_before source zero = false
has_eol_before source (suc index) = eol_at (get_elem? source index)

abbrev found : Option ℕ → Bool
found none = false
found (some pos) = true

unfoldable pub line_had_eol : Bytes → ℕ → Bool
unfolding find_bytes
line_had_eol source line_start = elim (find_bytes source (b'\n' ∷ []) line_start (length source)) [
  | none ↦ found (find_bytes source (b'\r' ∷ []) line_start (length source))
  | some relative ↦ leb line_start relative
]

abbrev pub endstream_marker : Bytes
endstream_marker = codes "endstream"

unfoldable pub endstream_after_optional_eol : Bytes → ℕ → Option ℕ
endstream_after_optional_eol source offset =
    let c = cursor_at source offset in
    if starts_with endstream_marker c
    then some offset
    else if starts_with (b'\r' ∷ b'\n' ∷ endstream_marker) c
    then some (offset + 2)
    else if starts_with (b'\n' ∷ endstream_marker) c || starts_with (b'\r' ∷ endstream_marker) c
    then some (offset + 1)
    else none

unfoldable pub trim_eol_before : Bytes → ℕ → ℕ → ℕ
trim_eol_before source data_start keyword_pos =
    if leb (data_start + 2) keyword_pos
      && bytes_eq (take 2 (drop (keyword_pos - 2) source)) (b'\r' ∷ b'\n' ∷ [])
    then keyword_pos - 2
    else if ltb data_start keyword_pos && eol_at (get_elem? source (keyword_pos - 1))
    then keyword_pos - 1
    else keyword_pos

-- The count from the end, and whether all of the bytes are white space.
abbrev trailing : Bytes → ℕ × Bool
trailing [] = (0, true)
trailing (b ∷ bytes) =
    let more = trailing bytes in if more.1 && is_ws b then (suc more.0, true) else (more.0, false)

unfoldable pub count_trailing_ws : Bytes → ℕ
count_trailing_ws bytes = (trailing bytes).0

-- `SourceStorage`: the bytes in memory, or in a spill file that is read faithfully.
pub data SourceStorage : Type 0 where
  memory : Bytes → SourceStorage
  spill_file : Bytes → SourceStorage

abbrev pub source_bytes : SourceStorage → Bytes
source_bytes (memory bytes) = bytes
source_bytes (spill_file bytes) = bytes

-- `SourceStorage::slice`
unfoldable pub slice : Bytes → ℕ → ℕ → Result Bytes
slice source start end =
    if ltb end start || ltb (length source) end
    then err (malformed (text "byte range out of bounds"))
    else ok (take (end - start) (drop start source))

-- `SourceStorage::stream_source`: the bytes that a stream keeps, and its range in them.
unfoldable pub stream_source : SourceStorage → ℕ → ℕ → Result (Bytes × StreamRange)
unfolding slice
stream_source (memory bytes) start end = ok (bytes, record { start = start; end = end })
stream_source (spill_file source) start end = do
  bytes ← slice source start end
  ok (bytes, record { start = 0; end = length bytes })
