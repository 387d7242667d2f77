-- ===== src/Filter/Predictor.antt =====
-- The predictors of crates/core/src/parser.rs: `apply_predictor` and what it calls. A buffer that
-- is written in order is the list of the bytes written so far, so that position `n` of the buffer
-- is written when `n` bytes are there.
pub mod Paeth
pub mod Filters
pub mod Png
pub mod Tiff
pub mod Geometry
use Prim.Native.Nat.{max}
use pdfv.Base.{
  ℕ, zero, suc, ◌+◌, ◌-◌, ◌*◌, ◌/◌, ◌%◌, Bytes, Bool, String, ◌&&◌, ◌||◌, not, Option, [], ◌∷◌,
  ◌++◌, leb, ltb, ◌==◌, if◌then◌else◌, take, drop, length, get_elem?,
}
use pdfv.Int.{ℤ, pos, sub_ℕ, ◌-ℤ◌, abs}
use pdfv.Error.{
  Result, ok, err, ◌>>=◌, ◌>>◌, ensure, text, stream_decode, arithmetic_overflow, checked_add,
  checked_mul, ok_or,
}
use pdfv.Filter.Output.{enforce_decoded_len}
use pdfv.Filter.Params.{DecodeParams}

abbrev failed {ℓ} : {A : Type ℓ} → Result A
failed = err (stream_decode (text "unsupported predictor"))

-- The number of bytes in a row, and in a pixel.
unfoldable pub predictor_geometry : DecodeParams → Result (ℕ × ℕ)
predictor_geometry params = do
  ensure (not (params.colors == 0 || params.bits_per_component == 0 || params.columns == 0))
      (stream_decode (text "invalid predictor geometry"))
  let row_size = arithmetic_overflow "predictor row size"
  let pixel_size = arithmetic_overflow "predictor pixel size"
  bits ← checked_mul params.colors params.bits_per_component row_size
  bits_per_row ← checked_mul bits params.columns row_size
  row_bits ← checked_add bits_per_row 7 row_size
  bytes_per_pixel_bits ← checked_mul params.colors params.bits_per_component pixel_size
  pixel_bits ← checked_add bytes_per_pixel_bits 7 pixel_size
  ok (row_bits / 8, max (pixel_bits / 8) 1)

-- `u8::wrapping_add`
abbrev pub wrapping_add : ℕ → ℕ → ℕ
wrapping_add a b = (a + b) % 256

-- One row in place, from left to right.
unfoldable pub tiff_row : ℕ → Bytes → Bytes → Result Bytes
tiff_row bytes_per_pixel row [] = ok row
tiff_row bytes_per_pixel row (byte ∷ rest) =
    let index = length row in
    let copied = tiff_row bytes_per_pixel (row ++ byte ∷ []) rest in
    if ltb index bytes_per_pixel then copied else do
      left ←
          ok_or (get_elem? row (index - bytes_per_pixel))
            (stream_decode (text "TIFF predictor left byte missing"))
      tiff_row bytes_per_pixel (row ++ wrapping_add byte left ∷ []) rest

-- `bytes.chunks_mut(row_bytes)`, with the number of rows.
unfoldable pub tiff_rows : ℕ → ℕ → ℕ → Bytes → Result Bytes
tiff_rows row_bytes bytes_per_pixel zero bytes = ok []
tiff_rows row_bytes bytes_per_pixel (suc rows) bytes = do
  row ← tiff_row bytes_per_pixel [] (take row_bytes bytes)
  rest ← tiff_rows row_bytes bytes_per_pixel rows (drop row_bytes bytes)
  ok (row ++ rest)

unfoldable pub apply_tiff_predictor : Bytes → DecodeParams → ℕ → Result Bytes
apply_tiff_predictor bytes params max_decode_bytes = do
  enforce_decoded_len (length bytes) max_decode_bytes
  (row_bytes, bytes_per_pixel) ← predictor_geometry params
  ensure (not (row_bytes == 0 || not (length bytes % row_bytes == 0)))
      (stream_decode (text "TIFF predictor row length mismatch"))
  tiff_rows row_bytes bytes_per_pixel (length bytes / row_bytes) bytes

-- On `i16`: the operands are bytes, so nothing overflows.
unfoldable pub paeth_predictor : ℕ → ℕ → ℕ → ℕ
paeth_predictor left up up_left =
    let estimate = sub_ℕ (left + up) up_left in
    let left_distance = abs (estimate -ℤ pos left) in
    let up_distance = abs (estimate -ℤ pos up) in
    let up_left_distance = abs (estimate -ℤ pos up_left) in
    if leb left_distance up_distance && leb left_distance up_left_distance
    then left
    else if leb up_distance up_left_distance
    then up
    else up_left

unfoldable pub png_predictor_value : ℕ → ℕ → ℕ → ℕ → ℕ → Result ℕ
png_predictor_value filter raw left up up_left =
    if filter == 0
    then ok raw
    else if filter == 1
    then ok (wrapping_add raw left)
    else if filter == 2
    then ok (wrapping_add raw up)
    else if filter == 3
    then (if ltb ((left + up) / 2) 256
        then ok (wrapping_add raw ((left + up) / 2))
        else err (stream_decode (text "PNG predictor average byte out of range")))
    else if filter == 4
    then ok (wrapping_add raw (paeth_predictor left up up_left))
    else err (stream_decode (text "invalid PNG predictor filter"))

-- A byte at `distance` before the place that is written next, or 0 at an edge.
unfoldable pub png_neighbour : String → Bool → Bytes → ℕ → Result ℕ
png_neighbour missing inside output distance =
    if inside
    then ok_or (get_elem? output (length output - distance)) (stream_decode (text missing))
    else ok 0

-- One row: `row_index` rows are above it, and `index` of its bytes are written.
unfoldable pub png_row : ℕ → ℕ → ℕ → ℕ → ℕ → Bytes → Bytes → Result Bytes
unfolding png_neighbour
png_row row_bytes bytes_per_pixel row_index filter index output [] = ok output
png_row row_bytes bytes_per_pixel row_index filter index output (raw ∷ encoded) = do
  left ←
      png_neighbour "PNG predictor left byte missing" (leb bytes_per_pixel index) output
        bytes_per_pixel
  up ← png_neighbour "PNG predictor upper byte missing" (ltb 0 row_index) output row_bytes
  up_left ←
      png_neighbour "PNG predictor upper-left byte missing"
        (ltb 0 row_index && leb bytes_per_pixel index) output (row_bytes + bytes_per_pixel)
  value ← png_predictor_value filter raw left up up_left
  png_row row_bytes bytes_per_pixel row_index filter (index + 1) (output ++ value ∷ []) encoded

-- The rows that are left: a filter byte and the row's bytes each.
unfoldable pub png_rows : ℕ → ℕ → ℕ → ℕ → Bytes → Bytes → Result Bytes
png_rows row_bytes bytes_per_pixel row_index zero output bytes = ok output
png_rows row_bytes bytes_per_pixel row_index (suc rows) output [] =
    err (stream_decode (text "PNG predictor filter byte missing"))
png_rows row_bytes bytes_per_pixel row_index (suc rows) output (filter ∷ bytes) = do
  ensure (leb row_bytes (length bytes)) (stream_decode (text "PNG predictor row missing"))
  output' ← png_row row_bytes bytes_per_pixel row_index filter 0 output (take row_bytes bytes)
  png_rows row_bytes bytes_per_pixel (row_index + 1) rows output' (drop row_bytes bytes)

unfoldable pub apply_png_predictor : Bytes → DecodeParams → ℕ → Result Bytes
apply_png_predictor bytes params max_decode_bytes = do
  (row_bytes, bytes_per_pixel) ← predictor_geometry params
  encoded_row ← checked_add row_bytes 1 (arithmetic_overflow "PNG predictor row size")
  ensure (not (encoded_row == 0 || not (length bytes % encoded_row == 0)))
      (stream_decode (text "PNG predictor row length mismatch"))
  let row_count = length bytes / encoded_row
  output_capacity ←
      checked_mul row_count row_bytes (arithmetic_overflow "PNG predictor output length")
  enforce_decoded_len output_capacity max_decode_bytes
  png_rows row_bytes bytes_per_pixel 0 row_count [] bytes

unfoldable pub apply_predictor : Bytes → DecodeParams → ℕ → Result Bytes
apply_predictor bytes params max_decode_bytes =
    if params.predictor == 1
    then ok bytes
    else if params.predictor == 2
    then apply_tiff_predictor bytes params max_decode_bytes
    else if leb 10 params.predictor && leb params.predictor 15
    then apply_png_predictor bytes params max_decode_bytes
    else failed
