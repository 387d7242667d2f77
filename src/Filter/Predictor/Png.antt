-- ===== src/Filter/Predictor/Png.antt =====
-- An encoder for the PNG predictor, with a filter for each row.
use mathlib.Core.List.{append_assoc, append-nil}
use native.Mathlib.Nat.{mul-div_cancel, mul-mod_left}
use pdfv.Base.{
  ℕ, suc, ◌+◌, ◌*◌, ◌≤◌, ◌<◌, Bytes, IsByte, IsBytes, ◌&&◌, List, [], ◌∷◌, ◌++◌, ◌≡◌, refl, ap, ◌∙◌,
  arith, leb, ltb, take, drop, length, All, All-append, length-append, length-take, length-drop,
  ltb→lt, All-take, All-drop, take-append-drop, take-append, drop-append, lt→ltb,
}
use pdfv.Filter.Params.{DecodeParams}
use pdfv.Filter.Output.{enforce_decoded_len}
use pdfv.Filter.Predictor.Geometry.{predictor_geometry-bounds}
use pdfv.Error.{ok, u64_modulus}
use pdfv.Filter.Predictor.{png_row, png_rows, predictor_geometry, apply_png_predictor}
use pdfv.Filter.Predictor.Filters.{
  prediction, residual, neighbour, png_neighbour-eq_ok, png_predictor_value-residual,
}

-- The three neighbours of the next byte.
abbrev lefts : ℕ → ℕ → Bytes → ℕ
lefts bpp index output = neighbour (leb bpp index) output bpp

abbrev ups : ℕ → ℕ → Bytes → ℕ
ups row_bytes row_index output = neighbour (ltb 0 row_index) output row_bytes

abbrev up_lefts : ℕ → ℕ → ℕ → ℕ → Bytes → ℕ
up_lefts row_bytes bpp row_index index output =
    neighbour (ltb 0 row_index && leb bpp index) output (row_bytes + bpp)

abbrev pub predicted : ℕ → ℕ → ℕ → ℕ → ℕ → Bytes → ℕ
predicted row_bytes bpp row_index filter index output =
    prediction filter (lefts bpp index output) (ups row_bytes row_index output)
      (up_lefts row_bytes bpp row_index index output)

-- The encoder of one row: `output` holds the original bytes before it.
abbrev pub encode_row : ℕ → ℕ → ℕ → ℕ → ℕ → Bytes → Bytes → Bytes
encode_row row_bytes bpp row_index filter index output [] = []
encode_row row_bytes bpp row_index filter index output (byte ∷ row) =
    residual byte (predicted row_bytes bpp row_index filter index output)
    ∷ encode_row row_bytes bpp row_index filter (index + 1) (output ++ byte ∷ []) row

-- The encoder of the rows, one filter for each.
abbrev pub encode_rows : ℕ → ℕ → ℕ → List ℕ → Bytes → Bytes → Bytes
encode_rows row_bytes bpp row_index [] output bytes = []
encode_rows row_bytes bpp row_index (filter ∷ filters) output bytes =
    let row = take row_bytes bytes in
    filter
    ∷ (encode_row row_bytes bpp row_index filter 0 output row
        ++ encode_rows row_bytes bpp (row_index + 1) filters (output ++ row) (drop row_bytes bytes))

pub png_encode : ℕ → ℕ → List ℕ → Bytes → Bytes
png_encode row_bytes bpp filters bytes = encode_rows row_bytes bpp 0 filters [] bytes

module _ (row_bytes bpp : ℕ) (wide : 0 < row_bytes) (deep : 0 < bpp) where
  png_row-encode :
      (row_index filter index : ℕ) (output row : Bytes)
      → filter < 5
      → IsBytes output
      → IsBytes row
      → index ≤ length output
      → (0 < row_index → 0 < length output)
      → png_row row_bytes bpp row_index filter index output
          (encode_row row_bytes bpp row_index filter index output row)
        ≡ ok (output ++ row)
  unfolding png_row
  png_row-encode row_index filter index output [] f h k l u = rw append-nil
  png_row-encode row_index filter index output (byte ∷ row) f h k l u =
      let (left, left_small) =
        png_neighbour-eq_ok "PNG predictor left byte missing" (leb bpp index) output bpp h deep
          (λ e. ground arith) in
      let (up, up_small) =
        png_neighbour-eq_ok "PNG predictor upper byte missing" (ltb 0 row_index) output row_bytes h
          wide (λ e. u (ltb→lt 0 row_index e)) in
      let (corner, corner_small) =
        png_neighbour-eq_ok "PNG predictor upper-left byte missing"
          (ltb 0 row_index && leb bpp index) output (row_bytes + bpp) h (omega arith)
          (λ e. ground arith) in
      let value =
        png_predictor_value-residual filter byte _ _ _ f k.0 left_small up_small corner_small in
      let grown = length-append output (byte ∷ []) in
      rw (left, up, corner, value)
        (png_row-encode row_index filter (index + 1) (output ++ byte ∷ []) row f
            (All-append IsByte output (byte ∷ []) h (k.0, tt)) k.1 (omega arith) (λ p. omega arith)
          ∙ ap ok (append_assoc output (byte ∷ []) row))

  length-encode_row :
      (row_index filter index : ℕ) (output row : Bytes)
      → length (encode_row row_bytes bpp row_index filter index output row) ≡ length row
  length-encode_row row_index filter index output [] = refl
  length-encode_row row_index filter index output (byte ∷ row) =
      ap suc (length-encode_row row_index filter (index + 1) (output ++ byte ∷ []) row)

  -- One round of the loop over the rows.
  png_rows_step :
      (row_index rows filter : ℕ) (output output' encoded more : Bytes)
      → length encoded ≡ row_bytes
      → png_row row_bytes bpp row_index filter 0 output encoded ≡ ok output'
      → png_rows row_bytes bpp row_index (suc rows) output (filter ∷ (encoded ++ more))
        ≡ png_rows row_bytes bpp (row_index + 1) rows output' more
  unfolding png_rows
  png_rows_step row_index rows filter output output' encoded more e h =
      rw (take-append encoded more row_bytes e, drop-append encoded more row_bytes e, h)
        (ground (arith, length-append encoded more))

  -- The rows above are written, and `bytes` are the rows that are left.
  png_rows-encode :
      (filters : List ℕ) (row_index : ℕ) (output bytes : Bytes)
      → All (λ f. f < 5) filters
      → IsBytes output
      → IsBytes bytes
      → length bytes ≡ length filters * row_bytes
      → (0 < row_index → 0 < length output)
      → png_rows row_bytes bpp row_index
          (length filters)
          output
          (encode_rows row_bytes bpp row_index filters output bytes)
        ≡ ok (output ++ bytes)
  unfolding png_rows
  png_rows-encode [] row_index output [] f h k e u = rw append-nil
  png_rows-encode [] row_index output (byte ∷ bytes) f h k e u = absurd (omega arith)
  png_rows-encode (filter ∷ filters) row_index output bytes f h k e u =
      let row = take row_bytes bytes in
      let rest = drop row_bytes bytes in
      let room : row_bytes ≤ length bytes = rw e (grind arith) in
      let size = length-take row_bytes bytes room in
      let encoded = encode_row row_bytes bpp row_index filter 0 output row in
      let more = encode_rows row_bytes bpp (row_index + 1) filters (output ++ row) rest in
      let encoded_size = length-encode_row row_index filter 0 output row ∙ size in
      let total = length-append encoded more in
      let grown = length-append output row in
      png_rows_step row_index (length filters) filter output (output ++ row) encoded more
        encoded_size
        (png_row-encode row_index filter 0 output row f.0 h (All-take IsByte row_bytes bytes k)
          (omega arith) u)
      ∙ png_rows-encode filters (row_index + 1) (output ++ row) rest f.1
          (All-append IsByte output row h (All-take IsByte row_bytes bytes k))
          (All-drop IsByte row_bytes bytes k) (omega (arith, length-drop row_bytes bytes))
          (λ p. omega arith)
      ∙ ap ok (append_assoc output row rest ∙ ap (◌++◌ output) (take-append-drop row_bytes bytes))

  length-encode_rows :
      (filters : List ℕ) (row_index : ℕ) (output bytes : Bytes)
      → length bytes ≡ length filters * row_bytes
      → length (encode_rows row_bytes bpp row_index filters output bytes)
        ≡ length filters * (row_bytes + 1)
  length-encode_rows [] row_index output bytes e = omega arith
  length-encode_rows (filter ∷ filters) row_index output bytes e =
      let row = take row_bytes bytes in
      let rest = drop row_bytes bytes in
      let room : row_bytes ≤ length bytes = rw e (grind arith) in
      let size = length-take row_bytes bytes room in
      let left = length-drop row_bytes bytes in
      let encoded = encode_row row_bytes bpp row_index filter 0 output row in
      let more = encode_rows row_bytes bpp (row_index + 1) filters (output ++ row) rest in
      let encoded_size = length-encode_row row_index filter 0 output row in
      let ih = length-encode_rows filters (row_index + 1) (output ++ row) rest (omega arith) in
      omega (arith, length-append encoded more)

module _ (params : DecodeParams) (row_bytes bpp : ℕ) where
  -- For any geometry that the parameters give, the predictor undoes the encoder: any bytes in whole
  -- rows, with any of the five filters on each row. The bytes and the encoded bytes have lengths
  -- that a `usize` holds, and the bytes fit the limit.
  pub apply_png_predictor-encode :
      (filters : List ℕ) (bytes : Bytes) (max : ℕ)
      → predictor_geometry params ≡ ok (row_bytes, bpp)
      → All (λ f. f < 5) filters
      → IsBytes bytes
      → length bytes ≡ length filters * row_bytes
      → length bytes ≤ max
      → max < u64_modulus
      → apply_png_predictor (png_encode row_bytes bpp filters bytes) params max ≡ ok bytes
  unfolding apply_png_predictor png_encode enforce_decoded_len
  apply_png_predictor-encode filters bytes max g f k e fits m =
      let (wide, deep, narrow) = predictor_geometry-bounds params row_bytes bpp g in
      let size = length-encode_rows row_bytes bpp wide deep filters 0 [] bytes e in
      let rows = mul-div_cancel (length filters) {n = row_bytes + 1} (omega arith) in
      let whole = mul-mod_left (length filters) (row_bytes + 1) in
      let done =
        png_rows-encode row_bytes bpp wide deep filters 0 [] bytes f tt k e
          (λ p. absurd (omega arith)) in
      rw (g, lt→ltb (row_bytes + 1) u64_modulus narrow, size, whole, rows) (ground (arith, done))
