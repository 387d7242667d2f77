-- ===== src/Filter/Predictor/Tiff.antt =====
-- An encoder for the TIFF predictor: horizontal differencing of bytes.
use mathlib.Core.List.{append_assoc, append-nil}
use native.Mathlib.Nat.{mul-div_cancel, mul-mod_left}
use pdfv.Base.{
  ℕ, zero, suc, ◌-◌, ◌*◌, ◌≤◌, ◌<◌, Bytes, IsByte, IsBytes, some, [], ◌∷◌, ◌++◌, ◌≡◌, refl, ap, ◌∙◌,
  arith, ltb, if◌then◌else◌, take, drop, length, get_elem?, All-append, All-take, All-drop,
  length-append, length-take, length-drop, take-append, drop-append, take-append-drop, inl, inr,
  Bool-cases,
}
use pdfv.Error.{ok}
use pdfv.Filter.Output.{enforce_decoded_len}
use pdfv.Filter.Params.{DecodeParams}
use pdfv.Filter.Predictor.{tiff_row, tiff_rows, predictor_geometry, apply_tiff_predictor}
use pdfv.Filter.Predictor.Geometry.{predictor_geometry-bounds}
use pdfv.Filter.Predictor.Filters.{residual, wrapping_add-residual, get_elem?-IsByte}

-- `row` holds the original bytes before the ones that are left.
abbrev pub difference_row : ℕ → Bytes → Bytes → Bytes
difference_row bpp row [] = []
difference_row bpp row (byte ∷ rest) =
    (if ltb (length row) bpp
      then byte
      else residual byte (elim (get_elem? row (length row - bpp)) [ some b ↦ b | _ ↦ 0 ]))
    ∷ difference_row bpp (row ++ byte ∷ []) rest

abbrev difference_rows : ℕ → ℕ → ℕ → Bytes → Bytes
difference_rows row_bytes bpp zero bytes = []
difference_rows row_bytes bpp (suc rows) bytes =
    difference_row bpp [] (take row_bytes bytes)
    ++ difference_rows row_bytes bpp rows (drop row_bytes bytes)

pub tiff_encode : ℕ → ℕ → ℕ → Bytes → Bytes
tiff_encode row_bytes bpp rows bytes = difference_rows row_bytes bpp rows bytes

module _ (row_bytes bpp : ℕ) (wide : 0 < row_bytes) (deep : 0 < bpp) where
  tiff_row-difference :
      (row rest : Bytes)
      → IsBytes row
      → IsBytes rest
      → tiff_row bpp row (difference_row bpp row rest) ≡ ok (row ++ rest)
  unfolding tiff_row
  tiff_row-difference row [] h k = rw append-nil
  tiff_row-difference row (byte ∷ rest) h k =
      let ih =
        tiff_row-difference (row ++ byte ∷ []) rest (All-append IsByte row (byte ∷ []) h (k.0, tt))
          k.1
        ∙ ap ok (append_assoc row (byte ∷ []) rest) in
      elim (Bool-cases (ltb (length row) bpp)) [
        | inl first ↦ rw first ih
        | inr later ↦
            let (b, e, small) = get_elem?-IsByte row (length row - bpp) h (ground arith) in
            rw (later, e, wrapping_add-residual byte b k.0 small) ih
      ]

  length-difference_row : (row rest : Bytes) → length (difference_row bpp row rest) ≡ length rest
  length-difference_row row [] = refl
  length-difference_row row (byte ∷ rest) = ap suc (length-difference_row (row ++ byte ∷ []) rest)

  tiff_rows-difference :
      (rows : ℕ) (bytes : Bytes)
      → IsBytes bytes
      → length bytes ≡ rows * row_bytes
      → (tiff_rows row_bytes bpp rows (difference_rows row_bytes bpp rows bytes) ≡ ok bytes)
        × (length (difference_rows row_bytes bpp rows bytes) ≡ rows * row_bytes)
  unfolding tiff_rows
  tiff_rows-difference zero [] k e = (refl, omega arith)
  tiff_rows-difference zero (byte ∷ bytes) k e = absurd (omega arith)
  tiff_rows-difference (suc rows) bytes k e =
      let row = take row_bytes bytes in
      let rest = drop row_bytes bytes in
      let room : row_bytes ≤ length bytes = rw e (grind arith) in
      let size = length-take row_bytes bytes room in
      let left = length-drop row_bytes bytes in
      let coded = difference_row bpp [] row in
      let coded_size = length-difference_row [] row ∙ size in
      let more = difference_rows row_bytes bpp rows rest in
      let first = tiff_row-difference [] row tt (All-take IsByte row_bytes bytes k) in
      let (ih, ih_size) =
        tiff_rows-difference rows rest (All-drop IsByte row_bytes bytes k) (omega arith) in
      (
        rw
            (
              take-append coded more row_bytes coded_size,
              drop-append coded more row_bytes coded_size,
              first,
              ih,
            )
            (ap ok (take-append-drop row_bytes bytes)),
        omega (arith, length-append coded more),
      )

module _ (params : DecodeParams) (row_bytes bpp : ℕ) where
  -- For any geometry that the parameters give, the predictor undoes the differencing of bytes in
  -- whole rows that fit the limit.
  pub apply_tiff_predictor-encode :
      (rows : ℕ) (bytes : Bytes) (max : ℕ)
      → predictor_geometry params ≡ ok (row_bytes, bpp)
      → IsBytes bytes
      → length bytes ≡ rows * row_bytes
      → length bytes ≤ max
      → apply_tiff_predictor (tiff_encode row_bytes bpp rows bytes) params max ≡ ok bytes
  unfolding apply_tiff_predictor tiff_encode enforce_decoded_len
  apply_tiff_predictor-encode rows bytes max g k e fits =
      let (wide, deep, narrow) = predictor_geometry-bounds params row_bytes bpp g in
      let (done, size) = tiff_rows-difference row_bytes bpp wide deep rows bytes k e in
      let count = mul-div_cancel rows {n = row_bytes} wide in
      let whole = mul-mod_left rows row_bytes in
      let small : rows * row_bytes ≤ max = rw (← e) fits in
      rw (g, size, whole, count) (ground (arith, done))
