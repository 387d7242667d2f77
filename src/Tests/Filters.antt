-- ===== src/Tests/Filters.antt =====
-- The decoders of crates/core/src/parser.rs at concrete inputs.
use pdfv.Base.{
  ℕ, List, [], ◌∷◌, ◌++◌, ◌≡◌, ◌≢◌, ◌↔◌, ◌≤◌, ◌<◌, ◌*◌, ◌+◌, ◌^◌, ◌⊎◌, refl, arith, length, some,
  none,
}
use pdfv.Error.{ok, diverged}
use pdfv.Filter.Output.{extend_limited}
use pdfv.Filter.Params.{DecodeParams}
use pdfv.Filter.AsciiHex.{ascii_hex_decode}
use pdfv.Filter.AsciiHex.Language.{HexText, pack, ascii_hex_decode_iff}
use pdfv.Filter.RunLength.{run_length_decode}
use pdfv.Filter.RunLength.Language.{RunText, run_length_decode_iff, run_length_decode_total}
use pdfv.Filter.Ascii85.{ascii85_decode}
use pdfv.Filter.Ascii85.RoundTrip.{ascii85_encode, ascii85_decode-encode}
use pdfv.Filter.Predictor.{
  apply_png_predictor, apply_tiff_predictor, predictor_geometry, paeth_predictor,
}
use pdfv.Filter.Predictor.Png.{png_encode, apply_png_predictor-encode}
use pdfv.Filter.Predictor.Tiff.{tiff_encode, apply_tiff_predictor-encode}
use pdfv.Filter.Predictor.Paeth.{distance, paeth_predictor_nearest}
use pdfv.Filter.Predictor.Geometry.{InRange, predictor_geometry_lem}
use pdfv.Filter.Lzw.{initial_lzw_dictionary, decode_lzw, read_bits, lzw_clear, lzw_code, Lzw}
use pdfv.Filter.Lzw.Reader.{read_bits_lem}
use pdfv.Filter.Lzw.Invariant.{IsValid, lzw_clear-IsValid, lzw_code-IsValid}
use pdfv.Filter.Lzw.Errors.{Ends, decode_lzw-Ends}

ascii_hex_decode_iff_example :
    (ascii_hex_decode 10 (b'4' ∷ b'8' ∷ b'7' ∷ b'>' ∷ []) ≡ ok (72 ∷ 112 ∷ [])) ↔ (
      (digits : List ℕ) × HexText (b'4' ∷ b'8' ∷ b'7' ∷ b'>' ∷ []) digits
      × (72 ∷ 112 ∷ [] ≡ pack none digits)
      × (length {A = ℕ} (72 ∷ 112 ∷ []) ≤ 10))
ascii_hex_decode_iff_example =
    ascii_hex_decode_iff 10 (b'4' ∷ b'8' ∷ b'7' ∷ b'>' ∷ []) (72 ∷ 112 ∷ []) (omega arith)

run_length_decode_iff_example :
    (run_length_decode 10 (1 ∷ 65 ∷ 66 ∷ 254 ∷ 67 ∷ 128 ∷ []) ≡ ok (65 ∷ 66 ∷ 67 ∷ 67 ∷ 67 ∷ []))
    ↔ (RunText (1 ∷ 65 ∷ 66 ∷ 254 ∷ 67 ∷ 128 ∷ []) (65 ∷ 66 ∷ 67 ∷ 67 ∷ 67 ∷ [])
        × (length {A = ℕ} (65 ∷ 66 ∷ 67 ∷ 67 ∷ 67 ∷ []) ≤ 10))
run_length_decode_iff_example =
    run_length_decode_iff 10 (1 ∷ 65 ∷ 66 ∷ 254 ∷ 67 ∷ 128 ∷ []) (65 ∷ 66 ∷ 67 ∷ 67 ∷ 67 ∷ [])
      (omega arith)

run_length_decode_total_example : run_length_decode 10 (1 ∷ 65 ∷ 66 ∷ 254 ∷ 67 ∷ []) ≢ diverged
run_length_decode_total_example = run_length_decode_total 10 (1 ∷ 65 ∷ 66 ∷ 254 ∷ 67 ∷ [])

ascii85_decode-encode_example :
    ascii85_decode 10 (ascii85_encode (77 ∷ 97 ∷ 110 ∷ 32 ∷ 33 ∷ []) ++ b'~' ∷ b'>' ∷ b'x' ∷ [])
    ≡ ok (77 ∷ 97 ∷ 110 ∷ 32 ∷ 33 ∷ [])
ascii85_decode-encode_example =
    ascii85_decode-encode (77 ∷ 97 ∷ 110 ∷ 32 ∷ 33 ∷ []) 10 (b'x' ∷ []) (ground arith) (omega arith)
      (omega arith)

-- Rows of two bytes.
abbrev gray_params : DecodeParams
gray_params = record {
  predictor = 15;
  colors = 1;
  bits_per_component = 8;
  columns = 2;
  early_change = 1;
  crypt_filter_name = none;
}

gray_geometry : predictor_geometry gray_params ≡ ok (2, 1)
unfolding predictor_geometry
gray_geometry = refl

apply_png_predictor-encode_example :
    apply_png_predictor (png_encode 2 1 (4 ∷ 2 ∷ []) (7 ∷ 9 ∷ 250 ∷ 3 ∷ [])) gray_params 10
    ≡ ok (7 ∷ 9 ∷ 250 ∷ 3 ∷ [])
apply_png_predictor-encode_example =
    apply_png_predictor-encode gray_params 2 1 (4 ∷ 2 ∷ []) (7 ∷ 9 ∷ 250 ∷ 3 ∷ []) 10 gray_geometry
      (ground arith) (ground arith) refl (omega arith) (omega arith)

apply_tiff_predictor-encode_example :
    apply_tiff_predictor (tiff_encode 2 1 2 (7 ∷ 9 ∷ 250 ∷ 3 ∷ [])) gray_params 10
    ≡ ok (7 ∷ 9 ∷ 250 ∷ 3 ∷ [])
apply_tiff_predictor-encode_example =
    apply_tiff_predictor-encode gray_params 2 1 2 (7 ∷ 9 ∷ 250 ∷ 3 ∷ []) 10 gray_geometry
      (ground arith) refl (omega arith)

paeth_predictor_nearest_example :
    ((paeth_predictor 9 4 6 ≡ 9)
      × (distance 9 4 6 9 ≤ distance 9 4 6 4)
      × (distance 9 4 6 9 ≤ distance 9 4 6 6))
    ⊎ (((paeth_predictor 9 4 6 ≡ 4)
          × (distance 9 4 6 4 < distance 9 4 6 9)
          × (distance 9 4 6 4 ≤ distance 9 4 6 6))
        ⊎ ((paeth_predictor 9 4 6 ≡ 6)
            × (distance 9 4 6 6 < distance 9 4 6 4)
            × (distance 9 4 6 6 < distance 9 4 6 9)))
paeth_predictor_nearest_example = paeth_predictor_nearest 9 4 6

read_bits_lem_example :
    ((v : ℕ) × (read_bits (128 ∷ 11 ∷ []) 0 9 ≡ ok (some v))
      × (v < 2 ^ 9)
      × (0 + 9 ≤ length {A = ℕ} (128 ∷ 11 ∷ []) * 8))
    ⊎ ((read_bits (128 ∷ 11 ∷ []) 0 9 ≡ ok none) × (length {A = ℕ} (128 ∷ 11 ∷ []) * 8 < 0 + 9))
read_bits_lem_example = read_bits_lem (128 ∷ 11 ∷ []) 0 9 (omega arith) (omega arith) (omega arith)

decode_lzw-Ends_example :
    Ends
      (λ out. length out ≤ 100)
      (decode_lzw (128 ∷ 11 ∷ 96 ∷ 80 ∷ 34 ∷ 12 ∷ 12 ∷ 133 ∷ 1 ∷ []) 1 100)
decode_lzw-Ends_example =
    decode_lzw-Ends (128 ∷ 11 ∷ 96 ∷ 80 ∷ 34 ∷ 12 ∷ 12 ∷ 133 ∷ 1 ∷ []) 1 100 (omega arith)

gray_range : InRange gray_params
gray_range = record { colors = omega arith; bits = omega arith; columns = omega arith }

predictor_geometry_lem_example : predictor_geometry gray_params ≡ ok (2, 1)
predictor_geometry_lem_example = predictor_geometry_lem gray_params gray_range

abbrev after_letter : Lzw
after_letter = record (lzw_clear []) { output = 65 ∷ []; previous = some (65 ∷ []) }

letter_step : lzw_code 1 100 (lzw_clear []) 65 ≡ ok after_letter
unfolding lzw_code lzw_clear initial_lzw_dictionary extend_limited
letter_step = refl

lzw_code-IsValid_example : IsValid 1 after_letter
lzw_code-IsValid_example =
    lzw_code-IsValid 1 100 (lzw_clear []) 65 after_letter (lzw_clear-IsValid 1 [])
      (ground arith, ground arith) letter_step
