-- ===== src/Filter/AsciiHex.antt =====
-- `AsciiHexDecoder::decode` of crates/core/src/parser.rs.
pub mod Language
use pdfv.Base.{ℕ, Bytes, Option, none, some, List, [], ◌∷◌, ◌==◌, if◌then◌else◌}
use pdfv.Bytes.{is_ws, decode_hex_digit, hex_byte}
use pdfv.Error.{Result, ok, err, ◌>>=◌, text, stream_decode}
use pdfv.Filter.Output.{push_limited_byte}
use Prim.Native.Nat.{min, ◌*◌}

-- One digit joins the pending one, or waits for the next.
take_nibble : ℕ → Bytes → Option ℕ → ℕ → Result (Bytes × Option ℕ)
take_nibble max output none nibble = ok (output, some nibble)
take_nibble max output (some previous) nibble = do
  output' ← push_limited_byte output (hex_byte previous nibble) max
  ok (output', none)

hex_nibble : ℕ → Result ℕ
hex_nibble byte = elim (decode_hex_digit byte) [
  | none ↦ err (stream_decode (text "invalid ASCIIHex digit"))
  | some nibble ↦ ok nibble
]

ascii_hex_scan : ℕ → Bytes → Option ℕ → Bytes → Result (Bytes × Option ℕ)
ascii_hex_scan max output high [] = ok (output, high)
ascii_hex_scan max output high (byte ∷ rest) =
    let skipped = ascii_hex_scan max output high rest in
    if is_ws byte then skipped else if byte == b'>' then ok (output, high) else do
      nibble ← hex_nibble byte
      (output', high') ← take_nibble max output high nibble
      ascii_hex_scan max output' high' rest

ascii_hex_flush : ℕ → Bytes → Option ℕ → Result Bytes
ascii_hex_flush max output none = ok output
ascii_hex_flush max output (some previous) = push_limited_byte output (min 255 (previous * 16)) max

unfoldable pub ascii_hex_decode : ℕ → Bytes → Result Bytes
unfolding ascii_hex_scan ascii_hex_flush take_nibble hex_nibble
ascii_hex_decode max input = do
  (output, high) ← ascii_hex_scan max [] none input
  ascii_hex_flush max output high
