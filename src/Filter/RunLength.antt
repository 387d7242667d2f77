-- ===== src/Filter/RunLength.antt =====
-- `RunLengthDecoder::decode` of crates/core/src/parser.rs. The input is walked by its rest, so the
-- overflow check on the position, which an input in memory cannot reach, has no counterpart.
pub mod Language
use pdfv.Base.{
  ℕ, zero, suc, ◌+◌, ◌-◌, Bytes, [], ◌∷◌, leb, ltb, ◌==◌, if◌then◌else◌, take, drop, length,
}
use pdfv.Error.{Result, ok, err, diverged, ◌>>=◌, text, stream_decode}
use pdfv.Filter.Output.{push_limited_byte, extend_limited}

push_repeated : ℕ → Bytes → ℕ → ℕ → Result Bytes
push_repeated max output value zero = ok output
push_repeated max output value (suc count) = do
  output' ← push_limited_byte output value max
  push_repeated max output' value count

-- `input.get(pos..end)` with `count` bytes, and the limited copy.
copy_literal : ℕ → Bytes → ℕ → Bytes → Result Bytes
copy_literal max output count rest =
    if leb count (length rest)
    then extend_limited output (take count rest) max
    else err (stream_decode (text "RunLength literal exceeds input"))

run_length_loop : ℕ → ℕ → Bytes → Bytes → Result Bytes
run_length_loop zero max output input = diverged
run_length_loop (suc fuel) max output [] = ok output
run_length_loop (suc fuel) max output (len ∷ rest) =
    if len == 128
    then ok output
    else if ltb len 128
    then (do
      output' ← copy_literal max output (len + 1) rest
      run_length_loop fuel max output' (drop (len + 1) rest))
    else elim rest [
      | [] ↦ err (stream_decode (text "RunLength repeat missing byte"))
      | value ∷ rest' ↦ do
        output' ← push_repeated max output value (257 - len)
        run_length_loop fuel max output' rest'
    ]

-- Each round reads a byte, so one more round than there are bytes is enough.
unfoldable pub run_length_decode : ℕ → Bytes → Result Bytes
unfolding run_length_loop copy_literal push_repeated
run_length_decode max input = run_length_loop (suc (length input)) max [] input
