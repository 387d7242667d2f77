-- ===== src/Filter/Ascii85.antt =====
-- `Ascii85Decoder::decode` and `append_ascii85_group` of crates/core/src/parser.rs.
pub mod Groups
pub mod RoundTrip
use pdfv.Base.{
  ℕ, zero, suc, ◌+◌, ◌-◌, ◌*◌, ◌/◌, ◌%◌, Bytes, Bool, true, false, not, ◌&&◌, [], ◌∷◌, ◌++◌, leb,
  ltb, ◌==◌, if◌then◌else◌, take, length, replicate,
}
use pdfv.Bytes.{is_ws, within}
use pdfv.Error.{Result, ok, err, ◌>>=◌, text, stream_decode}
use pdfv.Filter.Output.{extend_limited}

abbrev pub u32_modulus : ℕ
u32_modulus = 4294967296

-- The fold `value * 85 + digit`, checked at 32 bits after each operation.
unfoldable pub group_value : ℕ → Bytes → Result ℕ
group_value value [] = ok value
group_value value (d ∷ group) =
    let next = group_value (value * 85 + d) group in
    if ltb (value * 85) u32_modulus && ltb (value * 85 + d) u32_modulus
    then next
    else err (stream_decode (text "ASCII85 group overflows"))

-- `u32::to_be_bytes`
abbrev pub to_be_bytes : ℕ → Bytes
to_be_bytes value =
    (value / 16777216 % 256) ∷ (value / 65536 % 256) ∷ (value / 256 % 256) ∷ (value % 256) ∷ []

unfoldable pub append_ascii85_group : Bytes → Bytes → ℕ → ℕ → Result Bytes
unfolding group_value
append_ascii85_group output group output_bytes max = do
  value ← group_value 0 group
  (if leb output_bytes 4
      then extend_limited output (take output_bytes (to_be_bytes value)) max
      else err (stream_decode (text "invalid ASCII85 group length")))

-- `iter.peek() == Some(&byte)`
abbrev pub peeks : ℕ → Bytes → Bool
peeks byte [] = false
peeks byte (b ∷ rest) = b == byte

abbrev pub is_empty : Bytes → Bool
is_empty [] = true
is_empty (b ∷ bytes) = false

unfoldable pub ascii85_loop : ℕ → Bytes → Bytes → Bytes → Result (Bytes × Bytes)
unfolding append_ascii85_group
ascii85_loop max output group [] = ok (output, group)
ascii85_loop max output group (byte ∷ rest) =
    let skipped = ascii85_loop max output group rest in
    let group' = group ++ (byte - b'!') ∷ [] in
    let partial = ascii85_loop max output group' rest in
    if is_ws byte
    then skipped
    else if byte == b'~' && peeks b'>' rest
    then ok (output, group)
    else if byte == b'z'
    then (if not (is_empty group)
        then err (stream_decode (text "ASCII85 z inside a partial group"))
        else do
          output' ← extend_limited output (0 ∷ 0 ∷ 0 ∷ 0 ∷ []) max
          ascii85_loop max output' group rest)
    else if not (within b'!' b'u' byte)
    then err (stream_decode (text "invalid ASCII85 digit"))
    else if length group' == 5
    then (do output' ← append_ascii85_group output group' 4 max; ascii85_loop max output' [] rest)
    else partial

-- The last, partial group is filled with the digit 84.
unfoldable pub ascii85_flush : ℕ → Bytes → Bytes → Result Bytes
unfolding append_ascii85_group
ascii85_flush max output group =
    if is_empty group
    then ok output
    else append_ascii85_group output (group ++ replicate (5 - length group) 84) (length group - 1)
        max

unfoldable pub ascii85_decode : ℕ → Bytes → Result Bytes
unfolding ascii85_loop ascii85_flush
ascii85_decode max input = do
  (output, group) ← ascii85_loop max [] [] input
  ascii85_flush max output group
