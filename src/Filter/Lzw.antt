-- ===== src/Filter/Lzw.antt =====
-- `decode_lzw`, `initial_lzw_dictionary` and `MsbBitReader` of crates/core/src/parser.rs. The
-- mutable locals of the loop are the fields of a record.
pub mod Reader
pub mod Invariant
pub mod Errors
use Prim.Native.Nat.{min}
use pdfv.Base.{
  ℕ, zero, suc, ◌+◌, ◌-◌, ◌*◌, ◌/◌, ◌%◌, ◌^◌, Bytes, Bool, ◌&&◌, Option, none, some, List, [], ◌∷◌,
  ◌++◌, leb, ltb, ◌==◌, if◌then◌else◌, length, get_elem?,
}
use pdfv.Error.{
  Result, ok, err, diverged, ◌>>=◌, text, stream_decode, arithmetic_overflow, ok_or, checked_mul,
}
use pdfv.Filter.Output.{extend_limited}

-- Bit `bit_pos` of the input, from the most significant bit of the first byte.
unfoldable pub read_bit : Bytes → ℕ → Result ℕ
read_bit input bit_pos = do
  byte ← ok_or (get_elem? input (bit_pos / 8)) (stream_decode (text "LZW bit read out of bounds"))
  ok (byte / 2 ^ (7 - bit_pos % 8) % 2)

-- The counted loop of `read_bits`: a `u16` is shifted, and takes the bit.
unfoldable pub read_value : Bytes → ℕ → ℕ → ℕ → Result ℕ
unfolding read_bit
read_value input value bit_pos zero = ok value
read_value input value bit_pos (suc bits) = do
  bit ← read_bit input bit_pos
  read_value input (value * 2 % 65536 + bit) (bit_pos + 1) bits

-- `MsbBitReader::read_bits`; the position moves by `bits` if a value is read.
unfoldable pub read_bits : Bytes → ℕ → ℕ → Result (Option ℕ)
unfolding read_value
read_bits input bit_pos bits = do
  total ← checked_mul (length input) 8 (arithmetic_overflow "LZW bit position")
  if ltb total bit_pos
      then err (arithmetic_overflow "LZW bit position")
      else if ltb (total - bit_pos) bits
      then ok none
      else do value ← read_value input 0 bit_pos bits; ok (some value)

pub record Lzw : Type 0 where
  pub dictionary : List Bytes
  pub code_bits : ℕ
  pub next_code : ℕ
  pub previous : Option Bytes
  pub output : Bytes

-- The one-byte entries from `byte` on, `count` of them.
unfoldable pub byte_entries : ℕ → ℕ → List Bytes
byte_entries byte zero = []
byte_entries byte (suc count) = (byte ∷ []) ∷ byte_entries (byte + 1) count

unfoldable pub initial_lzw_dictionary : List Bytes
unfolding byte_entries
initial_lzw_dictionary = byte_entries 0 256 ++ [] ∷ [] ∷ []

-- The state after a clear code, with the output so far.
unfoldable pub lzw_clear : Bytes → Lzw
lzw_clear output = record {
  dictionary = initial_lzw_dictionary;
  code_bits = 9;
  next_code = 258;
  previous = none;
  output = output;
}

abbrev pub first? : Bytes → Option ℕ
first? [] = none
first? (b ∷ bytes) = some b

-- The entry of a code that is about to be defined: the previous entry and its first byte.
unfoldable pub lzw_repeat : Option Bytes → Result Bytes
lzw_repeat none = err (stream_decode (text "LZW missing previous entry"))
lzw_repeat (some value) = do
  first ← ok_or (first? value) (stream_decode (text "LZW empty previous entry"))
  ok (value ++ first ∷ [])

unfoldable pub lzw_entry : Lzw → ℕ → Result Bytes
unfolding lzw_repeat
lzw_entry s code = elim (get_elem? s.dictionary code) [
  | some value ↦ ok value
  | none ↦
      if code == s.next_code
      then lzw_repeat s.previous
      else err (stream_decode (text "invalid LZW code"))
]

-- `(1_u16 << code_bits).saturating_sub(early_change.min(1))`
abbrev pub lzw_threshold : ℕ → ℕ → ℕ
lzw_threshold early_change code_bits = 2 ^ code_bits % 65536 - min early_change 1

-- A new entry takes the next code, and the width grows when the code after it needs it.
unfoldable pub lzw_push : ℕ → Lzw → Bytes → Lzw
lzw_push early_change s new_entry =
    let next = min 65535 (s.next_code + 1) in
    let wider = leb (lzw_threshold early_change s.code_bits) next && ltb s.code_bits 12 in
    record s {
      dictionary = s.dictionary ++ new_entry ∷ [];
      next_code = next;
      code_bits = if wider then s.code_bits + 1 else s.code_bits;
    }

-- The new entry is the previous one and the first byte of this one, while there is room.
unfoldable pub lzw_grow : ℕ → Lzw → Bytes → Option Bytes → Result Lzw
unfolding lzw_push
lzw_grow early_change s entry none = ok s
lzw_grow early_change s entry (some previous) = do
  first ← ok_or (first? entry) (stream_decode (text "LZW empty entry"))
  ok (
      if ltb (length s.dictionary) 4096
      then lzw_push early_change s (previous ++ first ∷ [])
      else s)

-- A code that is neither 256 nor 257.
unfoldable pub lzw_code : ℕ → ℕ → Lzw → ℕ → Result Lzw
unfolding lzw_entry lzw_grow
lzw_code early_change max s code = do
  entry ← lzw_entry s code
  output ← extend_limited s.output entry max
  s' ← lzw_grow early_change (record s { output = output }) entry s.previous
  ok (record s' { previous = some entry })

unfoldable pub lzw_loop : ℕ → ℕ → ℕ → Bytes → ℕ → Lzw → Result Bytes
unfolding read_bits lzw_code lzw_clear
lzw_loop zero early_change max input bit_pos s = diverged
lzw_loop (suc fuel) early_change max input bit_pos s = do
  read ← read_bits input bit_pos s.code_bits
  elim read [
    | none ↦ ok s.output
    | some code ↦
        let bit_pos' = bit_pos + s.code_bits in
        let cleared = lzw_loop fuel early_change max input bit_pos' (lzw_clear s.output) in
        if code == 256 then cleared else if code == 257 then ok s.output else do
          s' ← lzw_code early_change max s code
          lzw_loop fuel early_change max input bit_pos' s'
  ]

-- Each round reads at least one bit, so one more round than there are bits is enough.
unfoldable pub decode_lzw : Bytes → ℕ → ℕ → Result Bytes
unfolding lzw_loop
decode_lzw input early_change max =
    lzw_loop (suc (length input * 8)) early_change max input 0 (lzw_clear [])
