-- ===== src/Filter/Lzw/Reader.antt =====
-- `MsbBitReader::read_bits` of crates/core/src/parser.rs.
use native.Mathlib.Nat.{pow-suc, one-le-pow, le-mul_of_pos_right, pow-le-pow_right}
use pdfv.Base.{
  ℕ, zero, suc, ◌+◌, ◌-◌, ◌*◌, ◌/◌, ◌%◌, ◌^◌, ◌≤◌, ◌<◌, Bytes, none, some, [], ◌∷◌, ◌≡◌, refl, ◌⊎◌,
  inl, inr, arith, ltb, length, get_elem?, lt→ltb, le→ltb, ltb→lt, Bool-cases,
}
use pdfv.Error.{ok, u64_modulus}
use pdfv.Filter.Lzw.{read_bit, read_value, read_bits}

get_elem?_lt : (xs : Bytes) (n : ℕ) → n < length xs → (b : ℕ) × (get_elem? xs n ≡ some b)
get_elem?_lt [] n h = absurd (omega arith)
get_elem?_lt (x ∷ xs) zero h = (x, refl)
get_elem?_lt (x ∷ xs) (suc n) h = get_elem?_lt xs n (omega arith)

read_bit_lt :
    (input : Bytes) (bit_pos : ℕ)
    → bit_pos < length input * 8
    → (bit : ℕ) × (read_bit input bit_pos ≡ ok bit) × (bit < 2)
unfolding read_bit
read_bit_lt input bit_pos h =
    let (b, e) = get_elem?_lt input (bit_pos / 8) (omega arith) in
    (b / 2 ^ (7 - bit_pos % 8) % 2, rw e, omega arith)

-- From a value below `w`, the bits that are read leave a value below `w * 2 ^ bits`.
read_value_lt :
    (input : Bytes) (bits value bit_pos w : ℕ)
    → bit_pos + bits ≤ length input * 8
    → value < w
    → w * 2 ^ bits ≤ 65536
    → (v : ℕ) × (read_value input value bit_pos bits ≡ ok v) × (v < w * 2 ^ bits)
unfolding read_value
read_value_lt input zero value bit_pos w h k m = (value, refl, omega arith)
read_value_lt input (suc bits) value bit_pos w h k m =
    let (bit, e, small) = read_bit_lt input bit_pos (omega arith) in
    let double : w * 2 ^ suc bits ≡ w * 2 * 2 ^ bits = rw (pow-suc 2 bits) (omega arith) in
    let room = le-mul_of_pos_right (w * 2) (one-le-pow bits 2 (omega arith)) in
    let (v, later, below) =
      read_value_lt input bits (value * 2 % 65536 + bit) (bit_pos + 1) (w * 2) (omega arith)
        (omega arith) (omega arith) in
    (v, rw e later, omega arith)

-- Where the bits are there, a value of that width is read; where they are not, nothing is. There is
-- no error: the position is in the input, and the size in bits is a `usize`.
pub read_bits_lem :
    (input : Bytes) (bit_pos bits : ℕ)
    → length input * 8 < u64_modulus
    → bit_pos ≤ length input * 8
    → bits ≤ 16
    → ((v : ℕ) × (read_bits input bit_pos bits ≡ ok (some v))
        × (v < 2 ^ bits)
        × (bit_pos + bits ≤ length input * 8))
      ⊎ ((read_bits input bit_pos bits ≡ ok none) × (length input * 8 < bit_pos + bits))
unfolding read_bits
read_bits_lem input bit_pos bits size inside few =
    elim (Bool-cases (ltb (length input * 8 - bit_pos) bits)) [
      | inl short ↦ inr (
        rw (lt→ltb _ _ size, le→ltb _ _ inside, short),
        omega (arith, ltb→lt (length input * 8 - bit_pos) bits short),
      )
      | inr long ↦
          let room : bit_pos + bits ≤ length input * 8 = ground arith in
          let narrow : 2 ^ bits ≤ 65536 = pow-le-pow_right (omega arith) few in
          let (v, e, below) =
            read_value_lt input bits 0 bit_pos 1 room (omega arith) (omega arith) in
          inl (v, rw (lt→ltb _ _ size, le→ltb _ _ inside, long, e), omega arith, room)
    ]
