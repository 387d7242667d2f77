-- ===== src/Filter/Ascii85/Groups.antt =====
-- One group of five digits: what the fold computes, and what the top bytes are when the low digits
-- are the filler.
use pdfv.Base.{ℕ, ◌+◌, ◌*◌, ◌/◌, ◌%◌, ◌<◌, Bytes, IsByte, [], ◌∷◌, ◌≡◌, arith, take}
use pdfv.Error.{ok}
use pdfv.Filter.Ascii85.{u32_modulus, group_value, to_be_bytes}

-- The value of five base-85 digits.
abbrev pub value85 : ℕ → ℕ → ℕ → ℕ → ℕ → ℕ
value85 a b c d e = a * 52200625 + b * 614125 + c * 7225 + d * 85 + e

pub group_value-eq_ok :
    (a b c d e : ℕ)
    → value85 a b c d e < u32_modulus
    → group_value 0 (a ∷ b ∷ c ∷ d ∷ e ∷ []) ≡ ok (value85 a b c d e)
unfolding group_value
group_value-eq_ok a b c d e h = ground arith

-- The big-endian value of four bytes.
abbrev pub value256 : ℕ → ℕ → ℕ → ℕ → ℕ
value256 a b c d = a * 16777216 + b * 65536 + c * 256 + d

-- The base-85 digits of a 32-bit value, from the top.
abbrev pub digits85 : ℕ → Bytes
digits85 v = (v / 52200625) ∷ (v / 614125 % 85) ∷ (v / 7225 % 85) ∷ (v / 85 % 85) ∷ (v % 85) ∷ []

pub bytes_of_value :
    (a b c d w : ℕ)
    → IsByte a
    → IsByte b
    → IsByte c
    → IsByte d
    → w ≡ value256 a b c d
    → to_be_bytes w ≡ a ∷ b ∷ c ∷ d ∷ []
bytes_of_value a b c d w p q r s e = ground arith

pub one_byte : (a w : ℕ) → IsByte a → w / 16777216 ≡ a → take 1 (to_be_bytes w) ≡ a ∷ []
one_byte a w p e = ground arith

pub two_bytes :
    (a b w : ℕ)
    → IsByte a
    → IsByte b
    → w / 65536 ≡ a * 256 + b
    → take 2 (to_be_bytes w) ≡ a ∷ b ∷ []
two_bytes a b w p q e = ground arith

pub three_bytes :
    (a b c w : ℕ)
    → IsByte a
    → IsByte b
    → IsByte c
    → w / 256 ≡ a * 65536 + b * 256 + c
    → take 3 (to_be_bytes w) ≡ a ∷ b ∷ c ∷ []
three_bytes a b c w p q r e = ground arith

nested_quotients :
    (v : ℕ)
    → (v / 614125 / 85 ≡ v / 52200625) × (v / 7225 / 85 ≡ v / 614125) × (v / 85 / 85 ≡ v / 7225)
nested_quotients v = omega arith

-- Three high digits and two fillers.
pub value85_two :
    (v : ℕ)
    → value85 (v / 52200625) (v / 614125 % 85) (v / 7225 % 85) 84 84 ≡ v / 7225 * 7225 + 7224
value85_two v = omega (arith, nested_quotients v)

pub value85_none :
    (v : ℕ) → value85 (v / 52200625) (v / 614125 % 85) (v / 7225 % 85) (v / 85 % 85) (v % 85) ≡ v
value85_none v = omega (arith, nested_quotients v)

pub value85_one :
    (v : ℕ)
    → value85 (v / 52200625) (v / 614125 % 85) (v / 7225 % 85) (v / 85 % 85) 84 ≡ v / 85 * 85 + 84
value85_one v = omega (arith, nested_quotients v)

pub value85_three :
    (v : ℕ) → value85 (v / 52200625) (v / 614125 % 85) 84 84 84 ≡ v / 614125 * 614125 + 614124
value85_three v = omega (arith, nested_quotients v)
