-- ===== src/Filter/Output.antt =====
-- Bounded output: `enforce_decoded_len`, `push_limited_byte` and `extend_limited`.
use pdfv.Base.{ℕ, ◌+◌, ◌≤◌, ◌<◌, Bytes, [], ◌∷◌, ◌++◌, ◌≡◌, arith, ltb, if◌then◌else◌, length}
use pdfv.Error.{
  Result, ok, err, ◌>>=◌, ◌>>◌, limit_exceeded, arithmetic_overflow, u64_modulus, checked_add,
}

unfoldable pub enforce_decoded_len : ℕ → ℕ → Result (Unit {0})
enforce_decoded_len len max_decode_bytes =
    if ltb max_decode_bytes len then err (limit_exceeded "max_stream_decode_bytes") else ok tt

unfoldable pub extend_limited : Bytes → Bytes → ℕ → Result Bytes
unfolding enforce_decoded_len
extend_limited output bytes max_decode_bytes = do
  next_len ←
      checked_add (length output) (length bytes) (arithmetic_overflow "decoded stream length")
  enforce_decoded_len next_len max_decode_bytes
  ok (output ++ bytes)

unfoldable pub push_limited_byte : Bytes → ℕ → ℕ → Result Bytes
unfolding enforce_decoded_len
push_limited_byte output byte max_decode_bytes = do
  next_len ← checked_add (length output) 1 (arithmetic_overflow "decoded stream length")
  enforce_decoded_len next_len max_decode_bytes
  ok (output ++ byte ∷ [])

-- Within the limit, and a limit is a `u64`, both append.
pub extend_limited-eq_ok :
    (output bytes : Bytes) (max : ℕ)
    → length output + length bytes ≤ max
    → max < u64_modulus
    → extend_limited output bytes max ≡ ok (output ++ bytes)
unfolding extend_limited
extend_limited-eq_ok output bytes max h k = ground arith

pub push_limited_byte-eq_ok :
    (output : Bytes) (byte max : ℕ)
    → length output + 1 ≤ max
    → max < u64_modulus
    → push_limited_byte output byte max ≡ ok (output ++ byte ∷ [])
unfolding push_limited_byte
push_limited_byte-eq_ok output byte max h k = ground arith

pub extend_limited-inv :
    (output bytes : Bytes) (max : ℕ) (out : Bytes)
    → extend_limited output bytes max ≡ ok out
    → (out ≡ output ++ bytes) × (length output + length bytes ≤ max)
unfolding extend_limited
extend_limited-inv output bytes max out h = ground arith

pub push_limited_byte-inv :
    (output : Bytes) (byte max : ℕ) (out : Bytes)
    → push_limited_byte output byte max ≡ ok out
    → (out ≡ output ++ byte ∷ []) × (length output + 1 ≤ max)
unfolding push_limited_byte
push_limited_byte-inv output byte max out h = ground arith
