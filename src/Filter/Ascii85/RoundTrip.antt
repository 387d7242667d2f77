-- ===== src/Filter/Ascii85/RoundTrip.antt =====
-- The standard ASCII85 encoder, and the decoder on what it writes.
use mathlib.Core.List.{append_assoc, append-nil, map}
use pdfv.Base.{
  ℕ, ◌+◌, ◌-◌, ◌/◌, ◌%◌, ◌≤◌, ◌<◌, Bytes, IsByte, IsBytes, [], ◌∷◌, ◌++◌, ◌≡◌, refl, ap, ◌∙◌, arith,
  take, length, length-append, ◌==◌, if◌then◌else◌,
}
use pdfv.Bytes.{is_ws}
use pdfv.Error.{Result, ok, ◌>>=◌, u64_modulus}
use pdfv.Filter.Output.{extend_limited-eq_ok}
use pdfv.Filter.Ascii85.{
  u32_modulus, to_be_bytes, append_ascii85_group, ascii85_loop, ascii85_flush, ascii85_decode,
}
use pdfv.Filter.Ascii85.Groups.{
  value85, group_value-eq_ok, value256, digits85, bytes_of_value, one_byte, two_bytes, three_bytes,
  value85_none, value85_one, value85_two, value85_three,
}

abbrev letter : ℕ → ℕ
letter d = d + b'!'

abbrev letters : Bytes → Bytes
letters = map letter

-- The encoder of the format: four bytes as five letters, and a last group of n bytes as n + 1.
abbrev pub ascii85_encode : Bytes → Bytes
ascii85_encode [] = []
ascii85_encode (a ∷ []) = letters (take 2 (digits85 (value256 a 0 0 0)))
ascii85_encode (a ∷ b ∷ []) = letters (take 3 (digits85 (value256 a b 0 0)))
ascii85_encode (a ∷ b ∷ c ∷ []) = letters (take 4 (digits85 (value256 a b c 0)))
ascii85_encode (a ∷ b ∷ c ∷ d ∷ rest) = letters (digits85 (value256 a b c d)) ++ ascii85_encode rest

abbrev decode_from : ℕ → Bytes → Bytes → Bytes → Result Bytes
decode_from max output group input = do
  (output', group') ← ascii85_loop max output group input
  ascii85_flush max output' group'

-- A letter joins the group.
ascii85_loop-letter :
    (max : ℕ) (output group : Bytes) (d : ℕ) (rest : Bytes)
    → d < 85
    → ascii85_loop max output group (letter d ∷ rest) ≡ (
        if length (group ++ d ∷ []) == 5
        then (append_ascii85_group output (group ++ d ∷ []) 4 max >>= λ output'.
            ascii85_loop max output' [] rest)
        else ascii85_loop max output (group ++ d ∷ []) rest)
unfolding ascii85_loop is_ws
ascii85_loop-letter max output group d rest h =
    let e : letter d - b'!' ≡ d = omega arith in rw e (ground arith)

ascii85_loop_end :
    (max : ℕ) (output group rest : Bytes)
    → ascii85_loop max output group (b'~' ∷ b'>' ∷ rest) ≡ ok (output, group)
unfolding ascii85_loop is_ws
ascii85_loop_end max output group rest = refl

append_group :
    (output bytes : Bytes) (n max a b c d e : ℕ)
    → value85 a b c d e < u32_modulus
    → n ≤ 4
    → take n (to_be_bytes (value85 a b c d e)) ≡ bytes
    → length output + length bytes ≤ max
    → max < u64_modulus
    → append_ascii85_group output (a ∷ b ∷ c ∷ d ∷ e ∷ []) n max ≡ ok (output ++ bytes)
unfolding append_ascii85_group
append_group output bytes n max a b c d e small few top fits k =
    rw (group_value-eq_ok a b c d e small)
      (ground (arith, top, extend_limited-eq_ok output bytes max))

ascii85_loop-five :
    (max : ℕ) (output : Bytes) (a b c d e : ℕ) (rest : Bytes)
    → a < 85
    → b < 85
    → c < 85
    → d < 85
    → e < 85
    → ascii85_loop max output [] (letters (a ∷ b ∷ c ∷ d ∷ e ∷ []) ++ rest) ≡ (
        append_ascii85_group output (a ∷ b ∷ c ∷ d ∷ e ∷ []) 4 max >>= λ output'.
        ascii85_loop max output' [] rest)
ascii85_loop-five max output a b c d e rest p q r s t =
    ascii85_loop-letter max output [] a _ p
    ∙ ascii85_loop-letter max output (a ∷ []) b _ q
    ∙ ascii85_loop-letter max output (a ∷ b ∷ []) c _ r
    ∙ ascii85_loop-letter max output (a ∷ b ∷ c ∷ []) d _ s
    ∙ ascii85_loop-letter max output (a ∷ b ∷ c ∷ d ∷ []) e _ t

value256-lt :
    (a b c d : ℕ) → IsByte a → IsByte b → IsByte c → IsByte d → value256 a b c d < u32_modulus
value256-lt a b c d p q r s = omega arith

decode-full :
    (max : ℕ) (output : Bytes) (a b c d : ℕ) (rest : Bytes)
    → IsBytes (a ∷ b ∷ c ∷ d ∷ [])
    → length output + 4 ≤ max
    → max < u64_modulus
    → decode_from max output [] (letters (digits85 (value256 a b c d)) ++ rest)
      ≡ decode_from max (output ++ a ∷ b ∷ c ∷ d ∷ []) [] rest
decode-full max output a b c d rest (p, (q, (r, (s, _)))) fits k =
    let v = value256 a b c d in
    let small = value256-lt a b c d p q r s in
    let whole = value85_none v in
    let top = bytes_of_value a b c d v p q r s refl in
    let step =
      ascii85_loop-five max output (v / 52200625) (v / 614125 % 85) (v / 7225 % 85) (v / 85 % 85)
        (v % 85) rest (omega arith) (omega arith) (omega arith) (omega arith) (omega arith) in
    let grouped =
      append_group output (a ∷ b ∷ c ∷ d ∷ []) 4 max (v / 52200625) (v / 614125 % 85)
        (v / 7225 % 85) (v / 85 % 85) (v % 85) (rw whole small) (omega arith) (rw whole top)
        (omega arith) k in
    rw (step, grouped)

decode-letters :
    (max : ℕ) (output rest : Bytes) (a b : ℕ)
    → a < 85
    → b < 85
    → decode_from max output [] (letters (a ∷ b ∷ []) ++ rest)
      ≡ decode_from max output (a ∷ b ∷ []) rest
decode-letters max output rest a b p q =
    rw (ascii85_loop-letter max output [] a _ p, ascii85_loop-letter max output (a ∷ []) b _ q)

tail-one :
    (max : ℕ) (output : Bytes) (a : ℕ) (rest : Bytes)
    → IsByte a
    → length output + 1 ≤ max
    → max < u64_modulus
    → decode_from max output [] (ascii85_encode (a ∷ []) ++ b'~' ∷ b'>' ∷ rest)
      ≡ ok (output ++ a ∷ [])
unfolding ascii85_flush
tail-one max output a rest p fits k =
    let v = value256 a 0 0 0 in
    let (d₀, d₁) = (let r : ℕ × ℕ = (v / 52200625, v / 614125 % 85) in r) in
    let filled = value85_three v in
    decode-letters max output _ d₀ d₁ (omega arith) (omega arith)
    ∙ rw (ascii85_loop_end max output (d₀ ∷ d₁ ∷ []) rest) (
        append_group output (a ∷ []) 1 max d₀ d₁ 84 84 84 (omega (arith, filled)) (omega arith)
          (one_byte a _ p (omega (arith, filled))) (omega arith) k)

tail-two :
    (max : ℕ) (output : Bytes) (a b : ℕ) (rest : Bytes)
    → IsByte a
    → IsByte b
    → length output + 2 ≤ max
    → max < u64_modulus
    → decode_from max output [] (ascii85_encode (a ∷ b ∷ []) ++ b'~' ∷ b'>' ∷ rest)
      ≡ ok (output ++ a ∷ b ∷ [])
unfolding ascii85_flush
tail-two max output a b rest p q fits k =
    let v = value256 a b 0 0 in
    let (d₀, d₁, d₂) = (let r : ℕ × ℕ × ℕ = (v / 52200625, v / 614125 % 85, v / 7225 % 85) in r) in
    let filled = value85_two v in
    decode-letters max output _ d₀ d₁ (omega arith) (omega arith)
    ∙ rw
        (
          ascii85_loop-letter max output (d₀ ∷ d₁ ∷ []) d₂ _ (omega arith),
          ascii85_loop_end max output (d₀ ∷ d₁ ∷ d₂ ∷ []) rest,
        )
        (append_group output (a ∷ b ∷ []) 2 max d₀ d₁ d₂ 84 84 (omega (arith, filled)) (omega arith)
          (two_bytes a b _ p q (omega (arith, filled))) (omega arith) k)

tail-three :
    (max : ℕ) (output : Bytes) (a b c : ℕ) (rest : Bytes)
    → IsByte a
    → IsByte b
    → IsByte c
    → length output + 3 ≤ max
    → max < u64_modulus
    → decode_from max output [] (ascii85_encode (a ∷ b ∷ c ∷ []) ++ b'~' ∷ b'>' ∷ rest)
      ≡ ok (output ++ a ∷ b ∷ c ∷ [])
unfolding ascii85_flush
tail-three max output a b c rest p q r fits k =
    let v = value256 a b c 0 in
    let (d₀, d₁, d₂, d₃) =
      (let r : ℕ × ℕ × ℕ × ℕ = (v / 52200625, v / 614125 % 85, v / 7225 % 85, v / 85 % 85) in r) in
    let filled = value85_one v in
    decode-letters max output _ d₀ d₁ (omega arith) (omega arith)
    ∙ rw
        (
          ascii85_loop-letter max output (d₀ ∷ d₁ ∷ []) d₂ _ (omega arith),
          ascii85_loop-letter max output (d₀ ∷ d₁ ∷ d₂ ∷ []) d₃ _ (omega arith),
          ascii85_loop_end max output (d₀ ∷ d₁ ∷ d₂ ∷ d₃ ∷ []) rest,
        )
        (append_group output (a ∷ b ∷ c ∷ []) 3 max d₀ d₁ d₂ d₃ 84 (omega (arith, filled))
          (omega arith) (three_bytes a b c _ p q r (omega (arith, filled))) (omega arith) k)

decode_from-encode :
    (bytes : Bytes) (max : ℕ) (output rest : Bytes)
    → IsBytes bytes
    → length output + length bytes ≤ max
    → max < u64_modulus
    → decode_from max output [] (ascii85_encode bytes ++ b'~' ∷ b'>' ∷ rest) ≡ ok (output ++ bytes)
decode_from-encode [] max output rest h fits k =
    rw (ascii85_loop_end max output [] rest) (unfold ascii85_flush in rw append-nil)
decode_from-encode (a ∷ []) max output rest h fits k =
    tail-one max output a rest h.0 (omega arith) k
decode_from-encode (a ∷ b ∷ []) max output rest h fits k =
    tail-two max output a b rest h.0 h.1.0 (omega arith) k
decode_from-encode (a ∷ b ∷ c ∷ []) max output rest h fits k =
    tail-three max output a b c rest h.0 h.1.0 h.1.1.0 (omega arith) k
decode_from-encode (a ∷ b ∷ c ∷ d ∷ bytes) max output rest h fits k =
    let four = a ∷ b ∷ c ∷ d ∷ [] in
    let grown = length-append output four in
    decode-full max output a b c d _ (h.0, (h.1.0, (h.1.1.0, (h.1.1.1.0, tt)))) (omega arith) k
    ∙ decode_from-encode bytes max (output ++ four) rest h.1.1.1.1 (omega arith) k
    ∙ ap ok (append_assoc output four bytes)

-- Decoding what the encoder wrote, with the end mark and anything behind it, gives the bytes back,
-- also where the last group is partial. The bytes fit the limit, and the limit is a `u64`.
pub ascii85_decode-encode :
    (bytes : Bytes) (max : ℕ) (rest : Bytes)
    → IsBytes bytes
    → length bytes ≤ max
    → max < u64_modulus
    → ascii85_decode max (ascii85_encode bytes ++ b'~' ∷ b'>' ∷ rest) ≡ ok bytes
unfolding ascii85_decode
ascii85_decode-encode bytes max rest h fits k =
    decode_from-encode bytes max [] rest h (omega arith) k
