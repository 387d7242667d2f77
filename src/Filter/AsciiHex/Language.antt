-- ===== src/Filter/AsciiHex/Language.antt =====
-- The texts that `AsciiHexDecoder` accepts, as a relation, and the bytes that they stand for.
use pdfv.Base.{
  ℕ, ◌+◌, ◌*◌, ◌≤◌, ◌<◌, Bytes, true, false, Option, none, some, List, [], ◌∷◌, ◌++◌, ◌≡◌, ◌↔◌,
  refl, ap, sym, ◌∙◌, arith, ◌==◌, length, inl, inr, Bool-cases, Option-cases, ==_iff, ◌≢◌,
  length-append,
}
use pdfv.Bytes.{is_ws, decode_hex_digit, decode_hex_digit-lt, hex_byte}
use pdfv.Error.{Result, ok, ◌>>=◌, u64_modulus, >>=-eq-ok}
use pdfv.Filter.Output.{push_limited_byte, push_limited_byte-eq_ok, push_limited_byte-inv}
use pdfv.Filter.AsciiHex.{
  take_nibble, hex_nibble, ascii_hex_scan, ascii_hex_flush, ascii_hex_decode,
}
use mathlib.Core.List.{append_assoc, append-nil}

-- `HexText input digits`: white space anywhere, then the end of the data or `>` and anything.
pub data HexText : Bytes → List ℕ → Type 0 where
  stop : HexText [] []
  close : {byte : ℕ} {rest : Bytes} → byte ≡ b'>' → HexText (byte ∷ rest) []
  blank :
      {byte : ℕ} {rest : Bytes} {digits : List ℕ}
      → is_ws byte ≡ true
      → HexText rest digits
      → HexText (byte ∷ rest) digits
  digit :
      {byte nibble : ℕ} {rest : Bytes} {digits : List ℕ}
      → decode_hex_digit byte ≡ some nibble
      → HexText rest digits
      → HexText (byte ∷ rest) (nibble ∷ digits)

-- Two digits make a byte, and a last odd digit is followed by a 0.
abbrev pub pack : Option ℕ → List ℕ → Bytes
pack none [] = []
pack (some high) [] = (high * 16) ∷ []
pack none (n ∷ ns) = pack (some n) ns
pack (some high) (n ∷ ns) = (high * 16 + n) ∷ pack none ns

abbrev Pending : Option ℕ → Type 0
Pending none = Unit
Pending (some high) = high < 16

abbrev decode_from : ℕ → Bytes → Option ℕ → Bytes → Result Bytes
decode_from max output high input = do
  (output', high') ← ascii_hex_scan max output high input
  ascii_hex_flush max output' high'

hex_digit_plain :
    (byte : ℕ) {n : ℕ}
    → decode_hex_digit byte ≡ some n
    → (is_ws byte ≡ false) × ((byte == b'>') ≡ false)
unfolding decode_hex_digit is_ws
hex_digit_plain byte h = ground arith

decode_from-digit :
    (max byte : ℕ) {n : ℕ} (output : Bytes) (high : Option ℕ) (rest : Bytes)
    → decode_hex_digit byte ≡ some n
    → decode_from max output high (byte ∷ rest)
      ≡ (take_nibble max output high n >>= λ (r : Bytes × Option ℕ). decode_from max r.0 r.1 rest)
unfolding ascii_hex_scan hex_nibble
decode_from-digit max byte output high rest h = ground (arith, hex_digit_plain byte h)

flush_complete :
    (max : ℕ) (output : Bytes) (high : Option ℕ)
    → Pending high
    → length output + length (pack high []) ≤ max
    → max < u64_modulus
    → ascii_hex_flush max output high ≡ ok (output ++ pack high [])
unfolding ascii_hex_flush
flush_complete max output none p h k = rw append-nil
flush_complete max output (some high) p h k =
    ground (arith, push_limited_byte-eq_ok output (high * 16) max)

decode_from-close :
    (max byte : ℕ) (output : Bytes) (high : Option ℕ) (rest : Bytes)
    → byte ≡ b'>'
    → decode_from max output high (byte ∷ rest) ≡ ascii_hex_flush max output high
unfolding ascii_hex_scan is_ws
decode_from-close max byte output high rest h = ground arith

decode_from-blank :
    (max byte : ℕ) (output : Bytes) (high : Option ℕ) (rest : Bytes)
    → is_ws byte ≡ true
    → decode_from max output high (byte ∷ rest) ≡ decode_from max output high rest
unfolding ascii_hex_scan
decode_from-blank max byte output high rest h = rw h

-- A second digit: no saturation occurs.
take_nibble-pair :
    (max : ℕ) (output : Bytes) (high low : ℕ)
    → high < 16
    → low < 16
    → length output + 1 ≤ max
    → max < u64_modulus
    → take_nibble max output (some high) low ≡ ok (output ++ (high * 16 + low) ∷ [], none)
unfolding take_nibble
take_nibble-pair max output high low p q h k =
    ground (arith, push_limited_byte-eq_ok output (high * 16 + low) max)

-- The scan reads a text of the language, with any output and any pending digit behind it.
decode_from_complete :
    {input : Bytes} {digits : List ℕ} (max : ℕ) (output : Bytes) (high : Option ℕ)
    → HexText input digits
    → Pending high
    → length output + length (pack high digits) ≤ max
    → max < u64_modulus
    → decode_from max output high input ≡ ok (output ++ pack high digits)
unfolding ascii_hex_scan take_nibble
decode_from_complete max output high stop p h k = flush_complete max output high p h k
decode_from_complete max output high (close {byte} {rest} e) p h k =
    decode_from-close max byte output high rest e ∙ flush_complete max output high p h k
decode_from_complete max output high (blank {byte} {rest} e t) p h k =
    decode_from-blank max byte output high rest e ∙ decode_from_complete max output high t p h k
decode_from_complete max output none (digit {byte} {nibble} {rest} e t) p h k =
    decode_from-digit max byte output none rest e
    ∙ decode_from_complete max output (some nibble) t (decode_hex_digit-lt byte e) h k
decode_from_complete max output (some high) (digit {byte} {nibble} {rest} e t) p h k =
    let low = decode_hex_digit-lt byte e in
    decode_from-digit max byte output (some high) rest e
    ∙ rw (take_nibble-pair max output high nibble p low (omega arith) k) (
        decode_from_complete max (output ++ (high * 16 + nibble) ∷ []) none t tt
          (omega (arith, length-append output ((high * 16 + nibble) ∷ []))) k
        ∙ ap ok (append_assoc output ((high * 16 + nibble) ∷ []) _))

flush_sound :
    (max : ℕ) (output : Bytes) (high : Option ℕ) (out : Bytes)
    → Pending high
    → length output ≤ max
    → ascii_hex_flush max output high ≡ ok out
    → (out ≡ output ++ pack high []) × (length out ≤ max)
unfolding ascii_hex_flush
flush_sound max output none out p l h = rw append-nil (ground arith)
flush_sound max output (some high) out p l h = ground (
  arith,
  push_limited_byte-inv output (high * 16) max out,
  length-append output ((high * 16) ∷ []),
)

abbrev Decoded : ℕ → Bytes → Option ℕ → Bytes → Bytes → Type 0
Decoded max output high input out =
    (digits : List ℕ) × HexText input digits
    × (out ≡ output ++ pack high digits)
    × (length out ≤ max)

decode_from-invalid :
    (max byte : ℕ) (output : Bytes) (high : Option ℕ) (rest out : Bytes)
    → is_ws byte ≡ false
    → (byte == b'>') ≡ false
    → decode_hex_digit byte ≡ none
    → decode_from max output high (byte ∷ rest) ≢ ok out
unfolding ascii_hex_scan hex_nibble
decode_from-invalid max byte output high rest out w c d = ground arith

take_nibble-inv :
    (max : ℕ) (output : Bytes) (high : Option ℕ) (n : ℕ) (r : Bytes × Option ℕ)
    → Pending high
    → n < 16
    → length output ≤ max
    → take_nibble max output high n ≡ ok r
    → Pending r.1
      × (length r.0 ≤ max)
      × ((digits : List ℕ) → r.0 ++ pack r.1 digits ≡ output ++ pack high (n ∷ digits))
unfolding take_nibble
take_nibble-inv max output none n r p q l h =
    let e : r ≡ (output, some n) = ground arith in rw e (q, l, λ digits. refl)
take_nibble-inv max output (some high) n r p q l h =
    let b = high * 16 + n in
    let (o, pushed, e) = >>=-eq-ok (push_limited_byte output (hex_byte high n) max) _ h in
    let i = push_limited_byte-inv output (hex_byte high n) max o pushed in
    let e' : r ≡ (output ++ b ∷ [], none) = ground arith in
    rw e' (
      tt,
      omega (arith, length-append output (b ∷ []), i.1),
      λ digits. append_assoc output (b ∷ []) _,
    )

decode_from_sound :
    (input : Bytes) (max : ℕ) (output : Bytes) (high : Option ℕ) (out : Bytes)
    → Pending high
    → length output ≤ max
    → decode_from max output high input ≡ ok out
    → Decoded max output high input out
unfolding ascii_hex_scan
decode_from_sound [] max output high out p l h =
    let f = flush_sound max output high out p l h in ([], stop, f.0, f.1)
decode_from_sound (byte ∷ rest) max output high out p l h = elim (Bool-cases (is_ws byte)) [
  | inl w ↦
      let (ds, t, e, b) =
        decode_from_sound rest max output high out p l
          (sym (decode_from-blank max byte output high rest w) ∙ h) in
      (ds, blank w t, e, b)
  | inr w ↦ elim (Bool-cases (byte == b'>')) [
    | inl c ↦
        let at = (==_iff byte b'>').0 c in
        let f =
          flush_sound max output high out p l
            (sym (decode_from-close max byte output high rest at) ∙ h) in
        ([], close at, f.0, f.1)
    | inr c ↦ elim (Option-cases (decode_hex_digit byte)) [
      | inl d ↦ absurd (decode_from-invalid max byte output high rest out w c d h)
      | inr (n, d) ↦
          let digit_step = sym (decode_from-digit max byte output high rest d) ∙ h in
          let (r, taken, later) = >>=-eq-ok (take_nibble max output high n) _ digit_step in
          let i = take_nibble-inv max output high n r p (decode_hex_digit-lt byte d) l taken in
          let (ds, t, e, b) = decode_from_sound rest max r.0 r.1 out i.0 i.1 later in
          (n ∷ ds, digit d t, e ∙ i.2 ds, b)
    ]
  ]
]

-- The decoder returns `out` exactly when the input is a hexadecimal text whose packed digits are
-- `out`, and `out` fits the limit. The limit is a `u64`.
pub ascii_hex_decode_iff :
    (max : ℕ) (input out : Bytes)
    → max < u64_modulus
    → (ascii_hex_decode max input ≡ ok out)
      ↔ ((digits : List ℕ) × HexText input digits × (out ≡ pack none digits) × (length out ≤ max))
unfolding ascii_hex_decode
ascii_hex_decode_iff max input out k = (
  decode_from_sound input max [] none out tt (omega arith),
  λ d.
      let fits : length (pack none d.0) ≤ max = rw d.2 at d.3 in
      rw d.2 (decode_from_complete max [] none d.1 tt (omega arith) k),
)
