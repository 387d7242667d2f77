-- ===== src/Filter/Lzw/Errors.antt =====
-- Every way in which `decode_lzw` can end.
use pdfv.Base.{
  ℕ, zero, suc, ◌+◌, ◌-◌, ◌*◌, ◌≤◌, ◌<◌, Bytes, Option, none, some, [], ◌∷◌, ◌≡◌, ◌≢◌, inl, inr,
  refl, arith, ltb, if◌then◌else◌, length, get_elem?, length-append, Option-cases, Bool, true,
  false, Bool-cases, ◌==◌,
}
use pdfv.Error.{
  ParseError, Result, ok, err, diverged, ◌>>=◌, text, limit_exceeded, arithmetic_overflow,
  stream_decode, u64_modulus,
}
use pdfv.Filter.Output.{extend_limited}
use pdfv.Filter.Lzw.{
  Lzw, lzw_clear, lzw_entry, lzw_repeat, lzw_grow, lzw_code, lzw_loop, decode_lzw,
}
use pdfv.Filter.Lzw.Invariant.{
  IsData, IsValid, lzw_clear-IsValid, lzw_code-IsValid, lzw_entry-ne-nil,
}
use pdfv.Filter.Lzw.Reader.{read_bits_lem}

-- The errors that a stream can cause.
pub data LzwError : ParseError → Type 0 where
  too_long : LzwError (limit_exceeded "max_stream_decode_bytes")
  overflow : LzwError (arithmetic_overflow "decoded stream length")
  undefined_code : LzwError (stream_decode (text "invalid LZW code"))
  no_previous : LzwError (stream_decode (text "LZW missing previous entry"))

-- A result that satisfies `P`, or one of those errors.
abbrev pub Ends : {A : Type 0} → (A → Type 0) → Result A → Type 0
Ends P (ok a) = P a
Ends P (err e) = LzwError e
Ends P diverged = ⊥

Ends-bind :
    {A B : Type 0} (P : A → Type 0) (Q : B → Type 0) (m : Result A) (f : A → Result B)
    → Ends P m
    → ((a : A) → m ≡ ok a → P a → Ends Q (f a))
    → Ends Q (m >>= f)
Ends-bind P Q (ok a) f h k = k a refl h
Ends-bind P Q (err e) f h k = h
Ends-bind P Q diverged f h k = h

Ends-if :
    {A : Type 0} (P : A → Type 0) (b : Bool) (m n : Result A)
    → (b ≡ true → Ends P m)
    → (b ≡ false → Ends P n)
    → Ends P (if b then m else n)
Ends-if P true m n h k = h refl
Ends-if P false m n h k = k refl

abbrev Any : {A : Type 0} → A → Type 0
Any a = Unit

lzw_repeat-Ends :
    (previous : Option Bytes)
    → ((entry : Bytes) → previous ≡ some entry → entry ≢ [])
    → Ends Any (lzw_repeat previous)
unfolding lzw_repeat
lzw_repeat-Ends none h = no_previous
lzw_repeat-Ends (some []) h = absurd (h [] refl refl)
lzw_repeat-Ends (some (b ∷ p)) h = tt

extend_limited-Ends :
    (output entry : Bytes) (max : ℕ)
    → Ends (λ out. length out ≤ max) (extend_limited output entry max)
unfolding extend_limited
extend_limited-Ends output entry max =
    elim (Bool-cases (ltb (length output + length entry) u64_modulus)) [
      | inl small ↦ elim (Bool-cases (ltb max (length output + length entry))) [
        | inl long ↦ rw (small, long) too_long
        | inr fits ↦ let size = length-append output entry in rw (small, fits) (ground arith)
      ]
      | inr large ↦ rw large overflow
    ]

module _ (early_change : ℕ) (s : Lzw) (v : IsValid early_change s) where
  lzw_entry-Ends : (code : ℕ) → Ends Any (lzw_entry s code)
  unfolding lzw_entry
  lzw_entry-Ends code = elim (Option-cases (get_elem? s.dictionary code)) [
    | inl e ↦ elim (Bool-cases (code == s.next_code)) [
      | inl here ↦ rw (e, lzw_entry, here) (lzw_repeat-Ends s.previous v.previous)
      | inr other ↦ rw (e, lzw_entry, other) undefined_code
    ]
    | inr (x, e) ↦ rw (e, lzw_entry) tt
  ]

lzw_grow-Ends :
    (early_change : ℕ) (s : Lzw) (entry : Bytes) (previous : Option Bytes)
    → entry ≢ []
    → Ends (λ (t : Lzw). t.output ≡ s.output) (lzw_grow early_change s entry previous)
unfolding lzw_grow
lzw_grow-Ends early_change s entry none ne = refl
lzw_grow-Ends early_change s [] (some p) ne = absurd (ne refl)
lzw_grow-Ends early_change s (b ∷ entry) (some p) ne =
    elim (Bool-cases (ltb (length s.dictionary) 4096)) [ inl room ↦ rw room | inr full ↦ rw full ]

lzw_code-Ends :
    (early_change max : ℕ) (s : Lzw) (code : ℕ)
    → IsValid early_change s
    → IsData code
    → Ends (λ (t : Lzw). length t.output ≤ max) (lzw_code early_change max s code)
unfolding lzw_code
lzw_code-Ends early_change max s code v d =
    Ends-bind Any _ (lzw_entry s code) _ (lzw_entry-Ends early_change s v code) λ entry found _.
      let ne = lzw_entry-ne-nil early_change s code entry v d found in
      Ends-bind (λ out. length out ≤ max) _ (extend_limited s.output entry max) _
        (extend_limited-Ends s.output entry max)
        λ output copied fits.
          Ends-bind (λ (t : Lzw). t.output ≡ output) _ _ _
            (lzw_grow-Ends early_change (record s { output = output }) entry s.previous ne)
            λ t grown same. rw same fits

lzw_loop-Ends :
    (fuel early_change max : ℕ) (input : Bytes) (bit_pos : ℕ) (s : Lzw)
    → IsValid early_change s
    → length input * 8 < u64_modulus
    → bit_pos ≤ length input * 8
    → length input * 8 - bit_pos < fuel
    → length s.output ≤ max
    → Ends (λ out. length out ≤ max) (lzw_loop fuel early_change max input bit_pos s)
unfolding lzw_loop
lzw_loop-Ends zero early_change max input bit_pos s v size inside enough fits = absurd (omega arith)
lzw_loop-Ends (suc fuel) early_change max input bit_pos s v size inside enough fits =
    let low = v.bits_low in
    let high = v.bits_high in
    elim (read_bits_lem input bit_pos s.code_bits size inside (omega arith)) [
      | inr (e, _) ↦ rw e fits
      | inl (code, e, below, room) ↦ rw e (
          let next = bit_pos + s.code_bits in
          Ends-if _ (code == 256) _ _
            (λ _.
              lzw_loop-Ends fuel early_change max input next (lzw_clear s.output)
                (lzw_clear-IsValid early_change s.output) size room (omega arith) fits)
            λ c.
              Ends-if _ (code == 257) _ _ (λ _. fits)
                λ c'.
                  let d : IsData code = (λ q. ground arith, λ q. ground arith) in
                  Ends-bind _ _ _ _ (lzw_code-Ends early_change max s code v d) λ s' stepped fits'.
                    lzw_loop-Ends fuel early_change max input next s'
                      (lzw_code-IsValid early_change max s code s' v d stepped) size room
                      (omega arith) fits')
    ]

-- On every input, `decode_lzw` ends, with at most `max` bytes or with one of four errors: the limit,
-- an overflow of the length, a code that is not defined, or a code that repeats a missing entry.
-- The errors of an empty entry and of the bit reader do not occur. The input has a size in bits
-- that a `usize` holds.
pub decode_lzw-Ends :
    (input : Bytes) (early_change max : ℕ)
    → length input * 8 < u64_modulus
    → Ends (λ out. length out ≤ max) (decode_lzw input early_change max)
unfolding decode_lzw
decode_lzw-Ends input early_change max size =
    lzw_loop-Ends (suc (length input * 8)) early_change max input 0 (lzw_clear [])
      (lzw_clear-IsValid early_change []) size (omega arith) (omega arith) (omega arith)
