-- ===== src/Filter/Lzw/Invariant.antt =====
-- What holds of the LZW state between two codes.
use Prim.Native.Nat.{min}
use pdfv.Base.{
  ℕ, zero, suc, ◌+◌, ◌^◌, ◌≤◌, ◌<◌, Bytes, Option, none, some, List, [], ◌∷◌, ◌++◌, ◌≡◌, ◌≢◌, ◌⊎◌,
  inl, inr, refl, sym, ap, arith, ltb, leb, ◌&&◌, if◌then◌else◌, length, get_elem?, length-append,
  Option-cases, Bool-cases, ltb→lt,
}
use pdfv.Error.{ok, >>=-eq-ok, ok-injective}
use pdfv.Filter.Output.{extend_limited}
use pdfv.Filter.Lzw.{
  Lzw, byte_entries, initial_lzw_dictionary, lzw_clear, lzw_push, lzw_entry, lzw_threshold,
  lzw_grow, lzw_code,
}

-- Codes 256 and 257 stand for no bytes.
abbrev pub IsData : ℕ → Type 0
IsData code = (code ≢ 256) × (code ≢ 257)

pub record IsValid (early_change : ℕ) (s : Lzw) : Type 0 where
  pub next_is : s.next_code ≡ length s.dictionary
  pub low : 258 ≤ length s.dictionary
  pub high : length s.dictionary ≤ 4096
  pub bits_low : 9 ≤ s.code_bits
  pub bits_high : s.code_bits ≤ 12
  pub fits : (s.code_bits ≡ 12) ⊎ (s.next_code < lzw_threshold early_change s.code_bits)
  pub entries :
      (code : ℕ) (entry : Bytes)
      → IsData code
      → get_elem? s.dictionary code ≡ some entry
      → entry ≢ []
  pub previous : (entry : Bytes) → s.previous ≡ some entry → entry ≢ []

length-byte_entries : (byte count : ℕ) → length (byte_entries byte count) ≡ count
unfolding byte_entries
length-byte_entries byte zero = refl
length-byte_entries byte (suc count) = ap suc (length-byte_entries (byte + 1) count)

-- A byte entry holds its byte.
get_elem?-byte_entries :
    (byte count code : ℕ) (tail : List Bytes) (entry : Bytes)
    → get_elem? (byte_entries byte count ++ tail) code ≡ some entry
    → (entry ≢ []) ⊎ ((k : ℕ) × (code ≡ count + k) × (get_elem? tail k ≡ some entry))
unfolding byte_entries
get_elem?-byte_entries byte zero code tail entry h = inr (code, omega arith, h)
get_elem?-byte_entries byte (suc count) zero tail entry h = inl (λ e. ground arith)
get_elem?-byte_entries byte (suc count) (suc code) tail entry h =
    elim (get_elem?-byte_entries (byte + 1) count code tail entry h) [
      | inl ne ↦ inl ne
      | inr (k, e, t) ↦ inr (k, omega arith, t)
    ]

initial_entries :
    (code : ℕ) (entry : Bytes)
    → IsData code
    → get_elem? initial_lzw_dictionary code ≡ some entry
    → entry ≢ []
unfolding initial_lzw_dictionary
initial_entries code entry d h = elim (get_elem?-byte_entries 0 256 code ([] ∷ [] ∷ []) entry h) [
  | inl ne ↦ ne
  | inr (zero, e, t) ↦ absurd (d.0 (omega arith))
  | inr (suc zero, e, t) ↦ absurd (d.1 (omega arith))
  | inr (suc (suc k), e, t) ↦ cc
]

length-initial_lzw_dictionary : length initial_lzw_dictionary ≡ 258
unfolding initial_lzw_dictionary
length-initial_lzw_dictionary = refl

pub lzw_clear-IsValid :
    (early_change : ℕ) (output : Bytes) → IsValid early_change (lzw_clear output)
unfolding lzw_clear
lzw_clear-IsValid early_change output = record {
  next_is = sym length-initial_lzw_dictionary;
  low = omega (arith, length-initial_lzw_dictionary);
  high = omega (arith, length-initial_lzw_dictionary);
  bits_low = omega arith;
  bits_high = omega arith;
  fits = inr (omega arith);
  entries = initial_entries;
  previous = λ entry e. cc;
}

get_elem?-concat {ℓ} :
    {A : Type ℓ} (xs : List A) (v : A) (i : ℕ) (x : A)
    → get_elem? (xs ++ v ∷ []) i ≡ some x
    → (get_elem? xs i ≡ some x) ⊎ (x ≡ v)
get_elem?-concat [] v zero x h = inr (ground arith)
get_elem?-concat [] v (suc i) x h = cc
get_elem?-concat (y ∷ xs) v zero x h = inl h
get_elem?-concat (y ∷ xs) v (suc i) x h = get_elem?-concat xs v i x h

bits-cases : (bits : ℕ) → 9 ≤ bits → bits < 12 → (bits ≡ 9) ⊎ ((bits ≡ 10) ⊎ (bits ≡ 11))
bits-cases bits p q = grind arith

-- The next code still fits when the width has grown.
threshold_step :
    (early_change bits n : ℕ)
    → 9 ≤ bits
    → bits < 12
    → n ≤ lzw_threshold early_change bits
    → n < lzw_threshold early_change (bits + 1)
threshold_step early_change bits n p q h = elim (bits-cases bits p q) [
  | inl e ↦ rw e (let h' : n ≤ lzw_threshold early_change 9 = rw e at h in omega arith)
  | inr (inl e) ↦ rw e (let h' : n ≤ lzw_threshold early_change 10 = rw e at h in omega arith)
  | inr (inr e) ↦ rw e (let h' : n ≤ lzw_threshold early_change 11 = rw e at h in omega arith)
]

threshold_eq : (early_change bits : ℕ) → lzw_threshold early_change bits ≤ 2 ^ bits
threshold_eq early_change bits = omega arith

concat-ne-nil : (xs : Bytes) (b : ℕ) → xs ++ b ∷ [] ≢ []
concat-ne-nil [] b = cc
concat-ne-nil (x ∷ xs) b = cc

-- An entry that is read is not empty.
pub lzw_entry-ne-nil :
    (early_change : ℕ) (s : Lzw) (code : ℕ) (entry : Bytes)
    → IsValid early_change s
    → IsData code
    → lzw_entry s code ≡ ok entry
    → entry ≢ []
unfolding lzw_entry
lzw_entry-ne-nil early_change s code entry v d h =
    elim (Option-cases (get_elem? s.dictionary code)) [
      | inl e ↦ elim (Option-cases s.previous) [
        | inl e' ↦ absurd (ground arith)
        | inr ([], e') ↦ absurd (v.previous [] e' refl)
        | inr (b ∷ p, e') ↦
            let same : entry ≡ (b ∷ p) ++ b ∷ [] = ground arith in rw same (concat-ne-nil (b ∷ p) b)
      ]
      | inr (x, e) ↦ let same : entry ≡ x = ground arith in rw same (v.entries code x d e)
    ]

module _ (early_change : ℕ) (s : Lzw) (v : IsValid early_change s) where
  lzw_push_fits :
      (bits : ℕ)
      → bits ≡ s.code_bits
      → s.next_code < 4096
      → let next = min 65535 (s.next_code + 1) in
        let wider = leb (lzw_threshold early_change bits) next && ltb bits 12 in
        let bits' = if wider then bits + 1 else bits in
        (9 ≤ bits') × (bits' ≤ 12) × ((bits' ≡ 12) ⊎ (next < lzw_threshold early_change bits'))
  lzw_push_fits bits e small =
      let low : 9 ≤ bits = rw e v.bits_low in
      let high : bits ≤ 12 = rw e v.bits_high in
      let fits : (bits ≡ 12) ⊎ (s.next_code < lzw_threshold early_change bits) = rw e v.fits in
      ground (arith, threshold_step early_change bits (s.next_code + 1) low)

  -- A new entry that is not empty keeps the state valid.
  lzw_push-IsValid :
      (new_entry : Bytes)
      → new_entry ≢ []
      → length s.dictionary < 4096
      → IsValid early_change (lzw_push early_change s new_entry)
  unfolding lzw_push
  lzw_push-IsValid new_entry ne room =
      let next_is = v.next_is in
      let grown = length-append s.dictionary (new_entry ∷ []) in
      let (bits_low, bits_high, fits) = lzw_push_fits s.code_bits refl (omega (arith, next_is)) in
      record {
        next_is = omega (arith, next_is, grown);
        low = omega (arith, v.low, grown);
        high = omega (arith, grown);
        bits_low = bits_low;
        bits_high = bits_high;
        fits = fits;
        entries = λ code entry d h. elim (get_elem?-concat s.dictionary new_entry code entry h) [
          | inl old ↦ v.entries code entry d old
          | inr same ↦ rw same ne
        ];
        previous = v.previous;
      }

  lzw_grow-IsValid :
      (entry : Bytes) (previous : Option Bytes) (s' : Lzw)
      → lzw_grow early_change s entry previous ≡ ok s'
      → IsValid early_change s'
  unfolding lzw_grow
  lzw_grow-IsValid entry none s' h = rw (← ok-injective h) v
  lzw_grow-IsValid [] (some p) s' h = absurd (cc)
  lzw_grow-IsValid (b ∷ entry) (some p) s' h = elim (Bool-cases (ltb (length s.dictionary) 4096)) [
    | inl room ↦
        let same = ok-injective (rw room at h) in
        rw (← same) (lzw_push-IsValid (p ++ b ∷ []) (concat-ne-nil p b) (ltb→lt _ _ room))
    | inr full ↦ rw (← ok-injective (rw full at h)) v
  ]

-- A code that is neither 256 nor 257, taken without an error from a valid state, gives a valid state.
pub lzw_code-IsValid :
    (early_change max : ℕ) (s : Lzw) (code : ℕ) (s' : Lzw)
    → IsValid early_change s
    → IsData code
    → lzw_code early_change max s code ≡ ok s'
    → IsValid early_change s'
unfolding lzw_code
lzw_code-IsValid early_change max s code s' v d h =
    let (entry, found, h₁) = >>=-eq-ok (lzw_entry s code) _ h in
    let (output, copied, h₂) = >>=-eq-ok (extend_limited s.output entry max) _ h₁ in
    let t : Lzw = record s { output = output } in
    let (grown, pushed, h₃) = >>=-eq-ok (lzw_grow early_change t entry s.previous) _ h₂ in
    let w : IsValid early_change t = record {
      next_is = v.next_is;
      low = v.low;
      high = v.high;
      bits_low = v.bits_low;
      bits_high = v.bits_high;
      fits = v.fits;
      entries = v.entries;
      previous = v.previous;
    } in
    let g = lzw_grow-IsValid early_change t w entry s.previous grown pushed in
    let ne = lzw_entry-ne-nil early_change s code entry v d found in
    rw (← ok-injective h₃) (record {
      next_is = g.next_is;
      low = g.low;
      high = g.high;
      bits_low = g.bits_low;
      bits_high = g.bits_high;
      fits = g.fits;
      entries = g.entries;
      previous = λ p e. let same : p ≡ entry = cc in rw same ne;
    })
