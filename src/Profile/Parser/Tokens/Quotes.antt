-- ===== src/Profile/Parser/Tokens/Quotes.antt =====
-- String literals in rule expressions of crates/core/src/profile.rs.
use pdfv.Base.{
  ℕ, ◌<◌, ◌≤◌, Bytes, true, false, ltb, [], ◌∷◌, ◌++◌, ◌≡◌, ◌≢◌, ◌==◌, refl, arith, All, length,
}
use mathlib.Core.List.{append-nil}
use pdfv.Profile.Texts.{max_profile_string_bytes}
use pdfv.Profile.Parser.Outcome.{Parsed, ok, panicked, ◌>>=◌, bounded}
use pdfv.Profile.Parser.Tokens.{is_continuation, string_rest, parse_string}

-- An ASCII character other than the quote.
abbrev pub IsPlain : ℕ → ℕ → Type 0
IsPlain quote b = (b < 128) × (b ≢ quote)

ascii-not_continuation : (b : ℕ) → b < 128 → is_continuation b ≡ false
ascii-not_continuation b h = ground arith

other-quote : (b quote : ℕ) → b ≢ quote → (b == quote) ≡ false
other-quote b quote h = ground arith

string_rest-plain :
    (quote : ℕ) (value rest : Bytes) (after : Parsed (Bytes × Bytes))
    → All (IsPlain quote) value
    → string_rest quote rest ≡ after
    → string_rest quote (value ++ rest) ≡ (after >>= λ (more, last). ok (value ++ more, last))
unfolding string_rest
string_rest-plain quote [] rest (ok (more, last)) plain h = h
string_rest-plain quote [] rest _ plain h = h
string_rest-plain quote (b ∷ value) rest (ok (more, last)) (first, others) h =
    rw
      (
        ascii-not_continuation b first.0,
        other-quote b quote first.1,
        string_rest-plain quote value rest _ others h,
      )
      refl
string_rest-plain quote (b ∷ value) rest _ (first, others) h =
    rw
      (
        ascii-not_continuation b first.0,
        other-quote b quote first.1,
        string_rest-plain quote value rest _ others h,
      )
      refl

string_rest-closed :
    (quote : ℕ) (rest : Bytes) → quote < 128 → string_rest quote (quote ∷ rest) ≡ ok ([], rest)
unfolding string_rest
string_rest-closed quote rest h =
    let same : (quote == quote) ≡ true = ground arith in
    rw (ascii-not_continuation quote h, same) refl

string_rest-broken :
    (quote lead b : ℕ) (rest : Bytes)
    → quote < 128
    → 192 ≤ lead
    → is_continuation b ≡ true
    → string_rest quote (lead ∷ b ∷ rest) ≡ panicked
unfolding string_rest
string_rest-broken quote lead b rest h k c =
    let starts : is_continuation lead ≡ false = ground arith in
    let other : (lead == quote) ≡ false = ground arith in rw (starts, other, c) refl

-- A literal of ASCII characters other than the quote, within the limit, is read back, and the text
-- after it is left.
pub parse_string-write :
    (quote : ℕ) (value rest : Bytes)
    → quote < 128
    → All (IsPlain quote) value
    → length value ≤ max_profile_string_bytes
    → parse_string (quote ∷ value ++ quote ∷ rest) ≡ ok (value, rest)
unfolding parse_string bounded
parse_string-write quote value rest q plain small =
    let fits : ltb max_profile_string_bytes (length value) ≡ false = ground arith in
    rw
      (
        string_rest-plain quote value (quote ∷ rest) _ plain (string_rest-closed quote rest q),
        append-nil value,
        fits,
      )
      refl

-- A character of two bytes or more in a string literal makes the parser panic, whatever comes after
-- it: the text is sliced at its second byte.
pub parse_string_panic :
    (quote : ℕ) (value : Bytes) (lead b : ℕ) (rest : Bytes)
    → quote < 128
    → All (IsPlain quote) value
    → 192 ≤ lead
    → 128 ≤ b
    → b < 192
    → parse_string (quote ∷ value ++ lead ∷ b ∷ rest) ≡ panicked
unfolding parse_string
parse_string_panic quote value lead b rest q plain l low high =
    let inside : is_continuation b ≡ true = ground arith in
    rw
      (string_rest-plain quote value (lead ∷ b ∷ rest) _ plain
        (string_rest-broken quote lead b rest q l inside))
      refl
