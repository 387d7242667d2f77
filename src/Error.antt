-- ===== src/Error.antt =====
-- `ParseError` of crates/core/src/lib.rs, and the results of fallible code.
pub mod Meets
use pdfv.Base.{
  ℕ, ◌+◌, ◌*◌, Option, none, some, String, Bytes, Bool, true, false, ◌≡◌, ◌≢◌, refl, ltb,
  if◌then◌else◌,
}

-- `BoundedText`, made from a literal, or formatted from a literal and a number or a name.
pub data BoundedText : Type 0 where
  text : String → BoundedText
  with_number : String → ℕ → BoundedText
  from_bytes : Bytes → BoundedText

pub data ParseError : Type 0 where
  limit_exceeded : String → ParseError
  arithmetic_overflow : String → ParseError
  malformed : BoundedText → ParseError
  missing_object : BoundedText → ParseError
  unsupported_filter : BoundedText → ParseError
  stream_decode : BoundedText → ParseError

-- `diverged` is no result of the source: a loop of the model ran out of fuel.
pub data Result {ℓ} (A : Type ℓ) : Type ℓ where
  ok : A → Result A
  err : ParseError → Result A
  diverged : Result A

infixl 5 ◌>>=◌ ◌>>◌
abbrev pub ◌>>=◌ {ℓ κ} : {A : Type ℓ} {B : Type κ} → Result A → (A → Result B) → Result B
ok a >>= f = f a
err e >>= f = err e
diverged >>= f = diverged

abbrev pub ◌>>◌ {ℓ} : {B : Type ℓ} → Result (Unit {0}) → Result B → Result B
m >> k = m >>= λ _. k

-- `if !test { return Err(e) }`
abbrev pub ensure : Bool → ParseError → Result (Unit {0})
ensure true e = ok tt
ensure false e = err e

pub ok-injective {ℓ} : {A : Type ℓ} {a b : A} → ok a ≡ ok b → a ≡ b
ok-injective h = cc

-- A chain that succeeds went through a first result.
module _ {ℓ κ} {A : Type ℓ} {B : Type κ} where
  pub >>=-eq-ok :
      (first : Result A) (next : A → Result B) {last : B}
      → (first >>= next) ≡ ok last
      → (between : A) × (first ≡ ok between) × (next between ≡ ok last)
  >>=-eq-ok diverged next h = cc
  >>=-eq-ok (err e) next h = cc
  >>=-eq-ok (ok between) next h = (between, refl, h)

pub >>=-ne-diverged {ℓ κ} :
    {A : Type ℓ} {B : Type κ} (m : Result A) (f : A → Result B)
    → m ≢ diverged
    → ((a : A) → f a ≢ diverged)
    → (m >>= f) ≢ diverged
>>=-ne-diverged (ok a) f h k = k a
>>=-ne-diverged (err e) f h k = cc
>>=-ne-diverged diverged f h k = absurd (h refl)

-- `u64`, and `usize` on the 64-bit targets.
abbrev pub u64_modulus : ℕ
u64_modulus = 18446744073709551616

-- `a.checked_add(b).ok_or(e)` at 64 bits.
abbrev pub checked_add : ℕ → ℕ → ParseError → Result ℕ
checked_add a b e = if ltb (a + b) u64_modulus then ok (a + b) else err e

abbrev pub checked_mul : ℕ → ℕ → ParseError → Result ℕ
checked_mul a b e = if ltb (a * b) u64_modulus then ok (a * b) else err e

-- `option.ok_or(e)`
abbrev pub ok_or {ℓ} : {A : Type ℓ} → Option A → ParseError → Result A
ok_or none e = err e
ok_or (some a) e = ok a
