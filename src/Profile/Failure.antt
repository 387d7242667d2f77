-- ===== src/Profile/Failure.antt =====
-- The errors of crates/core/src/lib.rs that rule evaluation meets (`PdfvError`, `ProfileError`,
-- `ValidationError` and `ConfigError`), fallible values, and `BoundedText::new`.
use pdfv.Base.{ℕ, String, Bytes, ◌≡◌, refl, ltb, if◌then◌else◌, length}
use pdfv.Error.{BoundedText, text, ParseError}

pub data ProfileError : Type 0 where
  unsupported_selection : ProfileError
  invalid_field : String → BoundedText → ProfileError
  budget_exceeded : String → ProfileError
  unknown_property : BoundedText → ProfileError
  type_mismatch : BoundedText → ProfileError
  unsupported_rule : BoundedText → ProfileError
  invalid_xml : BoundedText → ProfileError

pub data ValidationError : Type 0 where
  subsystem_unavailable : String → ValidationError
  validation_limit : String → ValidationError

pub data ConfigError : Type 0 where
  invalid_value : String → BoundedText → ConfigError

-- The kinds that parsing, profiles, validation and configuration raise.
pub data PdfvError : Type 0 where
  parse : ParseError → PdfvError
  profile : ProfileError → PdfvError
  validation : ValidationError → PdfvError
  configuration : ConfigError → PdfvError

pub data Checked {ℓ} (A : Type ℓ) : Type ℓ where
  ok : A → Checked A
  err : PdfvError → Checked A

infixl 5 ◌>>=◌ ◌>>◌
abbrev pub ◌>>=◌ {ℓ κ} : {A : Type ℓ} {B : Type κ} → Checked A → (A → Checked B) → Checked B
ok a >>= f = f a
err e >>= f = err e

abbrev pub ◌>>◌ {ℓ} : {B : Type ℓ} → Checked (Unit {0}) → Checked B → Checked B
m >> k = m >>= λ _. k

-- `Err(type_mismatch(message).into())`
abbrev pub mismatch {ℓ} : {A : Type ℓ} → String → Checked A
mismatch message = err (profile (type_mismatch (text message)))

abbrev pub over_budget : String → PdfvError
over_budget budget = profile (budget_exceeded budget)

-- `BoundedText::new`: the bytes of a text, if they are few enough.
unfoldable pub bounded_text : Bytes → ℕ → Checked Bytes
bounded_text value max_bytes =
    if ltb max_bytes (length value)
    then err (configuration (invalid_value "text" (text "value exceeds byte limit")))
    else ok value

pub ok-injective {ℓ} : {A : Type ℓ} {a b : A} → ok a ≡ ok b → a ≡ b
ok-injective h = cc

module _ {ℓ κ} {A : Type ℓ} {B : Type κ} where
  pub >>=-eq-ok :
      (first : Checked A) (next : A → Checked B) {last : B}
      → (first >>= next) ≡ ok last
      → (between : A) × (first ≡ ok between) × (next between ≡ ok last)
  >>=-eq-ok (err e) next h = cc
  >>=-eq-ok (ok between) next h = (between, refl, h)
