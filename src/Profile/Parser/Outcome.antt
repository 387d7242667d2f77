-- ===== src/Profile/Parser/Outcome.antt =====
-- What the parser of rule expressions in crates/core/src/profile.rs answers: a result, a reason to
-- refuse the text, or the panic of a slice of a `str` that does not start and end at characters.
use pdfv.Base.{ℕ, String, Bytes, ltb, if◌then◌else◌, length}

pub data Parsed {ℓ} (A : Type ℓ) : Type ℓ where
  ok : A → Parsed A
  refused : String → Parsed A
  panicked : Parsed A

infixl 5 ◌>>=◌
abbrev pub ◌>>=◌ {ℓ κ} : {A : Type ℓ} {B : Type κ} → Parsed A → (A → Parsed B) → Parsed B
ok a >>= f = f a
refused reason >>= f = refused reason
panicked >>= f = panicked

-- `BoundedText::new` with a reason of the parser's own.
unfoldable pub bounded : Bytes → ℕ → String → Parsed Bytes
bounded value max_bytes reason = if ltb max_bytes (length value) then refused reason else ok value
