-- ===== src/Profile/Identifiers.antt =====
-- `Identifier::new` of crates/core/src/lib.rs. An identifier is its bytes.
use pdfv.Base.{
  ℕ, Bytes, Bool, true, false, ◌&&◌, ◌||◌, not, [], ◌∷◌, ltb, ◌==◌, if◌then◌else◌, length,
}
use pdfv.Bytes.{within, is_ascii_digit}
use pdfv.Error.{text}
use pdfv.Profile.Failure.{Checked, ok, err, configuration, invalid_value}

abbrev pub max_identifier_bytes : ℕ
max_identifier_bytes = 128

unfoldable pub is_identifier_byte : ℕ → Bool
is_identifier_byte byte =
    is_ascii_digit byte
    || within b'a' b'z' byte
    || within b'A' b'Z' byte
    || byte == b'-'
    || byte == b'_'
    || byte == b'.'
    || byte == b':'

unfoldable pub valid_charset : Bytes → Bool
valid_charset [] = true
valid_charset (byte ∷ value) = is_identifier_byte byte && valid_charset value

abbrev is_empty : Bytes → Bool
is_empty [] = true
is_empty (byte ∷ value) = false

unfoldable pub new_identifier : Bytes → Checked Bytes
unfolding valid_charset is_identifier_byte
new_identifier value =
    if is_empty value || ltb max_identifier_bytes (length value) || not (valid_charset value)
    then err (
        configuration
          (invalid_value "identifier" (text "identifier violates byte or charset policy")))
    else ok value
