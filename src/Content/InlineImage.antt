-- ===== src/Content/InlineImage.antt =====
-- Inline images in crates/core/src/content.rs: `parse_inline_image`, `consume_inline_image_data` and
-- the look-ups in the image's dictionary. A later entry of a key stands before an earlier one.
pub mod Progress
use pdfv.Base.{
  ℕ, zero, suc, ◌+◌, Bytes, Bool, true, false, ◌&&◌, ◌||◌, Option, none, some, List, [], ◌∷◌, ◌++◌,
  ltb, if◌then◌else◌, length, drop,
}
use pdfv.Int.{pos, negsuc}
use pdfv.Bytes.{is_ws, is_delimiter}
use pdfv.Name.{codes, bytes_eq}
use pdfv.Limits.{ResourceLimits}
use pdfv.Float.{Float}
use pdfv.Error.{Result, ok, err, diverged, ◌>>=◌, text, malformed, limit_exceeded}
use pdfv.Cursor.{Cursor, at, remaining, is_prefix}
use pdfv.Content.Token.{
  Operand, name_operand, integer_operand, keyword_operand, Token, operand, operator,
}
use pdfv.Content.Tokenizer.{next_token}

pub record InlineImageSummary : Type 0 where
  pub width : Option ℕ
  pub height : Option ℕ
  pub color_space : Option Bytes
  pub bits_per_component : Option ℕ
  pub filters : List Bytes

abbrev pub ImageEntries : Type 0
ImageEntries = List (Bytes × Operand)

unfoldable pub image_entry : Bytes → ImageEntries → Option Operand
unfolding bytes_eq
image_entry key [] = none
image_entry key ((other, value) ∷ values) =
    if bytes_eq other key then some value else image_entry key values

abbrev as_u64 : Option Operand → Option ℕ
as_u64 (some (integer_operand (pos n))) = some n
as_u64 _ = none

abbrev as_name : Option Operand → Option Bytes
as_name (some (name_operand name)) = some name
as_name _ = none

abbrev inline_u64 : ImageEntries → Bytes → Option ℕ
inline_u64 values key = as_u64 (image_entry key values)

abbrev inline_name : ImageEntries → Bytes → Option Bytes
inline_name values key = as_name (image_entry key values)

-- `first.or_else(second)`
abbrev or_else {ℓ} : {A : Type ℓ} → Option A → Option A → Option A
or_else (some a) second = some a
or_else none second = second

abbrev listed : Option Bytes → List Bytes
listed none = []
listed (some name) = name ∷ []

abbrev inline_filters : ImageEntries → List Bytes
inline_filters values =
    listed (inline_name values (codes "F")) ++ listed (inline_name values (codes "Filter"))

unfoldable pub inline_image_summary : ImageEntries → InlineImageSummary
unfolding image_entry
inline_image_summary values = record {
  width = or_else (inline_u64 values (codes "W")) (inline_u64 values (codes "Width"));
  height = or_else (inline_u64 values (codes "H")) (inline_u64 values (codes "Height"));
  color_space = or_else (inline_name values (codes "CS")) (inline_name values (codes "ColorSpace"));
  bits_per_component =
      or_else (inline_u64 values (codes "BPC")) (inline_u64 values (codes "BitsPerComponent"));
  filters = inline_filters values;
}

abbrev ends_token : Bytes → Bool
ends_token [] = true
ends_token (b ∷ rest) = is_ws b || is_delimiter b

-- The loop of `consume_inline_image_data`, with the count of the bytes scanned; `after_ws` says that
-- the byte before is white space.
unfoldable pub image_data_loop : ResourceLimits → Bool → ℕ → ℕ → Bytes → Result Cursor
unfolding is_prefix
image_data_loop limits after_ws scanned p [] =
    err (malformed (text "inline image missing EI terminator"))
image_data_loop limits after_ws scanned p (b ∷ rest) =
    let more = image_data_loop limits (is_ws b) (scanned + 1) (p + 1) rest in
    if ltb limits.max_inline_image_bytes scanned
    then err (limit_exceeded "max_inline_image_bytes")
    else if is_prefix (codes "EI") (b ∷ rest) && after_ws && ends_token (drop 1 rest)
    then ok (at (p + 2) (drop 1 rest))
    else more

-- The byte before the data is the white space that is passed, or else the D of ID.
unfoldable pub consume_inline_image_data : ResourceLimits → Cursor → Result Cursor
unfolding image_data_loop
consume_inline_image_data limits (at p []) = image_data_loop limits false 0 p []
consume_inline_image_data limits (at p (b ∷ rest)) =
    if is_ws b
    then image_data_loop limits true 0 (p + 1) rest
    else image_data_loop limits false 0 p (b ∷ rest)

-- One token of the dictionary: the key that waits for its value, and the entries.
unfoldable pub image_token : Option Bytes → ImageEntries → Token → Option Bytes × ImageEntries
image_token none values (operand (name_operand name)) = (some name, values)
image_token none values (operand value) = (none, values)
image_token none values (operator name offset) = (none, values)
image_token (some key) values (operand value) = (none, (key, value) ∷ values)
image_token (some key) values (operator name offset) = (none, (key, keyword_operand name) ∷ values)

abbrev pub is_image_data : Token → Bool
is_image_data (operator name offset) = bytes_eq name (codes "ID")
is_image_data (operand value) = false

module _ (float : Float) (limits : ResourceLimits) where
  abbrev pub after_entry :
      (Option Bytes → ImageEntries → Cursor → Result (ImageEntries × Cursor))
      → Option Bytes
      → ImageEntries
      → Option Token × Cursor
      → Result (ImageEntries × Cursor)
  after_entry again key values (none, after) = ok (values, after)
  after_entry again key values (some token, after) =
      let (key', values') = image_token key values token in
      if is_image_data token then ok (values, after) else again key' values' after

  -- The loop over the entries; each takes a byte, and the fuel is for the bytes that are left.
  unfoldable pub image_entries :
      ℕ → Option Bytes → ImageEntries → Cursor → Result (ImageEntries × Cursor)
  unfolding image_token bytes_eq
  image_entries zero key values c = diverged
  image_entries (suc fuel) key values c =
      next_token float limits c >>= after_entry (image_entries fuel) key values

  unfoldable pub parse_inline_image : Cursor → Result (InlineImageSummary × Cursor)
  parse_inline_image c = do
    (values, after) ← image_entries (suc (length (remaining c))) none [] c
    rest ← consume_inline_image_data limits after
    ok (inline_image_summary values, rest)
